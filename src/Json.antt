-- ===== src/Json.antt =====
-- JSON values, and `deepEqual` of packages/core/src/metadata-policy/operators.ts.
-- A number is a code of its value, so that `===` on numbers is equality of codes (JSON has no NaN,
-- and 0 and -0 have one code). An object holds its entries in order; its keys are taken to be no
-- names of `Object.prototype`, no texts of an array index and not `length`: `a[k]` of an array is
-- `undefined` for each key of an object.
pub mod Equality
use oidfed.Common.{
  ℕ, Str, Dict, get, length, ◌≡◌, Bool, true, false, ◌&&◌, Option, none, some, List, [], ◌∷◌, ◌==◌,
  str_eq, Distinct,
}

mutual
  pub data Json : Type 0 where
    null : Json
    bool : Bool → Json
    num : ℕ → Json
    str : Str → Json
    arr : Items → Json
    obj : Fields → Json

  pub data Items : Type 0 where
    nil : Items
    cons : Json → Items → Items

  pub data Fields : Type 0 where
    end : Fields
    field : Str → Json → Fields → Fields

unfoldable pub elems : Items → List Json
elems nil = []
elems (cons v vs) = v ∷ elems vs

unfoldable pub items : List Json → Items
items [] = nil
items (v ∷ vs) = cons v (items vs)

unfoldable pub entries : Fields → Dict Json
entries end = []
entries (field k v fs) = (k, v) ∷ entries fs

unfoldable pub fields : Dict Json → Fields
fields [] = end
fields ((k, v) ∷ d) = field k v (fields d)

unfoldable pub bool_eq : Bool → Bool → Bool
bool_eq true b = b
bool_eq false true = false
bool_eq false false = true

-- An array and an object are compared as objects, by their keys: they are equal if both are empty.

-- `deepEqual(a[k], b[k])`, where a missing `b[k]` is `undefined`.
abbrev found_equal : (Json → Bool) → Option Json → Bool
found_equal same none = false
found_equal same (some w) = same w

unfoldable mutual
  unfolding bool_eq entries elems

  pub deep_equal : Json → Json → Bool
  deep_equal null null = true
  deep_equal (bool a) (bool b) = bool_eq a b
  deep_equal (num a) (num b) = a == b
  deep_equal (str a) (str b) = str_eq a b
  deep_equal (arr xs) (arr ys) = length (elems xs) == length (elems ys) && deep_items xs ys
  deep_equal (obj fs) (obj gs) =
      length (entries fs) == length (entries gs) && deep_fields fs (entries gs)
  deep_equal (arr xs) (obj gs) = length (elems xs) == 0 && length (entries gs) == 0
  deep_equal (obj fs) (arr ys) = length (entries fs) == 0 && length (elems ys) == 0
  deep_equal _ _ = false

  pub deep_items : Items → Items → Bool
  deep_items nil ys = true
  deep_items (cons x xs) nil = false
  deep_items (cons x xs) (cons y ys) = deep_equal x y && deep_items xs ys

  pub deep_fields : Fields → Dict Json → Bool
  deep_fields end d = true
  deep_fields (field k v fs) d = found_equal (deep_equal v) (get k d) && deep_fields fs d

-- Every object has each key once.
unfoldable mutual
  pub IsJson : Json → Type 0
  IsJson (arr xs) = AreItems xs
  IsJson (obj fs) = Distinct (entries fs) × AreFields fs
  IsJson null = Unit
  IsJson (bool b) = Unit
  IsJson (num n) = Unit
  IsJson (str s) = Unit

  pub AreItems : Items → Type 0
  AreItems nil = Unit
  AreItems (cons x xs) = IsJson x × AreItems xs

  pub AreFields : Fields → Type 0
  AreFields end = Unit
  AreFields (field k v fs) = IsJson v × AreFields fs
