-- ===== src/Common/Objects.antt =====
-- The names that an object literal inherits: `d[k]` and `k in d` find them where the object has no
-- entry of its own.
use mathlib.Core.Bool.{Bool, ◌||◌}
use mathlib.Core.List.{[], ◌∷◌, map}
use oidfed.Common.Lists.{any}
use oidfed.Common.Text.{Str, js, str_eq}
use oidfed.Common.Maps.{Dict, has}

-- The names of `Object.prototype`.
unfoldable pub is_inherited : Str → Bool
is_inherited k = any (str_eq k) (
    map js (
      "constructor" ∷ "__defineGetter__" ∷ "__defineSetter__" ∷ "hasOwnProperty"
      ∷ "__lookupGetter__" ∷ "__lookupSetter__" ∷ "isPrototypeOf" ∷ "propertyIsEnumerable"
      ∷ "toString" ∷ "valueOf" ∷ "__proto__" ∷ "toLocaleString" ∷ []))

-- `k in d`
abbrev pub in_object : {V : Type 0} → Str → Dict V → Bool
in_object k d = has k d || is_inherited k
