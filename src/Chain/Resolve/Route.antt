-- ===== src/Chain/Resolve/Route.antt =====
-- The ways up from an entity in Chain/Resolve, told by what the fetches answer.
use oidfed.Common.{ℕ, Str, any, str_eq, ◌≡◌, refl, ap, false, List, [], ◌∷◌, ◌++◌}
use oidfed.Chain.Resolve.{
  Search, Await, Answer, configuration, statement, fetched, Run, still, next, answer,
  ResolveOptions,
}
use oidfed.Chain.Values.{Platform}
use oidfed.Chain.Links.{TrustAnchorSet}

-- What is published by an entity, and what is issued by an entity about another, as tokens.
module _ (Published : Str → Str → Type 0) (Issued : Str → Str → Str → Type 0) where
  -- An answer is a token of the entity that was asked, or an error.
  abbrev pub IsHonest : Await → Answer → Type 0
  IsHonest (configuration branch) (fetched jwt) = Published branch.hint jwt
  IsHonest (statement branch c payload) (fetched jwt) = Issued branch.hint branch.current jwt
  IsHonest await reply = Unit

  module _ (platform : Platform) (options : ResolveOptions) (anchors : TrustAnchorSet)
      (entity_id : Str) where
    -- Every answer of a run is.
    abbrev pub AreHonest :
        {first last : Search} {n : ℕ} → Run platform options anchors entity_id first n last → Type 0
    AreHonest still = Unit
    AreHonest (next run (answer state before after await reply aborted e)) =
        AreHonest run × IsHonest await reply

  module _ (entity_id : Str) where
    -- The statements from the entity up to one of its superiors, and the entities on the way.
    pub data IsPath : Str → List Str → List Str → Type 0 where
      at_entity :
          (leaf : Str) → Published entity_id leaf → IsPath entity_id (entity_id ∷ []) (leaf ∷ [])
      above :
          {current : Str} {visited chain : List Str} (superior jwt : Str)
          → IsPath current visited chain
          → any (str_eq superior) visited ≡ false
          → Issued superior current jwt
          → IsPath superior (superior ∷ visited) (chain ++ jwt ∷ [])

    -- The statements of a chain: those of the way up, and the last entity's own.
    pub data IsRoute : Str → List Str → Type 0 where
      alone : (leaf : Str) → Published entity_id leaf → IsRoute entity_id (leaf ∷ [])
      climbed :
          {current : Str} {visited chain : List Str} (own : Str)
          → IsPath current visited chain
          → Published current own
          → IsRoute current (chain ++ own ∷ [])

pub append_two : (xs : List Str) (a b : Str) → xs ++ a ∷ b ∷ [] ≡ (xs ++ a ∷ []) ++ b ∷ []
append_two [] a b = refl
append_two (x ∷ xs) a b = ap (λ ys. x ∷ ys) (append_two xs a b)
