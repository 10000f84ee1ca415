-- ===== src/Core/Delegation/Narrows.antt =====
-- Attenuation along the chain of verifyDelegationChain: what the leaf grants, every authority above it
-- grants.
use tesserra.Prelude.{◌≡◌, refl, false, List, [], ◌∷◌, All, String, ||-eq-false}
use tesserra.Json.{Json, Artifact}
use tesserra.Runtime.{Runtime}
use tesserra.Core.Run.Sound.{Sound, Sound-map, Sound-stop_if}
use tesserra.Core.Verify.Authority.{
  IsNarrower, amplifies-IsNarrower, IsLimited, Grants, Grants-parent,
}
use tesserra.Core.Delegation.Agrees.{amplifies_below-agree}
use tesserra.Core.Delegation.Input.{DelegationSetup}
use tesserra.Core.Delegation.Chain.{amplifies_below, some_amplifies_below, check_attenuation}

-- Every artifact of a chain is narrower than the one before it, the first one than `parent`.
pub Narrows : Runtime → Artifact → List Artifact → Type 0
Narrows rt parent [] = Unit
Narrows rt parent (child ∷ rest) = IsNarrower rt child parent × Narrows rt child rest

some_amplifies_below-Narrows :
    (rt : Runtime) (parent : Artifact) (chain : List Artifact)
    → some_amplifies_below rt parent chain ≡ false
    → Narrows rt parent chain
unfolding some_amplifies_below Narrows
some_amplifies_below-Narrows rt parent [] h = tt
some_amplifies_below-Narrows rt parent (child ∷ rest) h =
    let (pair, later) = ||-eq-false (amplifies_below rt child parent) _ h in
    let same = amplifies_below-agree rt child parent in
    (
      amplifies-IsNarrower rt child parent (cc (same, pair)),
      some_amplifies_below-Narrows rt child rest later,
    )

pub check_attenuation-Narrows :
    (rt : Runtime) (s : DelegationSetup) (chain : List Artifact)
    → Sound (λ _. Narrows rt s.input.root_credential chain) (check_attenuation rt s chain)
unfolding check_attenuation
check_attenuation-Narrows rt s chain =
    Sound-map (λ _ h. some_amplifies_below-Narrows rt s.input.root_credential chain h)
      (Sound-stop_if _ _ refl)

-- The last artifact of a chain under a root.
unfoldable pub leaf_of : Artifact → List Artifact → Artifact
leaf_of parent [] = parent
leaf_of parent (child ∷ rest) = leaf_of child rest

-- What the leaf of a narrowing chain grants, all of the chain and its root grant.
pub Narrows-Grants :
    (rt : Runtime) (field : String) (v : Json) (parent : Artifact) (chain : List Artifact)
    → IsLimited field
    → Narrows rt parent chain
    → Grants rt field v (leaf_of parent chain)
    → All (Grants rt field v) (parent ∷ chain)
unfolding Narrows leaf_of
Narrows-Grants rt field v parent [] limited h g = (g, tt)
Narrows-Grants rt field v parent (child ∷ rest) limited (n, h) g =
    let below = Narrows-Grants rt field v child rest limited h g in
    (Grants-parent rt field v child parent limited n below.0, below)
