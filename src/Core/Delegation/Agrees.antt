-- ===== src/Core/Delegation/Agrees.antt =====
-- The attenuation loops of the two verifiers and the comparisons in their bodies, which packages/core/src/
-- verify.ts and delegation.ts write out separately: verifyArtifacts reads a chain from the nearest
-- delegation up, verifyDelegationChain from the root down.
use tesserra.Prelude.{
  ◌≡◌, refl, sym, ap, ◌∙◌, ◌||◌, List, [], ◌∷◌, ◌++◌, arith, reverse, some_of, String, Option-cases,
  inl, inr,
}
use mathlib.Core.List.{reverse-cons, append_assoc}
use tesserra.Json.{Members, Artifact}
use tesserra.Runtime.{Runtime}
use tesserra.Core.Values.{contains, constraints}
use tesserra.Core.Verify.Chain.{limited_fields, exceeds, outlasts, amplifies, some_amplifies}
use tesserra.Core.Delegation.Chain.{unmatched, widens, amplifies_below, some_amplifies_below}

unmatched-exceeds :
    (rt : Runtime) (child parent : Members) (field : String)
    → unmatched rt child parent field ≡ exceeds rt child parent field
unfolding unmatched contains
unmatched-exceeds rt child parent field = refl

widens-exceeds :
    (rt : Runtime) (child parent : Members)
    → widens rt child parent
      ≡ (outlasts rt child parent || some_of (exceeds rt child parent) limited_fields)
unfolding widens
widens-exceeds rt child parent =
    let capabilities = unmatched-exceeds rt child parent "capabilities" in
    let resources = unmatched-exceeds rt child parent "resources" in
    let tasks = unmatched-exceeds rt child parent "tasks" in
    let audiences = unmatched-exceeds rt child parent "audiences" in ground arith

-- The comparison of verifyDelegationChain and that of verifyArtifacts answer the same on a child and its
-- parent.
pub amplifies_below-agree :
    (rt : Runtime) (child parent : Artifact)
    → amplifies_below rt child parent ≡ amplifies rt child parent
unfolding amplifies_below amplifies
amplifies_below-agree rt child parent = elim (Option-cases (constraints child)) [
  | inl e ↦ rw (e, amplifies_below, amplifies) refl
  | inr (own, e) ↦ elim (Option-cases (constraints parent)) [
    | inl f ↦ rw (e, f, amplifies_below, amplifies) refl
    | inr (given, f) ↦ rw (e, f, amplifies_below, amplifies) (widens-exceeds rt own given)
  ]
]

-- The last pair of a chain, read apart.
some_amplifies-append :
    (rt : Runtime) (chain : List Artifact) (child parent : Artifact)
    → some_amplifies rt (chain ++ (child ∷ parent ∷ []))
      ≡ (some_amplifies rt (chain ++ (child ∷ [])) || amplifies rt child parent)
unfolding some_amplifies
some_amplifies-append rt [] child parent = ground arith
some_amplifies-append rt (a ∷ []) child parent = ground arith
some_amplifies-append rt (a ∷ b ∷ rest) child parent =
    ground (arith, some_amplifies-append rt (b ∷ rest) child parent)

reverse-two :
    (root child : Artifact) (rest : List Artifact)
    → reverse (root ∷ child ∷ rest) ≡ reverse rest ++ (child ∷ root ∷ [])
reverse-two root child rest =
    reverse-cons root (child ∷ rest)
    ∙ (ap (λ xs. xs ++ (root ∷ [])) (reverse-cons child rest)
        ∙ append_assoc (reverse rest) (child ∷ []) (root ∷ []))

-- The attenuation loop of verifyDelegationChain with its own comparison, from a root down its chain,
-- answers what the loop and the comparison of verifyArtifacts answer on the same artifacts from the leaf
-- up.
pub some_amplifies-agree :
    (rt : Runtime) (root : Artifact) (chain : List Artifact)
    → some_amplifies rt (reverse (root ∷ chain)) ≡ some_amplifies_below rt root chain
unfolding some_amplifies some_amplifies_below
some_amplifies-agree rt root [] = refl
some_amplifies-agree rt root (child ∷ rest) =
    let below : some_amplifies rt (reverse rest ++ (child ∷ []))
        ≡ some_amplifies_below rt child rest =
      ap (some_amplifies rt) (sym (reverse-cons child rest)) ∙ some_amplifies-agree rt child rest in
    let split : some_amplifies rt (reverse (root ∷ child ∷ rest))
        ≡ (some_amplifies rt (reverse rest ++ (child ∷ [])) || amplifies rt child root) =
      ap (some_amplifies rt) (reverse-two root child rest)
      ∙ some_amplifies-append rt (reverse rest) child root in
    ground (arith, below, split, amplifies_below-agree rt child root)
