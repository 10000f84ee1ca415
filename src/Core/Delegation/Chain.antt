-- ===== src/Core/Delegation/Chain.antt =====
-- The stage CHAIN of verifyDelegationChain (packages/core/src/delegation.ts).
use tesserra.Prelude.{
  ℕ, zero, suc, Bool, true, false, not, ◌||◌, Option, none, some, List, [], ◌∷◌, length, filter,
  some_of, if◌then◌else◌, Text, text_eq, String,
}
use tesserra.Prelude.Int.{pos}
use tesserra.Json.{Json, Members, Artifact, member, as_object, as_string, strict_eq}
use tesserra.Runtime.{Runtime}
use tesserra.Protocol.Canonical.{canonical_equal}
use tesserra.Protocol.Coerce.{to_integer}
use tesserra.Core.Result.{
  chain_parent_missing, chain_parent_ambiguous, chain_bounds_exceeded, attenuation_violation,
}
use tesserra.Core.Run.{Run, pass, exhausted, ◌>>=◌, ◌>>◌, stop_if, require}
use tesserra.Core.Values.{
  is_kind, id_of, find_id, text_mem, less, at_most, at, array_or_empty, constraints,
}
use tesserra.Core.Verify.Crypto.{has_id}
use tesserra.Core.Delegation.Input.{DelegationSetup, linked_artifacts, stopped}

-- reference?.id and reference?.kind of a delegation's parent_ref
abbrev pub reference_member : String → Artifact → Option Json
reference_member field a = elim (as_object (member "parent_ref" a)) [
  | none ↦ none
  | some reference ↦ member field reference
]

-- byId.get(reference.id)
unfoldable pub parent_in : List Artifact → Artifact → Option Artifact
parent_in artifacts a = elim (as_string (reference_member "id" a)) [
  | none ↦ none
  | some id ↦ find_id id artifacts
]

-- parents
unfoldable pub parent_ids : List Artifact → List Text
parent_ids [] = []
parent_ids (a ∷ rest) = elim (as_string (reference_member "id" a)) [
  | none ↦ parent_ids rest
  | some id ↦ id ∷ parent_ids rest
]

-- leaves
unfoldable pub leaves : List Artifact → List Artifact
leaves delegations = filter (λ a. not (text_mem (id_of a) (parent_ids delegations))) delegations

module _ (s : DelegationSetup) where
  -- The loop that rejects unlinked references.
  unfoldable pub check_references : Artifact → Run (Unit {0})
  check_references a = do
    parent ←
        require (parent_in (linked_artifacts s.input) a) (stopped s chain_parent_missing (a ∷ []))
    stop_if (not (strict_eq (member "kind" parent) (reference_member "kind" a)))
        (stopped s chain_parent_missing (a ∷ []))

-- The one leaf, or none where there are none or several.
abbrev pub only : List Artifact → Option Artifact
only (a ∷ []) = some a
only _ = none

module _ (rt : Runtime) (s : DelegationSetup) where
  -- The `while` loop; `below` is the chain under `current`, the nearest first.
  unfoldable pub climb : ℕ → Artifact → List Artifact → Run (List Artifact)
  climb zero current below = exhausted
  climb (suc fuel) current below = do
    let chain = current ∷ below
    parent ←
        require (parent_in (linked_artifacts s.input) current)
          (stopped s chain_parent_missing chain)
    stop_if (not (strict_eq (member "kind" parent) (reference_member "kind" current)))
        (stopped s chain_parent_missing chain)
    elim (text_eq (id_of parent) (id_of s.input.root_credential)) [
      | true ↦
          stop_if (not (canonical_equal rt (member "delegator" current) (member "subject" parent)))
            (stopped s chain_parent_missing chain)
          >> pass chain
      | false ↦
          stop_if
            (not (is_kind "delegation" parent)
              || not (canonical_equal rt (member "delegator" current) (member "delegate" parent)))
            (stopped s chain_parent_missing chain)
          >> stop_if (has_id (id_of parent) chain) (stopped s chain_bounds_exceeded chain)
          >> climb fuel parent chain
    ]

  -- The leaf, the climb from it, and the bound on its length.
  unfoldable pub find_chain : Run (List Artifact)
  find_chain = do
    leaf ← require (only (leaves s.input.delegations)) (stopped s chain_parent_ambiguous [])
    chain ← climb (suc (length (linked_artifacts s.input))) leaf []
    stop_if
        (less (to_integer rt (member "max_chain_depth" s.input.trust_snapshot))
          (some (pos (length chain))))
        (stopped s chain_bounds_exceeded chain)
    pass chain

module _ (rt : Runtime) (child parent : Members) where
  -- Some entry of the child's list is equal to no entry of the parent's.
  unfoldable pub unmatched : String → Bool
  unmatched field =
      some_of
        (λ value. not (
          some_of (λ item. canonical_equal rt (some item) (some value))
            (array_or_empty (member field parent))))
        (array_or_empty (member field child))

  -- The tests of the loop's body, on constraints that are there: the depths and dates, then the lists.
  unfoldable pub widens : Bool
  widens =
      if at_most (to_integer rt (member "remaining_depth" parent))
          (to_integer rt (member "remaining_depth" child))
        || less (at rt (member "not_before" child)) (at rt (member "not_before" parent))
        || less (at rt (member "expires_at" parent)) (at rt (member "expires_at" child))
      then true
      else some_of unmatched ("capabilities" ∷ "resources" ∷ "tasks" ∷ "audiences" ∷ [])

-- The body of the loop, on a child and its parent.
unfoldable pub amplifies_below : Runtime → Artifact → Artifact → Bool
amplifies_below rt child parent = elim (constraints child) [
  | none ↦ true
  | some own ↦ (elim (constraints parent) [ none ↦ true | some given ↦ widens rt own given ])
]

-- The loop over the pairs of root and chain, from the root down.
unfoldable pub some_amplifies_below : Runtime → Artifact → List Artifact → Bool
some_amplifies_below rt parent [] = false
some_amplifies_below rt parent (child ∷ rest) =
    amplifies_below rt child parent || some_amplifies_below rt child rest

unfoldable pub check_attenuation : Runtime → DelegationSetup → List Artifact → Run (Unit {0})
check_attenuation rt s chain =
    stop_if (some_amplifies_below rt s.input.root_credential chain)
      (stopped s attenuation_violation chain)
