-- ===== src/Core/Verify/Chain.antt =====
-- The stage CHAIN of verifyArtifacts (packages/core/src/verify.ts): the walk from the request to the
-- root, and the attenuation of authority along it.
use tesserra.Prelude.{
  ℕ, zero, suc, Bool, true, false, not, ◌&&◌, ◌||◌, Option, none, some, List, [], ◌∷◌, ◌++◌,
  reverse, length, if◌then◌else◌, some_of, find, filter, last?, codes, text_eq, String,
}
use tesserra.Prelude.Int.{sub_ℕ}
use tesserra.Json.{Json, string, Members, Artifact, member, as_object, is_literal, strict_eq}
use tesserra.Runtime.{Runtime}
use tesserra.Protocol.Canonical.{canonical_equal}
use tesserra.Protocol.Coerce.{to_text, to_integer}
use tesserra.Core.Result.{
  missing_reference, chain_parent_missing, chain_bounds_exceeded, signer_mismatch,
  attenuation_violation, Evidence, VerificationResult,
}
use tesserra.Core.Run.{Run, pass, exhausted, ◌>>=◌, ◌>>◌, stop_if, require}
use tesserra.Core.Values.{array_or_empty, is_kind, id_of, constraints, contains, at, less, at_most}
use tesserra.Core.Verify.Input.{Setup, result}
use tesserra.Core.Verify.Admission.{ids, preflight_chain_evidence}
use tesserra.Core.Verify.Crypto.{artifact_ref, parent_of, has_id, is_link, root_first}

-- The reference's kind, for an artifact that has a reference.
abbrev pub reference_kind : Artifact → Option Json
reference_kind a = elim (artifact_ref a) [ none ↦ none | some reference ↦ member "kind" reference ]

abbrev pub lacks_parent : Runtime → List Artifact → Artifact → Bool
lacks_parent rt artifacts a = is_kind "delegation" a && (elim (as_object (member "parent_ref" a)) [
  | none ↦ false
  | some reference ↦ not (has_id (to_text rt (member "id" reference)) artifacts)
])

-- failureEvidence()
abbrev pub failure_evidence :
    Runtime → List Artifact → Artifact → Artifact → List Artifact → Evidence
failure_evidence rt artifacts root current chain =
    let failing : Artifact = elim (find (lacks_parent rt artifacts) artifacts) [
      | none ↦ current
      | some a ↦ a
    ] in
    member "id" root
    ∷ member "id" failing
    ∷ ids (
        filter
          (λ a. not (text_eq (id_of a) (id_of root)) && not (text_eq (id_of a) (id_of failing)))
          (reverse chain))

-- The tests of one step from `current` to `parent` that look at principals.
abbrev pub principal_breaks : Runtime → Artifact → Artifact → Bool
principal_breaks rt current parent =
    (is_kind "credential" parent
      && (not (canonical_equal rt (member "delegator" current) (member "subject" parent))
          || not (is_literal "agent-root-authority" (member "credential_purpose" parent))))
    || (is_kind "delegation" parent
        && not (canonical_equal rt (member "delegator" current) (member "delegate" parent)))

module _ (rt : Runtime) (s : Setup) (root : Artifact) where
  -- The result for an artifact whose parent is not there.
  unfoldable pub missing_parent : Artifact → List Artifact → VerificationResult
  missing_parent current chain =
      if is_kind "request" current
      then result s missing_reference (preflight_chain_evidence s.input.artifacts)
      else result s chain_parent_missing (failure_evidence rt s.input.artifacts root current chain)

  -- One round of the walk: the parent of `current`, or an early return.
  unfoldable pub next_link : Artifact → List Artifact → Run Artifact
  next_link current chain = do
    let artifacts = s.input.artifacts
    parent ← require (parent_of artifacts current) (missing_parent current chain)
    stop_if (not (strict_eq (member "kind" parent) (reference_kind current)))
        (result s missing_reference (root_first root chain))
    stop_if
        (is_kind "request" current
          && not (strict_eq (reference_kind current) (some (string (codes "delegation")))))
        (result s missing_reference (root_first root chain))
    stop_if (has_id (id_of parent) chain) (result s chain_bounds_exceeded (root_first root chain))
    stop_if
        (is_kind "request" current
          && is_kind "delegation" parent
          && not (canonical_equal rt (member "signer" current) (member "delegate" parent)))
        (result s signer_mismatch (root_first root chain))
    stop_if (is_kind "delegation" current && principal_breaks rt current parent)
        (result s chain_parent_missing (root_first root chain))
    pass parent

  -- The `while` loop: the chain so far, the request first.
  unfoldable pub walk : ℕ → Artifact → List Artifact → Run (List Artifact)
  walk zero current chain = exhausted
  walk (suc fuel) current chain = elim (is_link current) [
    | false ↦ pass chain
    | true ↦ next_link current chain >>= λ parent. walk fuel parent (chain ++ (parent ∷ []))
  ]

  -- current, behind the loop
  abbrev pub ends_at_root : List Artifact → Bool
  ends_at_root chain = elim (last? chain) [ none ↦ false | some a ↦ text_eq (id_of a) (id_of root) ]

  -- A round needs an artifact that is not in the chain, so one more than their number is enough.
  unfoldable pub find_chain : Artifact → Run (List Artifact)
  find_chain request = do
    chain ← walk (suc (length s.input.artifacts)) request (request ∷ [])
    stop_if
        (not (ends_at_root chain)
          || less (to_integer rt (member "max_chain_depth" s.input.trust_snapshot))
              (some (sub_ℕ (length chain) 2)))
        (result s chain_bounds_exceeded (root_first root chain))
    pass chain

abbrev pub limited_fields : List String
limited_fields = "capabilities" ∷ "resources" ∷ "tasks" ∷ "audiences" ∷ []

-- The four lists of a child's constraints are part of its parent's.
abbrev pub exceeds : Runtime → Members → Members → String → Bool
exceeds rt child parent field =
    some_of (λ v. not (contains rt (member field parent) (some v)))
      (array_or_empty (member field child))

-- The limits of a child's constraints that are no lists.
abbrev pub outlasts : Runtime → Members → Members → Bool
outlasts rt child parent =
    at_most (to_integer rt (member "remaining_depth" parent))
      (to_integer rt (member "remaining_depth" child))
    || less (at rt (member "not_before" child)) (at rt (member "not_before" parent))
    || less (at rt (member "expires_at" parent)) (at rt (member "expires_at" child))

unfoldable pub amplifies : Runtime → Artifact → Artifact → Bool
amplifies rt child parent = elim (constraints child) [
  | none ↦ true
  | some c ↦ (elim (constraints parent) [
    | none ↦ true
    | some p ↦ outlasts rt c p || some_of (exceeds rt c p) limited_fields
  ])
]

-- The loop over the pairs of a chain, behind its request.
unfoldable pub some_amplifies : Runtime → List Artifact → Bool
some_amplifies rt [] = false
some_amplifies rt (child ∷ []) = false
some_amplifies rt (child ∷ parent ∷ rest) =
    amplifies rt child parent || some_amplifies rt (parent ∷ rest)

abbrev pub behind_request : List Artifact → List Artifact
behind_request [] = []
behind_request (request ∷ rest) = rest

unfoldable pub check_attenuation : Runtime → Setup → Artifact → List Artifact → Run (Unit {0})
check_attenuation rt s root chain =
    stop_if (some_amplifies rt (behind_request chain))
      (result s attenuation_violation (root_first root chain))
