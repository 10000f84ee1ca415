-- ===== src/Core/Verify/Admission.antt =====
-- The stages PARSE and VERSION of verifyArtifacts (packages/core/src/verify.ts), and the checks of
-- the trust snapshot and of distinct ids behind them.
use tesserra.Prelude.{
  Bool, false, not, ◌&&◌, ◌||◌, Option, none, some, List, [], ◌∷◌, ◌++◌, map, some_of, find, filter,
  Text,
}
use tesserra.Json.{Json, Members, Artifact, member, as_object, is_some, is_literal, is_text}
use tesserra.Runtime.{Runtime}
use tesserra.Protocol.Ids.{artifact_id_for, key_id_for}
use tesserra.Protocol.Coerce.{to_text}
use tesserra.Protocol.Validate.{validate_outer_envelope, includes, is_one_of, supported_kinds}
use tesserra.Protocol.Validate.Kinds.{validate_artifact}
use tesserra.Core.Result.{
  schema_invalid, id_mismatch, key_id_mismatch, non_canonical, unsupported_version,
  unsupported_kind, unsupported_algorithm, unsupported_critical_semantics,
  unsupported_resource_type, trust_snapshot_invalid, chain_parent_ambiguous, Evidence,
}
use tesserra.Core.Run.{Run, pass, ◌>>=◌, ◌>>◌, stop_if, attempt, each}
use tesserra.Core.Values.{array_or_empty, objects_of, is_kind, id_of, local_member, jwk, text_mem}
use tesserra.Core.Verify.Input.{Setup, result, valid_trust_snapshot}
use tesserra.Core.Verify.Uri.{canonical_uri}

abbrev pub is_root_credential : Artifact → Bool
is_root_credential a =
    is_kind "credential" a && is_literal "agent-root-authority" (member "credential_purpose" a)

abbrev pub ids : List Artifact → Evidence
ids = map (λ a. member "id" a)

abbrev pub id_list : Option Artifact → Evidence
id_list none = []
id_list (some a) = member "id" a ∷ []

-- preflightChainEvidence()
unfoldable pub preflight_chain_evidence : List Artifact → Evidence
preflight_chain_evidence artifacts =
    id_list (find is_root_credential artifacts)
    ++ (ids (filter (is_kind "delegation") artifacts)
        ++ (elim (find (is_kind "request") artifacts) [
          | some request ↦ id_list (some request)
          | none ↦ ids (
              filter
                (λ a. not (
                  is_one_of
                    ("credential" ∷ "delegation" ∷ "key_status" ∷ "revocation" ∷ "key_rotation"
                      ∷ [])
                    (member "kind" a)))
                artifacts)
        ]))

-- resource && !test(resource), and the same for some local?.resources
abbrev pub some_resource : (Members → Bool) → Artifact → Bool
some_resource bad a =
    (elim (as_object (member "resource" a)) [ none ↦ false | some ms ↦ bad ms ])
    || some_of bad (objects_of (array_or_empty (local_member "resources" a)))

abbrev pub algorithm_of : Artifact → Option Json
algorithm_of a = elim (as_object (member "proof" a)) [
  | none ↦ none
  | some proof ↦ member "alg" proof
]

abbrev pub is_unsupported_resource : Runtime → Members → Bool
is_unsupported_resource rt resource =
    not (includes ("uri" ∷ "opaque" ∷ []) (to_text rt (member "type" resource)))

-- embeddedJwk && artifact.key_id !== keyIdFor(embeddedJwk)
unfoldable pub compared_key : Runtime → Artifact → Option Members → Run Bool
compared_key rt a none = pass false
compared_key rt a (some key) = do
  computed ← attempt (key_id_for rt key)
  pass (not (is_text computed (member "key_id" a)))

unfoldable pub embedded_key_differs : Runtime → Artifact → Run Bool
embedded_key_differs rt a = compared_key rt a (jwk (member "public_jwk" a))

module _ (rt : Runtime) (s : Setup) where
  -- The body of the PARSE loop.
  unfoldable pub parse_artifact : Artifact → Run (Unit {0})
  parse_artifact a = do
    stop_if (not (validate_outer_envelope a)) (result s schema_invalid [])
    computed ← attempt (artifact_id_for rt a)
    stop_if (not (is_text computed (member "id" a)))
        (result s id_mismatch (preflight_chain_evidence s.input.artifacts))
    mismatch ← embedded_key_differs rt a
    stop_if mismatch (result s key_id_mismatch (preflight_chain_evidence s.input.artifacts))
    stop_if (some_resource (λ resource. not (canonical_uri rt resource)) a)
        (result s non_canonical (preflight_chain_evidence s.input.artifacts))

  -- The body of the VERSION loop.
  unfoldable pub version_artifact : Artifact → Run (Unit {0})
  version_artifact a = do
    stop_if (not (is_literal "agent-proof/v1" (member "version" a)))
        (result s unsupported_version (preflight_chain_evidence s.input.artifacts))
    stop_if (not (is_one_of supported_kinds (member "kind" a)))
        (result s unsupported_kind (preflight_chain_evidence s.input.artifacts))
    stop_if (not (is_literal "Ed25519" (algorithm_of a)))
        (result s unsupported_algorithm (preflight_chain_evidence s.input.artifacts))
    stop_if (is_some (member "critical" a))
        (result s unsupported_critical_semantics (preflight_chain_evidence s.input.artifacts))
    stop_if (some_resource (is_unsupported_resource rt) a)
        (result s unsupported_resource_type (preflight_chain_evidence s.input.artifacts))
    stop_if (not (validate_artifact rt a))
        (result s schema_invalid (preflight_chain_evidence s.input.artifacts))

  -- The loop that fills the map `artifacts`: a second artifact of one id stops it.
  unfoldable pub unique_ids : List Text → List Artifact → Run (Unit {0})
  unique_ids seen [] = pass tt
  unique_ids seen (a ∷ rest) = do
    stop_if (text_mem (id_of a) seen) (result s chain_parent_ambiguous (ids s.input.artifacts))
    unique_ids (id_of a ∷ seen) rest

  -- PARSE, VERSION, the trust snapshot and the map of artifacts. Behind VERSION the variable `evidence`
  -- holds the id of every artifact.
  unfoldable pub admission : Run (Unit {0})
  admission = do
    each parse_artifact s.input.artifacts
    each version_artifact s.input.artifacts
    stop_if (not (valid_trust_snapshot rt s.input.trust_snapshot s.policy_hash))
        (result s trust_snapshot_invalid (preflight_chain_evidence s.input.artifacts))
    unique_ids [] s.input.artifacts
