-- ===== src/Core/Delegation/Stages.antt =====
-- The stages PARSE, VERSION, CRYPTO, TIME and TRUST of verifyDelegationChain
-- (packages/core/src/delegation.ts).
use tesserra.Prelude.{
  Bool, true, not, ◌&&◌, ◌||◌, none, some, List, [], ◌∷◌, if◌then◌else◌, some_of, Text,
}
use tesserra.Json.{Artifact, member, is_some, is_string, is_literal, is_text}
use tesserra.Runtime.{Runtime}
use tesserra.Protocol.Canonical.{canonical_equal}
use tesserra.Protocol.Ids.{artifact_id_for}
use tesserra.Protocol.Coerce.{to_integer}
use tesserra.Protocol.Validate.{validate_outer_envelope, is_one_of}
use tesserra.Protocol.Validate.Kinds.{validate_artifact}
use tesserra.Core.Result.{
  schema_invalid, id_mismatch, key_id_mismatch, unsupported_version, unsupported_kind,
  unsupported_algorithm, unsupported_critical_semantics, trust_snapshot_invalid, mixed_trust_root,
  chain_parent_ambiguous, untrusted_key, untrusted_issuer, missing_reference, invalid_signature,
  signer_mismatch, invalid_time_interval, not_yet_valid, expired,
}
use tesserra.Core.Run.{Run, pass, ◌>>=◌, ◌>>◌, stop_if, attempt, require}
use tesserra.Core.Values.{
  array_or_empty, objects_of, is_kind, id_of, kid_of, constraints, local_member, trust_key,
  text_mem, at, at_most,
}
use tesserra.Core.Verify.Admission.{algorithm_of, embedded_key_differs, is_root_credential}
use tesserra.Core.Verify.Crypto.{
  pinned_key, signer_credential, verification_jwk, signature_valid, principal_matches, issuer_known,
}
use tesserra.Core.Verify.Trust.{starts_later, ended_before, thousand}
use tesserra.Core.Delegation.Input.{
  DelegationSetup, credentials, linked_artifacts, stopped, valid_trust,
}

-- intervalValid(artifact)
unfoldable pub interval_valid : Runtime → Artifact → Bool
interval_valid rt a =
    is_some (at rt (member "issued_at" a))
    && (if is_string (member "not_before" a) || is_string (member "expires_at" a)
        then at_most (at rt (member "not_before" a)) (at rt (member "issued_at" a))
          && at_most (at rt (member "issued_at" a)) (at rt (member "expires_at" a))
        else true)
    && (elim (constraints a) [
      | none ↦ true
      | some local ↦ at_most (at rt (member "not_before" local)) (at rt (member "expires_at" local))
    ])

module _ (rt : Runtime) (s : DelegationSetup) where
  -- The body of the PARSE loop.
  unfoldable pub parse_artifact : Artifact → Run (Unit {0})
  parse_artifact a = do
    stop_if (not (validate_outer_envelope a)) (stopped s schema_invalid [])
    computed ← attempt (artifact_id_for rt a)
    stop_if (not (is_text computed (member "id" a))) (stopped s id_mismatch [])
    mismatch ← embedded_key_differs rt a
    stop_if mismatch (stopped s key_id_mismatch [])

  -- The body of the VERSION loop.
  unfoldable pub version_artifact : Artifact → Run (Unit {0})
  version_artifact a = do
    stop_if (not (is_literal "agent-proof/v1" (member "version" a)))
        (stopped s unsupported_version [])
    stop_if
        (not (
          is_one_of
            ("credential" ∷ "delegation" ∷ "key_status" ∷ "revocation" ∷ "key_rotation" ∷ [])
            (member "kind" a)))
        (stopped s unsupported_kind [])
    stop_if (not (is_literal "Ed25519" (algorithm_of a))) (stopped s unsupported_algorithm [])
    stop_if (is_some (member "critical" a)) (stopped s unsupported_critical_semantics [])
    stop_if (not (validate_artifact rt a)) (stopped s schema_invalid [])

  -- The loop that fills the map `byId`.
  unfoldable pub unique_ids : List Text → List Artifact → Run (Unit {0})
  unique_ids seen [] = pass tt
  unique_ids seen (a ∷ rest) = do
    stop_if (text_mem (id_of a) seen) (stopped s chain_parent_ambiguous [])
    unique_ids (id_of a ∷ seen) rest

  -- The trust snapshot, the kinds of the credentials and the map `byId`.
  unfoldable pub check_roots : Run (Unit {0})
  check_roots = do
    stop_if (not (valid_trust s.input.trust_snapshot s.policy_hash))
        (stopped s trust_snapshot_invalid [])
    stop_if (not (is_root_credential s.input.root_credential)) (stopped s mixed_trust_root [])
    stop_if (some_of (λ c. not (is_kind "credential" c)) s.input.key_binding_credentials)
        (stopped s schema_invalid [])
    unique_ids [] (linked_artifacts s.input)

  -- The body of the CRYPTO loop.
  unfoldable pub check_signature : Artifact → Run (Unit {0})
  check_signature a = do
    let snapshot = s.input.trust_snapshot
    let pinned = pinned_key snapshot a
    let signer = signer_credential rt snapshot (credentials s.input) a
    key ← require (verification_jwk rt snapshot (credentials s.input) a) (
        stopped s
          (if is_kind "credential" a
            then (if issuer_known rt snapshot a then untrusted_key else untrusted_issuer)
            else missing_reference)
          [])
    stop_if (not (signature_valid rt a key)) (stopped s invalid_signature [])
    stop_if (is_kind "delegation" a && not (principal_matches rt signer "subject" a "delegator"))
        (stopped s signer_mismatch [])
    stop_if
        ((is_kind "key_status" a || is_kind "revocation" a)
          && not (principal_matches rt pinned "principal" a "publisher"))
        (stopped s untrusted_key [])

  -- The body of the TIME loop.
  unfoldable pub check_time : Artifact → Run (Unit {0})
  check_time a = do
    let skew = thousand (to_integer rt (member "max_clock_skew_seconds" s.input.trust_snapshot))
    stop_if (not (interval_valid rt a)) (stopped s invalid_time_interval [])
    stop_if
        (starts_later s.input.now skew (at rt (member "not_before" a))
          || starts_later s.input.now skew (at rt (local_member "not_before" a)))
        (stopped s not_yet_valid [])
    stop_if
        (ended_before s.input.now skew (at rt (member "expires_at" a))
          || ended_before s.input.now skew (at rt (local_member "expires_at" a)))
        (stopped s expired [])

  -- trustedRoot
  unfoldable pub trusted_root : Bool
  trusted_root =
      some_of
        (λ e.
          canonical_equal rt (member "issuer" e) (member "issuer" s.input.root_credential)
          && canonical_equal rt (member "root_subject" e) (member "subject" s.input.root_credential)
          && is_literal "agent-root-authority" (member "credential_purpose" e))
        (objects_of (array_or_empty (member "roots" s.input.trust_snapshot)))

  -- TRUST
  unfoldable pub check_trust : Run (Unit {0})
  check_trust = do
    let root = s.input.root_credential
    stop_if
        (not (
          principal_matches rt (trust_key s.input.trust_snapshot (kid_of root) "issuer_authorities")
            "principal" root "issuer"))
        (stopped s untrusted_issuer [])
    stop_if (not trusted_root) (stopped s mixed_trust_root [])
