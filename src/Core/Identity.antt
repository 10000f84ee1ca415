-- ===== src/Core/Identity.antt =====
-- verifyIdentityCredential of packages/core/src/identity.ts, on a credential that is a value already.
pub mod Accepts
use tesserra.Prelude.{
  ℕ, Bool, true, false, not, ◌&&◌, ◌||◌, Option, none, some, List, [], ◌∷◌, if◌then◌else◌, some_of,
  find, Text, String,
}
use tesserra.Prelude.Int.{ℤ, pos}
use tesserra.Json.{
  Json, string, object, Members, Artifact, member, as_object, as_string, is_array, is_some,
  is_string, is_literal, is_text, integer_within, integer_from, strict_eq,
}
use tesserra.Runtime.{Runtime}
use tesserra.Protocol.Canonical.{canonical_equal}
use tesserra.Protocol.Ids.{artifact_id_for, key_id_for, status_hash_for}
use tesserra.Protocol.Coerce.{to_integer}
use tesserra.Protocol.Validate.{validate_outer_envelope}
use tesserra.Protocol.Validate.Kinds.{validate_artifact}
use tesserra.Core.Result.{
  DecisionCode, valid, is_valid, schema_invalid, unsupported_version, unsupported_kind,
  unsupported_algorithm, id_mismatch, key_id_mismatch, invalid_time_interval,
  trust_snapshot_invalid, not_yet_valid, expired, untrusted_issuer, untrusted_key,
  invalid_signature, mixed_trust_root, WarningCode, offline_status_not_fresh,
  offline_replay_not_checked, not_all_stages_executed, Evidence, VerificationResult,
}
use tesserra.Core.Run.{Run, pass, ◌>>=◌, ◌>>◌, stop_if, attempt, require, Outcome, outcome}
use tesserra.Core.Values.{array_or_empty, objects_of, is_kind, kid_of, at, less}
use tesserra.Core.Verify.Input.{policy_hash}
use tesserra.Core.Verify.Admission.{algorithm_of}
use tesserra.Core.Verify.Crypto.{signature_valid}
use tesserra.Core.Verify.Trust.{starts_later, ended_before, thousand}

pub record IdentityInput : Type 0 where
  pub credential : Json
  pub trust_snapshot : Members
  pub now : ℤ

-- What `decision` is called with in every place.
pub record IdentitySetup : Type 0 where
  pub input : IdentityInput
  pub policy_hash : Text
  pub status_hash : Text

abbrev pub warnings_of : DecisionCode → List WarningCode
warnings_of valid = offline_status_not_fresh ∷ offline_replay_not_checked ∷ []
warnings_of _ = not_all_stages_executed ∷ []

-- decision(now, policyHash, code, evidenceIds)
abbrev pub decision : IdentitySetup → DecisionCode → Evidence → VerificationResult
decision s code ids = record {
  code = code;
  valid = is_valid code;
  verifier_now = s.input.now;
  policy_hash = s.policy_hash;
  status_snapshot_hash = s.status_hash;
  evidence_ids = ids;
  secondary_codes = [];
  status_fresh = false;
  replay_checked = false;
  warnings = warnings_of code;
}

-- asPrincipal(value)
unfoldable pub as_principal : Option Json → Option Members
as_principal v = elim (as_object v) [
  | none ↦ none
  | some candidate ↦
      if is_string (member "type" candidate)
        && (is_string (member "id" candidate) || is_some (as_object (member "id" candidate)))
      then some candidate
      else none
]

-- asJwk(value)
unfoldable pub as_jwk : Option Json → Option Members
as_jwk v = elim (as_object v) [
  | none ↦ none
  | some candidate ↦
      if is_literal "OKP" (member "kty" candidate)
        && is_literal "Ed25519" (member "crv" candidate)
        && is_string (member "x" candidate)
      then some candidate
      else none
]

module _ (rt : Runtime) where
  -- issuerAuthority(snapshot, issuer)
  unfoldable pub issuer_authority : Members → Members → Option Members
  issuer_authority snapshot issuer =
      find (λ e. canonical_equal rt (member "principal" e) (some (object issuer)))
        (objects_of (array_or_empty (member "issuer_authorities" snapshot)))

  -- The test of the trust snapshot, negated.
  unfoldable pub snapshot_usable : Members → Text → Bool
  snapshot_usable snapshot hash =
      integer_within 0 300 (member "max_clock_skew_seconds" snapshot)
      && is_text hash (member "policy_hash" snapshot)
      && integer_from 1 (member "sequence" snapshot)
      && is_array (member "roots" snapshot)
      && is_array (member "status_publishers" snapshot)

  -- trustedRoot
  unfoldable pub trusted_root : Members → Artifact → Bool
  trusted_root snapshot credential =
      some_of
        (λ e.
          strict_eq (member "credential_purpose" e) (member "credential_purpose" credential)
          && canonical_equal rt (member "issuer" e) (member "issuer" credential)
          && canonical_equal rt (member "root_subject" e) (member "subject" credential))
        (objects_of (array_or_empty (member "roots" snapshot)))

  module _ (s : IdentitySetup) (credential : Artifact) where
    abbrev pub fail : DecisionCode → VerificationResult
    fail code = decision s code (member "id" credential ∷ [])

    -- The envelope's meaning, the schema, the content address and the embedded key.
    unfoldable pub check_form : Run (Unit {0})
    check_form = do
      stop_if (not (is_literal "agent-proof/v1" (member "version" credential)))
          (fail unsupported_version)
      stop_if (not (is_kind "credential" credential)) (fail unsupported_kind)
      stop_if (not (is_literal "Ed25519" (algorithm_of credential))) (fail unsupported_algorithm)
      stop_if (not (validate_artifact rt credential)) (fail schema_invalid)
      id ← attempt (artifact_id_for rt credential)
      stop_if (not (is_text id (member "id" credential))) (fail id_mismatch)
      key ← require (as_jwk (member "public_jwk" credential)) (fail key_id_mismatch)
      key_id ← attempt (key_id_for rt key)
      stop_if (not (is_text key_id (member "key_id" credential))) (fail key_id_mismatch)

    -- The interval, the trust snapshot and the clock.
    unfoldable pub check_window : Run (Unit {0})
    check_window = do
      let issued_at = at rt (member "issued_at" credential)
      let not_before = at rt (member "not_before" credential)
      let expires_at = at rt (member "expires_at" credential)
      let skew = thousand (to_integer rt (member "max_clock_skew_seconds" s.input.trust_snapshot))
      stop_if (less issued_at not_before || less expires_at issued_at) (fail invalid_time_interval)
      stop_if (not (snapshot_usable s.input.trust_snapshot s.policy_hash))
          (fail trust_snapshot_invalid)
      stop_if (starts_later s.input.now skew not_before) (fail not_yet_valid)
      stop_if (ended_before s.input.now skew expires_at) (fail expired)

    -- The issuer, its key, the signature and the roots.
    unfoldable pub check_trust : Run VerificationResult
    check_trust = do
      issuer ← require (as_principal (member "issuer" credential)) (fail schema_invalid)
      authority ← require (issuer_authority s.input.trust_snapshot issuer) (fail untrusted_issuer)
      stop_if (not (is_text (kid_of credential) (member "key_id" authority))) (fail untrusted_key)
      key ← require (as_jwk (member "public_jwk" authority)) (fail untrusted_key)
      stop_if (not (signature_valid rt credential key)) (fail invalid_signature)
      stop_if (not (trusted_root s.input.trust_snapshot credential)) (fail mixed_trust_root)
      pass (fail valid)

  unfoldable pub identity_stages : IdentitySetup → Run VerificationResult
  identity_stages s = do
    credential ← require (as_object (some s.input.credential)) (decision s schema_invalid [])
    stop_if (not (validate_outer_envelope credential)) (decision s schema_invalid [])
    check_form s credential
    check_window s credential
    check_trust s credential

  unfoldable pub verify_identity : IdentityInput → Run VerificationResult
  verify_identity input = do
    status ← attempt (status_hash_for rt [])
    policy ← attempt (policy_hash rt input.trust_snapshot)
    identity_stages (record { input = input; policy_hash = policy; status_hash = status })

  -- verifyIdentityCredential(input)
  unfoldable pub verify_identity_credential : IdentityInput → Outcome
  verify_identity_credential input = outcome (verify_identity input)
