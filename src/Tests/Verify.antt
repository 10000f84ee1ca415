-- ===== src/Tests/Verify.antt =====
-- verifyArtifacts on the sample input, and the theorems on it there.
use tesserra.Prelude.{◌≡◌, ◌≢◌, refl, true, false, some, [], ◌∷◌}
use tesserra.Core.Verify.Input.{
  default_warnings, publisher_id, target_id, key_ids_of, roles_are_disjoint, ordered_status_members,
  status_hash, policy_hash, valid_trust_snapshot, set_up,
}
use tesserra.Core.Verify.Admission.{
  preflight_chain_evidence, compared_key, embedded_key_differs, parse_artifact, version_artifact,
  unique_ids, admission,
}
use tesserra.Core.Verify.Crypto.{
  artifact_ref, parent_of, resolve, request_evidence, pinned_key, signer_credential,
  verification_jwk, signature_valid, check_signature, find_request,
}
use tesserra.Core.Verify.Trust.{interval_valid, check_time, root_allowed, find_root}
use tesserra.Core.Verify.Chain.{
  missing_parent, next_link, walk, find_chain, amplifies, some_amplifies, check_attenuation,
}
use tesserra.Core.Verify.Status.{
  offline_inspection, keys_of, linked, stream_valid, status_chain_valid, high_water, revokes,
  check_fresh, fresh_unless, check_selected, standing, check_key, some_revokes, check_status,
}
use tesserra.Core.Verify.Binding.{
  same_status, same_hashes, historical, historical_valid, check_binding, conclude, check_online,
  check_replay,
}
use tesserra.Core.Verify.{stages, verify, verify_artifacts}
use tesserra.Core.Result.{
  valid, VerificationResult, offline_status_not_fresh, offline_replay_not_checked,
}
use tesserra.Core.Run.{returned, unfinished}
use tesserra.Protocol.Ids.{policy_hash_for, status_hash_for}
use tesserra.Core.Verify.Accepts.{Acceptance, valid-Acceptance, verify_artifacts_ends}
use tesserra.Core.Verify.Reported.{IsReported, returned-IsReported}
use tesserra.Core.Verify.Authorizes.{IsAuthorized, valid-IsAuthorized}
use tesserra.Tests.Computes.{computes}
use tesserra.Tests.Samples.{runtime, input, id_in, or_empty, root, delegation, request, snapshot}

unfoldable pub verifies : Unit {0}
unfolding computes default_warnings publisher_id target_id key_ids_of roles_are_disjoint
    ordered_status_members status_hash policy_hash valid_trust_snapshot set_up
    preflight_chain_evidence compared_key embedded_key_differs parse_artifact version_artifact
    unique_ids admission artifact_ref parent_of resolve request_evidence pinned_key
    signer_credential verification_jwk signature_valid interval_valid check_signature find_request
    check_time root_allowed find_root missing_parent next_link walk find_chain amplifies
    some_amplifies check_attenuation offline_inspection keys_of linked stream_valid
    status_chain_valid high_water revokes check_fresh fresh_unless check_selected standing check_key
    some_revokes check_status same_status same_hashes historical historical_valid check_binding
    conclude check_online check_replay stages verify verify_artifacts
verifies = tt

abbrev accepted : VerificationResult
accepted = record {
  code = valid;
  valid = true;
  verifier_now = input.now;
  policy_hash = or_empty (policy_hash_for runtime snapshot);
  status_snapshot_hash = or_empty (status_hash_for runtime []);
  evidence_ids = some (id_in root) ∷ some (id_in delegation) ∷ some (id_in request) ∷ [];
  secondary_codes = [];
  status_fresh = false;
  replay_checked = false;
  warnings = offline_status_not_fresh ∷ offline_replay_not_checked ∷ [];
}

accepts_input : verify_artifacts runtime input ≡ returned accepted
unfolding verifies
accepts_input = refl

valid-Acceptance_example : Acceptance runtime input accepted
valid-Acceptance_example = valid-Acceptance runtime input accepted accepts_input refl

verify_artifacts_ends_example : verify_artifacts runtime input ≢ unfinished
verify_artifacts_ends_example = verify_artifacts_ends runtime input

valid-IsAuthorized_example : IsAuthorized runtime input
valid-IsAuthorized_example = valid-IsAuthorized runtime input accepted accepts_input refl

returned-IsReported_example : IsReported runtime input accepted
returned-IsReported_example = returned-IsReported runtime input accepted accepts_input
