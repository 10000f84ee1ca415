-- ===== src/Tests/Delegation.antt =====
-- verifyDelegationChain on a sample input, and the theorems on it there.
use tesserra.Prelude.{◌≡◌, ◌≢◌, refl, true, false, some, [], ◌∷◌, here}
use tesserra.Prelude.Int.{pos}
use tesserra.Core.Verify.Input.{
  publisher_id, target_id, key_ids_of, roles_are_disjoint, policy_hash,
}
use tesserra.Core.Verify.Admission.{compared_key, embedded_key_differs}
use tesserra.Core.Verify.Crypto.{
  artifact_ref, parent_of, pinned_key, signer_credential, verification_jwk, signature_valid,
}
use tesserra.Core.Verify.Status.{keys_of, linked, stream_valid, status_chain_valid, high_water}
use tesserra.Core.Delegation.Input.{
  DelegationInput, default_warnings, delegation_status_hash, set_up, valid_trust,
}
use tesserra.Core.Delegation.Stages.{
  interval_valid, parse_artifact, version_artifact, unique_ids, check_roots, check_signature,
  check_time, trusted_root, check_trust,
}
use tesserra.Core.Delegation.Chain.{
  only, parent_in, parent_ids, leaves, check_references, climb, find_chain, unmatched, widens,
  amplifies_below, some_amplifies_below, check_attenuation,
}
use tesserra.Core.Delegation.Status.{
  is_revoked, check_fresh, check_selected, standing, check_key, check_status, conclude,
}
use tesserra.Core.Delegation.{delegation_stages, verify_delegation, verify_delegation_chain}
use tesserra.Core.Result.{valid, VerificationResult, offline_status_not_fresh}
use tesserra.Core.Run.{returned, unfinished}
use tesserra.Protocol.Ids.{policy_hash_for, status_hash_for}
use tesserra.Core.Verify.Authority.{Grants}
use tesserra.Core.Delegation.Accepts.{
  Acceptance, valid_delegation-Acceptance, verify_delegation_chain_ends, valid_delegation-grants,
  IsGranted,
}
use tesserra.Tests.Computes.{computes}
use tesserra.Tests.Samples.{runtime, text, id_in, or_empty, root, delegation, snapshot}

bundle : Unit {0}
unfolding computes publisher_id target_id key_ids_of roles_are_disjoint policy_hash compared_key
    embedded_key_differs artifact_ref parent_of pinned_key signer_credential verification_jwk
    signature_valid keys_of linked stream_valid status_chain_valid high_water default_warnings
    delegation_status_hash set_up valid_trust interval_valid parse_artifact version_artifact
    unique_ids check_roots check_signature check_time trusted_root check_trust parent_in parent_ids
    leaves check_references climb find_chain unmatched widens amplifies_below some_amplifies_below
    check_attenuation is_revoked check_fresh check_selected standing check_key check_status conclude
    delegation_stages verify_delegation verify_delegation_chain
bundle = tt

abbrev input : DelegationInput
input = record {
  root_credential = root;
  key_binding_credentials = [];
  delegations = delegation ∷ [];
  status_evidence = [];
  trust_snapshot = snapshot;
  now = pos 86400000;
  offline_inspection = true;
}

abbrev accepted : VerificationResult
accepted = record {
  code = valid;
  valid = true;
  verifier_now = input.now;
  policy_hash = or_empty (policy_hash_for runtime snapshot);
  status_snapshot_hash = or_empty (status_hash_for runtime []);
  evidence_ids = some (id_in root) ∷ some (id_in delegation) ∷ [];
  secondary_codes = [];
  status_fresh = false;
  replay_checked = false;
  warnings = offline_status_not_fresh ∷ [];
}

accepts_input : verify_delegation_chain runtime input ≡ returned accepted
unfolding bundle
accepts_input = refl

one_leaf : only (leaves input.delegations) ≡ some delegation
unfolding bundle
one_leaf = refl

leaf_grants : Grants runtime "capabilities" (text "read") delegation
unfolding bundle
leaf_grants = refl

valid_delegation-Acceptance_example : Acceptance runtime input accepted
valid_delegation-Acceptance_example =
    valid_delegation-Acceptance runtime input accepted accepts_input refl

verify_delegation_chain_ends_example : verify_delegation_chain runtime input ≢ unfinished
verify_delegation_chain_ends_example = verify_delegation_chain_ends runtime input

valid_delegation-grants_example : IsGranted runtime input accepted "capabilities" (text "read")
valid_delegation-grants_example =
    valid_delegation-grants runtime input accepted delegation "capabilities" (text "read")
      accepts_input refl one_leaf (here refl) leaf_grants
