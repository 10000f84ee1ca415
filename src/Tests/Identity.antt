-- ===== src/Tests/Identity.antt =====
-- verifyIdentityCredential on the sample root credential, and the theorem on it there.
use tesserra.Prelude.{◌≡◌, refl, true, false, some, [], ◌∷◌}
use tesserra.Prelude.Int.{pos}
use tesserra.Json.{object}
use tesserra.Core.Verify.Input.{policy_hash}
use tesserra.Core.Verify.Crypto.{signature_valid}
use tesserra.Core.Identity.{
  IdentityInput, as_principal, as_jwk, issuer_authority, snapshot_usable, trusted_root, check_form,
  check_window, check_trust, identity_stages, verify_identity, verify_identity_credential,
}
use tesserra.Core.Result.{
  valid, VerificationResult, offline_status_not_fresh, offline_replay_not_checked,
}
use tesserra.Core.Run.{returned}
use tesserra.Protocol.Ids.{policy_hash_for, status_hash_for}
use tesserra.Core.Identity.Accepts.{IsAccepted, valid_identity-IsAccepted}
use tesserra.Tests.Computes.{computes}
use tesserra.Tests.Samples.{runtime, id_in, or_empty, root, snapshot}

bundle : Unit {0}
unfolding computes policy_hash signature_valid as_principal as_jwk issuer_authority snapshot_usable
    trusted_root check_form check_window check_trust identity_stages verify_identity
    verify_identity_credential
bundle = tt

abbrev input : IdentityInput
input = record { credential = object root; trust_snapshot = snapshot; now = pos 86400000 }

abbrev accepted : VerificationResult
accepted = record {
  code = valid;
  valid = true;
  verifier_now = input.now;
  policy_hash = or_empty (policy_hash_for runtime snapshot);
  status_snapshot_hash = or_empty (status_hash_for runtime []);
  evidence_ids = some (id_in root) ∷ [];
  secondary_codes = [];
  status_fresh = false;
  replay_checked = false;
  warnings = offline_status_not_fresh ∷ offline_replay_not_checked ∷ [];
}

accepts_input : verify_identity_credential runtime input ≡ returned accepted
unfolding bundle
accepts_input = refl

valid_identity-IsAccepted_example : IsAccepted runtime input accepted
valid_identity-IsAccepted_example =
    valid_identity-IsAccepted runtime input accepted accepts_input refl
