-- ===== src/Core/Identity/Accepts.antt =====
-- What a VALID result of verifyIdentityCredential stands for, and that it always comes to an end.
use tesserra.Prelude.{◌≡◌, refl, true, false, some, [], ◌∷◌, Text, not-eq-false, ap}
use tesserra.Prelude.Int.{ℤ, ◌-ℤ◌, ◌+ℤ◌, ◌≤ℤ◌}
use tesserra.Json.{Json, string, object, Members, Artifact, member, as_object}
use tesserra.Runtime.{Runtime}
use tesserra.Protocol.Ids.{artifact_id_for, key_id_for}
use tesserra.Protocol.Coerce.{to_integer}
use tesserra.Protocol.Validate.Kinds.{validate_artifact}
use tesserra.Core.Result.{valid, is_valid, VerificationResult}
use tesserra.Core.Run.{returned}
use tesserra.Core.Run.Sound.{
  Sound, passes, Sound-bind, Sound-map, Sound-then, Sound-stop_if, Sound-attempt, Sound-require,
  outcome-valid,
}
use tesserra.Core.Values.{kid_of, at}
use tesserra.Core.Verify.Trust.{thousand}
use tesserra.Core.Verify.Admits.{is_text_sound}
use tesserra.Core.Verify.Signs.{IsSigned, signature_valid-IsSigned}
use tesserra.Core.Verify.Trusts.{starts_later_sound, ended_before_sound}
use tesserra.Core.Identity.{
  IdentityInput, IdentitySetup, as_principal, as_jwk, issuer_authority, snapshot_usable,
  trusted_root, check_form, check_window, check_trust, identity_stages, verify_identity,
  verify_identity_credential,
}

-- The credential is schema-valid, its id is its content address, and it names the key that it embeds.
pub record IsWellFormed (rt : Runtime) (c : Artifact) : Type 0 where
  pub schema : validate_artifact rt c ≡ true
  pub address : Text
  pub computed : artifact_id_for rt c ≡ some address
  pub stated : member "id" c ≡ some (string address)
  pub key : Members
  pub embedded : as_jwk (member "public_jwk" c) ≡ some key
  pub key_id : Text
  pub key_computed : key_id_for rt key ≡ some key_id
  pub key_stated : member "key_id" c ≡ some (string key_id)

check_form-IsWellFormed :
    (rt : Runtime) (s : IdentitySetup) (c : Artifact)
    → Sound (λ _. IsWellFormed rt c) (check_form rt s c)
unfolding check_form
check_form-IsWellFormed rt s c = Sound-then (Sound-stop_if _ _ refl) λ _.
    Sound-then (Sound-stop_if _ _ refl) λ _. Sound-then (Sound-stop_if _ _ refl) λ _.
      Sound-then (Sound-stop_if _ _ refl) λ schema. Sound-bind (Sound-attempt _) λ id computed.
        Sound-then (Sound-stop_if _ _ refl) λ stated.
          Sound-bind (Sound-require _ _ refl) λ key embedded.
            Sound-bind (Sound-attempt _) λ key_id key_computed.
              Sound-map
                (λ _ key_stated. record {
                  schema = not-eq-false _ schema;
                  address = id;
                  computed = computed;
                  stated = is_text_sound _ _ (not-eq-false _ stated);
                  key = key;
                  embedded = embedded;
                  key_id = key_id;
                  key_computed = key_computed;
                  key_stated = is_text_sound _ _ (not-eq-false _ key_stated);
                })
                (Sound-stop_if _ _ refl)

-- The snapshot is usable, and the clock lies in the credential's interval, widened by the skew.
pub record IsInWindow (rt : Runtime) (s : IdentitySetup) (c : Artifact) : Type 0 where
  pub usable : snapshot_usable rt s.input.trust_snapshot s.policy_hash ≡ true
  pub started :
      (k t : ℤ)
      → thousand (to_integer rt (member "max_clock_skew_seconds" s.input.trust_snapshot)) ≡ some k
      → at rt (member "not_before" c) ≡ some t
      → t -ℤ k ≤ℤ s.input.now
  pub not_ended :
      (k t : ℤ)
      → thousand (to_integer rt (member "max_clock_skew_seconds" s.input.trust_snapshot)) ≡ some k
      → at rt (member "expires_at" c) ≡ some t
      → s.input.now ≤ℤ t +ℤ k

check_window-IsInWindow :
    (rt : Runtime) (s : IdentitySetup) (c : Artifact)
    → Sound (λ _. IsInWindow rt s c) (check_window rt s c)
unfolding check_window
check_window-IsInWindow rt s c = Sound-then (Sound-stop_if _ _ refl) λ _.
    Sound-then (Sound-stop_if _ _ refl) λ usable. Sound-then (Sound-stop_if _ _ refl) λ started.
      Sound-map
        (λ _ ended. record {
          usable = not-eq-false _ usable;
          started = λ k t. starts_later_sound _ _ _ k t started;
          not_ended = λ k t. ended_before_sound _ _ _ k t ended;
        })
        (Sound-stop_if _ _ refl)

-- The snapshot pins the issuer and the key that the proof names, that key signed the credential, and
-- the snapshot lists the credential's subject as a root of the issuer.
pub record IsTrusted (rt : Runtime) (s : IdentitySetup) (c : Artifact) : Type 0 where
  pub issuer : Members
  pub authority : Members
  pub key : Members
  pub named : as_principal (member "issuer" c) ≡ some issuer
  pub pinned : issuer_authority rt s.input.trust_snapshot issuer ≡ some authority
  pub same_key : member "key_id" authority ≡ some (string (kid_of c))
  pub resolved : as_jwk (member "public_jwk" authority) ≡ some key
  pub signed : IsSigned rt c key
  pub listed : trusted_root rt s.input.trust_snapshot c ≡ true

-- The result is VALID for the credential, and says that neither status nor replay was checked.
pub record IsReported (c : Artifact) (r : VerificationResult) : Type 0 where
  pub code : r.code ≡ valid
  pub ids : r.evidence_ids ≡ member "id" c ∷ []
  pub not_fresh : r.status_fresh ≡ false
  pub unchecked : r.replay_checked ≡ false

check_trust-IsTrusted :
    (rt : Runtime) (s : IdentitySetup) (c : Artifact)
    → Sound (λ r. IsTrusted rt s c × IsReported c r) (check_trust rt s c)
unfolding check_trust
check_trust-IsTrusted rt s c = Sound-bind (Sound-require _ _ refl) λ issuer named.
    Sound-bind (Sound-require _ _ refl) λ authority pinned.
      Sound-then (Sound-stop_if _ _ refl) λ same_key.
        Sound-bind (Sound-require _ _ refl) λ key resolved.
          Sound-then (Sound-stop_if _ _ refl) λ signed.
            Sound-then (Sound-stop_if _ _ refl) λ listed. passes (
              record {
                issuer = issuer;
                authority = authority;
                key = key;
                named = named;
                pinned = pinned;
                same_key = is_text_sound _ _ (not-eq-false _ same_key);
                resolved = resolved;
                signed = signature_valid-IsSigned rt c key (not-eq-false _ signed);
                listed = not-eq-false _ listed;
              },
              record { code = refl; ids = refl; not_fresh = refl; unchecked = refl },
            )

-- The evidence that a VALID result rests on.
pub record IsAccepted (rt : Runtime) (input : IdentityInput) (r : VerificationResult) : Type 0 where
  pub setup : IdentitySetup
  pub same : setup.input ≡ input
  pub credential : Artifact
  pub is_object : input.credential ≡ object credential
  pub form : IsWellFormed rt credential
  pub in_window : IsInWindow rt setup credential
  pub trusted : IsTrusted rt setup credential
  pub reported : IsReported credential r

object-of : (v : Json) (ms : Members) → as_object (some v) ≡ some ms → v ≡ object ms
object-of (object ms) ms' e = cc
object-of v ms e = cc

stages-IsAccepted :
    (rt : Runtime) (s : IdentitySetup) → Sound (IsAccepted rt s.input) (identity_stages rt s)
unfolding identity_stages
stages-IsAccepted rt s = Sound-bind (Sound-require _ _ refl) λ credential e.
    Sound-then (Sound-stop_if _ _ refl) λ _.
      Sound-then (check_form-IsWellFormed rt s credential) λ form.
        Sound-then (check_window-IsInWindow rt s credential) λ in_window.
          Sound-map
            (λ r (trusted, reported). record {
              setup = s;
              same = refl;
              credential = credential;
              is_object = object-of _ _ e;
              form = form;
              in_window = in_window;
              trusted = trusted;
              reported = reported;
            })
            (check_trust-IsTrusted rt s credential)

verify-IsAccepted :
    (rt : Runtime) (input : IdentityInput) → Sound (IsAccepted rt input) (verify_identity rt input)
unfolding verify_identity
verify-IsAccepted rt input =
    Sound-bind (Sound-attempt _)
      λ status _. Sound-bind (Sound-attempt _) λ policy _. stages-IsAccepted rt _

-- A result VALID of verifyIdentityCredential rests on complete evidence: the credential is schema-valid,
-- identified by its content and by the key that it embeds, within its interval, and signed by the pinned
-- key of its issuer, which the snapshot lists as a root for the credential's subject; and the result
-- claims neither fresh status nor a replay check.
pub valid_identity-IsAccepted :
    (rt : Runtime) (input : IdentityInput) (r : VerificationResult)
    → verify_identity_credential rt input ≡ returned r
    → r.code ≡ valid
    → IsAccepted rt input r
unfolding verify_identity_credential
valid_identity-IsAccepted rt input r h v =
    outcome-valid r (verify-IsAccepted rt input) h (ap is_valid v)
