-- ===== src/Core/Verify/Signs.antt =====
-- What holds of the artifacts and the request behind the stage CRYPTO of verifyArtifacts.
use tesserra.Prelude.{
  ℕ, ◌≡◌, refl, Bool, true, false, not, ◌&&◌, ◌||◌, Option, none, some, List, arith, String,
  not-eq-false, if◌then◌else◌, Option-cases, inl, inr, ||-eq-false, find,
}
use tesserra.Json.{string, object, Members, Artifact, member}
use tesserra.Runtime.{Runtime}
use tesserra.Protocol.Canonical.{canonical_equal}
use tesserra.Protocol.Ids.{signing_input_for}
use tesserra.Core.Result.{is_valid, untrusted_key, untrusted_issuer, missing_reference}
use tesserra.Core.Run.Sound.{
  Sound, passes, Sound-bind, Sound-map, Sound-then, Sound-stop_if, Sound-require,
}
use tesserra.Core.Values.{is_kind}
use tesserra.Core.Verify.Input.{Setup}
use tesserra.Core.Verify.Admits.{is_text_sound}
use tesserra.Core.Verify.Crypto.{
  is_true, signature_bytes, signature_valid, verification_jwk, signer_credential, pinned_key,
  principal_matches, check_signature, find_request,
}

-- Ed25519 accepts the artifact's signature of its signing input under a key.
pub record IsSigned (rt : Runtime) (a : Artifact) (key : Members) : Type 0 where
  pub message : List ℕ
  pub sig : List ℕ
  pub signing_input : signing_input_for rt a ≡ some message
  pub decoded : signature_bytes a ≡ some sig
  pub verified : rt.verify_signature (object key) message sig ≡ some true

is_true-some : (o : Option Bool) → is_true o ≡ true → o ≡ some true
is_true-some none h = cc
is_true-some (some b) h = ground arith

pub signature_valid-IsSigned :
    (rt : Runtime) (a : Artifact) (key : Members)
    → signature_valid rt a key ≡ true
    → IsSigned rt a key
unfolding signature_valid
signature_valid-IsSigned rt a key h = elim (Option-cases (signing_input_for rt a)) [
  | inl e ↦ absurd (ground arith)
  | inr (message, em) ↦ elim (Option-cases (signature_bytes a)) [
    | inl e ↦ absurd (ground arith)
    | inr (sig, es) ↦ record {
      message = message;
      sig = sig;
      signing_input = em;
      decoded = es;
      verified = is_true-some _ (ground arith);
    }
  ]
]

-- The other side of an identity check is there, and canonically equal.
pub principal_matches_sound :
    (rt : Runtime) (o : Option Members) (field : String) (a : Artifact) (name : String)
    → principal_matches rt o field a name ≡ true
    → (m : Members) × (o ≡ some m) × (canonical_equal rt (member field m) (member name a) ≡ true)
principal_matches_sound rt none field a name h = cc
principal_matches_sound rt (some m) field a name h = (m, refl, h)

-- Who signed: the credential behind the key of a delegation or a request is of the principal that it
-- names, and the pinned entry behind a status record is of the publisher that it names.
pub record IsAttributed (rt : Runtime) (s : Setup) (a : Artifact) : Type 0 where
  pub delegation :
      is_kind "delegation" a ≡ true
      → (c : Members) × (signer_credential rt s.input.trust_snapshot s.input.artifacts a ≡ some c)
        × (canonical_equal rt (member "subject" c) (member "delegator" a) ≡ true)
  pub request :
      is_kind "request" a ≡ true
      → (c : Members) × (signer_credential rt s.input.trust_snapshot s.input.artifacts a ≡ some c)
        × (canonical_equal rt (member "subject" c) (member "signer" a) ≡ true)
  pub status :
      (is_kind "key_status" a || is_kind "revocation" a) ≡ true
      → (e : Members) × (pinned_key s.input.trust_snapshot a ≡ some e)
        × (canonical_equal rt (member "principal" e) (member "publisher" a) ≡ true)
  pub rotation :
      is_kind "key_rotation" a ≡ true
      → (e : Members) × (pinned_key s.input.trust_snapshot a ≡ some e)
        × (canonical_equal rt (member "principal" e) (member "publisher" a) ≡ true)

-- The artifact is signed by the key that the snapshot or a credential gives for it.
pub record IsAuthentic (rt : Runtime) (s : Setup) (a : Artifact) : Type 0 where
  pub key : Members
  pub resolved : verification_jwk rt s.input.trust_snapshot s.input.artifacts a ≡ some key
  pub signed : IsSigned rt a key
  pub attributed : IsAttributed rt s a

guarded : (a b : Bool) → (a && not b) ≡ false → a ≡ true → b ≡ true
guarded a b h e = ground arith

key_failure :
    (a b : Bool)
    → is_valid (if a then (if b then untrusted_key else untrusted_issuer) else missing_reference)
      ≡ false
key_failure a b = ground arith

pub check_signature-IsAuthentic :
    (rt : Runtime) (s : Setup) (a : Artifact)
    → Sound (λ _. IsAuthentic rt s a) (check_signature rt s a)
unfolding check_signature
check_signature-IsAuthentic rt s a =
    Sound-bind (Sound-require _ _ (key_failure _ _)) λ key resolved.
      Sound-then (Sound-stop_if _ _ refl) λ valid. Sound-then (Sound-stop_if _ _ refl) λ delegation.
        Sound-then (Sound-stop_if _ _ refl) λ request. Sound-then (Sound-stop_if _ _ refl) λ status.
          Sound-map
            (λ _ rotation. record {
              key = key;
              resolved = resolved;
              signed = signature_valid-IsSigned rt a key (not-eq-false _ valid);
              attributed = record {
                delegation = λ k. principal_matches_sound rt _ _ a _ (guarded _ _ delegation k);
                request = λ k. principal_matches_sound rt _ _ a _ (guarded _ _ request k);
                status = λ k. principal_matches_sound rt _ _ a _ (guarded _ _ status k);
                rotation = λ k. principal_matches_sound rt _ _ a _ (guarded _ _ rotation k);
              };
            })
            (Sound-stop_if _ _ refl)

-- The request that is verified carries the digests that the caller expects.
pub record IsExpected (s : Setup) (request : Artifact) : Type 0 where
  pub found : find (is_kind "request") s.input.artifacts ≡ some request
  pub payload :
      member "payload_digest" request ≡ some (string s.input.context.expected_payload_digest)
  pub task_context :
      member "task_context_digest" request
      ≡ some (string s.input.context.expected_task_context_digest)

pub find_request-IsExpected : (rt : Runtime) (s : Setup) → Sound (IsExpected s) (find_request rt s)
unfolding find_request
find_request-IsExpected rt s = Sound-bind (Sound-require _ _ refl) λ request found.
    Sound-then (Sound-stop_if _ _ refl) λ digests. passes (record {
      found = found;
      payload = is_text_sound _ _ (not-eq-false _ (||-eq-false _ _ digests).0);
      task_context = is_text_sound _ _ (not-eq-false _ (||-eq-false _ _ digests).1);
    })
