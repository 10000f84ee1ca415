-- ===== src/Core/Delegation/Stands.antt =====
-- What holds of the input behind the stages PARSE to TRUST of verifyDelegationChain.
use tesserra.Prelude.{
  ◌≡◌, refl, Bool, true, false, not, ◌&&◌, some, List, [], ◌∷◌, All, arith, Text, not-eq-false,
  if◌then◌else◌, some_of-eq-false, ||-eq-false,
}
use tesserra.Prelude.Int.{ℤ, ◌-ℤ◌, ◌+ℤ◌, ◌≤ℤ◌}
use tesserra.Json.{Members, Artifact, member}
use tesserra.Runtime.{Runtime}
use tesserra.Protocol.Canonical.{canonical_equal}
use tesserra.Protocol.Coerce.{to_integer}
use tesserra.Core.Result.{is_valid, untrusted_key, untrusted_issuer, missing_reference}
use tesserra.Core.Run.Sound.{
  Sound, passes, Sound-bind, Sound-map, Sound-then, Sound-stop_if, Sound-attempt, Sound-require,
}
use tesserra.Core.Values.{is_kind, id_of, kid_of, trust_key, at, local_member}
use tesserra.Core.Verify.Admission.{is_root_credential}
use tesserra.Core.Verify.Admits.{
  is_text_sound, is_some-none, IsIdentified, IsSupported, Sound-embedded,
}
use tesserra.Core.Verify.Signs.{IsSigned, signature_valid-IsSigned, principal_matches_sound}
use tesserra.Core.Verify.Trusts.{starts_later_sound, ended_before_sound}
use tesserra.Core.Verify.Crypto.{signer_credential, verification_jwk}
use tesserra.Core.Verify.Trust.{thousand}
use tesserra.Core.Delegation.Input.{DelegationSetup, credentials, linked_artifacts, valid_trust}
use tesserra.Core.Delegation.Stages.{
  interval_valid, parse_artifact, version_artifact, unique_ids, check_roots, check_signature,
  check_time, trusted_root, check_trust,
}
use tesserra.Core.Delegation.Chain.{check_references}
use tesserra.Core.Delegation.Climbs.{IsReferred}

pub parse-IsIdentified :
    (rt : Runtime) (s : DelegationSetup) (a : Artifact)
    → Sound (λ _. IsIdentified rt a) (parse_artifact rt s a)
unfolding parse_artifact
parse-IsIdentified rt s a = Sound-then (Sound-stop_if _ _ refl) λ envelope.
    Sound-bind (Sound-attempt _) λ t computed. Sound-then (Sound-stop_if _ _ refl) λ stated.
      Sound-bind (Sound-embedded rt a) λ b names.
        Sound-map
          (λ _ same. record {
            envelope = not-eq-false _ envelope;
            address = t;
            computed = computed;
            stated = is_text_sound t _ (not-eq-false _ stated);
            names_key = names same;
          })
          (Sound-stop_if b _ refl)

pub version-IsSupported :
    (rt : Runtime) (s : DelegationSetup) (a : Artifact)
    → Sound (λ _. IsSupported rt a) (version_artifact rt s a)
unfolding version_artifact
version-IsSupported rt s a = Sound-then (Sound-stop_if _ _ refl) λ version.
    Sound-then (Sound-stop_if _ _ refl) λ _. Sound-then (Sound-stop_if _ _ refl) λ _.
      Sound-then (Sound-stop_if _ _ refl) λ critical.
        Sound-map
          (λ _ schema. record {
            version = is_text_sound _ _ (not-eq-false _ version);
            not_critical = is_some-none _ critical;
            schema = not-eq-false _ schema;
          })
          (Sound-stop_if _ _ refl)

-- The trust snapshot is the one that its hash names, the root is a root credential, and the others are
-- credentials.
pub record HasRoots (s : DelegationSetup) : Type 0 where
  pub trust : valid_trust s.input.trust_snapshot s.policy_hash ≡ true
  pub root : is_root_credential s.input.root_credential ≡ true
  pub bindings : All (λ c. not (is_kind "credential" c) ≡ false) s.input.key_binding_credentials

unique_ids-Sound :
    (rt : Runtime) (s : DelegationSetup) (seen : List Text) (artifacts : List Artifact)
    → Sound (λ _. Unit {0}) (unique_ids rt s seen artifacts)
unfolding unique_ids
unique_ids-Sound rt s seen [] = passes tt
unique_ids-Sound rt s seen (a ∷ rest) =
    Sound-then (Sound-stop_if _ _ refl) (λ _. unique_ids-Sound rt s (id_of a ∷ seen) rest)

pub check_roots-HasRoots :
    (rt : Runtime) (s : DelegationSetup) → Sound (λ _. HasRoots s) (check_roots rt s)
unfolding check_roots
check_roots-HasRoots rt s = Sound-then (Sound-stop_if _ _ refl) λ trust.
    Sound-then (Sound-stop_if _ _ refl) λ root. Sound-then (Sound-stop_if _ _ refl) λ bindings.
      Sound-map
        (λ _ _. record {
          trust = not-eq-false _ trust;
          root = not-eq-false _ root;
          bindings = some_of-eq-false _ s.input.key_binding_credentials bindings;
        })
        (unique_ids-Sound rt s [] (linked_artifacts s.input))

-- The artifact is signed by a key that the snapshot or a credential binds, and a delegation by a key of
-- its delegator.
pub record IsAuthentic (rt : Runtime) (s : DelegationSetup) (a : Artifact) : Type 0 where
  pub key : Members
  pub resolved : verification_jwk rt s.input.trust_snapshot (credentials s.input) a ≡ some key
  pub signed : IsSigned rt a key
  pub delegation :
      is_kind "delegation" a ≡ true
      → (c : Members) × (signer_credential rt s.input.trust_snapshot (credentials s.input) a
          ≡ some c)
        × (canonical_equal rt (member "subject" c) (member "delegator" a) ≡ true)

guarded : (a b : Bool) → (a && not b) ≡ false → a ≡ true → b ≡ true
guarded a b h e = ground arith

key_failure :
    (a b : Bool)
    → is_valid (if a then (if b then untrusted_key else untrusted_issuer) else missing_reference)
      ≡ false
key_failure a b = ground arith

pub check_signature-IsAuthentic :
    (rt : Runtime) (s : DelegationSetup) (a : Artifact)
    → Sound (λ _. IsAuthentic rt s a) (check_signature rt s a)
unfolding check_signature
check_signature-IsAuthentic rt s a =
    Sound-bind (Sound-require _ _ (key_failure _ _)) λ key resolved.
      Sound-then (Sound-stop_if _ _ refl) λ ok. Sound-then (Sound-stop_if _ _ refl) λ delegation.
        Sound-map
          (λ _ _. record {
            key = key;
            resolved = resolved;
            signed = signature_valid-IsSigned rt a key (not-eq-false _ ok);
            delegation = λ k. principal_matches_sound rt _ _ a _ (guarded _ _ delegation k);
          })
          (Sound-stop_if _ _ refl)

-- The clock lies in the interval of the artifact and in that of its constraints, both widened by the skew.
pub record IsCurrent (rt : Runtime) (s : DelegationSetup) (a : Artifact) : Type 0 where
  pub interval : interval_valid rt a ≡ true
  pub started :
      (k t : ℤ)
      → thousand (to_integer rt (member "max_clock_skew_seconds" s.input.trust_snapshot)) ≡ some k
      → at rt (member "not_before" a) ≡ some t
      → t -ℤ k ≤ℤ s.input.now
  pub not_ended :
      (k t : ℤ)
      → thousand (to_integer rt (member "max_clock_skew_seconds" s.input.trust_snapshot)) ≡ some k
      → at rt (member "expires_at" a) ≡ some t
      → s.input.now ≤ℤ t +ℤ k
  pub authority_started :
      (k t : ℤ)
      → thousand (to_integer rt (member "max_clock_skew_seconds" s.input.trust_snapshot)) ≡ some k
      → at rt (local_member "not_before" a) ≡ some t
      → t -ℤ k ≤ℤ s.input.now
  pub authority_not_ended :
      (k t : ℤ)
      → thousand (to_integer rt (member "max_clock_skew_seconds" s.input.trust_snapshot)) ≡ some k
      → at rt (local_member "expires_at" a) ≡ some t
      → s.input.now ≤ℤ t +ℤ k

pub check_time-IsCurrent :
    (rt : Runtime) (s : DelegationSetup) (a : Artifact)
    → Sound (λ _. IsCurrent rt s a) (check_time rt s a)
unfolding check_time
check_time-IsCurrent rt s a = Sound-then (Sound-stop_if _ _ refl) λ interval.
    Sound-then (Sound-stop_if _ _ refl) λ starts.
      Sound-map
        (λ _ ends. record {
          interval = not-eq-false _ interval;
          started = λ k t. starts_later_sound _ _ _ k t (||-eq-false _ _ starts).0;
          not_ended = λ k t. ended_before_sound _ _ _ k t (||-eq-false _ _ ends).0;
          authority_started = λ k t. starts_later_sound _ _ _ k t (||-eq-false _ _ starts).1;
          authority_not_ended = λ k t. ended_before_sound _ _ _ k t (||-eq-false _ _ ends).1;
        })
        (Sound-stop_if _ _ refl)

-- The issuer of the root is pinned, and the snapshot lists the root.
pub record IsTrusted (rt : Runtime) (s : DelegationSetup) : Type 0 where
  pub authority : Members
  pub pinned :
      trust_key s.input.trust_snapshot (kid_of s.input.root_credential) "issuer_authorities"
      ≡ some authority
  pub issuer :
      canonical_equal rt (member "principal" authority) (member "issuer" s.input.root_credential)
      ≡ true
  pub listed : trusted_root rt s ≡ true

pub check_trust-IsTrusted :
    (rt : Runtime) (s : DelegationSetup) → Sound (λ _. IsTrusted rt s) (check_trust rt s)
unfolding check_trust
check_trust-IsTrusted rt s = Sound-then (Sound-stop_if _ _ refl) λ issuer.
    let (authority, pinned, same) =
      principal_matches_sound rt _ _ s.input.root_credential _ (not-eq-false _ issuer) in
    Sound-map
      (λ _ listed. record {
        authority = authority;
        pinned = pinned;
        issuer = same;
        listed = not-eq-false _ listed;
      })
      (Sound-stop_if _ _ refl)

abbrev pub IsReferring : DelegationSetup → Artifact → Type 0
IsReferring s a = (parent : Artifact) × IsReferred s a parent

pub check_references-IsReferring :
    (s : DelegationSetup) (a : Artifact) → Sound (λ _. IsReferring s a) (check_references s a)
unfolding check_references
check_references-IsReferring s a = Sound-bind (Sound-require _ _ refl) λ parent found.
    Sound-map (λ _ kind. (parent, record { found = found; kind = not-eq-false _ kind }))
      (Sound-stop_if _ _ refl)
