-- ===== src/Core/Verify/Trusts.antt =====
-- What holds of the artifacts and the root behind the stages TIME and TRUST of verifyArtifacts.
use tesserra.Prelude.{
  ◌≡◌, refl, Bool, true, false, ◌&&◌, Option, some, Any, arith, not-eq-false, some_of-eq-true,
  ||-eq-false, find, Any-map_imp,
}
use tesserra.Prelude.Int.{ℤ, ◌+ℤ◌, ◌-ℤ◌, ◌≤ℤ◌, ltb_ℤ-eq-false}
use tesserra.Json.{Members, Artifact, member, is_literal}
use tesserra.Runtime.{Runtime}
use tesserra.Protocol.Canonical.{canonical_equal}
use tesserra.Core.Run.Sound.{
  Sound, passes, Sound-bind, Sound-map, Sound-then, Sound-stop_if, Sound-require,
}
use tesserra.Core.Values.{kid_of, at, trust_key, local_member, array_or_empty, objects_of}
use tesserra.Core.Verify.Input.{Setup}
use tesserra.Core.Verify.Admission.{is_root_credential}
use tesserra.Core.Verify.Trust.{
  check_time, interval_valid, skew, starts_later, ended_before, root_allowed, find_root,
}
use tesserra.Core.Verify.Signs.{principal_matches_sound}

-- The clock lies in every interval of the artifact, widened by the skew.
pub record IsCurrent (rt : Runtime) (s : Setup) (a : Artifact) : Type 0 where
  pub interval : interval_valid rt a ≡ true
  pub started :
      (k t : ℤ)
      → skew rt s ≡ some k
      → at rt (member "not_before" a) ≡ some t
      → t -ℤ k ≤ℤ s.input.now
  pub authority_started :
      (k t : ℤ)
      → skew rt s ≡ some k
      → at rt (local_member "not_before" a) ≡ some t
      → t -ℤ k ≤ℤ s.input.now
  pub not_ended :
      (k t : ℤ)
      → skew rt s ≡ some k
      → at rt (member "expires_at" a) ≡ some t
      → s.input.now ≤ℤ t +ℤ k
  pub authority_not_ended :
      (k t : ℤ)
      → skew rt s ≡ some k
      → at rt (local_member "expires_at" a) ≡ some t
      → s.input.now ≤ℤ t +ℤ k

pub starts_later_sound :
    (now : ℤ) (o p : Option ℤ) (k t : ℤ)
    → starts_later now o p ≡ false
    → o ≡ some k
    → p ≡ some t
    → t -ℤ k ≤ℤ now
starts_later_sound now o p k t h e f = ltb_ℤ-eq-false now (t -ℤ k) (rw (e, f) at h)

pub ended_before_sound :
    (now : ℤ) (o p : Option ℤ) (k t : ℤ)
    → ended_before now o p ≡ false
    → o ≡ some k
    → p ≡ some t
    → now ≤ℤ t +ℤ k
ended_before_sound now o p k t h e f = ltb_ℤ-eq-false (t +ℤ k) now (rw (e, f) at h)

pub check_time-IsCurrent :
    (rt : Runtime) (s : Setup) (a : Artifact) → Sound (λ _. IsCurrent rt s a) (check_time rt s a)
unfolding check_time
check_time-IsCurrent rt s a = Sound-then (Sound-stop_if _ _ refl) λ interval.
    Sound-then (Sound-stop_if _ _ refl) λ starts.
      Sound-map
        (λ _ ends. record {
          interval = not-eq-false _ interval;
          started = λ k t. starts_later_sound _ _ _ k t (||-eq-false _ _ starts).0;
          authority_started = λ k t. starts_later_sound _ _ _ k t (||-eq-false _ _ starts).1;
          not_ended = λ k t. ended_before_sound _ _ _ k t (||-eq-false _ _ ends).0;
          authority_not_ended = λ k t. ended_before_sound _ _ _ k t (||-eq-false _ _ ends).1;
        })
        (Sound-stop_if _ _ refl)

-- The snapshot lists the issuer of a root together with its subject.
abbrev pub IsListed : Runtime → Setup → Artifact → Type 0
IsListed rt s root =
    Any
      (λ e.
        (canonical_equal rt (member "issuer" e) (member "issuer" root) ≡ true)
        × (canonical_equal rt (member "root_subject" e) (member "subject" root) ≡ true)
        × (is_literal "agent-root-authority" (member "credential_purpose" e) ≡ true))
      (objects_of (array_or_empty (member "roots" s.input.trust_snapshot)))

-- The root credential's issuer holds the pinned key that signed it, and the snapshot lists the issuer
-- together with the root's subject.
pub record IsTrustedRoot (rt : Runtime) (s : Setup) (root : Artifact) : Type 0 where
  pub found : find is_root_credential s.input.artifacts ≡ some root
  pub authority : Members
  pub pinned : trust_key s.input.trust_snapshot (kid_of root) "issuer_authorities" ≡ some authority
  pub issuer : canonical_equal rt (member "principal" authority) (member "issuer" root) ≡ true
  pub listed : IsListed rt s root

conjuncts : (a b c : Bool) → (a && b && c) ≡ true → (a ≡ true) × (b ≡ true) × (c ≡ true)
conjuncts a b c h = ground arith

root_allowed-IsListed :
    (rt : Runtime) (s : Setup) (root : Artifact)
    → root_allowed rt s root ≡ true
    → IsListed rt s root
unfolding root_allowed
root_allowed-IsListed rt s root h =
    Any-map_imp (λ e t. conjuncts _ _ _ t)
      (some_of-eq-true _ (objects_of (array_or_empty (member "roots" s.input.trust_snapshot))) h)

pub find_root-IsTrustedRoot :
    (rt : Runtime) (s : Setup) → Sound (IsTrustedRoot rt s) (find_root rt s)
unfolding find_root
find_root-IsTrustedRoot rt s = Sound-bind (Sound-require _ _ refl) λ root found.
    Sound-then (Sound-stop_if _ _ refl) λ issuer. Sound-then (Sound-stop_if _ _ refl) λ allowed.
      let (authority, pinned, same) =
        principal_matches_sound rt
          (trust_key s.input.trust_snapshot (kid_of root) "issuer_authorities") "principal" root
          "issuer" (not-eq-false _ issuer) in
      passes (record {
        found = found;
        authority = authority;
        pinned = pinned;
        issuer = same;
        listed = root_allowed-IsListed rt s root (not-eq-false _ allowed);
      })
