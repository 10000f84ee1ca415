-- ===== src/Core/Verify/Trust.antt =====
-- The stages TIME and TRUST of verifyArtifacts (packages/core/src/verify.ts).
use tesserra.Prelude.{
  ◌+◌, Bool, true, false, not, ◌&&◌, ◌||◌, Option, none, some, if◌then◌else◌, some_of, find, ◌*◌,
}
use tesserra.Prelude.Int.{ℤ, pos, negsuc, ◌+ℤ◌, ◌-ℤ◌, ltb_ℤ}
use tesserra.Json.{Artifact, member, is_string, is_literal}
use tesserra.Runtime.{Runtime}
use tesserra.Protocol.Canonical.{canonical_equal}
use tesserra.Protocol.Coerce.{to_integer}
use tesserra.Core.Result.{
  untrusted_issuer, invalid_time_interval, not_yet_valid, expired, mixed_trust_root,
}
use tesserra.Core.Run.{Run, pass, ◌>>=◌, ◌>>◌, stop_if, require}
use tesserra.Core.Values.{
  array_or_empty, objects_of, kid_of, local_member, trust_key, constraints, at, at_most,
}
use tesserra.Core.Verify.Input.{Setup, result}
use tesserra.Core.Verify.Admission.{is_root_credential, preflight_chain_evidence}
use tesserra.Core.Verify.Crypto.{principal_matches, request_evidence}

-- now < at(value) - skew, or now > at(value) + skew, for a bound that is there
abbrev pub starts_later : ℤ → Option ℤ → Option ℤ → Bool
starts_later now (some skew) (some t) = ltb_ℤ now (t -ℤ skew)
starts_later now _ _ = false

abbrev pub ended_before : ℤ → Option ℤ → Option ℤ → Bool
ended_before now (some skew) (some t) = ltb_ℤ (t +ℤ skew) now
ended_before now _ _ = false

-- Number(value) * 1000
abbrev pub thousand : Option ℤ → Option ℤ
thousand none = none
thousand (some (pos n)) = some (pos (n * 1000))
thousand (some (negsuc n)) = some (negsuc (n * 1000 + 999))

-- string(value.not_before) || string(value.expires_at) asks for the order of the artifact's own interval
abbrev pub own_interval_valid : Runtime → Artifact → Bool
own_interval_valid rt a =
    if is_string (member "not_before" a) || is_string (member "expires_at" a)
    then at_most (at rt (member "not_before" a)) (at rt (member "issued_at" a))
      && at_most (at rt (member "issued_at" a)) (at rt (member "expires_at" a))
    else true

-- intervalValid(value)
unfoldable pub interval_valid : Runtime → Artifact → Bool
interval_valid rt a = own_interval_valid rt a && (elim (constraints a) [
  | none ↦ true
  | some local ↦ at_most (at rt (member "not_before" local)) (at rt (member "expires_at" local))
])

module _ (rt : Runtime) (s : Setup) where
  abbrev pub skew : Option ℤ
  skew = thousand (to_integer rt (member "max_clock_skew_seconds" s.input.trust_snapshot))

  -- The body of the TIME loop.
  unfoldable pub check_time : Artifact → Run (Unit {0})
  check_time a = do
    let evidence = request_evidence s.input.artifacts
    stop_if (not (interval_valid rt a)) (result s invalid_time_interval evidence)
    stop_if
        (starts_later s.input.now skew (at rt (member "not_before" a))
          || starts_later s.input.now skew (at rt (local_member "not_before" a)))
        (result s not_yet_valid evidence)
    stop_if
        (ended_before s.input.now skew (at rt (member "expires_at" a))
          || ended_before s.input.now skew (at rt (local_member "expires_at" a)))
        (result s expired evidence)

  -- rootAllowed
  unfoldable pub root_allowed : Artifact → Bool
  root_allowed root =
      some_of
        (λ e.
          canonical_equal rt (member "issuer" e) (member "issuer" root)
          && canonical_equal rt (member "root_subject" e) (member "subject" root)
          && is_literal "agent-root-authority" (member "credential_purpose" e))
        (objects_of (array_or_empty (member "roots" s.input.trust_snapshot)))

  -- TRUST
  unfoldable pub find_root : Run Artifact
  find_root = do
    let evidence = preflight_chain_evidence s.input.artifacts
    root ← require (find is_root_credential s.input.artifacts) (result s mixed_trust_root evidence)
    stop_if
        (not (
          principal_matches rt (trust_key s.input.trust_snapshot (kid_of root) "issuer_authorities")
            "principal" root "issuer"))
        (result s untrusted_issuer evidence)
    stop_if (not (root_allowed root)) (result s mixed_trust_root evidence)
    pass root
