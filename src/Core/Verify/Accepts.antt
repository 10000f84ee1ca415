-- ===== src/Core/Verify/Accepts.antt =====
-- What a VALID result of verifyArtifacts stands for, and that the verifier always comes to an end.
use tesserra.Prelude.{◌≡◌, ◌≢◌, refl, true, some, List, [], ◌∷◌, All, Any, String, ap}
use tesserra.Json.{Json, Artifact}
use tesserra.Runtime.{Runtime}
use tesserra.Core.Result.{valid, is_valid, VerificationResult}
use tesserra.Core.Run.{returned, unfinished}
use tesserra.Core.Run.Sound.{
  Sound, passes, Sound-bind, Sound-map, Sound-then, Sound-stop_if, Sound-attempt, Sound-each,
  outcome-valid, outcome-finished,
}
use tesserra.Core.Values.{contains, local_member}
use tesserra.Core.Verify.Input.{VerificationInput, Setup, policy_hash, status_hash, set_up}
use tesserra.Core.Verify.Admits.{IsAdmitted, admission-IsAdmitted}
use tesserra.Core.Verify.Signs.{
  IsAuthentic, IsExpected, check_signature-IsAuthentic, find_request-IsExpected,
}
use tesserra.Core.Verify.Trusts.{
  IsCurrent, IsTrustedRoot, check_time-IsCurrent, find_root-IsTrustedRoot,
}
use tesserra.Core.Verify.Chain.{behind_request, check_attenuation}
use tesserra.Core.Verify.Walk.{IsRooted, find_chain-IsRooted}
use tesserra.Core.Verify.Authority.{IsAttenuated, some_amplifies-IsAttenuated, Grants, Grants-all}
use tesserra.Core.Verify.Lives.{IsLive, check_status-IsLive}
use tesserra.Core.Verify.Binds.{
  IsBound, IsConcluded, check_binding-IsBound, check_replay-IsConcluded,
}
use tesserra.Core.Verify.Binding.{second_or}
use tesserra.Core.Verify.{stages, verify, verify_artifacts}

-- The evidence that a VALID result rests on.
pub record IsAccepted (rt : Runtime) (s : Setup) (r : VerificationResult) : Type 0 where
  pub request : Artifact
  pub root : Artifact
  pub chain : List Artifact
  pub admitted : IsAdmitted rt s
  pub authentic : All (IsAuthentic rt s) s.input.artifacts
  pub expected : IsExpected s request
  pub current : All (IsCurrent rt s) s.input.artifacts
  pub trusted : IsTrustedRoot rt s root
  pub rooted : IsRooted rt s root request chain
  pub attenuated : IsAttenuated rt (behind_request chain)
  pub live : IsLive rt s chain
  pub bound : IsBound rt s root request chain
  pub concluded : IsConcluded s chain r

check_attenuation-IsAttenuated :
    (rt : Runtime) (s : Setup) (root : Artifact) (chain : List Artifact)
    → Sound (λ _. IsAttenuated rt (behind_request chain)) (check_attenuation rt s root chain)
unfolding check_attenuation
check_attenuation-IsAttenuated rt s root chain =
    Sound-map (λ _ h. some_amplifies-IsAttenuated rt (behind_request chain) h)
      (Sound-stop_if _ _ refl)

stages-IsAccepted : (rt : Runtime) (s : Setup) → Sound (IsAccepted rt s) (stages rt s)
unfolding stages
stages-IsAccepted rt s = Sound-then (admission-IsAdmitted rt s) λ admitted.
    Sound-then (Sound-each s.input.artifacts (check_signature-IsAuthentic rt s)) λ authentic.
      Sound-bind (find_request-IsExpected rt s) λ request expected.
        Sound-then (Sound-each s.input.artifacts (check_time-IsCurrent rt s)) λ current.
          Sound-bind (find_root-IsTrustedRoot rt s) λ root trusted.
            Sound-bind (find_chain-IsRooted rt s root request) λ chain rooted.
              Sound-then (check_attenuation-IsAttenuated rt s root chain) λ attenuated.
                Sound-then (check_status-IsLive rt s chain) λ live.
                  Sound-then (check_binding-IsBound rt s root request chain) λ bound.
                    Sound-map
                      (λ r concluded. record {
                        request = request;
                        root = root;
                        chain = chain;
                        admitted = admitted;
                        authentic = authentic;
                        expected = expected;
                        current = current;
                        trusted = trusted;
                        rooted = rooted;
                        attenuated = attenuated;
                        live = live;
                        bound = bound;
                        concluded = concluded;
                      })
                      (check_replay-IsConcluded rt s root request chain)

-- The hashes that the stages start from are those of the input.
pub record IsSetUp (rt : Runtime) (input : VerificationInput) (s : Setup) : Type 0 where
  pub same : s.input ≡ input
  pub policy : policy_hash rt input.trust_snapshot ≡ some s.policy_hash
  pub status : status_hash rt input.artifacts ≡ some s.status_hash

set_up-IsSetUp :
    (rt : Runtime) (input : VerificationInput) → Sound (IsSetUp rt input) (set_up rt input)
unfolding set_up
set_up-IsSetUp rt input = Sound-bind (Sound-attempt _) λ policy p.
    Sound-bind (Sound-attempt _) λ status q. passes (record { same = refl; policy = p; status = q })

-- The setup of a run together with what its result rests on.
pub record Acceptance (rt : Runtime) (input : VerificationInput) (r : VerificationResult)
    : Type 0 where
  pub setup : Setup
  pub is_set_up : IsSetUp rt input setup
  pub accepted : IsAccepted rt setup r

verify-Acceptance :
    (rt : Runtime) (input : VerificationInput) → Sound (Acceptance rt input) (verify rt input)
unfolding verify
verify-Acceptance rt input = Sound-bind (set_up-IsSetUp rt input) λ s p.
    Sound-map (λ r a. record { setup = s; is_set_up = p; accepted = a }) (stages-IsAccepted rt s)

-- A result VALID of verifyArtifacts rests on complete evidence: every artifact is identified by its
-- content, schema-valid, signed by a pinned or credentialed key of the principal it names, and current;
-- the request has the expected digests; the root is trusted; a path without repetition leads from the
-- request to the root, within the depth bound, and never amplifies authority; every key on it is usable
-- and nothing on it revoked; the request is bound to the caller's context; and the result's flags say
-- what was checked.
pub valid-Acceptance :
    (rt : Runtime) (input : VerificationInput) (r : VerificationResult)
    → verify_artifacts rt input ≡ returned r
    → r.code ≡ valid
    → Acceptance rt input r
unfolding verify_artifacts
valid-Acceptance rt input r h v = outcome-valid r (verify-Acceptance rt input) h (ap is_valid v)

-- verifyArtifacts returns or throws on every input: the walk to the root, bounded by one more round than
-- there are artifacts, never runs out.
pub verify_artifacts_ends :
    (rt : Runtime) (input : VerificationInput) → verify_artifacts rt input ≢ unfinished
unfolding verify_artifacts
verify_artifacts_ends rt input = outcome-finished (verify-Acceptance rt input)

-- The authorities of a chain: its artifacts behind the request.
pub granted_by_all :
    (rt : Runtime) (field : String) (v : Json) (root request : Artifact) (chain : List Artifact)
    → Any (λ f. f ≡ field) ("capabilities" ∷ "resources" ∷ "tasks" ∷ "audiences" ∷ [])
    → IsAttenuated rt (behind_request chain)
    → contains rt (local_member field (second_or root chain)) (some v) ≡ true
    → All (Grants rt field v) (behind_request chain)
granted_by_all rt field v root request [] limited h g = tt
granted_by_all rt field v root request (x ∷ []) limited h g = tt
granted_by_all rt field v root request (x ∷ first ∷ rest) limited h g =
    Grants-all rt field v first rest limited h g
