-- ===== src/Core/Verify/Reported.antt =====
-- What every result of verifyArtifacts says of its run: the stages from STATUS to the end.
use tesserra.Prelude.{
  ◌≡◌, refl, Bool, true, false, Option, none, some, List, [], ◌∷◌, Text, Bool-cases, Option-cases,
  inl, inr, &&-eq-true,
}
use tesserra.Json.{Json, Members, Artifact}
use tesserra.Runtime.{Runtime}
use tesserra.Core.Result.{
  historical_snapshot, offline_status_not_fresh, offline_replay_not_checked, WarningCode,
  DecisionCode, Evidence, VerificationResult,
}
use tesserra.Core.Run.{attempt, ◌>>=◌, stop_if, returned}
use tesserra.Core.Run.Ends.{
  Ends, goes, throws, Ends-map, Stops, Ends-bind, Ends-then, Stops-stop_if, Stops-attempt,
  Stops-each, outcome-Ends,
}
use tesserra.Core.Verify.Input.{
  VerificationInput, Setup, OutputOptions, fresh_options, policy_hash, status_hash, set_up,
  result_with,
}
use tesserra.Core.Verify.Status.{
  offline_inspection, check_fresh, fresh_unless, check_selected, standing, check_key, check_status,
}
use tesserra.Core.Verify.Binding.{
  same_status, same_hashes, historical, historical_valid, binding_options, check_binding, conclude,
  check_online, check_replay,
}
use tesserra.Core.Verify.{stages, verify, verify_artifacts}
use tesserra.Core.Verify.Accepts.{IsSetUp}
use tesserra.Core.Verify.Reports.{
  Reports, result-Reports, early, halts, admission-Stops, check_signature-Stops, find_request-Stops,
  check_time-Stops, find_root-Stops, find_chain-Stops, check_attenuation-Stops,
}

abbrev checked : Setup → Option (List WarningCode) → OutputOptions
checked s warnings = record {
  status_fresh = true;
  replay_checked = s.input.context.replay_required;
  warnings = warnings;
}

module _ (rt : Runtime) (s : Setup) where
  module _ (chain : List Artifact) where
    check_fresh-Stops :
        (key : Text) (selected : Artifact) → Stops (Reports s) (check_fresh rt s chain key selected)
    unfolding check_fresh
    check_fresh-Stops key selected =
        Ends-then (halts s _ _ _)
          (Ends-bind (Stops-attempt _) (λ digest. Ends-then (halts s _ _ _) (halts s _ _ _)))

    fresh_unless-Stops :
        (key : Text) (selected : Artifact) (offline : Bool)
        → Stops (Reports s) (fresh_unless rt s chain key selected offline)
    unfolding fresh_unless
    fresh_unless-Stops key selected true = goes tt
    fresh_unless-Stops key selected false = check_fresh-Stops key selected

    standing-Stops :
        (key : Text) (o : Option Artifact) → Stops (Reports s) (standing rt s chain key o)
    unfolding standing check_selected
    standing-Stops key none = halts s _ _ _
    standing-Stops key (some selected) = Ends-then (halts s _ _ _) (
        Ends-bind (Stops-attempt _)
          (λ linked_up. Ends-then (halts s _ _ _) (fresh_unless-Stops key selected _)))

    check_status-Stops : Stops (Reports s) (check_status rt s chain)
    unfolding check_status check_key
    check_status-Stops = Ends-then (Stops-each _ (λ key. standing-Stops key _)) (halts s _ _ _)

  same_status-Stops :
      (archived : Members) (records : List Json) (b : Bool)
      → Stops (Reports s) (same_status rt archived records b)
  unfolding same_status
  same_status-Stops archived records false = goes tt
  same_status-Stops archived records true = Ends-bind (Stops-attempt _) (λ status. goes tt)

  historical-Stops :
      (archived : Members) (content : Option Members) (records : Option (List Json)) (mode : Bool)
      → Stops (Reports s) (historical rt archived content records mode)
  unfolding historical same_hashes
  historical-Stops archived none records mode = goes tt
  historical-Stops archived (some content) none mode = goes tt
  historical-Stops archived (some content) (some records) true =
      Ends-bind (Stops-attempt _) (λ policy. same_status-Stops archived records _)
  historical-Stops archived (some content) (some records) false = goes tt

  module _ (root request : Artifact) (chain : List Artifact) where
    bound :
        (b : Bool) (code : DecisionCode) (ids : Evidence)
        → Stops
            (Reports s)
            (stop_if b (result_with s code ids (binding_options rt s root request chain)))
    bound b code ids = Stops-stop_if b _ (λ h. elim (Bool-cases (offline_inspection s)) [
      | inl e ↦ rw e (early s code ids)
      | inr e ↦ rw e (result-Reports s code ids fresh_options (λ f. e) (λ g. absurd cc))
    ])

    check_binding-Stops : Stops (Reports s) (check_binding rt s root request chain)
    unfolding check_binding
    check_binding-Stops =
        Ends-then (bound _ _ _) (
          Ends-then (bound _ _ _) (Ends-then (bound _ _ _) (Ends-then (bound _ _ _) (bound _ _ _))))

    module _ (online : offline_inspection s ≡ false) where
      conclude-Ends :
          (archived : Option Members)
          → Ends (Reports s) (Reports s) (conclude rt s root request chain archived)
      unfolding conclude historical_valid
      conclude-Ends none =
          goes (result-Reports s _ _ (checked s none) (λ e. online) (λ e. (refl, e)))
      conclude-Ends (some archived) = Ends-bind (historical-Stops archived _ _ _) (λ ok.
          Ends-then
            (Stops-stop_if _ _
              (λ h. result-Reports s _ _ fresh_options (λ e. online) (λ e. absurd cc)))
            (goes (
              result-Reports s _ _ (checked s (some (historical_snapshot ∷ []))) (λ e. online)
                (λ e. (refl, e)))))

      check_online-Ends : Ends (Reports s) (Reports s) (check_online rt s root request chain)
      unfolding check_online
      check_online-Ends =
          Ends-then
            (Stops-stop_if _ _
              (λ h. result-Reports s _ _ fresh_options (λ e. online) (λ e. absurd cc)))
            (Ends-then
              (Stops-stop_if _ _ (λ h.
                result-Reports s _ _
                  (record { status_fresh = true; replay_checked = true; warnings = none })
                  (λ e. online) (λ e. (refl, (&&-eq-true _ _ h).0))))
              (conclude-Ends s.input.archived_snapshot))

    check_replay-Ends : Ends (Reports s) (Reports s) (check_replay rt s root request chain)
    unfolding check_replay
    check_replay-Ends = elim (Bool-cases (offline_inspection s)) [
      | inl e ↦ rw e (
          goes (
            result-Reports s _ _
              (record {
                status_fresh = false;
                replay_checked = false;
                warnings = some (offline_status_not_fresh ∷ offline_replay_not_checked ∷ []);
              })
              (λ f. absurd cc) (λ g. absurd cc)))
      | inr e ↦ rw e (check_online-Ends e)
    ]

  stages-Ends : Ends (Reports s) (Reports s) (stages rt s)
  unfolding stages
  stages-Ends = Ends-then (admission-Stops s rt) (
      Ends-then (Stops-each _ (check_signature-Stops s rt)) (
        Ends-bind (find_request-Stops s rt) (λ request.
          Ends-then (Stops-each _ (check_time-Stops s rt)) (
            Ends-bind (find_root-Stops s rt) (λ root.
              Ends-bind (find_chain-Stops rt s root request) (λ chain.
                Ends-then (check_attenuation-Stops rt s root chain) (
                  Ends-then (check_status-Stops chain) (
                    Ends-then (check_binding-Stops root request chain)
                      (check_replay-Ends root request chain)))))))))

-- The setup that a run starts from, which is that of the input, and what the result says of it.
pub record IsReported (rt : Runtime) (input : VerificationInput) (r : VerificationResult)
    : Type 0 where
  pub setup : Setup
  pub is_set_up : IsSetUp rt input setup
  pub reports : Reports setup r

verify-Ends :
    (rt : Runtime) (input : VerificationInput)
    → Ends (IsReported rt input) (IsReported rt input) (verify rt input)
unfolding verify set_up attempt ◌>>=◌
verify-Ends rt input = elim (Option-cases (policy_hash rt input.trust_snapshot)) [
  | inl e ↦ rw e throws
  | inr (policy, e) ↦ elim (Option-cases (status_hash rt input.artifacts)) [
    | inl f ↦ rw (e, f) throws
    | inr (status, f) ↦
        rw (e, f)
          (Ends-map
            (λ r p. record {
              setup = record { input = input; policy_hash = policy; status_hash = status };
              is_set_up = record { same = refl; policy = e; status = f };
              reports = p;
            })
            (stages-Ends rt (record { input = input; policy_hash = policy; status_hash = status })))
  ]
]

-- Whatever verifyArtifacts returns, early or at its end: the flag `valid` is set for the code VALID only,
-- the clock and the two hashes are those of the input, fresh status is claimed only where the caller does
-- not inspect offline, and a replay check only where fresh status is claimed and the caller asked for it.
pub returned-IsReported :
    (rt : Runtime) (input : VerificationInput) (r : VerificationResult)
    → verify_artifacts rt input ≡ returned r
    → IsReported rt input r
unfolding verify_artifacts
returned-IsReported rt input r h = outcome-Ends r (verify-Ends rt input) h
