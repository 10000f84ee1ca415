-- ===== src/Core/Verify/Reports.antt =====
-- What every result of verifyArtifacts says of its run: the stages from PARSE to the chain.
use tesserra.Prelude.{
  ◌≡◌, refl, Bool, true, false, Option, none, some, List, [], ◌∷◌, Text, ℕ, zero, suc, ◌++◌,
  Bool-cases, inl, inr,
}
use tesserra.Json.{Members, Artifact}
use tesserra.Runtime.{Runtime}
use tesserra.Core.Result.{DecisionCode, Evidence, is_valid, VerificationResult}
use tesserra.Core.Run.{stop_if}
use tesserra.Core.Run.Ends.{
  goes, Stops, Ends-bind, Ends-then, Stops-stop_if, Stops-attempt, Stops-require, Stops-each,
  runs_out,
}
use tesserra.Core.Values.{id_of, is_kind}
use tesserra.Core.Verify.Input.{Setup, OutputOptions, no_options, result, result_with}
use tesserra.Core.Verify.Admission.{
  compared_key, embedded_key_differs, parse_artifact, version_artifact, unique_ids, admission,
}
use tesserra.Core.Verify.Crypto.{check_signature, find_request, is_link}
use tesserra.Core.Verify.Trust.{check_time, find_root}
use tesserra.Core.Verify.Status.{offline_inspection}
use tesserra.Core.Verify.Chain.{missing_parent, next_link, walk, find_chain, check_attenuation}

-- What a result says of the run that its setup starts: the flag `valid` is that of the code, the clock and
-- the hashes are those of the input, the status is called fresh only where the caller does not inspect
-- offline, and the replay is called checked only where that is so and the caller asked for the check.
pub record Reports (s : Setup) (r : VerificationResult) : Type 0 where
  pub flag : r.valid ≡ is_valid r.code
  pub now : r.verifier_now ≡ s.input.now
  pub policy : r.policy_hash ≡ s.policy_hash
  pub status : r.status_snapshot_hash ≡ s.status_hash
  pub fresh : r.status_fresh ≡ true → offline_inspection s ≡ false
  pub replay :
      r.replay_checked ≡ true → (r.status_fresh ≡ true) × (s.input.context.replay_required ≡ true)

module _ (s : Setup) where
  pub result-Reports :
      (code : DecisionCode) (ids : Evidence) (options : OutputOptions)
      → (options.status_fresh ≡ true → offline_inspection s ≡ false)
      → (options.replay_checked ≡ true
          → (options.status_fresh ≡ true) × (s.input.context.replay_required ≡ true))
      → Reports s (result_with s code ids options)
  result-Reports code ids options f g = record {
    flag = refl;
    now = refl;
    policy = refl;
    status = refl;
    fresh = f;
    replay = g;
  }

  pub early : (code : DecisionCode) (ids : Evidence) → Reports s (result s code ids)
  early code ids = result-Reports code ids no_options (λ e. cc) (λ e. absurd cc)

  pub halts :
      (b : Bool) (code : DecisionCode) (ids : Evidence)
      → Stops (Reports s) (stop_if b (result s code ids))
  halts b code ids = Stops-stop_if b _ (λ h. early code ids)

  compared_key-Stops :
      (rt : Runtime) (a : Artifact) (key : Option Members)
      → Stops (Reports s) (compared_key rt a key)
  unfolding compared_key
  compared_key-Stops rt a none = goes tt
  compared_key-Stops rt a (some key) = Ends-bind (Stops-attempt _) (λ computed. goes tt)

  module _ (rt : Runtime) where
    parse-Stops : (a : Artifact) → Stops (Reports s) (parse_artifact rt s a)
    unfolding parse_artifact embedded_key_differs
    parse-Stops a = Ends-then (halts _ _ _) (
        Ends-bind (Stops-attempt _) (λ computed. Ends-then (halts _ _ _) (
          Ends-bind (compared_key-Stops rt a _)
            (λ mismatch. Ends-then (halts _ _ _) (halts _ _ _)))))

    version-Stops : (a : Artifact) → Stops (Reports s) (version_artifact rt s a)
    unfolding version_artifact
    version-Stops a = Ends-then (halts _ _ _) (
        Ends-then (halts _ _ _) (
          Ends-then (halts _ _ _)
            (Ends-then (halts _ _ _) (Ends-then (halts _ _ _) (halts _ _ _)))))

    unique_ids-Stops :
        (seen : List Text) (artifacts : List Artifact)
        → Stops (Reports s) (unique_ids rt s seen artifacts)
    unfolding unique_ids
    unique_ids-Stops seen [] = goes tt
    unique_ids-Stops seen (a ∷ rest) =
        Ends-then (halts _ _ _) (unique_ids-Stops (id_of a ∷ seen) rest)

    pub admission-Stops : Stops (Reports s) (admission rt s)
    unfolding admission
    admission-Stops =
        Ends-then (Stops-each _ parse-Stops)
          (Ends-then (Stops-each _ version-Stops) (Ends-then (halts _ _ _) (unique_ids-Stops [] _)))

    pub check_signature-Stops : (a : Artifact) → Stops (Reports s) (check_signature rt s a)
    unfolding check_signature
    check_signature-Stops a = Ends-bind (Stops-require _ _ (early _ _)) (λ key.
        Ends-then (halts _ _ _) (
          Ends-then (halts _ _ _)
            (Ends-then (halts _ _ _) (Ends-then (halts _ _ _) (halts _ _ _)))))

    pub find_request-Stops : Stops (Reports s) (find_request rt s)
    unfolding find_request
    find_request-Stops =
        Ends-bind (Stops-require _ _ (early _ _)) (λ request. Ends-then (halts _ _ _) (goes tt))

    pub check_time-Stops : (a : Artifact) → Stops (Reports s) (check_time rt s a)
    unfolding check_time
    check_time-Stops a = Ends-then (halts _ _ _) (Ends-then (halts _ _ _) (halts _ _ _))

    pub find_root-Stops : Stops (Reports s) (find_root rt s)
    unfolding find_root
    find_root-Stops =
        Ends-bind (Stops-require _ _ (early _ _))
          (λ root. Ends-then (halts _ _ _) (Ends-then (halts _ _ _) (goes tt)))

module _ (rt : Runtime) (s : Setup) where
  missing-Reports :
      (root current : Artifact) (chain : List Artifact)
      → Reports s (missing_parent rt s root current chain)
  unfolding missing_parent
  missing-Reports root current chain = elim (Bool-cases (is_kind "request" current)) [
    | inl e ↦ rw e (early s _ _)
    | inr e ↦ rw e (early s _ _)
  ]

  next_link-Stops :
      (root current : Artifact) (chain : List Artifact)
      → Stops (Reports s) (next_link rt s root current chain)
  unfolding next_link
  next_link-Stops root current chain =
      Ends-bind (Stops-require _ _ (missing-Reports root current chain)) (λ parent.
        Ends-then (halts s _ _ _) (
          Ends-then (halts s _ _ _) (
            Ends-then (halts s _ _ _)
              (Ends-then (halts s _ _ _) (Ends-then (halts s _ _ _) (goes tt))))))

  walk-Stops :
      (root : Artifact) (fuel : ℕ) (current : Artifact) (chain : List Artifact)
      → Stops (Reports s) (walk rt s root fuel current chain)
  unfolding walk
  walk-Stops root zero current chain = runs_out
  walk-Stops root (suc fuel) current chain = elim (Bool-cases (is_link current)) [
    | inl e ↦
        rw (e, walk)
          (Ends-bind (next_link-Stops root current chain)
            (λ parent. walk-Stops root fuel parent (chain ++ (parent ∷ []))))
    | inr e ↦ rw (e, walk) (goes tt)
  ]

  pub find_chain-Stops :
      (root request : Artifact) → Stops (Reports s) (find_chain rt s root request)
  unfolding find_chain
  find_chain-Stops root request =
      Ends-bind (walk-Stops root _ request _) (λ chain. Ends-then (halts s _ _ _) (goes tt))

  pub check_attenuation-Stops :
      (root : Artifact) (chain : List Artifact)
      → Stops (Reports s) (check_attenuation rt s root chain)
  unfolding check_attenuation
  check_attenuation-Stops root chain = halts s _ _ _
