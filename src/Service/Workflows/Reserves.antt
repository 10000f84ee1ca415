-- ===== src/Service/Workflows/Reserves.antt =====
-- A VALID answer to a request that has to be replay-checked rests on a consumed replay key.
use tesserra.Prelude.{
  ◌≡◌, ◌≢◌, refl, ap, true, false, none, some, List, ◌++◌, ℕ, Bool-cases, Option-cases, inl, inr,
}
use tesserra.Prelude.Int.{ℤ}
use tesserra.Json.{Artifact, member}
use tesserra.Runtime.{Runtime}
use tesserra.Core.Artifacts.Signed.{bind-some}
use tesserra.Core.Result.{valid, VerificationResult}
use tesserra.Core.Run.{Outcome, returned, thrown, unfinished}
use tesserra.Core.Values.{text_or_empty, date_parse}
use tesserra.Core.Verify.Accepts.{valid-Acceptance}
use tesserra.Core.Verify.Input.{duplicate, VerificationInput}
use tesserra.Core.Verify.Status.{is_offline, offline_inspection}
use tesserra.Core.Verify.{verify_artifacts}
use tesserra.Service.Workflows.{
  EvidenceRepository, ReplayStore, VerifyRequestInput, core_input, replay_input, chain,
  as_duplicate, confirm, reserve, is_settled, decide, verify_evidence, verify_request_with_replay,
}
use tesserra.Storage.Replay.{ConsumeOutcome, consumed}

-- A request that is announced as a duplicate is not accepted, where the replay check is required.
duplicate_rejected :
    (rt : Runtime) (input : VerificationInput) (r : VerificationResult)
    → input.replay ≡ some duplicate
    → input.context.replay_required ≡ true
    → is_offline input.replay_mode ≡ false
    → verify_artifacts rt input ≡ returned r
    → r.code ≢ valid
unfolding offline_inspection
duplicate_rejected rt input r again required online h = λ v.
    let a = valid-Acceptance rt input r h v in
    let same : a.setup.input ≡ input = a.is_set_up.same in
    let off : offline_inspection a.setup ≡ false = rw (same, offline_inspection, online) refl in
    let need : a.setup.input.context.replay_required ≡ true = rw same required in
    let (mode, fresh) = a.accepted.concluded.online off need in
    let g = rw (same, again) at fresh in cc g

-- The key of a request was free, and is now taken.
unfoldable pub IsReserved :
    (rt : Runtime) {S : Type 0} → EvidenceRepository S → VerifyRequestInput → S → S → Type 0
IsReserved rt {S} repository input s t =
    (consume : ReplayStore S) × (expires_at : ℤ) × (repository.consume_replay ≡ some consume)
    × (date_parse rt (text_or_empty (member "expires_at" input.request)) ≡ some expires_at)
    × (consume (replay_input input.request expires_at) s ≡ (consumed, t))

module _ (rt : Runtime) {S : Type 0} (repository : EvidenceRepository S)
    (input : VerifyRequestInput) where
  unreserved :
      (artifacts : List Artifact) (r : VerificationResult)
      → input.context.replay_required ≡ true
      → is_offline input.replay_mode ≡ false
      → r.code ≡ valid
      → as_duplicate rt repository input artifacts ≢ returned r
  unreserved artifacts r required online v = λ h.
      duplicate_rejected rt (core_input input artifacts (some duplicate)) r refl required online h v

  confirm-consumed :
      (artifacts : List Artifact) (preliminary r : VerificationResult) (out : ConsumeOutcome × S)
      (t : S)
      → input.context.replay_required ≡ true
      → is_offline input.replay_mode ≡ false
      → r.code ≡ valid
      → confirm rt repository input artifacts preliminary out ≡ (returned r, t)
      → out ≡ (consumed, t)
  confirm-consumed artifacts p r (ConsumeOutcome.consumed, u) t required online v h =
      ap (λ z. (consumed, z.1)) h
  confirm-consumed artifacts p r (ConsumeOutcome.duplicate, u) t required online v h =
      absurd (unreserved artifacts r required online v (ap (λ z. z.0) h))
  confirm-consumed artifacts p r (ConsumeOutcome.expired, u) t required online v h =
      absurd (unreserved artifacts r required online v (ap (λ z. z.0) h))

  reserve-IsReserved :
      (artifacts : List Artifact) (preliminary r : VerificationResult) (s t : S)
      → input.context.replay_required ≡ true
      → is_offline input.replay_mode ≡ false
      → r.code ≡ valid
      → reserve rt repository input artifacts preliminary repository.consume_replay s
        ≡ (returned r, t)
      → IsReserved rt repository input s t
  unfolding reserve IsReserved
  reserve-IsReserved artifacts p r s t required online v h =
      elim (Option-cases repository.consume_replay) [
        | inl e ↦
            absurd (unreserved artifacts r required online v (ap (λ z. z.0) (rw (e, reserve) at h)))
        | inr (consume, e) ↦
            elim (Option-cases
              (date_parse rt (text_or_empty (member "expires_at" input.request)))) [
                | inl f ↦ absurd (let g = ap (λ z. z.0) (rw (e, f, reserve) at h) in cc g)
                | inr (expires_at, f) ↦
                    let g = rw (e, f, reserve) at h in
                    (
                      consume,
                      expires_at,
                      e,
                      f,
                      confirm-consumed artifacts p r _ t required online v g,
                    )
              ]
      ]

  decide-IsReserved :
      (artifacts : List Artifact) (o : Outcome) (r : VerificationResult) (s t : S)
      → input.context.replay_required ≡ true
      → is_offline input.replay_mode ≡ false
      → r.code ≡ valid
      → r.valid ≡ true
      → decide rt repository input artifacts s o ≡ (returned r, t)
      → IsReserved rt repository input s t
  unfolding decide
  decide-IsReserved artifacts (returned p) r s t required online v flag h =
      elim (Bool-cases (is_settled rt repository input p)) [
        | inl e ↦ absurd (
            let g = rw e at h in
            let same : returned p ≡ returned r = ap (λ z. z.0) g in
            let it : p ≡ r = cc same in let f = rw (it, flag, required, online) at e in cc f)
        | inr e ↦ reserve-IsReserved artifacts p r s t required online v (rw e at h)
      ]
  decide-IsReserved artifacts thrown r s t required online v flag h =
      absurd (let g = ap (λ z. z.0) h in cc g)
  decide-IsReserved artifacts unfinished r s t required online v flag h =
      absurd (let g = ap (λ z. z.0) h in cc g)

-- Where an online verification with a required replay check answers VALID, the replay store was there,
-- it answered that the key of the request is consumed, and what it left is the state that is returned.
pub valid_request-IsReserved :
    (rt : Runtime) {S : Type 0} (repository : EvidenceRepository S) (fuel : ℕ)
    (input : VerifyRequestInput) (r : VerificationResult) (s t : S)
    → input.context.replay_required ≡ true
    → is_offline input.replay_mode ≡ false
    → r.code ≡ valid
    → r.valid ≡ true
    → verify_request_with_replay rt repository fuel input s ≡ some (returned r, t)
    → IsReserved rt repository input s t
unfolding verify_request_with_replay verify_evidence
valid_request-IsReserved rt repository fuel input r s t required online v flag h =
    let (found, at_found, g) =
      bind-some (chain repository s fuel input.request) _ (returned r, t) h in
    let artifacts = found ++ repository.list_status s in
    decide-IsReserved rt repository input artifacts
      (verify_artifacts rt (core_input input artifacts none)) r s t required online v flag (cc g)
