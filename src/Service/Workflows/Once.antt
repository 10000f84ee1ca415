-- ===== src/Service/Workflows/Once.antt =====
-- verifyRequestWithReplay over the replay table of the SQLite storage: a request is accepted once.
use tesserra.Prelude.{
  ℕ, ◌≡◌, ◌≢◌, refl, sym, ap, true, false, some, List, Bool-cases, inl, inr, ◌⊎◌, text_eq_refl,
}
use tesserra.Prelude.Int.{ℤ}
use tesserra.Json.{Artifact, member}
use tesserra.Runtime.{Runtime}
use tesserra.Core.Result.{valid, VerificationResult}
use tesserra.Core.Run.{returned}
use tesserra.Core.Values.{text_or_empty, date_parse}
use tesserra.Core.Verify.Status.{is_offline}
use tesserra.Service.Workflows.{
  EvidenceRepository, VerifyRequestInput, replay_input, verify_request_with_replay,
}
use tesserra.Service.Workflows.Reserves.{IsReserved, valid_request-IsReserved}
use tesserra.Storage.Engine.{Engine}
use tesserra.Storage.Records.{ReplayKey, ReplayRow, Store}
use tesserra.Storage.Replay.{
  conflicts, at_most, consume, consume_replay_key, ConsumeOutcome, consumed, CoreReplayInput,
  replay_key, core_consume,
}
use tesserra.Storage.Replay.Once.{IsAscii, Event, all_happen, IsOrdered, replay_once}

conflicts_self : (key : ReplayKey) (row : ReplayRow) → row.key ≡ key → conflicts key row ≡ true
unfolding conflicts
conflicts_self key row same = rw same (
    rw (text_eq_refl key.audience, text_eq_refl key.signer_key_id, text_eq_refl key.request_id)
      refl)

-- What a consumed key has done to the table.
IsTaken : Engine → ℤ → CoreReplayInput → Store → Store → Type 0
IsTaken e now input s t =
    ((consume (replay_key e input) (e.iso now) s.replays).0 ≡ true)
    × (t.replays ≡ (consume (replay_key e input) (e.iso now) s.replays).1)

core_consume-IsTaken :
    (e : Engine) (now : ℤ) (input : CoreReplayInput) (s t : Store)
    → core_consume e now input s ≡ (consumed, t)
    → IsTaken e now input s t
unfolding core_consume consume_replay_key IsTaken
core_consume-IsTaken e now input s t h =
    elim (Bool-cases (at_most (e.iso input.expires_at) (e.iso now))) [
      | inl late ↦ absurd (
          let g : ConsumeOutcome.expired ≡ consumed =
            ap (λ z. z.0) (rw (late, core_consume) at h) in
          cc g)
      | inr early ↦
          let g = rw (early, core_consume) at h in
          elim (Bool-cases (consume (replay_key e input) (e.iso now) s.replays).0) [
            | inl new ↦ (new, sym (ap (λ z. z.1.replays) g))
            | inr old ↦
                absurd (
                  let f : ConsumeOutcome.duplicate ≡ consumed = rw old at (ap (λ z. z.0) g) in cc f)
          ]
    ]

reserved-IsTaken :
    (rt : Runtime) (e : Engine) (now : ℤ) (repository : EvidenceRepository Store)
    (input : VerifyRequestInput) (s t : Store)
    → repository.consume_replay ≡ some (core_consume e now)
    → IsReserved rt repository input s t
    → (expires_at : ℤ) × (date_parse rt (text_or_empty (member "expires_at" input.request))
        ≡ some expires_at)
      × IsTaken e now (replay_input input.request expires_at) s t
unfolding IsReserved
reserved-IsTaken rt e now repository input s t by_table (use_, expires_at, there_, parsed, took) =
    let same : use_ ≡ core_consume e now = cc (there_, by_table) in
    (expires_at, parsed, core_consume-IsTaken e now _ s t (rw same at took))

key-IsAscii :
    (e : Engine) (request : Artifact) (expires_at : ℤ)
    → ((z : ℤ) → IsAscii (e.iso z))
    → IsAscii (replay_key e (replay_input request expires_at)).expires_at
unfolding replay_key
key-IsAscii e request expires_at ascii = ascii expires_at

-- A request is accepted once. Where an online verification with a required replay check has answered
-- VALID at one instant, by the replay table of the SQLite storage, and keys are consumed and purged in
-- order up to a later instant, no such verification of the request answers VALID there, whatever else
-- changes; instants are printed in ASCII.
pub accepted_once :
    (rt : Runtime) (e : Engine) (now later : ℤ) (first second : EvidenceRepository Store)
    (fuel more : ℕ) (input again : VerifyRequestInput) (r q : VerificationResult) (s t u w : Store)
    (events : List Event)
    → ((z : ℤ) → IsAscii (e.iso z))
    → first.consume_replay ≡ some (core_consume e now)
    → second.consume_replay ≡ some (core_consume e later)
    → again.request ≡ input.request
    → input.context.replay_required ≡ true
    → is_offline input.replay_mode ≡ false
    → again.context.replay_required ≡ true
    → is_offline again.replay_mode ≡ false
    → verify_request_with_replay rt first fuel input s ≡ some (returned r, t)
    → r.code ≡ valid
    → r.valid ≡ true
    → u.replays ≡ all_happen events t.replays
    → IsOrdered (e.iso now) events (e.iso later)
    → verify_request_with_replay rt second more again u ≡ some (returned q, w)
    → (q.code ≢ valid) ⊎ (q.valid ≢ true)
unfolding IsTaken
accepted_once rt e now later first second fuel more input again r q s t u w events ascii by_first
      by_second same required online required2 online2 answer v flag between ordered answer2 =
    elim (Bool-cases q.valid) [
      | inr unset ↦ inr (λ flag2. cc (unset, flag2))
      | inl flag2 ↦ inl (λ v2.
          let (expiry, parsed, (taken, left)) =
            reserved-IsTaken rt e now first input s t by_first
              (valid_request-IsReserved rt first fuel input r s t required online v flag answer) in
          let (expiry2, parsed2, (taken2, left2)) =
            reserved-IsTaken rt e later second again u w by_second (
              valid_request-IsReserved rt second more again q u w required2 online2 v2 flag2
                answer2) in
          let parsed3 = rw same at parsed2 in
          let it : expiry2 ≡ expiry = cc (parsed, parsed3) in
          let key = replay_key e (replay_input input.request expiry) in
          let refused =
            replay_once key key (e.iso now) (e.iso later) s.replays events
              (key-IsAscii e input.request expiry ascii) taken
              (conflicts_self key (record { key = key; consumed_at = e.iso now }) refl) refl
              ordered in
          let taken3 = rw (same, it, between, left) at taken2 in cc (taken3, refused))
    ]
