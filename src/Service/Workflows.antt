-- ===== src/Service/Workflows.antt =====
-- packages/service/src/workflows.ts. A repository is the host's: its operations pass the state that they
-- keep, and calls of it that reject are left out. `none` for a number of rounds that has run out.
pub mod Reserves
pub mod Ends
pub mod Once
use tesserra.Prelude.{
  ℕ, zero, suc, Bool, true, false, not, ◌||◌, Option, none, some, List, [], ◌∷◌, ◌++◌,
  if◌then◌else◌, Text,
}
use tesserra.Prelude.Int.{ℤ}
use tesserra.Json.{Members, Artifact, member, as_string}
use tesserra.Runtime.{Runtime}
use tesserra.Core.Artifacts.{
  KeyProvider, RandomSource, CreateDelegationInput, CreateRequestInput, CreateProvenanceInput,
  create_delegation, create_request, create_provenance,
}
use tesserra.Core.Result.{VerificationResult}
use tesserra.Core.Run.{Outcome, returned, thrown}
use tesserra.Core.Values.{text_or_empty, kid_of, id_of, date_parse}
use tesserra.Core.Verify.Crypto.{artifact_ref, has_id, is_link}
use tesserra.Core.Verify.Input.{
  ReplayMode, Replay, duplicate, VerificationContext, VerificationInput,
}
use tesserra.Core.Verify.Status.{is_offline}
use tesserra.Core.Verify.{verify_artifacts}
use tesserra.Protocol.Canonical.{◌>>=◌}
use tesserra.Storage.Replay.{ConsumeOutcome, consumed, CoreReplayInput}

-- ReplayStore.consume
abbrev pub ReplayStore : Type 0 → Type 0
ReplayStore S = CoreReplayInput → S → ConsumeOutcome × S

pub record EvidenceRepository (S : Type 0) : Type 0 where
  pub put : Artifact → S → S
  pub get : Text → S → Option Artifact
  pub list_status : S → List Artifact
  pub consume_replay : Option (ReplayStore S)

pub record VerifyRequestInput : Type 0 where
  pub request : Artifact
  pub trust_snapshot : Members
  pub context : VerificationContext
  pub now : ℤ
  pub replay_mode : ReplayMode

-- What verifyArtifacts is called with.
abbrev pub core_input : VerifyRequestInput → List Artifact → Option Replay → VerificationInput
core_input input artifacts replay = record {
  artifacts = artifacts;
  trust_snapshot = input.trust_snapshot;
  context = input.context;
  now = input.now;
  replay_mode = input.replay_mode;
  replay = replay;
  archived_snapshot = none;
}

-- The replay key that a request asks for.
abbrev pub replay_input : Artifact → ℤ → CoreReplayInput
replay_input request expires_at = record {
  audience = text_or_empty (member "audience" request);
  signer_key_id = kid_of request;
  request_id = text_or_empty (member "request_id" request);
  nonce = text_or_empty (member "nonce" request);
  expires_at = expires_at;
}

abbrev pub is_consumed : ConsumeOutcome → Bool
is_consumed ConsumeOutcome.consumed = true
is_consumed ConsumeOutcome.duplicate = false
is_consumed ConsumeOutcome.expired = false

module _ {S : Type 0} (repository : EvidenceRepository S) where
  -- The artifact that the current one refers to.
  unfoldable pub parent_in : S → Artifact → Option Artifact
  parent_in s current = elim (artifact_ref current) [
    | none ↦ none
    | some reference ↦ (elim (as_string (member "id" reference)) [
      | none ↦ none
      | some id ↦ repository.get id s
    ])
  ]

  -- The loop of chain(repository, request)
  unfoldable pub collect : S → ℕ → Artifact → List Artifact → Option (List Artifact)
  collect s zero current result = none
  collect s (suc fuel) current result = elim (is_link current) [
    | false ↦ some result
    | true ↦ (elim (parent_in s current) [
      | none ↦ some result
      | some parent ↦ (elim (has_id (id_of parent) result) [
        | true ↦ some result
        | false ↦ collect s fuel parent (result ++ (parent ∷ []))
      ])
    ])
  ]

  -- chain(repository, request)
  unfoldable pub chain : S → ℕ → Artifact → Option (List Artifact)
  chain s fuel request = collect s fuel request (request ∷ [])

module _ (rt : Runtime) {S : Type 0} (repository : EvidenceRepository S) where
  -- verifyArtifacts({ ...input, artifacts, replay: 'duplicate' })
  abbrev pub as_duplicate : VerifyRequestInput → List Artifact → Outcome
  as_duplicate input artifacts = verify_artifacts rt (core_input input artifacts (some duplicate))

  -- The result, by what the replay store answers.
  abbrev pub confirm :
      VerifyRequestInput → List Artifact → VerificationResult → ConsumeOutcome × S → Outcome × S
  confirm input artifacts preliminary (outcome, t) =
      (if is_consumed outcome then returned preliminary else as_duplicate input artifacts, t)

  -- The replay key is consumed. A valid request has an instant to expire at; without one the printing of
  -- the date throws.
  unfoldable pub reserve :
      VerifyRequestInput
      → List Artifact
      → VerificationResult
      → Option (ReplayStore S)
      → S
      → Outcome × S
  reserve input artifacts preliminary none s = (as_duplicate input artifacts, s)
  reserve input artifacts preliminary (some consume) s =
      elim (date_parse rt (text_or_empty (member "expires_at" input.request))) [
        | none ↦ (thrown, s)
        | some expires_at ↦
            confirm input artifacts preliminary (consume (replay_input input.request expires_at) s)
      ]

  -- !preliminary.valid || !input.context.replayRequired || input.replayMode === 'offline'
  abbrev pub is_settled : VerifyRequestInput → VerificationResult → Bool
  is_settled input r =
      not r.valid || not input.context.replay_required || is_offline input.replay_mode

  -- What follows the preliminary verification.
  unfoldable pub decide : VerifyRequestInput → List Artifact → S → Outcome → Outcome × S
  decide input artifacts s (returned r) =
      if is_settled input r
      then (returned r, s)
      else reserve input artifacts r repository.consume_replay s
  decide input artifacts s other = (other, s)

  -- The artifacts are there.
  unfoldable pub verify_evidence : VerifyRequestInput → List Artifact → S → Outcome × S
  verify_evidence input artifacts s =
      decide input artifacts s (verify_artifacts rt (core_input input artifacts none))

  -- verifyRequestWithReplay(repository, input)
  unfoldable pub verify_request_with_replay : ℕ → VerifyRequestInput → S → Option (Outcome × S)
  verify_request_with_replay fuel input s = do
    found ← chain repository s fuel input.request
    some (verify_evidence input (found ++ repository.list_status s) s)

  abbrev pub stored : Option Artifact → S → Option (Artifact × S)
  stored none s = none
  stored (some artifact) s = some (artifact, repository.put artifact s)

  -- The operations of createDelegationService; `none` where the signing throws, which stores nothing.
  unfoldable pub delegate : KeyProvider → CreateDelegationInput → S → Option (Artifact × S)
  delegate provider input s = stored (create_delegation rt provider input) s

  unfoldable pub issue_request :
      KeyProvider → RandomSource → CreateRequestInput → S → Option (Artifact × S)
  issue_request provider random input s = stored (create_request rt provider random input) s

  unfoldable pub record_provenance : KeyProvider → CreateProvenanceInput → S → Option (Artifact × S)
  record_provenance provider input s = stored (create_provenance rt provider input) s
