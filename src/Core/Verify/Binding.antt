-- ===== src/Core/Verify/Binding.antt =====
-- The stages BINDING and REPLAY of verifyArtifacts (packages/core/src/verify.ts).
use tesserra.Prelude.{
  Bool, true, false, not, ◌&&◌, ◌||◌, Option, none, some, List, [], ◌∷◌, if◌then◌else◌, String,
}
use tesserra.Json.{
  Json, string, Members, Artifact, member, as_object, as_array, is_literal, is_text,
}
use tesserra.Runtime.{Runtime}
use tesserra.Protocol.Canonical.{canonical_equal}
use tesserra.Protocol.Ids.{policy_hash_for, status_hash_for}
use tesserra.Core.Result.{
  valid, signer_mismatch, audience_mismatch, action_not_allowed, resource_not_allowed,
  task_not_allowed, replay_detected, offline_replay_unavailable, trust_snapshot_invalid,
  offline_status_not_fresh, offline_replay_not_checked, historical_snapshot, VerificationResult,
}
use tesserra.Core.Run.{Run, pass, ◌>>=◌, ◌>>◌, stop_if, attempt}
use tesserra.Core.Values.{objects_of, constraints, contains}
use tesserra.Core.Verify.Input.{
  Setup, Replay, duplicate, OutputOptions, no_options, fresh_options, result_with,
}
use tesserra.Core.Verify.Status.{chain_ids, offline_inspection, is_offline}

-- constraints(chain[1] ?? root)?.field
abbrev pub second_or : Artifact → List Artifact → Artifact
second_or root (request ∷ a ∷ rest) = a
second_or root _ = root

abbrev pub effective_member : String → Option Members → Option Json
effective_member field none = none
effective_member field (some ms) = member field ms

abbrev pub is_duplicate : Option Replay → Bool
is_duplicate (some duplicate) = true
is_duplicate _ = false

-- archived.status_snapshot_hash === statusHashFor(statusMembers.filter(object)), behind the policy's test
unfoldable pub same_status : Runtime → Members → List Json → Bool → Run Bool
same_status rt archived records false = pass false
same_status rt archived records true = do
  status ← attempt (status_hash_for rt (objects_of records))
  pass (is_text status (member "status_snapshot_hash" archived))

unfoldable pub same_hashes : Runtime → Members → Members → List Json → Run Bool
same_hashes rt archived content records = do
  policy ← attempt (policy_hash_for rt content)
  same_status rt archived records (is_text policy (member "policy_hash" archived))

-- policyContent, statusMembers, and archived.verification_mode === 'historical'
unfoldable pub historical :
    Runtime → Members → Option Members → Option (List Json) → Bool → Run Bool
historical rt archived none records mode = pass false
historical rt archived (some content) none mode = pass false
historical rt archived (some content) (some records) true = same_hashes rt archived content records
historical rt archived (some content) (some records) false = pass false

-- historicalValid
unfoldable pub historical_valid : Runtime → Members → Run Bool
historical_valid rt archived =
    historical rt archived (as_object (member "policy_content" archived))
      (as_array (member "status_members" archived))
      (is_literal "historical" (member "verification_mode" archived))

module _ (rt : Runtime) (s : Setup) (root request : Artifact) (chain : List Artifact) where
  abbrev pub binding_options : OutputOptions
  binding_options = if offline_inspection s then no_options else fresh_options

  -- effective
  abbrev pub effective : Option Members
  effective = constraints (second_or root chain)

  -- !effective || !contains(effective.field, value) || ...
  abbrev pub allows : String → Option Json → Bool
  allows field v = contains rt (effective_member field effective) v

  -- BINDING
  unfoldable pub check_binding : Run (Unit {0})
  check_binding = do
    let context = s.input.context
    stop_if (not (canonical_equal rt (member "signer" request) (some context.expected_signer)))
        (result_with s signer_mismatch (chain_ids chain) binding_options)
    stop_if (not (is_text context.audience (member "audience" request)))
        (result_with s audience_mismatch (chain_ids chain) binding_options)
    stop_if
        (not (allows "capabilities" (member "action" request))
          || not (allows "capabilities" (some (string context.action))))
        (result_with s action_not_allowed (chain_ids chain) binding_options)
    stop_if
        (not (allows "resources" (member "resource" request))
          || not (canonical_equal rt (member "resource" request) (some context.resource)))
        (result_with s resource_not_allowed (chain_ids chain) binding_options)
    stop_if
        (not (allows "tasks" (member "task" request))
          || not (is_text context.task (member "task" request)))
        (result_with s task_not_allowed (chain_ids chain) binding_options)

  abbrev pub checked_options : OutputOptions
  checked_options = record {
    status_fresh = true;
    replay_checked = s.input.context.replay_required;
    warnings = none;
  }

  -- The result behind the replay checks, with or without an archived snapshot.
  unfoldable pub conclude : Option Members → Run VerificationResult
  conclude none = pass (result_with s valid (chain_ids chain) checked_options)
  conclude (some archived) = do
    historical ← historical_valid rt archived
    stop_if (not historical) (result_with s trust_snapshot_invalid (chain_ids chain) fresh_options)
    pass (
        result_with s valid (chain_ids chain) (record {
          status_fresh = true;
          replay_checked = s.input.context.replay_required;
          warnings = some (historical_snapshot ∷ []);
        }))

  -- REPLAY, where the caller does not inspect offline
  unfoldable pub check_online : Run VerificationResult
  check_online = do
    stop_if (s.input.context.replay_required && is_offline s.input.replay_mode)
        (result_with s offline_replay_unavailable (chain_ids chain) fresh_options)
    stop_if (s.input.context.replay_required && is_duplicate s.input.replay) (
        result_with s replay_detected (chain_ids chain)
          (record { status_fresh = true; replay_checked = true; warnings = none }))
    conclude s.input.archived_snapshot

  -- REPLAY
  unfoldable pub check_replay : Run VerificationResult
  check_replay =
      if offline_inspection s
      then pass (
          result_with s valid (chain_ids chain) (record {
            status_fresh = false;
            replay_checked = false;
            warnings = some (offline_status_not_fresh ∷ offline_replay_not_checked ∷ []);
          }))
      else check_online
