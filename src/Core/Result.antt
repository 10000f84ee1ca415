-- ===== src/Core/Result.antt =====
-- DecisionCode, WarningCode and VerificationResult of packages/protocol/src/types.ts.
use tesserra.Prelude.{Bool, Option, List, Text}
use tesserra.Prelude.Int.{ℤ}
use tesserra.Json.{Json}

pub data DecisionCode : Type 0 where
  valid malformed_utf8 malformed_json duplicate_member schema_invalid : DecisionCode
  non_canonical id_mismatch key_id_mismatch unsupported_version unsupported_kind : DecisionCode
  unsupported_algorithm unsupported_critical_semantics unsupported_resource_type : DecisionCode
  missing_reference invalid_signature invalid_digest_linkage not_yet_valid expired : DecisionCode
  invalid_time_interval trust_snapshot_invalid untrusted_issuer untrusted_key : DecisionCode
  mixed_trust_root key_not_usable chain_parent_missing chain_parent_ambiguous : DecisionCode
  chain_bounds_exceeded attenuation_violation status_unavailable status_stale : DecisionCode
  status_rollback revoked signer_mismatch audience_mismatch action_not_allowed : DecisionCode
  resource_not_allowed task_not_allowed replay_detected : DecisionCode
  offline_replay_unavailable : DecisionCode

pub data WarningCode : Type 0 where
  not_all_stages_executed offline_status_not_fresh : WarningCode
  offline_replay_not_checked historical_snapshot : WarningCode

abbrev pub is_valid : DecisionCode → Bool
is_valid valid = Bool.true
is_valid _ = Bool.false

-- An id in the evidence may come from an artifact that no stage has looked at yet, so it is whatever
-- value the artifact has there.
abbrev pub Evidence : Type 0
Evidence = List (Option Json)

-- `decision_version` is the same in every result and left out; `verifier_now` is the instant before it
-- is printed.
pub record VerificationResult : Type 0 where
  pub code : DecisionCode
  pub valid : Bool
  pub verifier_now : ℤ
  pub policy_hash : Text
  pub status_snapshot_hash : Text
  pub evidence_ids : Evidence
  pub secondary_codes : List DecisionCode
  pub status_fresh : Bool
  pub replay_checked : Bool
  pub warnings : List WarningCode
