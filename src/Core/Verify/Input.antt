-- ===== src/Core/Verify/Input.antt =====
-- The input of verifyArtifacts (packages/core/src/ports.ts), the results it builds, and the two hashes
-- that every result carries (packages/core/src/verify.ts).
use tesserra.Prelude.{
  Bool, true, false, not, ◌&&◌, ◌||◌, Option, none, some, List, [], ◌∷◌, ◌++◌, map, every, filter,
  sort_by, Text, codes, text_lt, pad_start,
}
use tesserra.Prelude.Int.{ℤ}
use tesserra.Json.{
  Json, null, boolean, Members, end, entry, Artifact, member, as_object, as_string, is_array,
  is_string, is_literal, is_text, integer_within, integer_from,
}
use tesserra.Runtime.{Runtime}
use tesserra.Protocol.Canonical.{omit}
use tesserra.Protocol.Ids.{policy_hash_for, status_hash_for}
use tesserra.Protocol.Coerce.{to_text}
use tesserra.Core.Result.{
  DecisionCode, valid, replay_detected, offline_replay_unavailable, is_valid, WarningCode,
  not_all_stages_executed, Evidence, VerificationResult,
}
use tesserra.Core.Run.{Run, ◌>>=◌, attempt}
use tesserra.Core.Values.{array_or_empty, objects_of, is_kind, text_or_empty, text_mem, at, at_most}

pub data ReplayMode : Type 0 where
  online offline : ReplayMode

pub data Replay : Type 0 where
  available duplicate : Replay

pub record VerificationContext : Type 0 where
  pub audience : Text
  pub action : Text
  pub resource : Json
  pub task : Text
  pub expected_signer : Json
  pub expected_payload_digest : Text
  pub expected_task_context_digest : Text
  pub replay_required : Bool

-- `now` is in milliseconds since 1970.
pub record VerificationInput : Type 0 where
  pub artifacts : List Artifact
  pub trust_snapshot : Members
  pub context : VerificationContext
  pub now : ℤ
  pub replay_mode : ReplayMode
  pub replay : Option Replay
  pub archived_snapshot : Option Members

-- The variables of verifyArtifacts that `stop` closes over.
pub record Setup : Type 0 where
  pub input : VerificationInput
  pub policy_hash : Text
  pub status_hash : Text

pub record OutputOptions : Type 0 where
  pub status_fresh : Bool
  pub replay_checked : Bool
  pub warnings : Option (List WarningCode)

abbrev pub no_options : OutputOptions
no_options = record { status_fresh = false; replay_checked = false; warnings = none }

abbrev pub fresh_options : OutputOptions
fresh_options = record { status_fresh = true; replay_checked = false; warnings = none }

unfoldable pub default_warnings : DecisionCode → List WarningCode
default_warnings valid = []
default_warnings replay_detected = []
default_warnings offline_replay_unavailable = []
default_warnings _ = not_all_stages_executed ∷ []

-- output(...), which `stop` calls
abbrev pub result_with : Setup → DecisionCode → Evidence → OutputOptions → VerificationResult
result_with s code ids options = record {
  code = code;
  valid = is_valid code;
  verifier_now = s.input.now;
  policy_hash = s.policy_hash;
  status_snapshot_hash = s.status_hash;
  evidence_ids = ids;
  secondary_codes = [];
  status_fresh = options.status_fresh;
  replay_checked = options.replay_checked;
  warnings = elim options.warnings [ none ↦ default_warnings code | some ws ↦ ws ];
}

-- stop(code, ids)
abbrev pub result : Setup → DecisionCode → Evidence → VerificationResult
result s code ids = result_with s code ids no_options

-- publisherId(record)
unfoldable pub publisher_id : Members → Text
publisher_id r = elim (as_object (member "publisher" r)) [
  | none ↦ []
  | some publisher ↦ text_or_empty (member "id" publisher)
]

-- targetId(record)
unfoldable pub target_id : Members → Text
target_id r = elim (as_string (member "target_key_id" r)) [
  | some s ↦ s
  | none ↦ text_or_empty (member "target_id" r)
]

-- rolesAreDisjoint(snapshot)
unfoldable pub key_ids_of : List Members → List Text
key_ids_of [] = []
key_ids_of (e ∷ entries) = elim (as_string (member "key_id" e)) [
  | none ↦ key_ids_of entries
  | some s ↦ s ∷ key_ids_of entries
]

unfoldable pub roles_are_disjoint : Members → Bool
roles_are_disjoint snapshot =
    let issuer_keys =
      key_ids_of (objects_of (array_or_empty (member "issuer_authorities" snapshot))) in
    every (λ key. not (text_mem key issuer_keys))
      (key_ids_of (objects_of (array_or_empty (member "status_publishers" snapshot))))

module _ (rt : Runtime) where
  -- `${record.old_key_id ?? ''}`
  abbrev pub text_or_blank : Option Json → Text
  text_or_blank none = []
  text_or_blank (some null) = []
  text_or_blank v = to_text rt v

  -- String(record.sequence).padStart(16, '0') and `${record.kind}`, behind the two other parts
  abbrev pub sort_key : Text → Text → Members → Text
  sort_key publisher target r =
      publisher
      ++ (0
          ∷ (target
              ++ (0
                  ∷ (pad_start 16 (to_text rt (member "sequence" r))
                      ++ (0 ∷ to_text rt (member "kind" r))))))

  abbrev pub status_key : Members → Text
  status_key r = sort_key (publisher_id r) (target_id r) r

  abbrev pub rotation_key : Members → Text
  rotation_key r = sort_key (publisher_id r) (text_or_blank (member "old_key_id" r)) r

  -- sort by sortText on a key
  abbrev pub sort_on : (Members → Text) → List Members → List Members
  sort_on key = sort_by (λ left right. not (text_lt (key right) (key left)))

  -- orderedStatusMembers(artifacts)
  unfoldable pub ordered_status_members : List Artifact → List Members
  ordered_status_members artifacts =
      let group_one =
        map (omit ("proof" ∷ []))
          (filter (λ a. is_kind "key_status" a || is_kind "revocation" a) artifacts) in
      let group_two = map (omit ("proof" ∷ [])) (filter (is_kind "key_rotation") artifacts) in
      sort_on status_key group_one ++ sort_on rotation_key group_two

  -- statusHash(artifacts)
  unfoldable pub status_hash : List Artifact → Option Text
  status_hash artifacts = status_hash_for rt (ordered_status_members artifacts)

  -- The policy hash, or that of { invalid_policy_snapshot: true } where the snapshot has none.
  unfoldable pub policy_hash : Members → Option Text
  policy_hash snapshot = elim (policy_hash_for rt snapshot) [
    | some h ↦ some h
    | none ↦ policy_hash_for rt (entry (codes "invalid_policy_snapshot") (boolean true) end)
  ]

  -- validTrustSnapshot(snapshot, calculatedPolicyHash)
  unfoldable pub valid_trust_snapshot : Members → Text → Bool
  valid_trust_snapshot snapshot calculated =
      is_text calculated (member "policy_hash" snapshot)
      && integer_from 1 (member "sequence" snapshot)
      && is_string (member "snapshot_id" snapshot)
      && is_string (member "issued_at" snapshot)
      && is_string (member "expires_at" snapshot)
      && at_most (at rt (member "issued_at" snapshot)) (at rt (member "expires_at" snapshot))
      && integer_within 0 300 (member "max_clock_skew_seconds" snapshot)
      && integer_within 0 8 (member "max_chain_depth" snapshot)
      && (is_literal "online-required" (member "replay_policy" snapshot)
          || is_literal "offline-inspection-only" (member "replay_policy" snapshot))
      && is_array (member "issuer_authorities" snapshot)
      && is_array (member "status_publishers" snapshot)
      && roles_are_disjoint snapshot
      && is_array (member "roots" snapshot)
      && is_array (member "status_high_water" snapshot)

  -- The first lines of verifyArtifacts.
  unfoldable pub set_up : VerificationInput → Run Setup
  set_up input = do
    policy ← attempt (policy_hash input.trust_snapshot)
    status ← attempt (status_hash input.artifacts)
    Run.pass (record { input = input; policy_hash = policy; status_hash = status })
