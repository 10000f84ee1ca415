-- ===== src/Core/Delegation/Input.antt =====
-- The input and the results of verifyDelegationChain (packages/core/src/delegation.ts), the hashes that
-- every result carries and the test of the trust snapshot.
use tesserra.Prelude.{
  Bool, false, not, ◌&&◌, ◌||◌, Option, List, [], ◌∷◌, ◌++◌, map, filter, sort_by, Text, text_eq,
}
use tesserra.Prelude.Int.{ℤ}
use tesserra.Json.{Members, Artifact, member, is_array, is_text, integer_within, integer_from}
use tesserra.Runtime.{Runtime}
use tesserra.Protocol.Canonical.{omit}
use tesserra.Protocol.Ids.{status_hash_for}
use tesserra.Core.Result.{
  DecisionCode, valid, is_valid, WarningCode, not_all_stages_executed, Evidence, VerificationResult,
}
use tesserra.Core.Run.{Run, pass, ◌>>=◌, attempt}
use tesserra.Core.Values.{is_kind, id_of}
use tesserra.Core.Verify.Input.{policy_hash, roles_are_disjoint, status_key, rotation_key}
use tesserra.Core.Verify.Admission.{ids}

-- DelegationChainVerificationInput
pub record DelegationInput : Type 0 where
  pub root_credential : Artifact
  pub key_binding_credentials : List Artifact
  pub delegations : List Artifact
  pub status_evidence : List Artifact
  pub trust_snapshot : Members
  pub now : ℤ
  pub offline_inspection : Bool

-- The variables that `stop` closes over.
pub record DelegationSetup : Type 0 where
  pub input : DelegationInput
  pub policy_hash : Text
  pub status_hash : Text

-- all
abbrev pub all_artifacts : DelegationInput → List Artifact
all_artifacts input =
    input.root_credential
    ∷ (input.key_binding_credentials ++ (input.delegations ++ input.status_evidence))

-- credentials
abbrev pub credentials : DelegationInput → List Artifact
credentials input = input.root_credential ∷ input.key_binding_credentials

-- byId
abbrev pub linked_artifacts : DelegationInput → List Artifact
linked_artifacts input = input.root_credential ∷ input.delegations

-- evidence(root, chain)
abbrev pub evidence : Artifact → List Artifact → Evidence
evidence root chain =
    member "id" root ∷ ids (filter (λ a. not (text_eq (id_of a) (id_of root))) chain)

unfoldable pub default_warnings : DecisionCode → List WarningCode
default_warnings valid = []
default_warnings _ = not_all_stages_executed ∷ []

-- decision(input, code, policyHash, statusSnapshotHash, ids, statusFresh)
abbrev pub decision_with :
    DelegationSetup → DecisionCode → Evidence → Bool → List WarningCode → VerificationResult
decision_with s code ids fresh warnings = record {
  code = code;
  valid = is_valid code;
  verifier_now = s.input.now;
  policy_hash = s.policy_hash;
  status_snapshot_hash = s.status_hash;
  evidence_ids = ids;
  secondary_codes = [];
  status_fresh = fresh;
  replay_checked = false;
  warnings = warnings;
}

-- stop(code, chain)
abbrev pub stopped : DelegationSetup → DecisionCode → List Artifact → VerificationResult
stopped s code chain =
    decision_with s code (evidence s.input.root_credential chain) false (default_warnings code)

module _ (rt : Runtime) where
  -- left.localeCompare(right) on the keys
  abbrev pub sort_locale : (Members → Text) → List Members → List Members
  sort_locale key = sort_by (λ left right. rt.locale_le (key left) (key right))

  -- statusHash(artifacts)
  unfoldable pub delegation_status_hash : List Artifact → Option Text
  delegation_status_hash artifacts =
      let statuses =
        map (omit ("proof" ∷ []))
          (filter (λ a. is_kind "key_status" a || is_kind "revocation" a) artifacts) in
      let rotations = map (omit ("proof" ∷ [])) (filter (is_kind "key_rotation") artifacts) in
      status_hash_for rt
        (sort_locale (status_key rt) statuses ++ sort_locale (rotation_key rt) rotations)

  unfoldable pub set_up : DelegationInput → Run DelegationSetup
  set_up input = do
    policy ← attempt (policy_hash rt input.trust_snapshot)
    status ← attempt (delegation_status_hash input.status_evidence)
    pass (record { input = input; policy_hash = policy; status_hash = status })

-- validTrust(snapshot, hash)
unfoldable pub valid_trust : Members → Text → Bool
valid_trust snapshot hash =
    is_text hash (member "policy_hash" snapshot)
    && integer_from 1 (member "sequence" snapshot)
    && integer_within 0 300 (member "max_clock_skew_seconds" snapshot)
    && integer_within 0 8 (member "max_chain_depth" snapshot)
    && is_array (member "roots" snapshot)
    && is_array (member "issuer_authorities" snapshot)
    && is_array (member "status_publishers" snapshot)
    && is_array (member "status_high_water" snapshot)
    && roles_are_disjoint snapshot
