-- ===== src/Core/Delegation/Status.antt =====
-- The stage STATUS of verifyDelegationChain (packages/core/src/delegation.ts), and its last result.
use tesserra.Prelude.{
  Bool, not, ◌&&◌, ◌||◌, Option, none, some, List, [], ◌∷◌, ◌++◌, if◌then◌else◌, some_of, Text,
}
use tesserra.Prelude.Int.{ℤ}
use tesserra.Json.{Artifact, member, is_literal, is_text}
use tesserra.Runtime.{Runtime}
use tesserra.Protocol.Ids.{semantic_digest_for}
use tesserra.Protocol.Coerce.{to_text}
use tesserra.Core.Result.{
  valid, status_unavailable, key_not_usable, status_rollback, status_stale, revoked,
  offline_status_not_fresh, VerificationResult,
}
use tesserra.Core.Run.{Run, pass, ◌>>=◌, ◌>>◌, stop_if, attempt, each}
use tesserra.Core.Values.{is_kind, id_of, text_mem, distinct, status_for}
use tesserra.Core.Verify.Status.{
  keys_of, status_chain_valid, high_water, is_marked, marked_digest, after, before,
}
use tesserra.Core.Delegation.Input.{DelegationSetup, stopped, decision_with, evidence}

-- revoked(record, chain, keyIds, now)
unfoldable pub is_revoked : Runtime → Artifact → List Artifact → List Text → ℤ → Bool
is_revoked rt r chain keys now =
    is_kind "revocation" r
    && not (after rt now (member "effective_at" r))
    && (if is_literal "key" (member "target_type" r)
        then text_mem (to_text rt (member "target_id" r)) keys
        else some_of (λ a. is_text (id_of a) (member "target_id" r)) chain)

-- keyIds, of the root, the chain and the credentials that bind keys
abbrev pub all_keys : DelegationSetup → List Artifact → List Text
all_keys s chain =
    distinct (keys_of (s.input.root_credential ∷ (chain ++ s.input.key_binding_credentials)))

module _ (rt : Runtime) (s : DelegationSetup) (chain : List Artifact) where
  unfoldable pub check_fresh : Text → Artifact → Run (Unit {0})
  check_fresh key selected = do
    let water = high_water rt s.input.trust_snapshot (member "publisher" selected) key
    stop_if (not (is_marked water selected)) (stopped s status_rollback chain)
    digest ← attempt (semantic_digest_for rt selected)
    stop_if (not (is_text digest (marked_digest water))) (stopped s status_rollback chain)
    stop_if
        (after rt s.input.now (member "as_of" selected)
          || before rt s.input.now (member "valid_until" selected))
        (stopped s status_stale chain)

  unfoldable pub check_selected : Text → Artifact → Run (Unit {0})
  check_selected key selected = do
    linked_up ← attempt (status_chain_valid rt s.input.status_evidence selected)
    stop_if (not linked_up) (stopped s status_unavailable chain)
    stop_if (not (is_literal "active" (member "state" selected))) (stopped s key_not_usable chain)
    if s.input.offline_inspection then pass tt else check_fresh key selected

  unfoldable pub standing : Text → Option Artifact → Run (Unit {0})
  standing key none = stop_if (not s.input.offline_inspection) (stopped s status_unavailable chain)
  standing key (some selected) = check_selected key selected

  -- The body of the loop over the keys.
  unfoldable pub check_key : Text → Run (Unit {0})
  check_key key = standing key (status_for rt s.input.status_evidence key)

  -- STATUS
  unfoldable pub check_status : Run (Unit {0})
  check_status = do
    each check_key (all_keys s chain)
    stop_if
        (some_of
          (λ r. is_revoked rt r (s.input.root_credential ∷ chain) (all_keys s chain) s.input.now)
          s.input.status_evidence)
        (stopped s revoked chain)

-- The result of a chain that passes.
unfoldable pub conclude : DelegationSetup → List Artifact → Run VerificationResult
conclude s chain = pass (
    decision_with s valid (evidence s.input.root_credential chain) (not s.input.offline_inspection)
      (if s.input.offline_inspection then offline_status_not_fresh ∷ [] else []))
