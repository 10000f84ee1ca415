-- ===== src/Core/Verify/Status.antt =====
-- The stage STATUS of verifyArtifacts (packages/core/src/verify.ts): key states, their history, the
-- high-water marks and revocations.
use tesserra.Prelude.{
  Bool, true, false, not, ◌&&◌, ◌||◌, Option, none, some, List, [], ◌∷◌, reverse, if◌then◌else◌,
  some_of, find, filter, sort_by, last?, Text,
}
use tesserra.Prelude.Int.{ℤ, pos, ltb_ℤ, ◌+ℤ◌}
use tesserra.Json.{
  Json, null, number, int, Members, Artifact, member, as_string, is_literal, is_text, strict_eq,
}
use tesserra.Runtime.{Runtime}
use tesserra.Protocol.Canonical.{canonical_equal}
use tesserra.Protocol.Ids.{semantic_digest_for}
use tesserra.Protocol.Coerce.{to_text, to_integer}
use tesserra.Core.Result.{
  status_unavailable, key_not_usable, status_rollback, status_stale, revoked, Evidence,
}
use tesserra.Core.Run.{Run, pass, ◌>>=◌, ◌>>◌, stop_if, attempt, each}
use tesserra.Core.Values.{
  array_or_empty, objects_of, is_kind, id_of, kid_of, text_mem, distinct, at, status_for,
  sequence_ascending,
}
use tesserra.Core.Verify.Input.{Setup, offline, ReplayMode, result}
use tesserra.Core.Verify.Admission.{ids}

-- chain.slice().reverse().map(id)
abbrev pub chain_ids : List Artifact → Evidence
chain_ids chain = ids (reverse chain)

abbrev pub is_offline : ReplayMode → Bool
is_offline offline = true
is_offline _ = false

-- offlineInspection
unfoldable pub offline_inspection : Setup → Bool
offline_inspection s =
    is_offline s.input.replay_mode
    && is_literal "offline-inspection-only" (member "replay_policy" s.input.trust_snapshot)

-- The keys that an artifact names: the one that signed it, and the one that it binds.
unfoldable pub keys_of : List Artifact → List Text
keys_of [] = []
keys_of (a ∷ rest) = elim (as_string (member "key_id" a)) [
  | none ↦ kid_of a ∷ keys_of rest
  | some key ↦ kid_of a ∷ key ∷ keys_of rest
]

-- keys
abbrev pub chain_keys : List Artifact → List Text
chain_keys chain = distinct (keys_of chain)

-- current.sequence follows previous.sequence
abbrev pub follows : Option ℤ → Option ℤ → Bool
follows (some previous) (some current) =
    strict_eq (some (number (int (previous +ℤ pos 1)))) (some (number (int current)))
follows _ _ = false

-- water !== undefined && water.sequence === selected.sequence
abbrev pub is_marked : Option Members → Artifact → Bool
is_marked none selected = false
is_marked (some water) selected = strict_eq (member "sequence" water) (member "sequence" selected)

-- water?.semantic_digest
abbrev pub marked_digest : Option Members → Option Json
marked_digest none = none
marked_digest (some water) = member "semantic_digest" water

module _ (rt : Runtime) where
  -- The loop of statusChainValid; `none` where a digest throws.
  unfoldable pub linked : Artifact → List Artifact → Option Bool
  linked previous [] = some true
  linked previous (current ∷ rest) =
      let later = linked current rest in
      if follows (to_integer rt (member "sequence" previous))
        (to_integer rt (member "sequence" current))
      then (elim (semantic_digest_for rt previous) [
        | none ↦ none
        | some digest ↦
            if is_text digest (member "previous_digest" current) then later else some false
      ])
      else some false

  abbrev pub same_stream : Artifact → Artifact → Bool
  same_stream selected r =
      is_kind "key_status" r
      && strict_eq (member "target_key_id" r) (member "target_key_id" selected)
      && canonical_equal rt (member "publisher" r) (member "publisher" selected)

  -- same.at(-1)?.id === selected.id
  abbrev pub last_is : Artifact → List Artifact → Bool
  last_is selected same = elim (last? same) [
    | none ↦ false
    | some r ↦ strict_eq (member "id" r) (member "id" selected)
  ]

  abbrev pub starts_stream : Artifact → Bool
  starts_stream first =
      strict_eq (member "sequence" first) (some (number (int (pos 1))))
      && strict_eq (member "previous_digest" first) (some null)

  unfoldable pub stream_valid : Artifact → List Artifact → Option Bool
  stream_valid selected [] = some false
  stream_valid selected (first ∷ rest) =
      if starts_stream first
      then (elim (linked first rest) [
        | none ↦ none
        | some false ↦ some false
        | some true ↦ some (last_is selected (first ∷ rest))
      ])
      else some false

  -- statusChainValid(records, selected)
  unfoldable pub status_chain_valid : List Artifact → Artifact → Option Bool
  status_chain_valid records selected =
      stream_valid selected
        (sort_by (sequence_ascending rt) (filter (same_stream selected) records))

  -- highWater(snapshot, publisher, targetKeyId)
  unfoldable pub high_water : Members → Option Json → Text → Option Members
  high_water snapshot publisher key =
      find
        (λ e.
          is_text key (member "target_key_id" e)
          && canonical_equal rt (member "publisher" e) publisher)
        (objects_of (array_or_empty (member "status_high_water" snapshot)))

  -- (at(value) ?? Infinity) > now
  abbrev pub after : ℤ → Option Json → Bool
  after now v = elim (at rt v) [ none ↦ true | some t ↦ ltb_ℤ now t ]

  -- (at(value) ?? -Infinity) < now
  abbrev pub before : ℤ → Option Json → Bool
  before now v = elim (at rt v) [ none ↦ true | some t ↦ ltb_ℤ t now ]

  -- revokes(record, artifact, keyIds, now)
  unfoldable pub revokes : Artifact → Artifact → List Text → ℤ → Bool
  revokes r a keys now =
      is_kind "revocation" r
      && not (after now (member "effective_at" r))
      && (if is_literal "key" (member "target_type" r)
          then text_mem (to_text rt (member "target_id" r)) keys
          else is_text (id_of a) (member "target_id" r))

  module _ (s : Setup) (chain : List Artifact) where
    -- The checks of a selected record that need current online state.
    unfoldable pub check_fresh : Text → Artifact → Run (Unit {0})
    check_fresh key selected = do
      let water = high_water s.input.trust_snapshot (member "publisher" selected) key
      stop_if (not (is_marked water selected)) (result s status_rollback (chain_ids chain))
      digest ← attempt (semantic_digest_for rt selected)
      stop_if (not (is_text digest (marked_digest water)))
          (result s status_rollback (chain_ids chain))
      stop_if
          (after s.input.now (member "as_of" selected)
            || before s.input.now (member "valid_until" selected))
          (result s status_stale (chain_ids chain))

    -- if (!offlineInspection) { ... }
    unfoldable pub fresh_unless : Text → Artifact → Bool → Run (Unit {0})
    fresh_unless key selected true = pass tt
    fresh_unless key selected false = check_fresh key selected

    unfoldable pub check_selected : Text → Artifact → Run (Unit {0})
    check_selected key selected = do
      stop_if (not (is_literal "active" (member "state" selected)))
          (result s key_not_usable (chain_ids chain))
      linked_up ← attempt (status_chain_valid s.input.artifacts selected)
      stop_if (not linked_up) (result s status_unavailable (chain_ids chain))
      fresh_unless key selected (offline_inspection s)

    unfoldable pub standing : Text → Option Artifact → Run (Unit {0})
    standing key none =
        stop_if (not (offline_inspection s)) (result s status_unavailable (chain_ids chain))
    standing key (some selected) = check_selected key selected

    -- The body of the loop over the keys of the chain.
    unfoldable pub check_key : Text → Run (Unit {0})
    check_key key = standing key (status_for rt s.input.artifacts key)

    unfoldable pub some_revokes : Bool
    some_revokes =
        some_of (λ r. some_of (λ a. revokes r a (chain_keys chain) s.input.now) chain)
          s.input.artifacts

    -- STATUS
    unfoldable pub check_status : Run (Unit {0})
    check_status = do
      each check_key (chain_keys chain)
      stop_if some_revokes (result s revoked (chain_ids chain))
