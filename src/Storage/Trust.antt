-- ===== src/Storage/Trust.antt =====
-- The trust snapshots, their anchors and the high-water marks of
-- packages/storage-sqlite/src/sqlite-storage.ts.
pub mod Advances
use tesserra.Prelude.{
  Bool, true, false, not, ◌&&◌, ◌||◌, Option, none, some, List, [], ◌∷◌, ◌++◌, if◌then◌else◌,
  some_of, find, filter, map, sort_by, Text, text_eq, text_lt,
}
use tesserra.Prelude.Int.{ℤ, pos, ◌+ℤ◌, ltb_ℤ, leb_ℤ, eqb_ℤ}
use tesserra.Json.{is_safe, is_some}
use tesserra.Storage.Engine.{Engine, sql_lt, parse_json}
use tesserra.Storage.Guards.{non_empty, is_empty, assert_public_jwk}
use tesserra.Storage.Records.{
  TrustSnapshotRecord, TrustAnchorRecord, AnchorRow, StatusPublisherHighWater, Store,
}
use tesserra.Storage.Result.{
  Result, ok, ◌>>=◌, ◌>>◌, throw_if, each, invalid_interval, foreign_anchor, snapshot_conflict,
  snapshot_rollback, invalid_high_water, sequence_gap, constraint, corrupt,
}
use tesserra.Storage.Rows.{update}

-- SELECT ... ORDER BY sequence DESC LIMIT 1
unfoldable pub newest : List TrustSnapshotRecord → Option TrustSnapshotRecord
newest [] = none
newest (row ∷ rows) = elim (newest rows) [
  | none ↦ some row
  | some other ↦ if ltb_ℤ other.sequence row.sequence then some row else some other
]

-- currentTrustSnapshot(), before the row is read
abbrev pub current_trust_snapshot : Store → Option TrustSnapshotRecord
current_trust_snapshot s = newest s.snapshots

abbrev pub has_snapshot_id : Text → TrustSnapshotRecord → Bool
has_snapshot_id id row = text_eq row.snapshot_id id

-- getTrustSnapshot(snapshotId), before the row is read
unfoldable pub get_trust_snapshot : Text → Store → Option TrustSnapshotRecord
get_trust_snapshot id s = find (has_snapshot_id id) s.snapshots

abbrev pub anchor_row : Engine → TrustAnchorRecord → AnchorRow
anchor_row e anchor = record {
  snapshot_id = anchor.snapshot_id;
  anchor_id = anchor.anchor_id;
  principal_id = anchor.principal_id;
  purpose = anchor.purpose;
  public_jwk_json = e.stringify anchor.public_jwk;
  created_at = anchor.created_at;
}

-- PRIMARY KEY (snapshot_id, anchor_id)
abbrev pub same_anchor : TrustAnchorRecord → AnchorRow → Bool
same_anchor anchor row =
    text_eq row.snapshot_id anchor.snapshot_id && text_eq row.anchor_id anchor.anchor_id

-- The loop over the anchors.
unfoldable pub insert_anchors :
    Engine → List TrustAnchorRecord → List AnchorRow → Result (List AnchorRow)
insert_anchors e [] rows = ok rows
insert_anchors e (anchor ∷ rest) rows = do
  throw_if (some_of (same_anchor anchor) rows) constraint
  insert_anchors e rest (anchor_row e anchor ∷ rows)

-- The constraints on a new row of trust_snapshots.
abbrev pub snapshot_unfit : TrustSnapshotRecord → List TrustSnapshotRecord → Bool
snapshot_unfit snapshot rows =
    some_of (λ row. eqb_ℤ row.sequence snapshot.sequence) rows
    || ltb_ℤ snapshot.sequence (pos 0)
    || sql_lt snapshot.expires_at snapshot.issued_at

-- current !== undefined && snapshot.sequence <= current.sequence
abbrev pub rolls_back : TrustSnapshotRecord → Option TrustSnapshotRecord → Bool
rolls_back snapshot none = false
rolls_back snapshot (some current) = leb_ℤ snapshot.sequence current.sequence

-- A sequence beyond the safe integers is stored, and does not read back.
abbrev pub reads_back : Option TrustSnapshotRecord → Bool
reads_back none = true
reads_back (some row) = is_safe row.sequence

-- The transaction, for a snapshot whose id is stored or not.
unfoldable pub accept_known :
    Engine
    → TrustSnapshotRecord
    → List TrustAnchorRecord
    → Store
    → Option TrustSnapshotRecord
    → Result Store
accept_known e snapshot anchors s (some same) = do
  throw_if (not (is_safe same.sequence)) corrupt
  throw_if
      (not (text_eq same.policy_hash snapshot.policy_hash)
        || not (eqb_ℤ same.sequence snapshot.sequence))
      snapshot_conflict
  ok s
accept_known e snapshot anchors s none = do
  throw_if (rolls_back snapshot (current_trust_snapshot s)) snapshot_rollback
  throw_if (snapshot_unfit snapshot s.snapshots) constraint
  rows ← insert_anchors e anchors s.anchors
  ok (record s { snapshots = snapshot ∷ s.snapshots; anchors = rows })

-- acceptTrustSnapshot(snapshot, anchors)
unfoldable pub accept_trust_snapshot :
    Engine → TrustSnapshotRecord → List TrustAnchorRecord → Store → Result Store
accept_trust_snapshot e snapshot anchors s = do
  non_empty snapshot.snapshot_id
  non_empty snapshot.policy_hash
  throw_if (text_lt snapshot.expires_at snapshot.issued_at) invalid_interval
  throw_if (some_of (λ anchor. not (text_eq anchor.snapshot_id snapshot.snapshot_id)) anchors)
      foreign_anchor
  each (λ anchor. assert_public_jwk anchor.public_jwk) anchors
  throw_if (not (reads_back (current_trust_snapshot s))) corrupt
  accept_known e snapshot anchors s (get_trust_snapshot snapshot.snapshot_id s)

-- snapshot_id = ? AND publisher_id = ? AND target_key_id = ?
abbrev pub is_mark_of : Text → Text → Text → StatusPublisherHighWater → Bool
is_mark_of snapshot_id publisher_id target_key_id row =
    text_eq row.snapshot_id snapshot_id
    && text_eq row.publisher_id publisher_id
    && text_eq row.target_key_id target_key_id

-- getStatusHighWater(snapshotId, publisherId, targetKeyId)
unfoldable pub get_status_high_water : Text → Text → Text → Store → Option StatusPublisherHighWater
get_status_high_water snapshot_id publisher_id target_key_id s =
    find (is_mark_of snapshot_id publisher_id target_key_id) s.publishers

abbrev pub mark_of : StatusPublisherHighWater → Store → Option StatusPublisherHighWater
mark_of value s = get_status_high_water value.snapshot_id value.publisher_id value.target_key_id s

-- The row with the primary key of `value`, replaced.
abbrev pub replace_mark :
    StatusPublisherHighWater → List StatusPublisherHighWater → List StatusPublisherHighWater
replace_mark value rows =
    update (is_mark_of value.snapshot_id value.publisher_id value.target_key_id) (λ row. value) rows

-- The transaction, with or without a previous mark; the upsert's own test on the sequence agrees with
-- the one before it.
unfoldable pub advance :
    StatusPublisherHighWater → Store → Option StatusPublisherHighWater → Result Store
advance value s none = do
  throw_if (not (eqb_ℤ value.sequence (pos 1))) sequence_gap
  throw_if (not (is_some (get_trust_snapshot value.snapshot_id s))) constraint
  ok (record s { publishers = value ∷ s.publishers })
advance value s (some previous) =
    if eqb_ℤ value.sequence previous.sequence && text_eq value.digest previous.digest
    then ok s
    else throw_if (not (eqb_ℤ value.sequence (previous.sequence +ℤ pos 1))) sequence_gap
      >> ok (record s { publishers = replace_mark value s.publishers })

-- acceptStatusHighWater(value)
unfoldable pub accept_status_high_water : StatusPublisherHighWater → Store → Result Store
accept_status_high_water value s = do
  throw_if (not (is_safe value.sequence) || ltb_ℤ value.sequence (pos 1) || is_empty value.digest)
      invalid_high_water
  advance value s (mark_of value s)

-- listTrustAnchors(snapshotId), which reads the public keys back
unfoldable pub read_anchors : Engine → List AnchorRow → Result (List TrustAnchorRecord)
read_anchors e [] = ok []
read_anchors e (row ∷ rows) = do
  jwk ← parse_json e row.public_jwk_json
  rest ← read_anchors e rows
  ok (
      (record {
        snapshot_id = row.snapshot_id;
        anchor_id = row.anchor_id;
        principal_id = row.principal_id;
        purpose = row.purpose;
        public_jwk = jwk;
        created_at = row.created_at;
      })
      ∷ rest)

unfoldable pub list_trust_anchors : Engine → Text → Store → Result (List TrustAnchorRecord)
list_trust_anchors e id s = read_anchors e (
    sort_by (λ left right. not (sql_lt right.anchor_id left.anchor_id))
      (filter (λ row. text_eq row.snapshot_id id) s.anchors))
