-- ===== src/Storage/Replay.antt =====
-- consumeReplayKey, purgeExpiredReplayKeys and coreReplayStore of
-- packages/storage-sqlite/src/sqlite-storage.ts.
pub mod Once
use tesserra.Prelude.{
  ℕ, Bool, true, false, not, ◌&&◌, ◌||◌, List, [], ◌∷◌, ◌++◌, length, some_of, filter,
  if◌then◌else◌, Text, text_eq, text_lt,
}
use tesserra.Prelude.Int.{ℤ}
use tesserra.Protocol.Canonical.{utf8}
use tesserra.Protocol.Ids.{sha256_digest_for}
use tesserra.Storage.Engine.{Engine, sql_lt}
use tesserra.Storage.Records.{ReplayKey, ReplayRow, Store}

-- PRIMARY KEY (audience, signer_key_id, request_id), UNIQUE (audience, signer_key_id, nonce_digest)
unfoldable pub conflicts : ReplayKey → ReplayRow → Bool
conflicts key row =
    text_eq row.key.audience key.audience
    && text_eq row.key.signer_key_id key.signer_key_id
    && (text_eq row.key.request_id key.request_id || text_eq row.key.nonce_digest key.nonce_digest)

-- left <= right of JavaScript
abbrev pub at_most : Text → Text → Bool
at_most left right = not (text_lt right left)

-- consumeReplayKey(key, now), on the table: INSERT ... ON CONFLICT DO NOTHING, and whether it changed it
unfoldable pub consume : ReplayKey → Text → List ReplayRow → Bool × List ReplayRow
consume key now rows =
    if at_most key.expires_at now || some_of (conflicts key) rows
    then (false, rows)
    else (true, (record { key = key; consumed_at = now }) ∷ rows)

-- purgeExpiredReplayKeys(now), on the table
unfoldable pub purge : Text → List ReplayRow → List ReplayRow
purge now rows = filter (λ row. not (sql_lt row.key.expires_at now)) rows

unfoldable pub consume_replay_key : ReplayKey → Text → Store → Bool × Store
consume_replay_key key now s =
    let (accepted, rows) = consume key now s.replays in (accepted, record s { replays = rows })

-- The number of the rows that are gone.
unfoldable pub purge_expired_replay_keys : Text → Store → ℕ × Store
purge_expired_replay_keys now s = (
  length (filter (λ row. sql_lt row.key.expires_at now) s.replays),
  record s { replays = purge now s.replays },
)

pub data ConsumeOutcome : Type 0 where
  consumed duplicate expired : ConsumeOutcome

pub record CoreReplayInput : Type 0 where
  pub audience : Text
  pub signer_key_id : Text
  pub request_id : Text
  pub nonce : Text
  pub expires_at : ℤ

-- The replay key of a request, whose nonce is digested.
unfoldable pub replay_key : Engine → CoreReplayInput → ReplayKey
replay_key e input = record {
  audience = input.audience;
  signer_key_id = input.signer_key_id;
  request_id = input.request_id;
  nonce_digest = sha256_digest_for e.runtime (utf8 input.nonce);
  expires_at = e.iso input.expires_at;
}

-- coreReplayStore.consume(input), at the instant that the clock gives
unfoldable pub core_consume : Engine → ℤ → CoreReplayInput → Store → ConsumeOutcome × Store
core_consume e now input s =
    if at_most (e.iso input.expires_at) (e.iso now)
    then (expired, s)
    else let (accepted, after) = consume_replay_key (replay_key e input) (e.iso now) s in
      (if accepted then consumed else duplicate, after)
