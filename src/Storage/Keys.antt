-- ===== src/Storage/Keys.antt =====
-- The agents and their keys in packages/storage-sqlite/src/sqlite-storage.ts.
use tesserra.Prelude.{
  Bool, true, false, not, ◌&&◌, ◌||◌, Option, none, some, List, ◌∷◌, if◌then◌else◌, some_of, find,
  filter, sort_by, Text, text_eq, text_lt,
}
use tesserra.Prelude.Int.{pos, ltb_ℤ, leb_ℤ, eqb_ℤ}
use tesserra.Json.{Json, is_safe, is_some}
use tesserra.Storage.Engine.{Engine, sql_lt, parse_json}
use tesserra.Storage.Guards.{non_empty, assert_public_jwk}
use tesserra.Storage.Records.{AgentRecord, AgentRow, KeyRecord, KeyRow, HistoryRow, Store}
use tesserra.Storage.Result.{
  Result, ok, ◌>>=◌, ◌>>◌, throw_if, read_one, read_all, invalid_interval, immutable_key,
  stale_sequence, constraint, corrupt,
}
use tesserra.Storage.Rows.{update}

abbrev pub has_agent_id : Text → AgentRow → Bool
has_agent_id id row = text_eq row.id id

abbrev pub print_optional : Engine → Option Json → Option Text
print_optional e none = none
print_optional e (some v) = some (e.stringify v)

abbrev pub agent_row : Engine → AgentRecord → AgentRow
agent_row e agent = record {
  id = agent.id;
  display_name = agent.display_name;
  metadata_json = print_optional e agent.metadata;
  created_at = agent.created_at;
  updated_at = agent.updated_at;
  deleted_at = agent.deleted_at;
}

-- The first creation instant stays.
abbrev pub replaced_agent : Engine → AgentRecord → AgentRow → AgentRow
replaced_agent e agent row = record (agent_row e agent) { created_at = row.created_at }

-- putAgent(agent)
unfoldable pub put_agent : Engine → AgentRecord → Store → Result Store
put_agent e agent s = do
  non_empty agent.id
  ok (record s {
    agents =
        if some_of (has_agent_id agent.id) s.agents
        then update (has_agent_id agent.id) (replaced_agent e agent) s.agents
        else agent_row e agent ∷ s.agents;
  })

abbrev pub read_optional : Engine → Option Text → Result (Option Json)
read_optional e text = read_one (parse_json e) text

-- #agent(row)
unfoldable pub read_agent : Engine → AgentRow → Result AgentRecord
read_agent e row = do
  metadata ← read_optional e row.metadata_json
  ok (record {
    id = row.id;
    display_name = row.display_name;
    metadata = metadata;
    created_at = row.created_at;
    updated_at = row.updated_at;
    deleted_at = row.deleted_at;
  })

-- getAgent(id)
unfoldable pub get_agent : Engine → Text → Store → Result (Option AgentRecord)
get_agent e id s = read_one (read_agent e) (find (has_agent_id id) s.agents)

-- listAgents()
unfoldable pub list_agents : Engine → Store → Result (List AgentRecord)
list_agents e s = read_all (read_agent e) (
    sort_by (λ left right. not (sql_lt right.id left.id))
      (filter (λ row. not (is_some row.deleted_at)) s.agents))

abbrev pub has_key_id : Text → KeyRow → Bool
has_key_id id row = text_eq row.id id

abbrev pub key_row : Engine → KeyRecord → KeyRow
key_row e key = record {
  id = key.id;
  agent_id = key.agent_id;
  public_jwk_json = e.stringify key.public_jwk;
  provider_reference = key.provider_reference;
  status = key.status;
  not_before = key.not_before;
  expires_at = key.expires_at;
  replacement_key_id = key.replacement_key_id;
  history_sequence = key.history_sequence;
  created_at = key.created_at;
  updated_at = key.updated_at;
}

-- The agent, the public key and the creation instant stay.
abbrev pub replaced_key : Engine → KeyRecord → KeyRow → KeyRow
replaced_key e key row = record (key_row e key) {
  agent_id = row.agent_id;
  public_jwk_json = row.public_jwk_json;
  created_at = row.created_at;
}

abbrev pub history_row : KeyRecord → HistoryRow
history_row key = record {
  key_id = key.id;
  history_sequence = key.history_sequence;
  status = key.status;
  not_before = key.not_before;
  expires_at = key.expires_at;
  replacement_key_id = key.replacement_key_id;
  provider_reference = key.provider_reference;
  recorded_at = key.updated_at;
}

-- #key(row)
unfoldable pub read_key : Engine → KeyRow → Result KeyRecord
read_key e row = do
  jwk ← parse_json e row.public_jwk_json
  throw_if (not (is_safe row.history_sequence)) corrupt
  ok (record {
    id = row.id;
    agent_id = row.agent_id;
    public_jwk = jwk;
    provider_reference = row.provider_reference;
    status = row.status;
    not_before = row.not_before;
    expires_at = row.expires_at;
    replacement_key_id = row.replacement_key_id;
    history_sequence = row.history_sequence;
    created_at = row.created_at;
    updated_at = row.updated_at;
  })

-- getKey(id)
unfoldable pub get_key : Engine → Text → Store → Result (Option KeyRecord)
get_key e id s = read_one (read_key e) (find (has_key_id id) s.keys)

-- listKeysForAgent(agentId)
unfoldable pub list_keys_for_agent : Engine → Text → Store → Result (List KeyRecord)
list_keys_for_agent e agent_id s = read_all (read_key e) (
    sort_by (λ left right. leb_ℤ left.history_sequence right.history_sequence)
      (filter (λ row. text_eq row.agent_id agent_id) s.keys))

-- existing !== undefined && (existing.agentId !== key.agentId || ...)
abbrev pub changes_identity : Engine → KeyRecord → Option KeyRecord → Bool
changes_identity e key none = false
changes_identity e key (some existing) =
    not (text_eq existing.agent_id key.agent_id)
    || not (text_eq (e.stringify existing.public_jwk) (e.stringify key.public_jwk))

-- existing !== undefined && key.historySequence <= existing.historySequence
abbrev pub is_stale : KeyRecord → Option KeyRecord → Bool
is_stale key none = false
is_stale key (some existing) = leb_ℤ key.history_sequence existing.history_sequence

abbrev pub refers_to_key : Text → Option Text → List KeyRow → Bool
refers_to_key id none rows = true
refers_to_key id (some other) rows = text_eq other id || some_of (has_key_id other) rows

-- The constraints on the table keys that an insertion or a replacement has to meet.
abbrev pub key_unfit : KeyRecord → Store → Bool
key_unfit key s =
    not (some_of (has_agent_id key.agent_id) s.agents)
    || ltb_ℤ key.history_sequence (pos 0)
    || sql_lt key.expires_at key.not_before
    || some_of
        (λ row.
          not (text_eq row.id key.id)
          && text_eq row.agent_id key.agent_id
          && eqb_ℤ row.history_sequence key.history_sequence)
        s.keys
    || not (refers_to_key key.id key.replacement_key_id s.keys)

-- PRIMARY KEY (key_id, history_sequence)
abbrev pub same_version : KeyRecord → HistoryRow → Bool
same_version key row = text_eq row.key_id key.id && eqb_ℤ row.history_sequence key.history_sequence

-- INSERT INTO keys ... ON CONFLICT(id) DO UPDATE
unfoldable pub upsert_key : Engine → KeyRecord → List KeyRow → List KeyRow
upsert_key e key rows =
    if some_of (has_key_id key.id) rows
    then update (has_key_id key.id) (replaced_key e key) rows
    else key_row e key ∷ rows

-- putKey(key)
unfoldable pub put_key : Engine → KeyRecord → Store → Result Store
put_key e key s = do
  non_empty key.id
  non_empty key.agent_id
  assert_public_jwk key.public_jwk
  throw_if (text_lt key.expires_at key.not_before) invalid_interval
  existing ← get_key e key.id s
  throw_if (changes_identity e key existing) immutable_key
  throw_if (is_stale key existing) stale_sequence
  throw_if (key_unfit key s) constraint
  throw_if (some_of (same_version key) s.key_history) constraint
  ok (record s { keys = upsert_key e key s.keys; key_history = history_row key ∷ s.key_history })
