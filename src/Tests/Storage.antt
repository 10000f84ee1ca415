-- ===== src/Tests/Storage.antt =====
-- The storage on concrete calls, and the theorems applied to them.
use tesserra.Prelude.{
  map, ◌+◌, ◌%◌, ◌≤◌, ◌≡◌, ◌⊎◌, refl, true, false, not, none, some, List, [], ◌∷◌, All, find,
  length, last?, filter, if◌then◌else◌, arith, Text, codes, text_eq, text_lt,
}
use tesserra.Prelude.Int.{ℤ, pos, negsuc, ◌<ℤ◌, ◌+ℤ◌, ltb_ℤ, leb_ℤ, eqb_ℤ}
use tesserra.Json.{Json, object, string}
use tesserra.Protocol.Canonical.{utf8, utf8_scalar}
use tesserra.Storage.Artifacts.{
  artifact_row, get_artifact, is_revoked, read_artifact, provenance_edges, insert_edges, put_known,
  put_artifact, revoke_artifact,
}
use tesserra.Storage.Credentials.{
  idempotency_of, get_identity_credential, read_credential, create_new, create_under,
  create_identity_credential,
}
use tesserra.Storage.Engine.{Engine, sql_lt, parse_json}
use tesserra.Storage.Events.{
  VerificationEventFilter, page_limit, meets, page_of, newest_first, id_of,
  record_verification_event, list_verification_events,
}
use tesserra.Storage.Events.Pages.{page_complete}
use tesserra.Storage.Guards.{
  is_empty, non_empty, is_public_jwk, assert_public_jwk, some_key, is_private_name,
  assert_no_private_material, is_prohibited_name, assert_redacted,
}
use tesserra.Storage.Keys.{has_key_id, key_row, put_agent, read_key, get_key, upsert_key, put_key}
use tesserra.Storage.Migrations.{
  Migration, MigrationRow, agrees, remaining, applied_row, configure_and_migrate,
}
use tesserra.Storage.Migrations.Completes.{name_in, name_of, migrations_complete}
use tesserra.Storage.Records.{
  AgentRecord, KeyRecord, KeyRow, active, TrustSnapshotRecord, TrustAnchorRecord,
  StatusPublisherHighWater, ReplayKey, IdentityCredentialRecord, IdempotencyRow,
  SignedArtifactRecord, delegation, revocation, TargetType, RevocationRecord, EventDecision,
  VerificationEventRecord, Store, empty_store,
}
use tesserra.Storage.Replay.{
  conflicts, consume, purge, consume_replay_key, purge_expired_replay_keys,
}
use tesserra.Storage.Replay.Once.{Event, IsOrdered, all_happen, replay_once}
use tesserra.Storage.Result.{ok, throw_if, expect, each, read_one}
use tesserra.Storage.Rows.{update, take}
use tesserra.Storage.Steps.{
  Operation, putting_agent, putting_key, accepting_snapshot, accepting_mark, purging,
  creating_credential, putting_artifact, revoking, recording, run, run_all, Step, IsClean,
}
use tesserra.Storage.Steps.Consistent.{IsConsistent, reachable-IsConsistent}
use tesserra.Storage.Steps.Lasts.{
  artifact_lasts, revocation_lasts, key_identity_lasts, high_water_lasts, creation_idempotent,
}
use tesserra.Storage.Steps.Refines.{run_refines}
use tesserra.Storage.Steps.Secrets.{HoldsCheckedColumns, reachable-HoldsCheckedColumns}
use tesserra.Storage.Trust.{
  newest, get_trust_snapshot, insert_anchors, accept_known, accept_trust_snapshot,
  get_status_high_water, advance, accept_status_high_water,
}
use tesserra.Tests.Computes.{computes}
use tesserra.Tests.Samples.{runtime, key_members}

unfoldable pub stores : Unit {0}
unfolding computes utf8 utf8_scalar get_artifact is_revoked read_artifact provenance_edges
    insert_edges put_known put_artifact revoke_artifact get_identity_credential read_credential
    create_new create_under create_identity_credential sql_lt parse_json page_limit meets page_of
    record_verification_event list_verification_events non_empty is_public_jwk assert_public_jwk
    some_key is_private_name assert_no_private_material is_prohibited_name assert_redacted put_agent
    read_key get_key upsert_key put_key conflicts consume purge consume_replay_key
    purge_expired_replay_keys throw_if expect each read_one update take run run_all newest
    get_trust_snapshot insert_anchors accept_known accept_trust_snapshot get_status_high_water
    advance accept_status_high_water ltb_ℤ leb_ℤ eqb_ℤ ◌+ℤ◌
stores = tt

abbrev print : Json → Text
print (string s) = s
print v = codes "{}"

abbrev digit : ℤ → Text
digit (pos n) = (n % 10 + 48) ∷ []
digit (negsuc n) = codes "-"

-- An engine of concrete functions: a text prints as itself, all else as an object.
abbrev pub engine : Engine
engine = record {
  runtime = runtime;
  stringify = print;
  parse = λ s. some (if text_eq s (codes "{}") then object key_members else string s);
  no_later = λ s t. not (text_lt t s);
  iso = digit;
}

abbrev agent : AgentRecord
agent = record {
  id = codes "agent";
  display_name = none;
  metadata = none;
  created_at = codes "1";
  updated_at = codes "1";
  deleted_at = none;
}

abbrev key : KeyRecord
key = record {
  id = codes "key";
  agent_id = codes "agent";
  public_jwk = object key_members;
  provider_reference = none;
  status = active;
  not_before = codes "1";
  expires_at = codes "9";
  replacement_key_id = none;
  history_sequence = pos 1;
  created_at = codes "1";
  updated_at = codes "1";
}

abbrev key_later : KeyRecord
key_later = record key { history_sequence = pos 2; expires_at = codes "8"; updated_at = codes "2" }

abbrev snapshot : TrustSnapshotRecord
snapshot = record {
  snapshot_id = codes "snapshot";
  policy_hash = codes "hash";
  sequence = pos 7;
  canonical_policy = [];
  issuer_id = codes "issuer";
  issued_at = codes "1";
  expires_at = codes "9";
  source = none;
  created_at = codes "1";
}

abbrev anchor : TrustAnchorRecord
anchor = record {
  snapshot_id = codes "snapshot";
  anchor_id = codes "anchor";
  principal_id = codes "agent";
  purpose = codes "status-publisher";
  public_jwk = object key_members;
  created_at = codes "1";
}

abbrev mark : StatusPublisherHighWater
mark = record {
  snapshot_id = codes "snapshot";
  publisher_id = codes "publisher";
  target_key_id = codes "key";
  sequence = pos 1;
  digest = codes "first";
  updated_at = codes "1";
}

abbrev mark_later : StatusPublisherHighWater
mark_later = record mark { sequence = pos 2; digest = codes "second" }

abbrev credential : IdentityCredentialRecord
credential = record {
  id = codes "credential";
  agent_id = codes "agent";
  credential = string (codes "signed");
  created_at = codes "1";
}

abbrev artifact : SignedArtifactRecord
artifact = record {
  id = codes "leaf";
  kind = delegation;
  artifact = string (codes "signed");
  issued_at = codes "1";
  created_at = codes "1";
}

abbrev statement : SignedArtifactRecord
statement = record artifact { id = codes "statement"; kind = revocation }

abbrev revoked : RevocationRecord
revoked = record {
  id = codes "statement";
  target_type = TargetType.delegation;
  target_id = codes "leaf";
  effective_at = codes "2";
  artifact = string (codes "signed");
  created_at = codes "2";
}

abbrev event : Text → VerificationEventRecord
event id = record {
  id = id;
  occurred_at = codes "1";
  decision = EventDecision.verified;
  primary_code = codes "VALID";
  secondary_codes = [];
  artifact_digest = none;
  evidence_ids = [];
  trust_snapshot_id = some (codes "snapshot");
  policy_hash = none;
  trust_sequence = none;
  status_hash = none;
  redacted_evidence = some (string (codes "kept"));
}

abbrev start : List Operation
start =
    putting_agent agent
    ∷ putting_key key
    ∷ accepting_snapshot snapshot (anchor ∷ [])
    ∷ accepting_mark mark
    ∷ creating_credential credential (some (codes "once"))
    ∷ putting_artifact artifact
    ∷ putting_artifact statement
    ∷ revoking revoked
    ∷ recording (event (codes "a"))
    ∷ recording (event (codes "b"))
    ∷ []

-- Calls that follow: the second throws, since the id is another artifact's.
abbrev later : List Operation
later =
    putting_key key_later
    ∷ putting_artifact (record statement { id = codes "leaf" })
    ∷ accepting_mark mark_later
    ∷ purging (codes "9")
    ∷ recording (event (codes "c"))
    ∷ []

abbrev pub store : Store
store = run_all engine start empty_store

sees_artifact : get_artifact engine (codes "leaf") store ≡ ok (some artifact)
unfolding stores
sees_artifact = refl

sees_revocation : is_revoked engine TargetType.delegation (codes "leaf") (codes "3") store ≡ true
unfolding stores
sees_revocation = refl

sees_mark :
    get_status_high_water (codes "snapshot") (codes "publisher") (codes "key") store ≡ some mark
unfolding stores
sees_mark = refl

sees_later_mark :
    get_status_high_water
      (codes "snapshot")
      (codes "publisher")
      (codes "key")
      (run_all engine later store)
    ≡ some mark_later
unfolding stores
sees_later_mark = refl

abbrev first : VerificationEventFilter
first = record { limit = some (pos 1); after_id = none; decision = none; trust_snapshot_id = none }

first_page : (list_verification_events first store).next_after_id ≡ some (codes "b")
unfolding stores
first_page = refl

page_complete_example :
    (1 ≤ page_limit first.limit)
    × (page_limit first.limit ≤ 200)
    × (length (list_verification_events first store).items ≤ page_limit first.limit)
    × ((list_verification_events first store).items
        ≡ take (page_limit first.limit) (newest_first (filter (meets first) store.events)))
    × All (λ row. meets first row ≡ true) (list_verification_events first store).items
    × ((((list_verification_events first store).next_after_id ≡ none)
          × ((list_verification_events first store).items
              ≡ newest_first (filter (meets first) store.events)))
        ⊎ ((id : Text) × ((list_verification_events first store).next_after_id ≡ some id)
            × (length (list_verification_events first store).items ≡ page_limit first.limit)
            × (id_of (last? (list_verification_events first store).items) ≡ some id)))
page_complete_example = page_complete first store

abbrev moved : Store
moved = record empty_store { artifacts = artifact_row engine artifact ∷ [] }

moves : run engine (putting_artifact artifact) empty_store ≡ ok moved
unfolding stores
moves = refl

run_refines_example : Step engine empty_store (putting_artifact artifact) moved
run_refines_example = run_refines engine (putting_artifact artifact) empty_store moved moves

artifact_lasts_example :
    get_artifact engine (codes "leaf") (run_all engine later store) ≡ ok (some artifact)
artifact_lasts_example = artifact_lasts engine later store (codes "leaf") artifact sees_artifact

revocation_lasts_example :
    is_revoked engine TargetType.delegation (codes "leaf") (codes "3") (run_all engine later store)
    ≡ true
revocation_lasts_example =
    revocation_lasts engine later store TargetType.delegation (codes "leaf") (codes "3")
      sees_revocation

abbrev stored_key : KeyRow
stored_key = key_row engine key

sees_key : find (has_key_id (codes "key")) store.keys ≡ some stored_key
unfolding stores
sees_key = refl

key_identity_lasts_example :
    (next : KeyRow) × (find (has_key_id (codes "key")) (run_all engine later store).keys
      ≡ some next)
    × ((next.agent_id ≡ codes "agent")
        × (next.public_jwk_json ≡ codes "{}")
        × ((next ≡ stored_key) ⊎ (pos 1 <ℤ next.history_sequence)))
key_identity_lasts_example = key_identity_lasts engine later store (codes "key") stored_key sees_key

high_water_lasts_example :
    (next : StatusPublisherHighWater) × (get_status_high_water
        (codes "snapshot")
        (codes "publisher")
        (codes "key")
        (run_all engine later store)
      ≡ some next)
    × ((next ≡ mark) ⊎ (pos 1 <ℤ next.sequence))
high_water_lasts_example =
    high_water_lasts engine later store (codes "snapshot") (codes "publisher") (codes "key") mark
      sees_mark

abbrev once_row : IdempotencyRow
once_row = record { key = codes "once"; identity_id = codes "credential"; created_at = codes "1" }

sees_once : idempotency_of (some (codes "once")) store ≡ some once_row
unfolding stores
sees_once = refl

sees_credential : get_identity_credential engine (codes "credential") store ≡ ok (some credential)
unfolding stores
sees_credential = refl

abbrev asked : IdentityCredentialRecord
asked = record credential { id = codes "another" }

asked-IsClean : IsClean engine asked.credential
unfolding stores
asked-IsClean = refl

asked_named : is_empty asked.id ≡ false
unfolding stores
asked_named = refl

asked_owned : is_empty asked.agent_id ≡ false
unfolding stores
asked_owned = refl

creation_idempotent_example :
    create_identity_credential engine asked (some (codes "once")) (run_all engine later store)
    ≡ ok (credential, run_all engine later store)
creation_idempotent_example =
    creation_idempotent engine later store (codes "once") once_row credential asked sees_once
      sees_credential asked_named asked_owned asked-IsClean

reachable-HoldsCheckedColumns_example : HoldsCheckedColumns engine store
reachable-HoldsCheckedColumns_example = reachable-HoldsCheckedColumns engine start

reachable-IsConsistent_example : IsConsistent store
reachable-IsConsistent_example = reachable-IsConsistent engine start

abbrev replay : Text → ReplayKey
replay request_id = record {
  audience = codes "api";
  signer_key_id = codes "key";
  request_id = request_id;
  nonce_digest = codes "nonce";
  expires_at = codes "8";
}

abbrev between : List Event
between = Event.purging (codes "3") ∷ Event.consuming (replay (codes "c")) (codes "4") ∷ []

first_accepted : (consume (replay (codes "a")) (codes "1") []).0 ≡ true
unfolding stores
first_accepted = refl

second_conflicts :
    conflicts (replay (codes "b")) (record { key = replay (codes "a"); consumed_at = codes "1" })
    ≡ true
unfolding stores
second_conflicts = refl

between-IsOrdered : IsOrdered (codes "1") between (codes "5")
unfolding stores IsOrdered
between-IsOrdered = (refl, (omega arith, tt), (refl, (omega arith, tt), refl))

replay_once_example :
    (consume
      (replay (codes "b"))
      (codes "5")
      (all_happen between (consume (replay (codes "a")) (codes "1") []).1)).0
    ≡ false
replay_once_example =
    replay_once (replay (codes "a")) (replay (codes "b")) (codes "1") (codes "5") [] between
      (omega arith, tt) first_accepted second_conflicts refl between-IsOrdered

abbrev first_migration : Migration
first_migration = record { id = codes "0001"; checksum = codes "x" }

abbrev next_migration : Migration
next_migration = record { id = codes "0002"; checksum = codes "y" }

abbrev applied : List MigrationRow
applied = applied_row (codes "1") first_migration ∷ []

abbrev migrated : List MigrationRow
migrated = applied_row (codes "1") first_migration ∷ applied_row (codes "2") next_migration ∷ []

migrates :
    configure_and_migrate (first_migration ∷ next_migration ∷ []) (codes "2") applied ≡ ok migrated
unfolding stores agrees remaining configure_and_migrate
migrates = refl

migrations_complete_example :
    map name_in migrated ≡ map name_of (first_migration ∷ next_migration ∷ [])
migrations_complete_example =
    migrations_complete (first_migration ∷ next_migration ∷ []) (codes "2") applied migrated
      migrates
