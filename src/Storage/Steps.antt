-- ===== src/Storage/Steps.antt =====
-- What each call may do to the database, as a step relation over the calls: an abstract specification of
-- packages/storage-sqlite/src/sqlite-storage.ts. The calls that only read take no part in it.
pub mod Guarded
pub mod Trusted
pub mod Refines
pub mod Tables
pub mod Keeps
pub mod Lasts
pub mod Secrets
pub mod Consistent
use tesserra.Prelude.{
  ◌≡◌, Bool, true, false, not, filter, Option, none, some, List, [], ◌∷◌, All, some_of, find, Text,
}
use tesserra.Prelude.Int.{ℤ, pos, ◌+ℤ◌, ◌<ℤ◌}
use tesserra.Json.{Json}
use tesserra.Storage.Artifacts.{
  same_kind, has_artifact_id, artifact_row, read_artifact, provenance_edges, insert_edges,
  revocation_row, has_revocation_id, put_artifact, revoke_artifact,
}
use tesserra.Storage.Credentials.{
  has_credential_id, credential_row, idempotency_of, remember, create_identity_credential,
}
use tesserra.Storage.Engine.{Engine, sql_lt}
use tesserra.Storage.Events.{event_row, has_event_id, record_verification_event}
use tesserra.Storage.Guards.{
  is_public_jwk, jwk_private_members, has_member, some_key, is_private_name, is_prohibited_name,
}
use tesserra.Storage.Keys.{
  has_agent_id, agent_row, replaced_agent, has_key_id, key_row, replaced_key, history_row,
  put_agent, put_key,
}
use tesserra.Storage.Records.{
  AgentRecord, AgentRow, KeyRecord, KeyRow, TrustSnapshotRecord, TrustAnchorRecord, AnchorRow,
  StatusPublisherHighWater, ReplayKey, ReplayRow, CredentialRow, IdempotencyRow,
  IdentityCredentialRecord, StoredArtifactKind, SignedArtifactRecord, ArtifactRow, RevocationRecord,
  VerificationEventRecord, Store,
}
use tesserra.Storage.Replay.{conflicts, at_most, consume_replay_key, purge_expired_replay_keys}
use tesserra.Storage.Result.{Result, ok, err}
use tesserra.Storage.Rows.{update}
use tesserra.Storage.Trust.{
  has_snapshot_id, anchor_row, mark_of, replace_mark, accept_trust_snapshot,
  accept_status_high_water,
}

-- The calls that write.
pub data Operation : Type 0 where
  putting_agent : AgentRecord → Operation
  putting_key : KeyRecord → Operation
  accepting_snapshot : TrustSnapshotRecord → List TrustAnchorRecord → Operation
  accepting_mark : StatusPublisherHighWater → Operation
  consuming : ReplayKey → Text → Operation
  purging : Text → Operation
  creating_credential : IdentityCredentialRecord → Option Text → Operation
  putting_artifact : SignedArtifactRecord → Operation
  revoking : RevocationRecord → Operation
  recording : VerificationEventRecord → Operation

abbrev pub drop_value : {A : Type 0} → Result (A × Store) → Result Store
drop_value (ok (a, s)) = ok s
drop_value (err e) = err e

unfoldable pub run : Engine → Operation → Store → Result Store
run e (putting_agent agent) s = put_agent e agent s
run e (putting_key key) s = put_key e key s
run e (accepting_snapshot snapshot anchors) s = accept_trust_snapshot e snapshot anchors s
run e (accepting_mark value) s = accept_status_high_water value s
run e (consuming key now) s = ok (consume_replay_key key now s).1
run e (purging now) s = ok (purge_expired_replay_keys now s).1
run e (creating_credential r key) s = drop_value (create_identity_credential e r key s)
run e (putting_artifact r) s = put_artifact e r s
run e (revoking r) s = revoke_artifact e r s
run e (recording event) s = record_verification_event e event s

-- A call that throws leaves the database as it was.
abbrev pub after : Result Store → Store → Store
after (ok t) s = t
after (err x) s = s

unfoldable pub run_all : Engine → List Operation → Store → Store
run_all e [] s = s
run_all e (operation ∷ rest) s = run_all e rest (after (run e operation s) s)

abbrev pub IsPublic : Json → Type 0
IsPublic v = (is_public_jwk v ≡ true) × (some_of (has_member v) jwk_private_members ≡ false)

-- No object in the value has a member with a name of private key material.
abbrev pub IsClean : Engine → Json → Type 0
IsClean e v = some_key (is_private_name e) v ≡ false

abbrev pub IsRedacted : Option Json → Type 0
IsRedacted none = Unit
IsRedacted (some v) = some_key is_prohibited_name v ≡ false

-- The anchors in front of the rows.
unfoldable pub anchored : Engine → List TrustAnchorRecord → List AnchorRow → List AnchorRow
anchored e [] rows = rows
anchored e (anchor ∷ rest) rows = anchored e rest (anchor_row e anchor ∷ rows)

-- A call that leaves the database as it is, and what is there that it stays for.
pub data IsIdle (e : Engine) (s : Store) : Operation → Type 0 where
  snapshot_known :
      (snapshot same : TrustSnapshotRecord) (anchors : List TrustAnchorRecord)
      → find (has_snapshot_id snapshot.snapshot_id) s.snapshots ≡ some same
      → same.policy_hash ≡ snapshot.policy_hash
      → same.sequence ≡ snapshot.sequence
      → IsIdle e s (accepting_snapshot snapshot anchors)
  mark_known :
      (value previous : StatusPublisherHighWater)
      → mark_of value s ≡ some previous
      → value.sequence ≡ previous.sequence
      → value.digest ≡ previous.digest
      → IsIdle e s (accepting_mark value)
  replay_expired :
      (key : ReplayKey) (now : Text)
      → at_most key.expires_at now ≡ true
      → IsIdle e s (consuming key now)
  replay_known :
      (key : ReplayKey) (now : Text)
      → some_of (conflicts key) s.replays ≡ true
      → IsIdle e s (consuming key now)
  creation_remembered :
      (r : IdentityCredentialRecord) (key : Option Text) (row : IdempotencyRow)
      → idempotency_of key s ≡ some row
      → IsIdle e s (creating_credential r key)
  credential_known :
      (r : IdentityCredentialRecord) (key : Option Text) (row : CredentialRow)
      → find (has_credential_id r.id) s.credentials ≡ some row
      → IsIdle e s (creating_credential r key)
  artifact_known :
      (r same : SignedArtifactRecord) (row : ArtifactRow)
      → find (has_artifact_id r.id) s.artifacts ≡ some row
      → read_artifact e row ≡ ok same
      → same_kind same.kind r.kind ≡ true
      → e.stringify same.artifact ≡ e.stringify r.artifact
      → IsIdle e s (putting_artifact r)
  revocation_known :
      (r : RevocationRecord)
      → some_of (has_revocation_id r.id) s.revocations ≡ true
      → IsIdle e s (revoking r)

-- The agents with one put in front, or in the place of the one with its id.
pub data Upserts (e : Engine) (agent : AgentRecord) (rows : List AgentRow)
    : List AgentRow → Type 0 where
  agent_added :
      find (has_agent_id agent.id) rows ≡ none → Upserts e agent rows (agent_row e agent ∷ rows)
  agent_replaced :
      (row : AgentRow)
      → find (has_agent_id agent.id) rows ≡ some row
      → Upserts e agent rows (update (has_agent_id agent.id) (replaced_agent e agent) rows)

-- The replay keys with one put in front that is in time and that no other conflicts with, or without those
-- that have expired.
pub data Replays (rows : List ReplayRow) : Operation → List ReplayRow → Type 0 where
  key_consumed :
      (key : ReplayKey) (now : Text)
      → at_most key.expires_at now ≡ false
      → some_of (conflicts key) rows ≡ false
      → Replays rows (consuming key now) ((record { key = key; consumed_at = now }) ∷ rows)
  keys_purged :
      (now : Text)
      → Replays rows (purging now) (filter (λ row. not (sql_lt row.key.expires_at now)) rows)

-- What a call may make of the database: the call, and the database that it leaves.
pub data Step (e : Engine) (s : Store) : Operation → Store → Type 0 where
  stay : {operation : Operation} → IsIdle e s operation → Step e s operation s
  agents_moved :
      (agent : AgentRecord) (rows : List AgentRow)
      → Upserts e agent s.agents rows
      → Step e s (putting_agent agent) (record s { agents = rows })
  key_added :
      (key : KeyRecord)
      → IsPublic key.public_jwk
      → find (has_key_id key.id) s.keys ≡ none
      → Step e s (putting_key key) (record s {
        keys = key_row e key ∷ s.keys;
        key_history = history_row key ∷ s.key_history;
      })
  key_changed :
      (key : KeyRecord) (row : KeyRow)
      → find (has_key_id key.id) s.keys ≡ some row
      → row.agent_id ≡ key.agent_id
      → row.history_sequence <ℤ key.history_sequence
      → Step e s (putting_key key) (record s {
        keys = update (has_key_id key.id) (replaced_key e key) s.keys;
        key_history = history_row key ∷ s.key_history;
      })
  snapshot_accepted :
      (snapshot : TrustSnapshotRecord) (anchors : List TrustAnchorRecord)
      → find (has_snapshot_id snapshot.snapshot_id) s.snapshots ≡ none
      → All (λ row. row.sequence <ℤ snapshot.sequence) s.snapshots
      → All
          (λ anchor. (anchor.snapshot_id ≡ snapshot.snapshot_id) × IsPublic anchor.public_jwk)
          anchors
      → Step e s
          (accepting_snapshot snapshot anchors)
          (record s { snapshots = snapshot ∷ s.snapshots; anchors = anchored e anchors s.anchors })
  mark_opened :
      (value : StatusPublisherHighWater)
      → mark_of value s ≡ none
      → value.sequence ≡ pos 1
      → Step e s (accepting_mark value) (record s { publishers = value ∷ s.publishers })
  mark_advanced :
      (value previous : StatusPublisherHighWater)
      → mark_of value s ≡ some previous
      → value.sequence ≡ previous.sequence +ℤ pos 1
      → Step e s (accepting_mark value) (record s { publishers = replace_mark value s.publishers })
  replays_moved :
      {operation : Operation} (rows : List ReplayRow)
      → Replays s.replays operation rows
      → Step e s operation (record s { replays = rows })
  credential_created :
      (r : IdentityCredentialRecord) (key : Option Text)
      → IsClean e r.credential
      → some_of (has_agent_id r.agent_id) s.agents ≡ true
      → find (has_credential_id r.id) s.credentials ≡ none
      → idempotency_of key s ≡ none
      → Step e s (creating_credential r key) (record s {
        credentials = credential_row e r ∷ s.credentials;
        idempotency = remember key r s.idempotency;
      })
  artifact_put :
      (r : SignedArtifactRecord)
      → IsClean e r.artifact
      → find (has_artifact_id r.id) s.artifacts ≡ none
      → Step e s (putting_artifact r) (record s {
        artifacts = artifact_row e r ∷ s.artifacts;
        edges = insert_edges (provenance_edges r) s.edges;
      })
  revocation_added :
      (r : RevocationRecord) (row : ArtifactRow)
      → IsClean e r.artifact
      → find (has_artifact_id r.id) s.artifacts ≡ some row
      → same_kind row.kind StoredArtifactKind.revocation ≡ true
      → find (has_revocation_id r.id) s.revocations ≡ none
      → Step e s (revoking r) (record s { revocations = revocation_row e r ∷ s.revocations })
  event_recorded :
      (event : VerificationEventRecord)
      → IsRedacted event.redacted_evidence
      → find (has_event_id event.id) s.events ≡ none
      → Step e s (recording event) (record s { events = event_row e event ∷ s.events })
