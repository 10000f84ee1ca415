-- ===== src/Storage/Steps/Keeps.antt =====
-- What no call undoes: once written, it stays, or moves on in order.
use tesserra.Prelude.{arith}
use tesserra.Storage.Artifacts.{artifact_row, has_artifact_id}
use tesserra.Storage.Credentials.{credential_row, has_credential_id, has_key}
use tesserra.Storage.Engine.{Engine}
use tesserra.Storage.Events.{event_row, has_event_id}
use tesserra.Storage.Records.{Store}
use tesserra.Storage.Rows.{find-insert}
use tesserra.Storage.Steps.{
  Operation, Step, stay, agents_moved, key_added, key_changed, snapshot_accepted, mark_opened,
  mark_advanced, replays_moved, credential_created, artifact_put, revocation_added, event_recorded,
}
use tesserra.Storage.Steps.Tables.{
  Kept, Met, Versioned, Advanced, kept, met, versioned, advanced, add-Versioned, change-Versioned,
  next_less, open-Advanced, move-Advanced, remember-Kept,
}
use tesserra.Storage.Trust.{has_snapshot_id, get_status_high_water}

pub record Keeps (s t : Store) : Type 0 where
  pub artifacts : Kept has_artifact_id s.artifacts t.artifacts
  pub credentials : Kept has_credential_id s.credentials t.credentials
  pub idempotency : Kept has_key s.idempotency t.idempotency
  pub snapshots : Kept has_snapshot_id s.snapshots t.snapshots
  pub events : Kept has_event_id s.events t.events
  pub revocations : Met s.revocations t.revocations
  pub keys : Versioned s.keys t.keys
  pub publishers : Advanced s.publishers t.publishers

pub Keeps-refl : (s : Store) → Keeps s s
Keeps-refl s = record {
  artifacts = kept has_artifact_id s.artifacts;
  credentials = kept has_credential_id s.credentials;
  idempotency = kept has_key s.idempotency;
  snapshots = kept has_snapshot_id s.snapshots;
  events = kept has_event_id s.events;
  revocations = met s.revocations;
  keys = versioned s.keys;
  publishers = advanced s.publishers;
}

pub Step-Keeps :
    (e : Engine) (operation : Operation) (s t : Store) → Step e s operation t → Keeps s t
unfolding get_status_high_water
Step-Keeps e operation s t (stay idle) = Keeps-refl s
Step-Keeps e operation s t (agents_moved agent rows upserts) = record {
  artifacts = kept has_artifact_id s.artifacts;
  credentials = kept has_credential_id s.credentials;
  idempotency = kept has_key s.idempotency;
  snapshots = kept has_snapshot_id s.snapshots;
  events = kept has_event_id s.events;
  revocations = met s.revocations;
  keys = versioned s.keys;
  publishers = advanced s.publishers;
}
Step-Keeps e operation s t (replays_moved rows moved) = record {
  artifacts = kept has_artifact_id s.artifacts;
  credentials = kept has_credential_id s.credentials;
  idempotency = kept has_key s.idempotency;
  snapshots = kept has_snapshot_id s.snapshots;
  events = kept has_event_id s.events;
  revocations = met s.revocations;
  keys = versioned s.keys;
  publishers = advanced s.publishers;
}
Step-Keeps e operation s t (key_added key public absent) = record {
  artifacts = kept has_artifact_id s.artifacts;
  credentials = kept has_credential_id s.credentials;
  idempotency = kept has_key s.idempotency;
  snapshots = kept has_snapshot_id s.snapshots;
  events = kept has_event_id s.events;
  revocations = met s.revocations;
  keys = add-Versioned e key s.keys absent;
  publishers = advanced s.publishers;
}
Step-Keeps e operation s t (key_changed key row found agent less) = record {
  artifacts = kept has_artifact_id s.artifacts;
  credentials = kept has_credential_id s.credentials;
  idempotency = kept has_key s.idempotency;
  snapshots = kept has_snapshot_id s.snapshots;
  events = kept has_event_id s.events;
  revocations = met s.revocations;
  keys = change-Versioned e key row s.keys found less;
  publishers = advanced s.publishers;
}
Step-Keeps e operation s t (snapshot_accepted snapshot anchors absent forward own) = record {
  artifacts = kept has_artifact_id s.artifacts;
  credentials = kept has_credential_id s.credentials;
  idempotency = kept has_key s.idempotency;
  snapshots = λ id row h. find-insert (λ r. r.snapshot_id) snapshot s.snapshots id row absent h;
  events = kept has_event_id s.events;
  revocations = met s.revocations;
  keys = versioned s.keys;
  publishers = advanced s.publishers;
}
Step-Keeps e operation s t (mark_opened value absent first) = record {
  artifacts = kept has_artifact_id s.artifacts;
  credentials = kept has_credential_id s.credentials;
  idempotency = kept has_key s.idempotency;
  snapshots = kept has_snapshot_id s.snapshots;
  events = kept has_event_id s.events;
  revocations = met s.revocations;
  keys = versioned s.keys;
  publishers = open-Advanced value s.publishers absent;
}
Step-Keeps e operation s t (mark_advanced value previous found next) = record {
  artifacts = kept has_artifact_id s.artifacts;
  credentials = kept has_credential_id s.credentials;
  idempotency = kept has_key s.idempotency;
  snapshots = kept has_snapshot_id s.snapshots;
  events = kept has_event_id s.events;
  revocations = met s.revocations;
  keys = versioned s.keys;
  publishers =
      move-Advanced value previous s.publishers found
        (next_less previous.sequence value.sequence next);
}
Step-Keeps e operation s t (credential_created r key clean agent absent fresh) = record {
  artifacts = kept has_artifact_id s.artifacts;
  credentials =
      λ id row h. find-insert (λ c. c.id) (credential_row e r) s.credentials id row absent h;
  idempotency = remember-Kept key r s fresh;
  snapshots = kept has_snapshot_id s.snapshots;
  events = kept has_event_id s.events;
  revocations = met s.revocations;
  keys = versioned s.keys;
  publishers = advanced s.publishers;
}
Step-Keeps e operation s t (artifact_put r clean absent) = record {
  artifacts = λ id row h. find-insert (λ a. a.id) (artifact_row e r) s.artifacts id row absent h;
  credentials = kept has_credential_id s.credentials;
  idempotency = kept has_key s.idempotency;
  snapshots = kept has_snapshot_id s.snapshots;
  events = kept has_event_id s.events;
  revocations = met s.revocations;
  keys = versioned s.keys;
  publishers = advanced s.publishers;
}
Step-Keeps e operation s t (revocation_added r row clean found kind absent) = record {
  artifacts = kept has_artifact_id s.artifacts;
  credentials = kept has_credential_id s.credentials;
  idempotency = kept has_key s.idempotency;
  snapshots = kept has_snapshot_id s.snapshots;
  events = kept has_event_id s.events;
  revocations = λ test h. ground (arith, h);
  keys = versioned s.keys;
  publishers = advanced s.publishers;
}
Step-Keeps e operation s t (event_recorded event clean absent) = record {
  artifacts = kept has_artifact_id s.artifacts;
  credentials = kept has_credential_id s.credentials;
  idempotency = kept has_key s.idempotency;
  snapshots = kept has_snapshot_id s.snapshots;
  events = λ id row h. find-insert (λ v. v.id) (event_row e event) s.events id row absent h;
  revocations = met s.revocations;
  keys = versioned s.keys;
  publishers = advanced s.publishers;
}
