-- ===== src/Storage/Steps/Consistent.antt =====
-- Every reachable database is consistent: its tables agree.
use tesserra.Prelude.{
  ◌≡◌, refl, true, Option, none, some, List, [], ◌∷◌, All, All-map_imp, find, Text, text_eq_refl,
}
use tesserra.Prelude.Int.{◌<ℤ◌}
use tesserra.Storage.Artifacts.{same_kind, has_artifact_id, artifact_row}
use tesserra.Storage.Credentials.{has_credential_id, credential_row, remember}
use tesserra.Storage.Engine.{Engine}
use tesserra.Storage.Records.{
  TrustSnapshotRecord, ArtifactRow, StoredArtifactKind, CredentialRow, IdempotencyRow,
  IdentityCredentialRecord, RevocationRow, Store, empty_store,
}
use tesserra.Storage.Rows.{find-insert}
use tesserra.Storage.Steps.{
  Operation, run_all, Step, stay, agents_moved, key_added, key_changed, snapshot_accepted,
  mark_opened, mark_advanced, replays_moved, credential_created, artifact_put, revocation_added,
  event_recorded,
}
use tesserra.Storage.Steps.Refines.{run_all_keeps}

-- From the newest to the oldest, with falling sequences.
abbrev pub IsDescending : List TrustSnapshotRecord → Type 0
IsDescending [] = Unit
IsDescending (row ∷ rows) = All (λ other. other.sequence <ℤ row.sequence) rows × IsDescending rows

-- The artifact of a revocation is stored, and is a revocation.
abbrev pub IsBacked : List ArtifactRow → RevocationRow → Type 0
IsBacked artifacts row =
    (artifact : ArtifactRow) × (find (has_artifact_id row.id) artifacts ≡ some artifact)
    × (same_kind artifact.kind StoredArtifactKind.revocation ≡ true)

-- The credential that was created under a key of idempotency is stored.
abbrev pub PointsTo : List CredentialRow → IdempotencyRow → Type 0
PointsTo credentials row =
    (credential : CredentialRow) × (find (has_credential_id row.identity_id) credentials
      ≡ some credential)

pub record IsConsistent (s : Store) : Type 0 where
  pub snapshots : IsDescending s.snapshots
  pub revocations : All (IsBacked s.artifacts) s.revocations
  pub idempotency : All (PointsTo s.credentials) s.idempotency

insert-PointsTo :
    (e : Engine) (r : IdentityCredentialRecord) (s : Store)
    → find (has_credential_id r.id) s.credentials ≡ none
    → All (PointsTo s.credentials) s.idempotency
    → All (PointsTo (credential_row e r ∷ s.credentials)) s.idempotency
insert-PointsTo e r s absent h =
    All-map_imp
      (λ i (c, at).
        (c, find-insert (λ x. x.id) (credential_row e r) s.credentials i.identity_id c absent at))
      s.idempotency h

remember-PointsTo :
    (e : Engine) (r : IdentityCredentialRecord) (key : Option Text) (s : Store)
    → find (has_credential_id r.id) s.credentials ≡ none
    → All (PointsTo s.credentials) s.idempotency
    → All (PointsTo (credential_row e r ∷ s.credentials)) (remember key r s.idempotency)
remember-PointsTo e r none s absent h = insert-PointsTo e r s absent h
remember-PointsTo e r (some key) s absent h =
    ((credential_row e r, rw (text_eq_refl r.id) refl), insert-PointsTo e r s absent h)

Step-IsConsistent :
    (e : Engine) (operation : Operation) (s t : Store)
    → Step e s operation t
    → IsConsistent s
    → IsConsistent t
Step-IsConsistent e operation s t (stay idle) h = record {
  snapshots = h.snapshots;
  revocations = h.revocations;
  idempotency = h.idempotency;
}
Step-IsConsistent e operation s t (agents_moved agent rows upserts) h = record {
  snapshots = h.snapshots;
  revocations = h.revocations;
  idempotency = h.idempotency;
}
Step-IsConsistent e operation s t (replays_moved rows moved) h = record {
  snapshots = h.snapshots;
  revocations = h.revocations;
  idempotency = h.idempotency;
}
Step-IsConsistent e operation s t (key_added key public absent) h = record {
  snapshots = h.snapshots;
  revocations = h.revocations;
  idempotency = h.idempotency;
}
Step-IsConsistent e operation s t (key_changed key row found agent less) h = record {
  snapshots = h.snapshots;
  revocations = h.revocations;
  idempotency = h.idempotency;
}
Step-IsConsistent e operation s t (snapshot_accepted snapshot anchors absent forward own) h =
    record {
      snapshots = (forward, h.snapshots);
      revocations = h.revocations;
      idempotency = h.idempotency;
    }
Step-IsConsistent e operation s t (mark_opened value absent first) h = record {
  snapshots = h.snapshots;
  revocations = h.revocations;
  idempotency = h.idempotency;
}
Step-IsConsistent e operation s t (mark_advanced value previous found next) h = record {
  snapshots = h.snapshots;
  revocations = h.revocations;
  idempotency = h.idempotency;
}
Step-IsConsistent e operation s t (credential_created r key clean agent absent fresh) h = record {
  snapshots = h.snapshots;
  revocations = h.revocations;
  idempotency = remember-PointsTo e r key s absent h.idempotency;
}
Step-IsConsistent e operation s t (artifact_put r clean absent) h = record {
  snapshots = h.snapshots;
  revocations =
      All-map_imp
        (λ row (a, at, kind).
          (a, find-insert (λ x. x.id) (artifact_row e r) s.artifacts row.id a absent at, kind))
        s.revocations h.revocations;
  idempotency = h.idempotency;
}
Step-IsConsistent e operation s t (revocation_added r row clean found kind absent) h = record {
  snapshots = h.snapshots;
  revocations = ((row, found, kind), h.revocations);
  idempotency = h.idempotency;
}
Step-IsConsistent e operation s t (event_recorded event clean absent) h = record {
  snapshots = h.snapshots;
  revocations = h.revocations;
  idempotency = h.idempotency;
}

-- After any sequence of calls on an empty database, the snapshots stand in the order of their sequences,
-- every revocation has a stored artifact of that kind, and every key of idempotency points to a stored
-- credential.
pub reachable-IsConsistent :
    (e : Engine) (operations : List Operation) → IsConsistent (run_all e operations empty_store)
reachable-IsConsistent e operations =
    run_all_keeps e IsConsistent (Step-IsConsistent e) operations empty_store
      (record { snapshots = tt; revocations = tt; idempotency = tt })
