-- ===== src/Storage/Records.antt =====
-- packages/storage-sqlite/src/types.ts, and the tables of packages/storage-sqlite/src/migrations.ts. A
-- record of the source stands for its row too, with the JSON columns apart: they hold texts.
use tesserra.Prelude.{ℕ, Option, List, [], Text}
use tesserra.Prelude.Int.{ℤ}
use tesserra.Json.{Json}

pub record AgentRecord : Type 0 where
  pub id : Text
  pub display_name : Option Text
  pub metadata : Option Json
  pub created_at : Text
  pub updated_at : Text
  pub deleted_at : Option Text

pub record AgentRow : Type 0 where
  pub id : Text
  pub display_name : Option Text
  pub metadata_json : Option Text
  pub created_at : Text
  pub updated_at : Text
  pub deleted_at : Option Text

pub data KeyStatus : Type 0 where
  active retired compromised revoked : KeyStatus

pub record KeyRecord : Type 0 where
  pub id : Text
  pub agent_id : Text
  pub public_jwk : Json
  pub provider_reference : Option Text
  pub status : KeyStatus
  pub not_before : Text
  pub expires_at : Text
  pub replacement_key_id : Option Text
  pub history_sequence : ℤ
  pub created_at : Text
  pub updated_at : Text

pub record KeyRow : Type 0 where
  pub id : Text
  pub agent_id : Text
  pub public_jwk_json : Text
  pub provider_reference : Option Text
  pub status : KeyStatus
  pub not_before : Text
  pub expires_at : Text
  pub replacement_key_id : Option Text
  pub history_sequence : ℤ
  pub created_at : Text
  pub updated_at : Text

pub record HistoryRow : Type 0 where
  pub key_id : Text
  pub history_sequence : ℤ
  pub status : KeyStatus
  pub not_before : Text
  pub expires_at : Text
  pub replacement_key_id : Option Text
  pub provider_reference : Option Text
  pub recorded_at : Text

-- Its row has the same columns.
pub record TrustSnapshotRecord : Type 0 where
  pub snapshot_id : Text
  pub policy_hash : Text
  pub sequence : ℤ
  pub canonical_policy : List ℕ
  pub issuer_id : Text
  pub issued_at : Text
  pub expires_at : Text
  pub source : Option Text
  pub created_at : Text

pub record TrustAnchorRecord : Type 0 where
  pub snapshot_id : Text
  pub anchor_id : Text
  pub principal_id : Text
  pub purpose : Text
  pub public_jwk : Json
  pub created_at : Text

pub record AnchorRow : Type 0 where
  pub snapshot_id : Text
  pub anchor_id : Text
  pub principal_id : Text
  pub purpose : Text
  pub public_jwk_json : Text
  pub created_at : Text

-- Its row has the same columns.
pub record StatusPublisherHighWater : Type 0 where
  pub snapshot_id : Text
  pub publisher_id : Text
  pub target_key_id : Text
  pub sequence : ℤ
  pub digest : Text
  pub updated_at : Text

pub record ReplayKey : Type 0 where
  pub audience : Text
  pub signer_key_id : Text
  pub request_id : Text
  pub nonce_digest : Text
  pub expires_at : Text

pub record ReplayRow : Type 0 where
  pub key : ReplayKey
  pub consumed_at : Text

pub record IdentityCredentialRecord : Type 0 where
  pub id : Text
  pub agent_id : Text
  pub credential : Json
  pub created_at : Text

pub record CredentialRow : Type 0 where
  pub id : Text
  pub agent_id : Text
  pub credential_json : Text
  pub created_at : Text

pub record IdempotencyRow : Type 0 where
  pub key : Text
  pub identity_id : Text
  pub created_at : Text

pub data StoredArtifactKind : Type 0 where
  delegation request provenance key_status revocation key_rotation : StoredArtifactKind

pub record SignedArtifactRecord : Type 0 where
  pub id : Text
  pub kind : StoredArtifactKind
  pub artifact : Json
  pub issued_at : Text
  pub created_at : Text

pub record ArtifactRow : Type 0 where
  pub id : Text
  pub kind : StoredArtifactKind
  pub artifact_json : Text
  pub issued_at : Text
  pub created_at : Text

pub data TargetType : Type 0 where
  credential key delegation : TargetType

pub record RevocationRecord : Type 0 where
  pub id : Text
  pub target_type : TargetType
  pub target_id : Text
  pub effective_at : Text
  pub artifact : Json
  pub created_at : Text

pub record RevocationRow : Type 0 where
  pub id : Text
  pub target_type : TargetType
  pub target_id : Text
  pub effective_at : Text
  pub artifact_json : Text
  pub created_at : Text

pub data Relation : Type 0 where
  authority request predecessor : Relation

pub record EdgeRow : Type 0 where
  pub from_id : Text
  pub to_id : Text
  pub relation : Relation

pub data EventDecision : Type 0 where
  verified rejected : EventDecision

pub record VerificationEventRecord : Type 0 where
  pub id : Text
  pub occurred_at : Text
  pub decision : EventDecision
  pub primary_code : Text
  pub secondary_codes : List Text
  pub artifact_digest : Option Text
  pub evidence_ids : List Text
  pub trust_snapshot_id : Option Text
  pub policy_hash : Option Text
  pub trust_sequence : Option ℤ
  pub status_hash : Option Text
  pub redacted_evidence : Option Json

pub record EventRow : Type 0 where
  pub id : Text
  pub occurred_at : Text
  pub decision : EventDecision
  pub primary_code : Text
  pub secondary_codes_json : Text
  pub artifact_digest : Option Text
  pub evidence_ids_json : Text
  pub trust_snapshot_id : Option Text
  pub policy_hash : Option Text
  pub trust_sequence : Option ℤ
  pub status_hash : Option Text
  pub redacted_evidence_json : Option Text

-- The database, a list of rows for each table, the last inserted first.
pub record Store : Type 0 where
  pub agents : List AgentRow
  pub keys : List KeyRow
  pub key_history : List HistoryRow
  pub snapshots : List TrustSnapshotRecord
  pub anchors : List AnchorRow
  pub publishers : List StatusPublisherHighWater
  pub replays : List ReplayRow
  pub credentials : List CredentialRow
  pub idempotency : List IdempotencyRow
  pub artifacts : List ArtifactRow
  pub revocations : List RevocationRow
  pub edges : List EdgeRow
  pub events : List EventRow

abbrev pub empty_store : Store
empty_store = record {
  agents = [];
  keys = [];
  key_history = [];
  snapshots = [];
  anchors = [];
  publishers = [];
  replays = [];
  credentials = [];
  idempotency = [];
  artifacts = [];
  revocations = [];
  edges = [];
  events = [];
}
