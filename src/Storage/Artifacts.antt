-- ===== src/Storage/Artifacts.antt =====
-- The signed artifacts, the revocations and the edges of provenance in
-- packages/storage-sqlite/src/sqlite-storage.ts.
use tesserra.Prelude.{
  Bool, true, false, not, ◌&&◌, ◌||◌, Option, none, some, List, [], ◌∷◌, ◌++◌, if◌then◌else◌,
  some_of, find, filter, map, sort_by, Text, codes, text_eq,
}
use tesserra.Json.{Json, Members, member, as_object, as_array, as_string}
use tesserra.Storage.Engine.{Engine, parse_json}
use tesserra.Storage.Guards.{assert_no_private_material}
use tesserra.Storage.Records.{
  StoredArtifactKind, SignedArtifactRecord, ArtifactRow, TargetType, RevocationRecord,
  RevocationRow, Relation, EdgeRow, Store,
}
use tesserra.Storage.Result.{
  Result, ok, ◌>>=◌, ◌>>◌, throw_if, read_one, read_all, artifact_conflict, not_a_revocation,
}
use tesserra.Storage.Rows.{in_order}

abbrev pub kind_text : StoredArtifactKind → Text
kind_text StoredArtifactKind.delegation = codes "delegation"
kind_text StoredArtifactKind.request = codes "request"
kind_text StoredArtifactKind.provenance = codes "provenance"
kind_text StoredArtifactKind.key_status = codes "key_status"
kind_text StoredArtifactKind.revocation = codes "revocation"
kind_text StoredArtifactKind.key_rotation = codes "key_rotation"

abbrev pub same_kind : StoredArtifactKind → StoredArtifactKind → Bool
same_kind left right = text_eq (kind_text left) (kind_text right)

abbrev pub has_artifact_id : Text → ArtifactRow → Bool
has_artifact_id id row = text_eq row.id id

abbrev pub artifact_row : Engine → SignedArtifactRecord → ArtifactRow
artifact_row e r = record {
  id = r.id;
  kind = r.kind;
  artifact_json = e.stringify r.artifact;
  issued_at = r.issued_at;
  created_at = r.created_at;
}

-- #artifact(row)
unfoldable pub read_artifact : Engine → ArtifactRow → Result SignedArtifactRecord
read_artifact e row = do
  artifact ← parse_json e row.artifact_json
  ok (record {
    id = row.id;
    kind = row.kind;
    artifact = artifact;
    issued_at = row.issued_at;
    created_at = row.created_at;
  })

-- getArtifact(id)
unfoldable pub get_artifact : Engine → Text → Store → Result (Option SignedArtifactRecord)
get_artifact e id s = read_one (read_artifact e) (find (has_artifact_id id) s.artifacts)

-- ORDER BY issued_at, id
abbrev pub by_issue : List ArtifactRow → List ArtifactRow
by_issue rows =
    sort_by (λ left right. in_order left.issued_at left.id right.issued_at right.id) rows

abbrev pub is_of_kind : Option StoredArtifactKind → ArtifactRow → Bool
is_of_kind none row = true
is_of_kind (some kind) row = same_kind row.kind kind

-- listArtifacts(kind)
unfoldable pub list_artifacts :
    Engine → Option StoredArtifactKind → Store → Result (List SignedArtifactRecord)
list_artifacts e kind s =
    read_all (read_artifact e) (by_issue (filter (is_of_kind kind) s.artifacts))

-- isObject(item) && typeof item.id === 'string', and the id
abbrev pub reference_id : Option Json → Option Text
reference_id v = elim (as_object v) [ none ↦ none | some ms ↦ as_string (member "id" ms) ]

abbrev pub ids_of : List Json → List Text
ids_of [] = []
ids_of (v ∷ vs) = elim (reference_id (some v)) [ none ↦ ids_of vs | some id ↦ id ∷ ids_of vs ]

abbrev pub references : Option Json → List Text
references v = elim (as_array v) [ none ↦ [] | some vs ↦ ids_of vs ]

abbrev pub edge : Text → Relation → Text → EdgeRow
edge from_id relation to_id = record { from_id = from_id; to_id = to_id; relation = relation }

abbrev pub request_edge : Text → Option Text → List EdgeRow
request_edge id none = []
request_edge id (some to_id) = edge id Relation.request to_id ∷ []

abbrev pub edges_of : Text → Members → List EdgeRow
edges_of id ms =
    map (edge id Relation.authority) (references (member "authority_refs" ms))
    ++ map (edge id Relation.predecessor) (references (member "predecessor_refs" ms))
    ++ request_edge id (reference_id (member "request_ref" ms))

-- provenanceEdges(record)
unfoldable pub provenance_edges : SignedArtifactRecord → List EdgeRow
provenance_edges r = elim (as_object (some r.artifact)) [
  | none ↦ []
  | some ms ↦ if same_kind r.kind StoredArtifactKind.provenance then edges_of r.id ms else []
]

abbrev pub relation_text : Relation → Text
relation_text Relation.authority = codes "authority"
relation_text Relation.request = codes "request"
relation_text Relation.predecessor = codes "predecessor"

abbrev pub same_edge : EdgeRow → EdgeRow → Bool
same_edge left right =
    text_eq left.from_id right.from_id
    && text_eq left.to_id right.to_id
    && text_eq (relation_text left.relation) (relation_text right.relation)

-- INSERT OR IGNORE, for every edge
unfoldable pub insert_edges : List EdgeRow → List EdgeRow → List EdgeRow
insert_edges [] rows = rows
insert_edges (x ∷ xs) rows = insert_edges xs (if some_of (same_edge x) rows then rows else x ∷ rows)

-- The transaction, for an artifact whose id is stored or not.
unfoldable pub put_known :
    Engine → SignedArtifactRecord → Store → Option SignedArtifactRecord → Result Store
put_known e r s (some existing) = do
  throw_if
      (not (same_kind existing.kind r.kind)
        || not (text_eq (e.stringify existing.artifact) (e.stringify r.artifact)))
      artifact_conflict
  ok s
put_known e r s none = ok (record s {
  artifacts = artifact_row e r ∷ s.artifacts;
  edges = insert_edges (provenance_edges r) s.edges;
})

-- putArtifact(record)
unfoldable pub put_artifact : Engine → SignedArtifactRecord → Store → Result Store
put_artifact e r s = do
  assert_no_private_material e r.artifact
  existing ← get_artifact e r.id s
  put_known e r s existing

abbrev pub revocation_row : Engine → RevocationRecord → RevocationRow
revocation_row e r = record {
  id = r.id;
  target_type = r.target_type;
  target_id = r.target_id;
  effective_at = r.effective_at;
  artifact_json = e.stringify r.artifact;
  created_at = r.created_at;
}

abbrev pub has_revocation_id : Text → RevocationRow → Bool
has_revocation_id id row = text_eq row.id id

abbrev pub is_revocation : Option SignedArtifactRecord → Bool
is_revocation none = false
is_revocation (some r) = same_kind r.kind StoredArtifactKind.revocation

-- revokeArtifact(record)
unfoldable pub revoke_artifact : Engine → RevocationRecord → Store → Result Store
revoke_artifact e r s = do
  assert_no_private_material e r.artifact
  artifact ← get_artifact e r.id s
  throw_if (not (is_revocation artifact)) not_a_revocation
  ok (record s {
    revocations =
        if some_of (has_revocation_id r.id) s.revocations
        then s.revocations
        else revocation_row e r ∷ s.revocations;
  })

abbrev pub target_text : TargetType → Text
target_text TargetType.credential = codes "credential"
target_text TargetType.key = codes "key"
target_text TargetType.delegation = codes "delegation"

abbrev pub revokes : Engine → TargetType → Text → Text → RevocationRow → Bool
revokes e target_type target_id at row =
    text_eq (target_text row.target_type) (target_text target_type)
    && text_eq row.target_id target_id
    && e.no_later row.effective_at at

-- isRevoked(targetType, targetId, at)
unfoldable pub is_revoked : Engine → TargetType → Text → Text → Store → Bool
is_revoked e target_type target_id at s = some_of (revokes e target_type target_id at) s.revocations

unfoldable pub read_revocation : Engine → RevocationRow → Result RevocationRecord
read_revocation e row = do
  artifact ← parse_json e row.artifact_json
  ok (record {
    id = row.id;
    target_type = row.target_type;
    target_id = row.target_id;
    effective_at = row.effective_at;
    artifact = artifact;
    created_at = row.created_at;
  })

abbrev pub is_target : Option Text → RevocationRow → Bool
is_target none row = true
is_target (some id) row = text_eq row.target_id id

-- listRevocations(targetId)
unfoldable pub list_revocations : Engine → Option Text → Store → Result (List RevocationRecord)
list_revocations e target_id s = read_all (read_revocation e) (
    sort_by (λ left right. in_order left.effective_at left.id right.effective_at right.id)
      (filter (is_target target_id) s.revocations))
