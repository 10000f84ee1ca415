-- ===== src/Storage/Provenance.antt =====
-- provenanceGraph of packages/storage-sqlite/src/sqlite-storage.ts. The recursive query is a search by a
-- queue; a round takes one id out, and at most one for each edge and the first come in.
pub mod Rounds
pub mod Reaches
use tesserra.Prelude.{
  ℕ, zero, suc, Bool, true, false, not, ◌&&◌, ◌||◌, Option, none, some, List, [], ◌∷◌,
  if◌then◌else◌, length, some_of, filter, map, sort_by, Text, text_eq,
}
use tesserra.Prelude.Int.{ℤ}
use tesserra.Json.{Json}
use tesserra.Core.Values.{text_mem}
use tesserra.Storage.Artifacts.{
  same_kind, read_artifact, by_issue, list_artifacts, relation_text, is_revoked,
}
use tesserra.Storage.Engine.{Engine, sql_lt}
use tesserra.Storage.Records.{
  StoredArtifactKind, SignedArtifactRecord, ArtifactRow, TargetType, EdgeRow, Store,
}
use tesserra.Storage.Result.{Result, ok, ◌>>=◌, read_all}

-- The edges out of an id: what is not seen yet is queued.
unfoldable pub absorb : Text → List EdgeRow → List Text → List Text → List Text × List Text
absorb id [] queue seen = (queue, seen)
absorb id (x ∷ xs) queue seen = elim (text_eq x.from_id id && not (text_mem x.to_id seen)) [
  | true ↦ absorb id xs (x.to_id ∷ queue) (x.to_id ∷ seen)
  | false ↦ absorb id xs queue seen
]

unfoldable pub closure : ℕ → List EdgeRow → List Text → List Text → List Text
closure zero edges queue seen = seen
closure (suc fuel) edges [] seen = seen
closure (suc fuel) edges (id ∷ queue) seen =
    let (q, s) = absorb id edges queue seen in closure fuel edges q s

-- WITH RECURSIVE reachable(id)
unfoldable pub reachable : List EdgeRow → Text → List Text
reachable edges root = closure (suc (suc (length edges))) edges (root ∷ []) (root ∷ [])

-- #reachableArtifacts(rootId)
unfoldable pub reachable_artifacts : Engine → Text → Store → Result (List SignedArtifactRecord)
reachable_artifacts e root s =
    read_all (read_artifact e)
      (by_issue (filter (λ row. text_mem row.id (reachable s.edges root)) s.artifacts))

pub record ProvenanceGraphNode : Type 0 where
  pub id : Text
  pub kind : StoredArtifactKind
  pub valid : Bool
  pub artifact : Json

pub record ProvenanceGraph : Type 0 where
  pub nodes : List ProvenanceGraphNode
  pub edges : List EdgeRow

abbrev pub node : Engine → ℤ → Store → SignedArtifactRecord → ProvenanceGraphNode
node e now s r = record {
  id = r.id;
  kind = r.kind;
  valid = not (
      same_kind r.kind StoredArtifactKind.delegation
      && is_revoked e TargetType.delegation r.id (e.iso now) s);
  artifact = r.artifact;
}

-- ORDER BY from_id, relation, to_id
abbrev pub edge_before : EdgeRow → EdgeRow → Bool
edge_before left right =
    if text_eq left.from_id right.from_id
    then if text_eq (relation_text left.relation) (relation_text right.relation)
      then not (sql_lt right.to_id left.to_id)
      else not (sql_lt (relation_text right.relation) (relation_text left.relation))
    else not (sql_lt right.from_id left.from_id)

abbrev pub has_node : Text → List ProvenanceGraphNode → Bool
has_node id nodes = some_of (λ n. text_eq n.id id) nodes

abbrev pub is_inside : Option Text → List ProvenanceGraphNode → EdgeRow → Bool
is_inside none nodes x = true
is_inside (some root) nodes x = has_node x.from_id nodes && has_node x.to_id nodes

abbrev pub artifacts_of : Engine → Option Text → Store → Result (List SignedArtifactRecord)
artifacts_of e none s = list_artifacts e none s
artifacts_of e (some root) s = reachable_artifacts e root s

-- provenanceGraph(rootId)
unfoldable pub provenance_graph : Engine → ℤ → Option Text → Store → Result ProvenanceGraph
provenance_graph e now root s = do
  artifacts ← artifacts_of e root s
  let nodes = map (node e now s) artifacts
  ok (record { nodes = nodes; edges = filter (is_inside root nodes) (sort_by edge_before s.edges) })
