-- ===== src/Storage/Steps/Secrets.antt =====
-- What the guards keep out of the columns that they look at, in every reachable database. The metadata of
-- agents, provider references and policies are not looked at.
use tesserra.Prelude.{◌≡◌, refl, Option, List, [], ◌∷◌, All, Bool-cases, inl, inr, Text, text_eq}
use tesserra.Json.{Json}
use tesserra.Storage.Engine.{Engine}
use tesserra.Storage.Keys.{has_key_id, replaced_key, print_optional}
use tesserra.Storage.Records.{KeyRecord, KeyRow, AnchorRow, TrustAnchorRecord, Store, empty_store}
use tesserra.Storage.Rows.{update}
use tesserra.Storage.Steps.{
  Operation, run_all, IsPublic, IsClean, IsRedacted, anchored, Step, stay, agents_moved, key_added,
  key_changed, snapshot_accepted, mark_opened, mark_advanced, replays_moved, credential_created,
  artifact_put, revocation_added, event_recorded,
}
use tesserra.Storage.Steps.Refines.{run_all_keeps}

-- The text of a JSON column prints a public key without private members at its top level.
abbrev pub PrintsPublic : Engine → Text → Type 0
PrintsPublic e text = (v : Json) × (text ≡ e.stringify v) × IsPublic v

-- The text of a JSON column prints a value without a name of private key material.
abbrev pub PrintsClean : Engine → Text → Type 0
PrintsClean e text = (v : Json) × (text ≡ e.stringify v) × IsClean e v

-- The column is NULL or prints a value without a prohibited name.
abbrev pub PrintsRedacted : Engine → Option Text → Type 0
PrintsRedacted e text = (v : Option Json) × (text ≡ print_optional e v) × IsRedacted v

pub record HoldsCheckedColumns (e : Engine) (s : Store) : Type 0 where
  pub keys : All (λ row. PrintsPublic e row.public_jwk_json) s.keys
  pub anchors : All (λ row. PrintsPublic e row.public_jwk_json) s.anchors
  pub artifacts : All (λ row. PrintsClean e row.artifact_json) s.artifacts
  pub credentials : All (λ row. PrintsClean e row.credential_json) s.credentials
  pub revocations : All (λ row. PrintsClean e row.artifact_json) s.revocations
  pub events : All (λ row. PrintsRedacted e row.redacted_evidence_json) s.events

-- A replaced key keeps the public key of its row.
update-public :
    (e : Engine) (key : KeyRecord) (rows : List KeyRow)
    → All (λ row. PrintsPublic e row.public_jwk_json) rows
    → All
        (λ row. PrintsPublic e row.public_jwk_json)
        (update (has_key_id key.id) (replaced_key e key) rows)
unfolding update
update-public e key [] h = tt
update-public e key (row ∷ rows) (p, ps) = elim (Bool-cases (text_eq row.id key.id)) [
  | inl t ↦ rw t (p, ps)
  | inr t ↦ rw t (p, update-public e key rows ps)
]

anchored-public :
    (e : Engine) (anchors : List TrustAnchorRecord) (rows : List AnchorRow) (id : Text)
    → All (λ a. (a.snapshot_id ≡ id) × IsPublic a.public_jwk) anchors
    → All (λ row. PrintsPublic e row.public_jwk_json) rows
    → All (λ row. PrintsPublic e row.public_jwk_json) (anchored e anchors rows)
unfolding anchored
anchored-public e [] rows id own h = h
anchored-public e (a ∷ rest) rows id ((same, public), own) h =
    anchored-public e rest _ id own ((a.public_jwk, refl, public), h)

Step-HoldsCheckedColumns :
    (e : Engine) (operation : Operation) (s t : Store)
    → Step e s operation t
    → HoldsCheckedColumns e s
    → HoldsCheckedColumns e t
Step-HoldsCheckedColumns e operation s t (stay idle) h = record {
  keys = h.keys;
  anchors = h.anchors;
  artifacts = h.artifacts;
  credentials = h.credentials;
  revocations = h.revocations;
  events = h.events;
}
Step-HoldsCheckedColumns e operation s t (agents_moved agent rows upserts) h = record {
  keys = h.keys;
  anchors = h.anchors;
  artifacts = h.artifacts;
  credentials = h.credentials;
  revocations = h.revocations;
  events = h.events;
}
Step-HoldsCheckedColumns e operation s t (replays_moved rows moved) h = record {
  keys = h.keys;
  anchors = h.anchors;
  artifacts = h.artifacts;
  credentials = h.credentials;
  revocations = h.revocations;
  events = h.events;
}
Step-HoldsCheckedColumns e operation s t (key_added key public absent) h = record {
  keys = ((key.public_jwk, refl, public), h.keys);
  anchors = h.anchors;
  artifacts = h.artifacts;
  credentials = h.credentials;
  revocations = h.revocations;
  events = h.events;
}
Step-HoldsCheckedColumns e operation s t (key_changed key row found agent less) h = record {
  keys = update-public e key s.keys h.keys;
  anchors = h.anchors;
  artifacts = h.artifacts;
  credentials = h.credentials;
  revocations = h.revocations;
  events = h.events;
}
Step-HoldsCheckedColumns e operation s t (snapshot_accepted snapshot anchors absent forward own) h =
    record {
      keys = h.keys;
      anchors = anchored-public e anchors s.anchors snapshot.snapshot_id own h.anchors;
      artifacts = h.artifacts;
      credentials = h.credentials;
      revocations = h.revocations;
      events = h.events;
    }
Step-HoldsCheckedColumns e operation s t (mark_opened value absent first) h = record {
  keys = h.keys;
  anchors = h.anchors;
  artifacts = h.artifacts;
  credentials = h.credentials;
  revocations = h.revocations;
  events = h.events;
}
Step-HoldsCheckedColumns e operation s t (mark_advanced value previous found next) h = record {
  keys = h.keys;
  anchors = h.anchors;
  artifacts = h.artifacts;
  credentials = h.credentials;
  revocations = h.revocations;
  events = h.events;
}
Step-HoldsCheckedColumns e operation s t (credential_created r key clean agent absent fresh) h =
    record {
      keys = h.keys;
      anchors = h.anchors;
      artifacts = h.artifacts;
      credentials = ((r.credential, refl, clean), h.credentials);
      revocations = h.revocations;
      events = h.events;
    }
Step-HoldsCheckedColumns e operation s t (artifact_put r clean absent) h = record {
  keys = h.keys;
  anchors = h.anchors;
  artifacts = ((r.artifact, refl, clean), h.artifacts);
  credentials = h.credentials;
  revocations = h.revocations;
  events = h.events;
}
Step-HoldsCheckedColumns e operation s t (revocation_added r row clean found kind absent) h =
    record {
      keys = h.keys;
      anchors = h.anchors;
      artifacts = h.artifacts;
      credentials = h.credentials;
      revocations = ((r.artifact, refl, clean), h.revocations);
      events = h.events;
    }
Step-HoldsCheckedColumns e operation s t (event_recorded event clean absent) h = record {
  keys = h.keys;
  anchors = h.anchors;
  artifacts = h.artifacts;
  credentials = h.credentials;
  revocations = h.revocations;
  events = ((event.redacted_evidence, refl, clean), h.events);
}

-- After any sequence of calls on an empty database, the public key column of every stored key and anchor
-- prints an Ed25519 key without one of the eight private members at its top level, the JSON column of
-- every artifact, credential and revocation a value without a name of private key material at any depth,
-- and the evidence column of every event is empty or prints a value without a prohibited name. Nothing is
-- stated of other columns, the metadata of agents among them.
pub reachable-HoldsCheckedColumns :
    (e : Engine) (operations : List Operation)
    → HoldsCheckedColumns e (run_all e operations empty_store)
reachable-HoldsCheckedColumns e operations =
    run_all_keeps e (HoldsCheckedColumns e) (Step-HoldsCheckedColumns e) operations empty_store
      (record {
        keys = tt;
        anchors = tt;
        artifacts = tt;
        credentials = tt;
        revocations = tt;
        events = tt;
      })
