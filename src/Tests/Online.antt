-- ===== src/Tests/Online.antt =====
-- A sample of an online verification: a status record for the one key of the chain, by a publisher with
-- a key of its own, and the snapshot that pins it.
use tesserra.Prelude.{◌+◌, ◌%◌, ◌/◌, true, false, some, List, [], ◌∷◌, Text, codes, String}
use tesserra.Prelude.Int.{ℤ, pos, negsuc}
use tesserra.Json.{Json, null, string, object, Members, Artifact}
use tesserra.Core.Result.{VerificationResult, valid, replay_detected}
use tesserra.Core.Values.{find_id}
use tesserra.Core.Verify.Input.{online, status_hash}
use tesserra.Protocol.Ids.{artifact_id_for, key_id_for, policy_hash_for, semantic_digest_for}
use tesserra.Service.Workflows.{EvidenceRepository, VerifyRequestInput}
use tesserra.Storage.Engine.{Engine}
use tesserra.Storage.Records.{Store}
use tesserra.Storage.Replay.{core_consume}
use tesserra.Tests.Samples.{
  runtime, repeat, or_empty, record_of, text, list, obj, integer, service, key_id, root, delegation,
  request, snapshot_content, input, id_in,
}
use tesserra.Tests.Storage.{engine}

abbrev pub publisher_members : Members
publisher_members =
    record_of
      (("kty", text "OKP") ∷ ("crv", text "Ed25519") ∷ ("x", string (66 ∷ repeat 42 65)) ∷ [])

abbrev pub publisher_id : Json
publisher_id = string (or_empty (key_id_for runtime publisher_members))

abbrev pub status_content : List (String × Json)
status_content =
    ("version", text "agent-proof/v1")
    ∷ ("kind", text "key_status")
    ∷ ("issued_at", text "1970-01-02T00:00:00Z")
    ∷ ("publisher", service)
    ∷ ("effective_at", text "1970-01-02T00:00:00Z")
    ∷ ("as_of", text "1970-01-02T00:00:00Z")
    ∷ ("valid_until", text "1970-01-03T00:00:00Z")
    ∷ ("sequence", integer 1)
    ∷ ("previous_digest", null)
    ∷ ("target_key_id", key_id)
    ∷ ("state", text "active")
    ∷ []

abbrev pub status : Artifact
status = record_of (
    ("id", string (or_empty (artifact_id_for runtime (record_of status_content))))
    ∷ (
      "proof",
      obj (("alg", text "Ed25519") ∷ ("kid", publisher_id) ∷ ("sig", string (repeat 86 65)) ∷ []),
    )
    ∷ status_content)

abbrev pub publisher : Json
publisher = obj (
    ("principal", service)
    ∷ ("key_id", publisher_id)
    ∷ ("public_jwk", object publisher_members)
    ∷ [])

abbrev pub water : Json
water = obj (
    ("publisher", service)
    ∷ ("target_key_id", key_id)
    ∷ ("sequence", integer 1)
    ∷ ("semantic_digest", string (or_empty (semantic_digest_for runtime status)))
    ∷ [])

-- The sample snapshot, with the publisher and the mark of its record.
abbrev pub with_status : List (String × Json) → List (String × Json)
with_status (a ∷ b ∷ c ∷ d ∷ e ∷ f ∷ g ∷ h ∷ i ∷ j ∷ k ∷ rest) =
    a
    ∷ b
    ∷ c
    ∷ d
    ∷ e
    ∷ f
    ∷ g
    ∷ h
    ∷ ("status_publishers", list (publisher ∷ []))
    ∷ j
    ∷ ("status_high_water", list (water ∷ []))
    ∷ rest
with_status ms = ms

abbrev pub snapshot : Members
snapshot = record_of (
    (
      "policy_hash",
      string (or_empty (policy_hash_for runtime (record_of (with_status snapshot_content)))),
    )
    ∷ with_status snapshot_content)

abbrev pub request_input : VerifyRequestInput
request_input = record {
  request = request;
  trust_snapshot = snapshot;
  context = input.context;
  now = input.now;
  replay_mode = online;
}

-- The day of an instant.
abbrev pub day : ℤ → Text
day (pos n) = (n / 86400000 % 10 + 48) ∷ []
day (negsuc n) = codes "-"

abbrev pub daily : Engine
daily = record engine { iso = day }

-- The artifacts are at hand; the keys are consumed in the table.
abbrev pub repository : EvidenceRepository Store
repository = record {
  put = λ a s. s;
  get = λ id s. find_id id (delegation ∷ root ∷ []);
  list_status = λ s. status ∷ [];
  consume_replay = some (core_consume daily input.now);
}

abbrev pub accepted : VerificationResult
accepted = record {
  code = valid;
  valid = true;
  verifier_now = input.now;
  policy_hash = or_empty (policy_hash_for runtime snapshot);
  status_snapshot_hash = or_empty (status_hash runtime (status ∷ []));
  evidence_ids = some (id_in root) ∷ some (id_in delegation) ∷ some (id_in request) ∷ [];
  secondary_codes = [];
  status_fresh = true;
  replay_checked = true;
  warnings = [];
}

abbrev pub repeated : VerificationResult
repeated = record accepted { code = replay_detected; valid = false }
