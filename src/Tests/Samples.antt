-- ===== src/Tests/Samples.antt =====
-- Sample data for the tests of the verifiers: a runtime of concrete functions, one pair of principal
-- and key, a trust snapshot, and artifacts that this key has signed.
use tesserra.Prelude.{
  ℕ, zero, suc, ◌+◌, ◌%◌, true, Option, none, some, List, [], ◌∷◌, ◌++◌, Text, codes, String,
}
use tesserra.Prelude.Int.{pos}
use tesserra.Json.{
  Json, int, nan, null, string, number, array, object, of_items, Members, end, entry, Artifact,
}
use tesserra.Runtime.{Runtime}
use tesserra.Protocol.Ids.{artifact_id_for, key_id_for, policy_hash_for}
use tesserra.Core.Verify.Input.{VerificationInput, offline}

abbrev pub repeat : ℕ → ℕ → List ℕ
repeat zero c = []
repeat (suc n) c = c ∷ repeat n c

abbrev pub total : List ℕ → ℕ
total [] = 0
total (c ∷ cs) = c + total cs

-- A hash that tells the sample artifacts apart, and a key that signs everything.
abbrev pub runtime : Runtime
runtime = record {
  sha256 = λ bytes. total bytes % 256 ∷ repeat 31 0;
  verify_signature = λ key message sig. some true;
  parse_url = λ s. none;
  to_lower = λ s. s;
  other_date = λ s. none;
  locale_le = λ s t. true;
  number_text = λ n. [];
  container_text = λ v. [];
  coerce_number = λ v. nan;
}

abbrev pub or_empty : Option Text → Text
or_empty none = []
or_empty (some s) = s

abbrev pub record_of : List (String × Json) → Members
record_of [] = end
record_of ((k, v) ∷ rest) = entry (codes k) v (record_of rest)

abbrev pub text : String → Json
text s = string (codes s)

abbrev pub list : List Json → Json
list vs = array (of_items vs)

abbrev pub obj : List (String × Json) → Json
obj ms = object (record_of ms)

abbrev pub integer : ℕ → Json
integer n = number (int (pos n))

abbrev pub service : Json
service = obj (("type", text "service") ∷ ("id", text "svc") ∷ [])

abbrev pub key_members : Members
key_members =
    record_of (("kty", text "OKP") ∷ ("crv", text "Ed25519") ∷ ("x", string (repeat 43 65)) ∷ [])

abbrev pub key_id : Json
key_id = string (or_empty (key_id_for runtime key_members))

abbrev pub proof : Json
proof = obj (("alg", text "Ed25519") ∷ ("kid", key_id) ∷ ("sig", string (repeat 86 65)) ∷ [])

abbrev pub spot : Json
spot = obj (("type", text "opaque") ∷ ("value", text "r") ∷ [])

abbrev pub uuid : Json
uuid = text "00000000-0000-7000-8000-000000000000"

abbrev pub digest : Json
digest = string (codes "sha256:" ++ repeat 43 65)

abbrev pub limits : ℕ → Json
limits depth = obj (
    ("capabilities", list (text "read" ∷ []))
    ∷ ("resources", list (spot ∷ []))
    ∷ ("tasks", list (uuid ∷ []))
    ∷ ("audiences", list (text "api" ∷ []))
    ∷ ("not_before", text "1970-01-01T00:00:00Z")
    ∷ ("expires_at", text "1970-01-03T00:00:00Z")
    ∷ ("remaining_depth", integer depth)
    ∷ [])

-- An artifact with its content address, its time and its proof.
abbrev pub sealed : String → List (String × Json) → Artifact
sealed kind ms =
    let content =
      ("version", text "agent-proof/v1")
      ∷ ("kind", text kind)
      ∷ ("issued_at", text "1970-01-02T00:00:00Z")
      ∷ ms in
    record_of (
      ("id", string (or_empty (artifact_id_for runtime (record_of content))))
      ∷ ("proof", proof)
      ∷ content)

abbrev pub window : List (String × Json) → List (String × Json)
window ms =
    ("not_before", text "1970-01-01T00:00:00Z") ∷ ("expires_at", text "1970-01-03T00:00:00Z") ∷ ms

abbrev pub root_content : List (String × Json)
root_content = window (
    ("issuer", service)
    ∷ ("subject", service)
    ∷ ("public_jwk", object key_members)
    ∷ ("key_id", key_id)
    ∷ ("credential_purpose", text "agent-root-authority")
    ∷ ("authority_ceiling", limits 2)
    ∷ [])

abbrev pub root : Artifact
root = sealed "credential" root_content

abbrev pub id_in : Artifact → Json
id_in (entry k v ms) = v
id_in end = null

-- An artifact whose first member, its id, is another one's.
abbrev pub with_id : Json → Artifact → Artifact
with_id v (entry k w ms) = entry k v ms
with_id v end = end

abbrev pub reference : Artifact → String → Json
reference a kind = obj (("id", id_in a) ∷ ("kind", text kind) ∷ [])

abbrev pub delegation : Artifact
delegation = sealed "delegation" (
    ("delegator", service)
    ∷ ("delegate", service)
    ∷ ("parent_ref", reference root "credential")
    ∷ ("constraints", limits 1)
    ∷ [])

abbrev pub request : Artifact
request = sealed "request" (
    window (
      ("signer", service)
      ∷ ("delegation_ref", reference delegation "delegation")
      ∷ ("request_id", uuid)
      ∷ ("nonce", string (repeat 43 65))
      ∷ ("action", text "read")
      ∷ ("resource", spot)
      ∷ ("task", uuid)
      ∷ ("audience", text "api")
      ∷ ("payload_digest", digest)
      ∷ ("task_context_digest", digest)
      ∷ []))

abbrev pub snapshot_content : List (String × Json)
snapshot_content =
    (("sequence", integer 1)
      ∷ ("snapshot_id", text "s")
      ∷ ("issued_at", text "1970-01-01T00:00:00Z")
      ∷ ("expires_at", text "1970-01-03T00:00:00Z")
      ∷ ("max_clock_skew_seconds", integer 60)
      ∷ ("max_chain_depth", integer 2)
      ∷ ("replay_policy", text "offline-inspection-only")
      ∷ (
        "issuer_authorities",
        list (
            obj (
              ("principal", service) ∷ ("key_id", key_id) ∷ ("public_jwk", object key_members) ∷ [])
            ∷ []),
      )
      ∷ ("status_publishers", list [])
      ∷ (
        "roots",
        list (
            obj (
              ("issuer", service)
              ∷ ("root_subject", service)
              ∷ ("credential_purpose", text "agent-root-authority")
              ∷ [])
            ∷ []),
      )
      ∷ ("status_high_water", list [])
      ∷ [])

abbrev pub snapshot : Members
snapshot = record_of (
    ("policy_hash", string (or_empty (policy_hash_for runtime (record_of snapshot_content))))
    ∷ snapshot_content)

abbrev pub input : VerificationInput
input = record {
  artifacts = request ∷ delegation ∷ root ∷ [];
  trust_snapshot = snapshot;
  context = record {
    audience = codes "api";
    action = codes "read";
    resource = spot;
    task = codes "00000000-0000-7000-8000-000000000000";
    expected_signer = service;
    expected_payload_digest = codes "sha256:" ++ repeat 43 65;
    expected_task_context_digest = codes "sha256:" ++ repeat 43 65;
    replay_required = true;
  };
  now = pos 86400000;
  replay_mode = offline;
  replay = none;
  archived_snapshot = none;
}
