-- ===== src/Protocol/Ids.antt =====
-- packages/protocol/src/ids.ts: content addresses, hashes and the bytes that are signed.
pub mod Separates
pub mod Reorders
use tesserra.Prelude.{ℕ, ◌%◌, Option, some, List, [], ◌∷◌, ◌++◌, map, Text, codes, String}
use tesserra.Json.{Json, object, array, of_items, Members, Artifact, member, as_string}
use tesserra.Runtime.{Runtime}
use tesserra.Protocol.Base64url.{encode_base64url}
use tesserra.Protocol.Canonical.{canonical_bytes, omit, ◌>>=◌}

-- Buffer.from(text, 'ascii'): the low byte of each code unit
unfoldable pub ascii : Text → List ℕ
ascii = map (λ c. c % 256)

module _ (rt : Runtime) where
  -- bytes(prefix, value)
  unfoldable pub prefixed_bytes : String → Json → Option (List ℕ)
  prefixed_bytes prefix value = do
    body ← canonical_bytes rt value
    some (codes prefix ++ (0 ∷ body))

  -- hash(prefix, value)
  unfoldable pub hash : String → Json → Option Text
  hash prefix value = do
    bytes ← prefixed_bytes prefix value
    some (encode_base64url (rt.sha256 bytes))

  -- keyIdFor(jwk)
  unfoldable pub key_id_for : Members → Option Text
  key_id_for jwk = do
    digest ← hash "AGENT-PROOF-KEY-ID-V1" (object jwk)
    some (codes "urn:agent-proof:kid:v1:sha256:" ++ digest)

  -- artifactIdFor(artifact)
  unfoldable pub artifact_id_for : Artifact → Option Text
  artifact_id_for artifact = do
    digest ← hash "AGENT-PROOF-ARTIFACT-ID-V1" (object (omit ("id" ∷ "proof" ∷ []) artifact))
    some (codes "urn:agent-proof:v1:sha256:" ++ digest)

  -- policyHashFor(snapshot)
  unfoldable pub policy_hash_for : Members → Option Text
  policy_hash_for snapshot = do
    digest ← hash "AGENT-PROOF-POLICY-HASH-V1" (object (omit ("policy_hash" ∷ []) snapshot))
    some (codes "urn:agent-proof:policy:v1:sha256:" ++ digest)

  -- statusHashFor(members)
  unfoldable pub status_hash_for : List Members → Option Text
  status_hash_for records = do
    bytes ← prefixed_bytes "AGENT-PROOF-STATUS-SNAPSHOT-V1" (array (of_items (map object records)))
    some (codes "urn:agent-proof:status:v1:sha256:" ++ encode_base64url (rt.sha256 bytes))

  -- signingInputFor(artifact)
  unfoldable pub signing_input_for : Artifact → Option (List ℕ)
  signing_input_for artifact = do
    kind ← as_string (member "kind" artifact)
    body ← canonical_bytes rt (object (omit ("proof" ∷ []) artifact))
    some (codes "AGENT-PROOF-SIGN-V1" ++ (0 ∷ (ascii kind ++ (0 ∷ body))))

  -- sha256DigestFor(value)
  unfoldable pub sha256_digest_for : List ℕ → Text
  sha256_digest_for bytes = codes "sha256:" ++ encode_base64url (rt.sha256 bytes)

  -- semanticDigestFor(artifact)
  unfoldable pub semantic_digest_for : Artifact → Option Text
  semantic_digest_for artifact = do
    body ← canonical_bytes rt (object (omit ("proof" ∷ []) artifact))
    some (sha256_digest_for body)
