-- ===== src/Core/Artifacts.antt =====
-- packages/core/src/artifacts.ts: artifacts are content-addressed and signed. `none` is a thrown error.
pub mod Signed
use tesserra.Prelude.{
  ℕ, Option, none, some, List, [], ◌∷◌, String, Text, codes, text_eq, if◌then◌else◌,
}
use tesserra.Json.{Json, string, array, of_items, object, Members, end, entry, Artifact}
use tesserra.Runtime.{Runtime}
use tesserra.Protocol.Base64url.{encode_base64url}
use tesserra.Protocol.Canonical.{◌>>=◌}
use tesserra.Protocol.Ids.{artifact_id_for, key_id_for, signing_input_for}

-- KeyProvider and RandomSource, the host's: `sign` is `none` where it throws.
pub record KeyProvider : Type 0 where
  pub public_key : Text → Option Members
  pub sign : Text → List ℕ → Option (List ℕ)

abbrev pub RandomSource : Type 0
RandomSource = ℕ → List ℕ

-- { ...members, key: value }
unfoldable pub set_member : Text → Json → Members → Members
set_member key v end = entry key v end
set_member key v (entry k w ms) =
    let rest = set_member key v ms in if text_eq k key then entry k v ms else entry k w rest

abbrev pub set : String → Json → Members → Members
set key = set_member (codes key)

-- { alg: 'Ed25519', kid, sig }
abbrev pub proof_of : Text → Text → Json
proof_of kid sig = object (
    entry (codes "alg") (string (codes "Ed25519"))
      (entry (codes "kid") (string kid) (entry (codes "sig") (string sig) end)))

-- { ...artifact, id: '', proof: { alg: 'Ed25519', kid, sig: '' } }
abbrev pub unsigned : Text → Artifact → Artifact
unsigned kid draft = set "proof" (proof_of kid []) (set "id" (string []) draft)

-- signArtifact(provider, input)
unfoldable pub sign_artifact : Runtime → KeyProvider → Text → Artifact → Option Artifact
sign_artifact rt provider reference draft = do
  jwk ← provider.public_key reference
  kid ← key_id_for rt jwk
  id ← artifact_id_for rt (unsigned kid draft)
  let a = set "id" (string id) (unsigned kid draft)
  message ← signing_input_for rt a
  signature ← provider.sign reference message
  some (set "proof" (proof_of kid (encode_base64url signature)) a)

abbrev pub members_of : List (String × Json) → Members
members_of [] = end
members_of ((k, v) ∷ rest) = entry (codes k) v (members_of rest)

abbrev pub literal : String → Json
literal s = string (codes s)

pub record CreateDelegationInput : Type 0 where
  pub issued_at : Text
  pub delegator : Json
  pub delegate : Json
  pub parent_ref : Json
  pub constraints : Json
  pub signing_reference : Text

-- The artifact that createDelegation signs.
abbrev pub delegation_draft : CreateDelegationInput → Artifact
delegation_draft input = members_of (
    ("version", literal "agent-proof/v1")
    ∷ ("kind", literal "delegation")
    ∷ ("issued_at", string input.issued_at)
    ∷ ("delegator", input.delegator)
    ∷ ("delegate", input.delegate)
    ∷ ("parent_ref", input.parent_ref)
    ∷ ("constraints", input.constraints)
    ∷ [])

-- createDelegation(provider, input)
unfoldable pub create_delegation : Runtime → KeyProvider → CreateDelegationInput → Option Artifact
create_delegation rt provider input =
    sign_artifact rt provider input.signing_reference (delegation_draft input)

pub record CreateRequestInput : Type 0 where
  pub issued_at : Text
  pub request_id : Text
  pub nonce : Option Text
  pub signer : Json
  pub delegation_ref : Json
  pub not_before : Text
  pub expires_at : Text
  pub action : Text
  pub resource : Json
  pub task : Text
  pub audience : Text
  pub payload_digest : Text
  pub task_context_digest : Text
  pub signing_reference : Text

-- input.nonce ?? Buffer.from(random.bytes(32)).toString('base64url')
abbrev pub nonce_of : RandomSource → Option Text → Text
nonce_of random none = encode_base64url (random 32)
nonce_of random (some nonce) = nonce

-- The artifact that createRequest signs.
abbrev pub request_draft : RandomSource → CreateRequestInput → Artifact
request_draft random input = members_of (
    ("version", literal "agent-proof/v1")
    ∷ ("kind", literal "request")
    ∷ ("issued_at", string input.issued_at)
    ∷ ("signer", input.signer)
    ∷ ("delegation_ref", input.delegation_ref)
    ∷ ("request_id", string input.request_id)
    ∷ ("nonce", string (nonce_of random input.nonce))
    ∷ ("not_before", string input.not_before)
    ∷ ("expires_at", string input.expires_at)
    ∷ ("action", string input.action)
    ∷ ("resource", input.resource)
    ∷ ("task", string input.task)
    ∷ ("audience", string input.audience)
    ∷ ("payload_digest", string input.payload_digest)
    ∷ ("task_context_digest", string input.task_context_digest)
    ∷ [])

-- createRequest(provider, random, input)
unfoldable pub create_request :
    Runtime → KeyProvider → RandomSource → CreateRequestInput → Option Artifact
create_request rt provider random input =
    sign_artifact rt provider input.signing_reference (request_draft random input)

pub record CreateProvenanceInput : Type 0 where
  pub issued_at : Text
  pub authority_refs : List Json
  pub request_ref : Json
  pub subject : Json
  pub predicate : Json
  pub predecessor_refs : List Json
  pub signing_reference : Text

-- The artifact that createProvenance signs.
abbrev pub provenance_draft : CreateProvenanceInput → Artifact
provenance_draft input = members_of (
    ("version", literal "agent-proof/v1")
    ∷ ("kind", literal "provenance")
    ∷ ("issued_at", string input.issued_at)
    ∷ ("authority_refs", array (of_items input.authority_refs))
    ∷ ("request_ref", input.request_ref)
    ∷ ("predicate_type", literal "https://agent-proof.invalid/spec/v1/provenance")
    ∷ ("subject", input.subject)
    ∷ ("predicate", input.predicate)
    ∷ ("predecessor_refs", array (of_items input.predecessor_refs))
    ∷ [])

-- createProvenance(provider, input)
unfoldable pub create_provenance : Runtime → KeyProvider → CreateProvenanceInput → Option Artifact
create_provenance rt provider input =
    sign_artifact rt provider input.signing_reference (provenance_draft input)
