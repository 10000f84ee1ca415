-- ===== src/Protocol/Validate/Kinds.antt =====
-- validateArtifact of packages/protocol/src/validate.ts: its `switch` is one function per kind.
use tesserra.Prelude.{
  Bool, true, false, ◌&&◌, ◌||◌, Option, some, List, [], ◌∷◌, if◌then◌else◌, String,
}
use tesserra.Json.{Json, null, Artifact, member, is_string, is_literal, integer_from, strict_eq}
use tesserra.Runtime.{Runtime}
use tesserra.Protocol.Base64url.{is_canonical_base64url}
use tesserra.Protocol.Timestamp.{is_timestamp}
use tesserra.Protocol.Coerce.{test}
use tesserra.Protocol.Validate.Patterns
use tesserra.Protocol.Validate.{
  fields, is_one_of, supported_kinds, with_object, validate_outer_envelope, valid_resource,
  valid_jwk, valid_proof, valid_principal, valid_ref, valid_references, valid_provenance_subject,
  valid_provenance_predicate, valid_constraints,
}

-- common, and the further names of a kind
abbrev pub with_common : List String → List String
with_common names = "version" ∷ "kind" ∷ "id" ∷ "issued_at" ∷ "proof" ∷ names

-- fields(artifact, [...common, ...names], [...common, ...names])
abbrev pub exact_fields : Artifact → List String → Bool
exact_fields artifact names = fields artifact (with_common names) (with_common names)

abbrev pub reference_kind_is : String → Option Json → Bool
reference_kind_is kind v = with_object v λ reference. is_literal kind (member "kind" reference)

module _ (rt : Runtime) where
  -- artifact.previous_digest === null || digest.test(artifact.previous_digest as string)
  abbrev pub valid_previous_digest : Option Json → Bool
  valid_previous_digest v = strict_eq v (some null) || test rt Patterns.digest v

  -- case 'credential'
  unfoldable pub valid_credential : Artifact → Bool
  valid_credential artifact =
      exact_fields artifact (
        "issuer" ∷ "subject" ∷ "public_jwk" ∷ "key_id" ∷ "not_before" ∷ "expires_at"
        ∷ "credential_purpose" ∷ "authority_ceiling" ∷ [])
      && valid_principal rt (member "issuer" artifact)
      && valid_principal rt (member "subject" artifact)
      && valid_jwk (member "public_jwk" artifact)
      && test rt Patterns.key_id (member "key_id" artifact)
      && is_timestamp (member "not_before" artifact)
      && is_timestamp (member "expires_at" artifact)
      && is_one_of ("agent-root-authority" ∷ "agent-key-binding" ∷ [])
          (member "credential_purpose" artifact)
      && valid_constraints rt (member "authority_ceiling" artifact)

  -- case 'delegation'
  unfoldable pub valid_delegation : Artifact → Bool
  valid_delegation artifact =
      exact_fields artifact ("delegator" ∷ "delegate" ∷ "parent_ref" ∷ "constraints" ∷ [])
      && valid_principal rt (member "delegator" artifact)
      && valid_principal rt (member "delegate" artifact)
      && valid_ref rt (member "parent_ref" artifact)
      && valid_constraints rt (member "constraints" artifact)

  -- case 'request'
  unfoldable pub valid_request : Artifact → Bool
  valid_request artifact =
      exact_fields artifact (
        "signer" ∷ "delegation_ref" ∷ "request_id" ∷ "nonce" ∷ "not_before" ∷ "expires_at"
        ∷ "action" ∷ "resource" ∷ "task" ∷ "audience" ∷ "payload_digest" ∷ "task_context_digest"
        ∷ [])
      && valid_principal rt (member "signer" artifact)
      && valid_ref rt (member "delegation_ref" artifact)
      && reference_kind_is "delegation" (member "delegation_ref" artifact)
      && test rt Patterns.uuid_v7 (member "request_id" artifact)
      && is_canonical_base64url (member "nonce" artifact) (some 32)
      && is_timestamp (member "not_before" artifact)
      && is_timestamp (member "expires_at" artifact)
      && test rt Patterns.action (member "action" artifact)
      && valid_resource (member "resource" artifact)
      && test rt Patterns.uuid_v7 (member "task" artifact)
      && test rt Patterns.audience (member "audience" artifact)
      && test rt Patterns.digest (member "payload_digest" artifact)
      && test rt Patterns.digest (member "task_context_digest" artifact)

  -- case 'key_status'
  unfoldable pub valid_key_status : Artifact → Bool
  valid_key_status artifact =
      exact_fields artifact (
        "publisher" ∷ "effective_at" ∷ "as_of" ∷ "valid_until" ∷ "sequence" ∷ "previous_digest"
        ∷ "target_key_id" ∷ "state" ∷ [])
      && valid_principal rt (member "publisher" artifact)
      && is_timestamp (member "effective_at" artifact)
      && is_timestamp (member "as_of" artifact)
      && is_timestamp (member "valid_until" artifact)
      && integer_from 1 (member "sequence" artifact)
      && valid_previous_digest (member "previous_digest" artifact)
      && test rt Patterns.key_id (member "target_key_id" artifact)
      && is_one_of ("active" ∷ "retired" ∷ "compromised" ∷ "revoked" ∷ []) (member "state" artifact)

  -- case 'revocation'
  unfoldable pub valid_revocation : Artifact → Bool
  valid_revocation artifact =
      exact_fields artifact (
        "publisher" ∷ "effective_at" ∷ "as_of" ∷ "valid_until" ∷ "sequence" ∷ "previous_digest"
        ∷ "target_type" ∷ "target_id" ∷ "reason" ∷ [])
      && valid_principal rt (member "publisher" artifact)
      && is_timestamp (member "effective_at" artifact)
      && is_timestamp (member "as_of" artifact)
      && is_timestamp (member "valid_until" artifact)
      && integer_from 1 (member "sequence" artifact)
      && valid_previous_digest (member "previous_digest" artifact)
      && is_one_of ("credential" ∷ "key" ∷ "delegation" ∷ []) (member "target_type" artifact)
      && is_string (member "target_id" artifact)
      && is_string (member "reason" artifact)

  -- case 'key_rotation'
  unfoldable pub valid_key_rotation : Artifact → Bool
  valid_key_rotation artifact =
      exact_fields artifact (
        "old_key_id" ∷ "new_key_id" ∷ "activation_time" ∷ "retirement_time" ∷ "sequence"
        ∷ "previous_digest" ∷ "publisher" ∷ [])
      && test rt Patterns.key_id (member "old_key_id" artifact)
      && test rt Patterns.key_id (member "new_key_id" artifact)
      && is_timestamp (member "activation_time" artifact)
      && is_timestamp (member "retirement_time" artifact)
      && integer_from 1 (member "sequence" artifact)
      && valid_previous_digest (member "previous_digest" artifact)
      && valid_principal rt (member "publisher" artifact)

  -- case 'provenance'
  unfoldable pub valid_provenance : Artifact → Bool
  valid_provenance artifact =
      exact_fields artifact (
        "authority_refs" ∷ "request_ref" ∷ "predicate_type" ∷ "subject" ∷ "predicate"
        ∷ "predecessor_refs" ∷ [])
      && valid_references rt (member "authority_refs" artifact) ("credential" ∷ "delegation" ∷ [])
          true
      && valid_ref rt (member "request_ref" artifact)
      && reference_kind_is "request" (member "request_ref" artifact)
      && is_literal "https://agent-proof.invalid/spec/v1/provenance"
          (member "predicate_type" artifact)
      && valid_provenance_subject rt (member "subject" artifact)
      && valid_provenance_predicate rt (member "predicate" artifact)
      && valid_references rt (member "predecessor_refs" artifact) ("provenance" ∷ []) false

  -- switch (artifact.kind)
  unfoldable pub valid_kind : Artifact → Bool
  valid_kind artifact =
      let kind = member "kind" artifact in
      if is_literal "credential" kind
      then valid_credential artifact
      else if is_literal "delegation" kind
      then valid_delegation artifact
      else if is_literal "request" kind
      then valid_request artifact
      else if is_literal "key_status" kind
      then valid_key_status artifact
      else if is_literal "revocation" kind
      then valid_revocation artifact
      else if is_literal "key_rotation" kind
      then valid_key_rotation artifact
      else if is_literal "provenance" kind
      then valid_provenance artifact
      else false

  -- validateArtifact(value), on an object
  unfoldable pub validate_artifact : Artifact → Bool
  validate_artifact artifact =
      validate_outer_envelope artifact
      && (with_object (member "proof" artifact) λ proof.
          is_one_of supported_kinds (member "kind" artifact)
          && is_literal "agent-proof/v1" (member "version" artifact)
          && is_literal "Ed25519" (member "alg" proof)
          && test rt Patterns.artifact_id (member "id" artifact)
          && test rt Patterns.key_id (member "kid" proof)
          && valid_proof rt (member "proof" artifact))
      && valid_kind artifact
