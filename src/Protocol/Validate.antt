-- ===== src/Protocol/Validate.antt =====
-- packages/protocol/src/validate.ts: the parts of an artifact. Validate/Kinds has the artifacts.
pub mod Patterns
pub mod Kinds
use tesserra.Prelude.{
  ℕ, Bool, true, false, not, ◌&&◌, ◌||◌, Option, none, some, List, [], ◌∷◌, ◌++◌, ltb, leb, length,
  if◌then◌else◌, every, some_of, Text, codes, text_eq, String,
}
use tesserra.Prelude.Int.{pos}
use tesserra.Json.{
  Json, string, object, number, int, Members, members, member, member_text, as_object, as_array,
  as_string, is_some, is_string, is_literal, integer_within, strict_eq,
}
use tesserra.Runtime.{Runtime}
use tesserra.Protocol.Regex.{Regex}
use tesserra.Protocol.Base64url.{is_canonical_base64url}
use tesserra.Protocol.Timestamp.{is_timestamp}
use tesserra.Protocol.Coerce.{test, to_text}
use Patterns

-- has(value, key)
abbrev pub has : Members → String → Bool
has value key = is_some (member key value)

-- names.includes(text)
abbrev pub includes : List String → Text → Bool
includes names t = some_of (λ name. text_eq (codes name) t) names

-- fields(value, required, allowed)
unfoldable pub fields : Members → List String → List String → Bool
fields value required allowed =
    every (has value) required && every (λ m. includes allowed m.0) (members value)

-- names.includes(value as string), which is strict
abbrev pub is_one_of : List String → Option Json → Bool
is_one_of names (some (string s)) = includes names s
is_one_of names _ = false

-- SUPPORTED_KINDS
abbrev pub supported_kinds : List String
supported_kinds =
    "credential" ∷ "delegation" ∷ "request" ∷ "provenance" ∷ "key_status" ∷ "revocation"
    ∷ "key_rotation" ∷ []

-- object(value) && check(value)
abbrev pub with_object : Option Json → (Members → Bool) → Bool
with_object v check = elim (as_object v) [ none ↦ false | some ms ↦ check ms ]

-- Array.isArray(value) && check(value)
abbrev pub with_array : Option Json → (List Json → Bool) → Bool
with_array v check = elim (as_array v) [ none ↦ false | some vs ↦ check vs ]

abbrev pub is_empty {ℓ} : {A : Type ℓ} → List A → Bool
is_empty [] = true
is_empty (v ∷ vs) = false

-- string(value) && pattern.test(value)
abbrev pub string_matches : Runtime → Regex → Option Json → Bool
string_matches rt pattern v = is_string v && test rt pattern v

-- validateOuterEnvelope(value), on an object
unfoldable pub validate_outer_envelope : Members → Bool
validate_outer_envelope value =
    has value "version"
    && has value "kind"
    && has value "id"
    && has value "issued_at"
    && has value "proof"
    && is_string (member "version" value)
    && is_string (member "kind" value)
    && is_string (member "id" value)
    && is_timestamp (member "issued_at" value)
    && with_object (member "proof" value) λ proof.
      is_string (member "alg" proof)
      && is_string (member "kid" proof)
      && is_string (member "sig" proof)

-- validResource(value)
unfoldable pub valid_resource : Option Json → Bool
valid_resource v = with_object v λ value.
    fields value ("type" ∷ "value" ∷ []) ("type" ∷ "value" ∷ [])
    && is_string (member "type" value)
    && (elim (as_string (member "value" value)) [
      | none ↦ false
      | some s ↦ leb 1 (length s) && leb (length s) 1024
    ])

-- validJwk(value)
unfoldable pub valid_jwk : Option Json → Bool
valid_jwk v = with_object v λ value.
    fields value ("kty" ∷ "crv" ∷ "x" ∷ []) ("kty" ∷ "crv" ∷ "x" ∷ [])
    && is_literal "OKP" (member "kty" value)
    && is_literal "Ed25519" (member "crv" value)
    && is_canonical_base64url (member "x" value) (some 32)

abbrev pub predicate_fields : List String
predicate_fields =
    "task" ∷ "action" ∷ "resource" ∷ "audience" ∷ "input_digests" ∷ "output_digests" ∷ "result" ∷ []

abbrev pub constraint_fields : List String
constraint_fields =
    "capabilities" ∷ "resources" ∷ "tasks" ∷ "audiences" ∷ "not_before" ∷ "expires_at"
    ∷ "remaining_depth" ∷ []

-- values !== undefined && values.length > 0 && values.every(check)
abbrev pub nonempty_array : Option Json → (Json → Bool) → Bool
nonempty_array v check = with_array v λ values. not (is_empty values) && every check values

module _ (rt : Runtime) where
  -- validProof(value)
  unfoldable pub valid_proof : Option Json → Bool
  valid_proof v = with_object v λ value.
      fields value ("alg" ∷ "kid" ∷ "sig" ∷ []) ("alg" ∷ "kid" ∷ "sig" ∷ [])
      && is_string (member "alg" value)
      && test rt Patterns.key_id (member "kid" value)
      && is_canonical_base64url (member "sig" value) (some 64)

  -- validAgentId(value)
  unfoldable pub valid_agent_id : Option Json → Bool
  valid_agent_id v = with_object v λ value.
      fields value ("scheme" ∷ "version" ∷ "authority" ∷ "path" ∷ [])
        ("scheme" ∷ "version" ∷ "authority" ∷ "path" ∷ [])
      && is_literal "agid" (member "scheme" value)
      && strict_eq (member "version" value) (some (number (int (pos 1))))
      && string_matches rt Patterns.authority (member "authority" value)
      && with_array (member "path" value) λ path.
        not (is_empty path)
        && every (λ segment. string_matches rt Patterns.path_segment (some segment)) path

  -- validPrincipal(value)
  unfoldable pub valid_principal : Option Json → Bool
  valid_principal v = with_object v λ value.
      fields value ("type" ∷ "id" ∷ []) ("type" ∷ "id" ∷ [])
      && is_one_of ("human" ∷ "service" ∷ "agent" ∷ "workload" ∷ "oauth_client" ∷ "model" ∷ [])
          (member "type" value)
      && (if is_literal "agent" (member "type" value)
          then valid_agent_id (member "id" value)
          else string_matches rt Patterns.principal_id (member "id" value))

  -- validRef(value)
  unfoldable pub valid_ref : Option Json → Bool
  valid_ref v = with_object v λ value.
      fields value ("id" ∷ "kind" ∷ []) ("id" ∷ "kind" ∷ [])
      && test rt Patterns.artifact_id (member "id" value)
      && is_one_of supported_kinds (member "kind" value)

  -- validReferences(value, kinds, nonempty)
  unfoldable pub valid_references : Option Json → List String → Bool → Bool
  valid_references v kinds nonempty = with_array v λ values.
      (not nonempty || not (is_empty values))
      && every
          (λ reference. with_object (some reference) λ value.
            valid_ref (some reference) && includes kinds (to_text rt (member "kind" value)))
          values

  -- validProvenanceSubject(value)
  unfoldable pub valid_provenance_subject : Option Json → Bool
  valid_provenance_subject v = with_object v λ subject.
      fields subject ("name" ∷ "digest" ∷ []) ("name" ∷ "digest" ∷ [])
      && (elim (as_string (member "name" subject)) [ none ↦ false | some s ↦ ltb 0 (length s) ])
      && test rt Patterns.digest (member "digest" subject)

  -- validDigestArray(value)
  unfoldable pub valid_digest_array : Option Json → Bool
  valid_digest_array v =
      with_array v λ values. every (λ item. string_matches rt Patterns.digest (some item)) values

  -- validProvenancePredicate(value)
  unfoldable pub valid_provenance_predicate : Option Json → Bool
  valid_provenance_predicate v = with_object v λ predicate.
      fields predicate predicate_fields predicate_fields
      && test rt Patterns.uuid_v7 (member "task" predicate)
      && test rt Patterns.action (member "action" predicate)
      && valid_resource (member "resource" predicate)
      && test rt Patterns.audience (member "audience" predicate)
      && valid_digest_array (member "input_digests" predicate)
      && valid_digest_array (member "output_digests" predicate)
      && is_string (member "result" predicate)

  -- validConstraints(value)
  unfoldable pub valid_constraints : Option Json → Bool
  valid_constraints v = with_object v λ value.
      fields value constraint_fields constraint_fields
      && nonempty_array (member "capabilities" value)
          (λ item. string_matches rt Patterns.action (some item))
      && nonempty_array (member "resources" value) (λ item. valid_resource (some item))
      && nonempty_array (member "tasks" value)
          (λ item. string_matches rt Patterns.uuid_v7 (some item))
      && nonempty_array (member "audiences" value)
          (λ item. string_matches rt Patterns.audience (some item))
      && is_timestamp (member "not_before" value)
      && is_timestamp (member "expires_at" value)
      && integer_within 0 8 (member "remaining_depth" value)
