-- ===== src/Core/Verify/Crypto.antt =====
-- The stage CRYPTO of verifyArtifacts (packages/core/src/verify.ts), and the evidence behind a request.
use tesserra.Prelude.{
  ℕ, zero, suc, Bool, true, false, not, ◌&&◌, ◌||◌, Option, none, some, List, [], ◌∷◌, ◌++◌, map,
  reverse, length, if◌then◌else◌, some_of, find, filter, Text, text_eq, String,
}
use tesserra.Json.{object, Members, Artifact, member, as_object, as_string, is_text}
use tesserra.Runtime.{Runtime}
use tesserra.Protocol.Base64url.{decode_base64url}
use tesserra.Protocol.Canonical.{canonical_equal}
use tesserra.Protocol.Ids.{signing_input_for}
use tesserra.Protocol.Coerce.{to_text}
use tesserra.Core.Result.{
  untrusted_key, untrusted_issuer, missing_reference, invalid_signature, signer_mismatch,
  invalid_digest_linkage, Evidence,
}
use tesserra.Core.Run.{Run, pass, ◌>>=◌, ◌>>◌, stop_if, require}
use tesserra.Core.Values.{
  array_or_empty, objects_of, is_kind, text_or_empty, id_of, kid_of, jwk_of, trust_key, map_get,
  find_id,
}
use tesserra.Core.Verify.Input.{Setup, result}
use tesserra.Core.Verify.Admission.{ids, is_root_credential}

-- artifactRef(artifact)
unfoldable pub artifact_ref : Artifact → Option Members
artifact_ref a =
    if is_kind "request" a
    then as_object (member "delegation_ref" a)
    else as_object (member "parent_ref" a)

-- artifacts.get(artifactRef(artifact)?.id)
unfoldable pub parent_of : List Artifact → Artifact → Option Artifact
parent_of artifacts a = elim (artifact_ref a) [
  | none ↦ none
  | some reference ↦ (elim (as_string (member "id" reference)) [
    | none ↦ none
    | some id ↦ find_id id artifacts
  ])
]

abbrev pub has_id : Text → List Artifact → Bool
has_id id = some_of (λ a. text_eq (id_of a) id)

-- current.kind === 'request' || current.kind === 'delegation'
abbrev pub is_link : Artifact → Bool
is_link a = is_kind "request" a || is_kind "delegation" a

-- The loop of requestEvidence(); a round needs an artifact that is not resolved yet, so one more than
-- their number is fuel enough.
unfoldable pub resolve : List Artifact → ℕ → Artifact → List Artifact → List Artifact
resolve artifacts zero current resolved = resolved
resolve artifacts (suc fuel) current resolved = elim (is_link current) [
  | false ↦ resolved
  | true ↦ (elim (parent_of artifacts current) [
    | none ↦ resolved
    | some parent ↦ (elim (has_id (id_of parent) resolved) [
      | true ↦ resolved
      | false ↦ resolve artifacts fuel parent (resolved ++ (parent ∷ []))
    ])
  ])
]

-- [root.id, ...chain from the far end, without the root]
abbrev pub root_first : Artifact → List Artifact → Evidence
root_first root chain =
    member "id" root ∷ ids (filter (λ a. not (text_eq (id_of a) (id_of root))) (reverse chain))

-- requestEvidence()
unfoldable pub request_evidence : List Artifact → Evidence
request_evidence artifacts = elim (find (is_kind "request") artifacts) [
  | none ↦ ids artifacts
  | some request ↦ (elim (find is_root_credential artifacts) [
    | none ↦ ids artifacts
    | some root ↦
        root_first root (resolve artifacts (suc (length artifacts)) request (request ∷ []))
  ])
]

-- The trust snapshot's entry for the signing key of a kind that only pinned keys may sign.
unfoldable pub pinned_key : Members → Artifact → Option Members
pinned_key snapshot a =
    if is_kind "credential" a || is_kind "key_rotation" a
    then trust_key snapshot (kid_of a) "issuer_authorities"
    else if is_kind "key_status" a || is_kind "revocation" a
    then trust_key snapshot (kid_of a) "status_publishers"
    else none

-- keyCredentials: a map from String(credential.key_id)
abbrev pub key_credentials : Runtime → List Artifact → List (Text × Artifact)
key_credentials rt artifacts =
    map (λ c. (to_text rt (member "key_id" c), c)) (filter (is_kind "credential") artifacts)

-- signerCredential
unfoldable pub signer_credential : Runtime → Members → List Artifact → Artifact → Option Artifact
signer_credential rt snapshot artifacts a = elim (pinned_key snapshot a) [
  | some pinned ↦ none
  | none ↦ map_get (kid_of a) (key_credentials rt artifacts)
]

-- verificationJwk
unfoldable pub verification_jwk : Runtime → Members → List Artifact → Artifact → Option Members
verification_jwk rt snapshot artifacts a = elim (jwk_of (pinned_key snapshot a)) [
  | some key ↦ some key
  | none ↦ jwk_of (signer_credential rt snapshot artifacts a)
]

abbrev pub signature_bytes : Artifact → Option (List ℕ)
signature_bytes a = elim (as_object (member "proof" a)) [
  | none ↦ none
  | some proof ↦ decode_base64url (text_or_empty (member "sig" proof)) (some 64)
]

abbrev pub is_true : Option Bool → Bool
is_true none = false
is_true (some b) = b

-- signatureValid(artifact, value): what throws is no signature.
unfoldable pub signature_valid : Runtime → Artifact → Members → Bool
signature_valid rt a key = elim (signing_input_for rt a) [
  | none ↦ false
  | some message ↦ (elim (signature_bytes a) [
    | none ↦ false
    | some sig ↦ is_true (rt.verify_signature (object key) message sig)
  ])
]

-- other !== undefined && principalEqual(other.field, artifact.name)
abbrev pub principal_matches : Runtime → Option Members → String → Artifact → String → Bool
principal_matches rt none field a name = false
principal_matches rt (some other) field a name =
    canonical_equal rt (member field other) (member name a)

-- issuerKnown
abbrev pub issuer_known : Runtime → Members → Artifact → Bool
issuer_known rt snapshot a =
    some_of (λ e. canonical_equal rt (member "principal" e) (member "issuer" a))
      (objects_of (array_or_empty (member "issuer_authorities" snapshot)))

module _ (rt : Runtime) (s : Setup) where
  -- The body of the CRYPTO loop.
  unfoldable pub check_signature : Artifact → Run (Unit {0})
  check_signature a = do
    let artifacts = s.input.artifacts
    let snapshot = s.input.trust_snapshot
    let evidence = request_evidence artifacts
    let pinned = pinned_key snapshot a
    let signer = signer_credential rt snapshot artifacts a
    key ← require (verification_jwk rt snapshot artifacts a) (
        result s
          (if is_kind "credential" a
            then (if issuer_known rt snapshot a then untrusted_key else untrusted_issuer)
            else missing_reference)
          evidence)
    stop_if (not (signature_valid rt a key)) (result s invalid_signature evidence)
    stop_if (is_kind "delegation" a && not (principal_matches rt signer "subject" a "delegator"))
        (result s signer_mismatch evidence)
    stop_if (is_kind "request" a && not (principal_matches rt signer "subject" a "signer"))
        (result s signer_mismatch evidence)
    stop_if
        ((is_kind "key_status" a || is_kind "revocation" a)
          && not (principal_matches rt pinned "principal" a "publisher"))
        (result s untrusted_key evidence)
    stop_if
        (is_kind "key_rotation" a && not (principal_matches rt pinned "principal" a "publisher"))
        (result s untrusted_key evidence)

  -- The request, and the two digests that the caller expects of it.
  unfoldable pub find_request : Run Artifact
  find_request = do
    let evidence = request_evidence s.input.artifacts
    request ←
        require (find (is_kind "request") s.input.artifacts) (result s missing_reference evidence)
    stop_if
        (not (is_text s.input.context.expected_payload_digest (member "payload_digest" request))
          || not (
              is_text s.input.context.expected_task_context_digest
                (member "task_context_digest" request)))
        (result s invalid_digest_linkage evidence)
    pass request
