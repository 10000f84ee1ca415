-- ===== src/Service/Issuer.antt =====
-- createLocalCredentialIssuer and the small functions beside it in packages/service/src/index.ts.
pub mod Seals
use tesserra.Prelude.{
  ℕ, Bool, true, false, not, ◌&&◌, ◌||◌, Option, none, some, List, [], ◌∷◌, ◌++◌, if◌then◌else◌,
  length, leb, ◌==◌, Text, codes, text_eq, text_lt,
}
use tesserra.Prelude.Int.{ℤ, pos, negsuc, leb_ℤ, ltb_ℤ}
use tesserra.Json.{
  Json, Number, int, string, number, array, object, of_items, Members, end, entry, Artifact, member,
  as_object, is_literal,
}
use tesserra.Runtime.{Runtime}
use tesserra.Core.Artifacts.{set, proof_of, members_of, literal}
use tesserra.Core.Identity.{IdentityInput, verify_identity_credential}
use tesserra.Core.Run.{Outcome}
use tesserra.Core.Values.{id_of}
use tesserra.Protocol.Base64url.{encode_base64url}
use tesserra.Protocol.Canonical.{◌>>=◌}
use tesserra.Protocol.Ids.{artifact_id_for, key_id_for, policy_hash_for, signing_input_for}
use tesserra.Protocol.Regex.{within}
use tesserra.Protocol.Validate.{valid_agent_id}
use tesserra.Service.Identity.{
  Answer, answered, refused, internal, CreateIdentityInput, constraints_json, purpose_text,
}

-- text.replace(/\.\d{3}Z$/, 'Z')
unfoldable pub without_millis : Text → Text
without_millis (p ∷ a ∷ b ∷ c ∷ z ∷ []) =
    if (p == b'.') && within b'0' b'9' a && within b'0' b'9' b && within b'0' b'9' c && (z == b'Z')
    then codes "Z"
    else p ∷ a ∷ b ∷ c ∷ z ∷ []
without_millis (c ∷ s) = c ∷ without_millis s
without_millis [] = []

-- KeyProvider, with the keys in a state: what `create` gives, and the rest as in a signing.
pub record KeyStore (S : Type 0) : Type 0 where
  pub create : S → (Text × Members) × S
  pub public_key : Text → S → Option Members
  pub sign : Text → List ℕ → S → Option (List ℕ)

pub record LocalCredentialAssembly (S : Type 0) : Type 0 where
  pub key_provider : KeyStore S
  pub issuer : Members
  pub issuer_reference : Text

-- The credential before it is identified and signed.
abbrev pub credential_draft :
    {S : Type 0}
    → LocalCredentialAssembly S
    → CreateIdentityInput
    → Text
    → Text
    → Text × Members
    → Artifact
credential_draft assembly input issued_at kid (key_id, public_jwk) = members_of (
    ("version", literal "agent-proof/v1")
    ∷ ("kind", literal "credential")
    ∷ ("id", string [])
    ∷ ("issued_at", string issued_at)
    ∷ ("proof", proof_of kid [])
    ∷ ("issuer", object assembly.issuer)
    ∷ ("subject", object (members_of (("type", literal "agent") ∷ ("id", input.subject) ∷ [])))
    ∷ ("public_jwk", object public_jwk)
    ∷ ("key_id", string key_id)
    ∷ ("not_before", string input.authority_ceiling.not_before)
    ∷ ("expires_at", string input.authority_ceiling.expires_at)
    ∷ ("credential_purpose", purpose_text input.credential_purpose)
    ∷ ("authority_ceiling", constraints_json input.authority_ceiling)
    ∷ [])

module _ (rt : Runtime) (iso : ℤ → Text) {S : Type 0} (assembly : LocalCredentialAssembly S) where
  -- The draft is identified and signed.
  unfoldable pub seal : Text → Artifact → S → Option Artifact
  seal kid draft s = do
    id ← artifact_id_for rt draft
    let identified = set "id" (string id) draft
    message ← signing_input_for rt identified
    signature ← assembly.key_provider.sign assembly.issuer_reference message s
    some (set "proof" (proof_of kid (encode_base64url signature)) identified)

  -- createLocalCredentialIssuer(assembly).issue(input, now), once the subject's key is there; `none` in
  -- the answer is another thrown error.
  unfoldable pub issue_for : CreateIdentityInput → ℤ → Text × Members → S → Answer (Option Artifact)
  issue_for input now key s = elim (assembly.key_provider.public_key assembly.issuer_reference s) [
    | none ↦ refused internal
    | some jwk ↦ answered (do
      kid ← key_id_for rt jwk
      seal kid (credential_draft assembly input (without_millis (iso now)) kid key) s)
  ]

  unfoldable pub issue : CreateIdentityInput → ℤ → S → Answer (Option Artifact) × S
  issue input now s =
      let (key, t) = assembly.key_provider.create s in (issue_for input now key t, t)

-- publicKeyId(jwk)
abbrev pub public_key_id : Runtime → Members → Option Text
public_key_id rt jwk = key_id_for rt jwk

-- verifyIdentityOffline(credential, trust, now)
abbrev pub verify_identity_offline : Runtime → Json → Members → ℤ → Outcome
verify_identity_offline rt credential trust now =
    verify_identity_credential rt
      (record { credential = credential; trust_snapshot = trust; now = now })

-- withPolicyHash(snapshot)
unfoldable pub with_policy_hash : Runtime → Members → Option Members
with_policy_hash rt snapshot = do
  hash ← policy_hash_for rt snapshot
  some (set "policy_hash" (string hash) snapshot)
