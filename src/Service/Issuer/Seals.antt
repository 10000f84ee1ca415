-- ===== src/Service/Issuer/Seals.antt =====
-- What the local issuer makes passes the verifier's checks on ids, keys and signatures, and a snapshot
-- with its policy hash passes the verifier's.
use tesserra.Prelude.{
  ◌≡◌, refl, sym, ap, ◌∙◌, true, some, [], ◌∷◌, Option-cases, inl, inr, Text, codes, text_eq,
}
use tesserra.Prelude.Int.{ℤ}
use tesserra.Json.{string, Members, Artifact, member}
use tesserra.Runtime.{Runtime}
use tesserra.Core.Artifacts.{KeyProvider, set, proof_of}
use tesserra.Core.Artifacts.Signed.{
  IsSigner, bind-some, sealed-valid, kid-proof, address, omit-set, member-set,
}
use tesserra.Core.Values.{id_of, kid_of}
use tesserra.Core.Verify.Crypto.{signature_valid}
use tesserra.Protocol.Base64url.{encode_base64url}
use tesserra.Protocol.Canonical.{◌>>=◌}
use tesserra.Protocol.Ids.{artifact_id_for, key_id_for, policy_hash_for, signing_input_for}
use tesserra.Service.Identity.{answered, CreateIdentityInput}
use tesserra.Service.Issuer.{
  KeyStore, LocalCredentialAssembly, credential_draft, seal, issue_for, issue, without_millis,
  with_policy_hash,
}

-- The keys, as they stand.
abbrev pub provider_at : {S : Type 0} → KeyStore S → S → KeyProvider
provider_at keys s = record {
  public_key = λ reference. keys.public_key reference s;
  sign = λ reference message. keys.sign reference message s;
}

module _ (rt : Runtime) (iso : ℤ → Text) {S : Type 0} (assembly : LocalCredentialAssembly S) where
  seal-valid :
      (kid : Text) (draft a : Artifact) (jwk : Members) (s : S)
      → IsSigner rt (provider_at assembly.key_provider s) assembly.issuer_reference
      → assembly.key_provider.public_key assembly.issuer_reference s ≡ some jwk
      → key_id_for rt jwk ≡ some kid
      → seal rt iso assembly kid draft s ≡ some a
      → (key_id_for rt jwk ≡ some (kid_of a))
        × (artifact_id_for rt a ≡ some (id_of a))
        × (signature_valid rt a jwk ≡ true)
  unfolding seal IsSigner
  seal-valid kid draft a jwk s honest at_key at_kid h =
      let (id, at_id, h1) = bind-some (artifact_id_for rt draft) _ a h in
      let named = set "id" (string id) draft in
      let (message, at_message, h2) = bind-some (signing_input_for rt named) _ a h1 in
      let (signature, at_signature, h3) =
        bind-some (assembly.key_provider.sign assembly.issuer_reference message s) _ a h2 in
      let (bytes, long, verifies) = honest jwk message signature at_key at_signature in
      let v = proof_of kid (encode_base64url signature) in
      let made : set "proof" v named ≡ a = cc h3 in
      rw (← made) (
        at_kid ∙ ap some (sym (kid-proof kid (encode_base64url signature) named)),
        address rt id draft v at_id,
        sealed-valid rt kid jwk named message signature at_message bytes long verifies,
      )

  issue_for-valid :
      (input : CreateIdentityInput) (now : ℤ) (key : Text × Members) (s : S) (a : Artifact)
      → IsSigner rt (provider_at assembly.key_provider s) assembly.issuer_reference
      → issue_for rt iso assembly input now key s ≡ answered (some a)
      → (jwk : Members) × (assembly.key_provider.public_key assembly.issuer_reference s ≡ some jwk)
        × (key_id_for rt jwk ≡ some (kid_of a))
        × (artifact_id_for rt a ≡ some (id_of a))
        × (signature_valid rt a jwk ≡ true)
  unfolding issue_for
  issue_for-valid input now key s a honest h =
      elim (Option-cases (assembly.key_provider.public_key assembly.issuer_reference s)) [
        | inl e ↦ absurd (let g = rw (e, issue_for) at h in cc g)
        | inr (jwk, e) ↦
            let g = rw (e, issue_for) at h in
            let draft : Text → Artifact =
              λ kid. credential_draft assembly input (without_millis (iso now)) kid key in
            let made : (key_id_for rt jwk >>= λ kid. seal rt iso assembly kid (draft kid) s)
                ≡ some a =
              cc g in
            let (kid, at_kid, sealing) = bind-some (key_id_for rt jwk) _ a made in
            let (named, addressed, signed) =
              seal-valid kid (draft kid) a jwk s honest e at_kid sealing in
            (jwk, e, named, addressed, signed)
      ]

-- A credential of the local issuer has its content address as its id, names the issuer's key, and
-- carries a signature that the verifier accepts under that key; the signatures of the key provider are
-- 64 bytes that its public key verifies.
pub issue-valid :
    (rt : Runtime) (iso : ℤ → Text) {S : Type 0} (assembly : LocalCredentialAssembly S)
    (input : CreateIdentityInput) (now : ℤ) (s t : S) (a : Artifact)
    → IsSigner rt (provider_at assembly.key_provider t) assembly.issuer_reference
    → issue rt iso assembly input now s ≡ (answered (some a), t)
    → (jwk : Members) × (assembly.key_provider.public_key assembly.issuer_reference t ≡ some jwk)
      × (key_id_for rt jwk ≡ some (kid_of a))
      × (artifact_id_for rt a ≡ some (id_of a))
      × (signature_valid rt a jwk ≡ true)
unfolding issue
issue-valid rt iso assembly input now s t a honest h =
    let made = assembly.key_provider.create s in
    let same : made.1 ≡ t = ap (λ z. z.1) h in
    let answer : issue_for rt iso assembly input now made.0 made.1 ≡ answered (some a) =
      ap (λ z. z.0) h in
    issue_for-valid rt iso assembly input now made.0 t a honest (rw (← same) answer)

-- A snapshot that withPolicyHash completes holds the policy hash that the verifier computes for it.
pub with_policy_hash-own :
    (rt : Runtime) (snapshot t : Members)
    → with_policy_hash rt snapshot ≡ some t
    → (hash : Text) × (policy_hash_for rt t ≡ some hash)
      × (member "policy_hash" t ≡ some (string hash))
unfolding with_policy_hash policy_hash_for text_eq
with_policy_hash-own rt snapshot t h =
    let (hash, at_hash, h1) = bind-some (policy_hash_for rt snapshot) _ t h in
    let made : set "policy_hash" (string hash) snapshot ≡ t = cc h1 in
    rw (← made) (
      hash,
      rw (omit-set ("policy_hash" ∷ []) (codes "policy_hash") (string hash) snapshot refl) at_hash,
      member-set (codes "policy_hash") (string hash) snapshot,
    )
