-- ===== src/Core/Artifacts/Signed.antt =====
-- What signArtifact makes passes the checks of the verifiers on ids and signatures.
use tesserra.Prelude.{
  ℕ, ◌≡◌, refl, sym, ap, ◌∙◌, true, false, Option, none, some, List, [], ◌∷◌, length, some_of,
  Bool-cases, inl, inr, String, Text, codes, text_eq, text_eq_sound, text_eq_refl,
}
use tesserra.Json.{Json, string, object, Members, end, entry, Artifact, member_text}
use tesserra.Runtime.{Runtime}
use tesserra.Core.Artifacts.{KeyProvider, set_member, set, proof_of, unsigned, sign_artifact}
use tesserra.Core.Values.{id_of, kid_of}
use tesserra.Core.Verify.Crypto.{signature_valid}
use tesserra.Protocol.Base64url.{encode_base64url}
use tesserra.Protocol.Base64url.Roundtrip.{IsBytes, decode-encode-length}
use tesserra.Protocol.Canonical.{omit, ◌>>=◌}
use tesserra.Protocol.Ids.{artifact_id_for, key_id_for, signing_input_for}

-- A member that is left out may be set before.
pub omit-set :
    (keys : List String) (key : Text) (v : Json) (ms : Members)
    → some_of (λ k. text_eq (codes k) key) keys ≡ true
    → omit keys (set_member key v ms) ≡ omit keys ms
unfolding omit set_member
omit-set keys key v end h = rw h refl
omit-set keys key v (entry k w ms) h = elim (Bool-cases (text_eq k key)) [
  | inl e ↦ let same = text_eq_sound k key e in rw e (rw same (rw h refl))
  | inr e ↦ rw e (rw (omit-set keys key v ms h) refl)
]

pub member-set :
    (key : Text) (v : Json) (ms : Members) → member_text key (set_member key v ms) ≡ some v
unfolding member_text set_member
member-set key v end = rw (text_eq_refl key) refl
member-set key v (entry k w ms) = elim (Bool-cases (text_eq k key)) [
  | inl e ↦ rw (e, e) refl
  | inr e ↦ rw (e, e) (member-set key v ms)
]

member-set_other :
    (key other : Text) (v : Json) (ms : Members)
    → text_eq key other ≡ false
    → member_text other (set_member key v ms) ≡ member_text other ms
unfolding member_text set_member
member-set_other key other v end h = rw h refl
member-set_other key other v (entry k w ms) h = elim (Bool-cases (text_eq k key)) [
  | inl e ↦ let same = text_eq_sound k key e in rw e (rw same (rw h refl))
  | inr e ↦ rw e (rw (member-set_other key other v ms h) refl)
]

-- An artifact's id is that of its content: the id and the proof may be set.
artifact_id_for-set :
    (rt : Runtime) (key : Text) (v : Json) (a : Artifact)
    → some_of (λ k. text_eq (codes k) key) ("id" ∷ "proof" ∷ []) ≡ true
    → artifact_id_for rt (set_member key v a) ≡ artifact_id_for rt a
unfolding artifact_id_for
artifact_id_for-set rt key v a h = rw (omit-set ("id" ∷ "proof" ∷ []) key v a h) refl

-- What is signed does not hold the proof.
signing_input-proof :
    (rt : Runtime) (v : Json) (a : Artifact)
    → signing_input_for rt (set "proof" v a) ≡ signing_input_for rt a
unfolding signing_input_for text_eq
signing_input-proof rt v a =
    rw
      (
        omit-set ("proof" ∷ []) (codes "proof") v a refl,
        member-set_other (codes "proof") (codes "kind") v a refl,
      )
      refl

pub bind-some :
    {A B : Type 0} (o : Option A) (f : A → Option B) (b : B)
    → (o >>= f) ≡ some b
    → (a : A) × (o ≡ some a) × (f a ≡ some b)
bind-some none f b h = cc h
bind-some (some a) f b h = (a, refl, h)

-- A provider's signatures are 64 bytes that its public key verifies.
unfoldable pub IsSigner : Runtime → KeyProvider → Text → Type 0
IsSigner rt provider reference =
    (jwk : Members) (message signature : List ℕ)
    → provider.public_key reference ≡ some jwk
    → provider.sign reference message ≡ some signature
    → IsBytes signature
      × (length signature ≡ 64)
      × (rt.verify_signature (object jwk) message signature ≡ some true)

-- An artifact whose proof holds the text of a signature of what it signs.
pub sealed-valid :
    (rt : Runtime) (kid : Text) (jwk a : Members) (message signature : List ℕ)
    → signing_input_for rt a ≡ some message
    → IsBytes signature
    → length signature ≡ 64
    → rt.verify_signature (object jwk) message signature ≡ some true
    → signature_valid rt (set "proof" (proof_of kid (encode_base64url signature)) a) jwk ≡ true
unfolding signature_valid member_text text_eq
sealed-valid rt kid jwk a message signature signs bytes long verifies =
    let v = proof_of kid (encode_base64url signature) in
    let decodes = rw long at (decode-encode-length signature bytes) in
    rw
      (
        signature_valid,
        signing_input-proof rt v a,
        signs,
        member-set (codes "proof") v a,
        decodes,
        verifies,
      )
      refl

pub kid-proof : (kid sig : Text) (a : Artifact) → kid_of (set "proof" (proof_of kid sig) a) ≡ kid
unfolding kid_of member_text text_eq
kid-proof kid sig a = rw (kid_of, member-set (codes "proof") (proof_of kid sig) a) refl

pub address :
    (rt : Runtime) (id : Text) (draft : Artifact) (v : Json)
    → artifact_id_for rt draft ≡ some id
    → artifact_id_for rt (set "proof" v (set "id" (string id) draft))
      ≡ some (id_of (set "proof" v (set "id" (string id) draft)))
unfolding id_of text_eq
address rt id draft v h =
    let named = set "id" (string id) draft in
    rw
      (
        artifact_id_for-set rt (codes "proof") v named refl,
        artifact_id_for-set rt (codes "id") (string id) draft refl,
        member-set_other (codes "proof") (codes "id") v named refl,
        member-set (codes "id") (string id) draft,
      )
      h

-- What signArtifact returns has its content address as its id, names the signing key, and carries a
-- signature that the verifier accepts under that key; the provider's signatures are 64 bytes that its
-- public key verifies.
pub sign_artifact-valid :
    (rt : Runtime) (provider : KeyProvider) (reference : Text) (draft a : Artifact)
    → IsSigner rt provider reference
    → sign_artifact rt provider reference draft ≡ some a
    → (jwk : Members) × (provider.public_key reference ≡ some jwk)
      × (key_id_for rt jwk ≡ some (kid_of a))
      × (artifact_id_for rt a ≡ some (id_of a))
      × (signature_valid rt a jwk ≡ true)
unfolding sign_artifact IsSigner
sign_artifact-valid rt provider reference draft a honest h =
    let (jwk, at_key, h1) = bind-some (provider.public_key reference) _ a h in
    let (kid, at_kid, h2) = bind-some (key_id_for rt jwk) _ a h1 in
    let (id, at_id, h3) = bind-some (artifact_id_for rt (unsigned kid draft)) _ a h2 in
    let named = set "id" (string id) (unsigned kid draft) in
    let (message, at_message, h4) = bind-some (signing_input_for rt named) _ a h3 in
    let (signature, at_signature, h5) = bind-some (provider.sign reference message) _ a h4 in
    let (bytes, long, verifies) = honest jwk message signature at_key at_signature in
    let v = proof_of kid (encode_base64url signature) in
    let made : set "proof" v named ≡ a = cc h5 in
    rw (← made) (
      jwk,
      at_key,
      at_kid ∙ ap some (sym (kid-proof kid (encode_base64url signature) named)),
      address rt id (unsigned kid draft) v at_id,
      sealed-valid rt kid jwk named message signature at_message bytes long verifies,
    )
