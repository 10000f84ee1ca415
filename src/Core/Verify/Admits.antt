-- ===== src/Core/Verify/Admits.antt =====
-- What an artifact has when PARSE and VERSION of verifyArtifacts let it through.
use tesserra.Prelude.{
  ◌≡◌, refl, true, false, not, Option, none, some, List, [], ◌∷◌, All, arith, Text, not-eq-false,
  text_eq_sound, codes,
}
use tesserra.Json.{Json, string, Members, Artifact, member, is_some, is_text}
use tesserra.Runtime.{Runtime}
use tesserra.Protocol.Ids.{artifact_id_for, key_id_for}
use tesserra.Protocol.Validate.{validate_outer_envelope}
use tesserra.Protocol.Validate.Kinds.{validate_artifact}
use tesserra.Core.Run.Sound.{
  Sound, passes, Sound-bind, Sound-map, Sound-then, Sound-stop_if, Sound-attempt, Sound-each,
}
use tesserra.Core.Values.{id_of, text_mem, jwk}
use tesserra.Core.Verify.Input.{Setup, valid_trust_snapshot}
use tesserra.Core.Verify.Admission.{
  parse_artifact, version_artifact, unique_ids, admission, embedded_key_differs, compared_key,
}

pub is_text_sound : (t : Text) (v : Option Json) → is_text t v ≡ true → v ≡ some (string t)
is_text_sound t (some (string s)) h = ground (arith, text_eq_sound s t)
is_text_sound t none h = cc
is_text_sound t (some v) h = cc

-- An embedded public key has the id that the artifact states for it.
pub NamesKey : Runtime → Artifact → Type 0
NamesKey rt a =
    (key : Members)
    → jwk (member "public_jwk" a) ≡ some key
    → (t : Text) × (key_id_for rt key ≡ some t) × (member "key_id" a ≡ some (string t))

-- The artifact has an envelope, its id is its content address, and it names its embedded key.
pub record IsIdentified (rt : Runtime) (a : Artifact) : Type 0 where
  pub envelope : validate_outer_envelope a ≡ true
  pub address : Text
  pub computed : artifact_id_for rt a ≡ some address
  pub stated : member "id" a ≡ some (string address)
  pub names_key : NamesKey rt a

compared-NamesKey :
    (rt : Runtime) (a : Artifact) (key : Members) (t : Text)
    → jwk (member "public_jwk" a) ≡ some key
    → key_id_for rt key ≡ some t
    → not (is_text t (member "key_id" a)) ≡ false
    → NamesKey rt a
unfolding NamesKey
compared-NamesKey rt a key t e computed same = λ k f.
    (t, (let p : k ≡ key = cc (f, e) in rw p computed), is_text_sound t _ (not-eq-false _ same))

NamesKey-none : (rt : Runtime) (a : Artifact) → jwk (member "public_jwk" a) ≡ none → NamesKey rt a
unfolding NamesKey
NamesKey-none rt a e = λ k f. cc (e, f)

pub Sound-embedded :
    (rt : Runtime) (a : Artifact)
    → Sound (λ b. b ≡ false → NamesKey rt a) (embedded_key_differs rt a)
unfolding embedded_key_differs compared_key
Sound-embedded rt a = split (jwk (member "public_jwk" a)) refl
  where
    split :
        (o : Option Members)
        → jwk (member "public_jwk" a) ≡ o
        → Sound (λ b. b ≡ false → NamesKey rt a) (compared_key rt a o)
    split none e = passes (λ _. NamesKey-none rt a e)
    split (some key) e =
        Sound-bind (Sound-attempt (key_id_for rt key))
          (λ t c. passes (λ b. compared-NamesKey rt a key t e c b))

pub parse-IsIdentified :
    (rt : Runtime) (s : Setup) (a : Artifact)
    → Sound (λ _. IsIdentified rt a) (parse_artifact rt s a)
unfolding parse_artifact
parse-IsIdentified rt s a = Sound-then (Sound-stop_if _ _ refl) λ envelope.
    Sound-bind (Sound-attempt _) λ t computed. Sound-then (Sound-stop_if _ _ refl) λ stated.
      Sound-bind (Sound-embedded rt a) λ b names. Sound-then (Sound-stop_if b _ refl) λ same.
        Sound-map
          (λ _ _. record {
            envelope = not-eq-false _ envelope;
            address = t;
            computed = computed;
            stated = is_text_sound t _ (not-eq-false _ stated);
            names_key = names same;
          })
          (Sound-stop_if _ _ refl)

-- The artifact passes the schema of a supported kind of this version, and asks for no semantics that
-- the verifier does not know.
pub record IsSupported (rt : Runtime) (a : Artifact) : Type 0 where
  pub version : member "version" a ≡ some (string (codes "agent-proof/v1"))
  pub not_critical : member "critical" a ≡ none
  pub schema : validate_artifact rt a ≡ true

pub is_some-none : {A : Type 0} (o : Option A) → is_some o ≡ false → o ≡ none
is_some-none none h = refl
is_some-none (some a) h = cc

pub version-IsSupported :
    (rt : Runtime) (s : Setup) (a : Artifact)
    → Sound (λ _. IsSupported rt a) (version_artifact rt s a)
unfolding version_artifact
version-IsSupported rt s a = Sound-then (Sound-stop_if _ _ refl) λ version.
    Sound-then (Sound-stop_if _ _ refl) λ _. Sound-then (Sound-stop_if _ _ refl) λ _.
      Sound-then (Sound-stop_if _ _ refl) λ critical. Sound-then (Sound-stop_if _ _ refl) λ _.
        Sound-map
          (λ _ schema. record {
            version = is_text_sound _ _ (not-eq-false _ version);
            not_critical = is_some-none _ critical;
            schema = not-eq-false _ schema;
          })
          (Sound-stop_if _ _ refl)

-- No text of a list stands in another, and none stands twice.
pub Distinct : List Text → List Artifact → Type 0
Distinct seen [] = Unit
Distinct seen (a ∷ rest) = (text_mem (id_of a) seen ≡ false) × Distinct (id_of a ∷ seen) rest

unique-Distinct :
    (rt : Runtime) (s : Setup) (seen : List Text) (artifacts : List Artifact)
    → Sound (λ _. Distinct seen artifacts) (unique_ids rt s seen artifacts)
unfolding unique_ids Distinct
unique-Distinct rt s seen [] = passes tt
unique-Distinct rt s seen (a ∷ rest) =
    Sound-then (Sound-stop_if _ _ refl)
      λ new. Sound-map (λ _ d. (new, d)) (unique-Distinct rt s (id_of a ∷ seen) rest)

-- What holds of the input behind PARSE and VERSION.
pub record IsAdmitted (rt : Runtime) (s : Setup) : Type 0 where
  pub identified : All (IsIdentified rt) s.input.artifacts
  pub supported : All (IsSupported rt) s.input.artifacts
  pub trusted : valid_trust_snapshot rt s.input.trust_snapshot s.policy_hash ≡ true
  pub distinct : Distinct [] s.input.artifacts

pub admission-IsAdmitted :
    (rt : Runtime) (s : Setup) → Sound (λ _. IsAdmitted rt s) (admission rt s)
unfolding admission
admission-IsAdmitted rt s =
    Sound-then (Sound-each s.input.artifacts (parse-IsIdentified rt s)) λ identified.
      Sound-then (Sound-each s.input.artifacts (version-IsSupported rt s)) λ supported.
        Sound-then (Sound-stop_if _ _ refl) λ trusted.
          Sound-map
            (λ _ distinct. record {
              identified = identified;
              supported = supported;
              trusted = not-eq-false _ trusted;
              distinct = distinct;
            })
            (unique-Distinct rt s [] s.input.artifacts)
