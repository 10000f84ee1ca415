-- ===== src/Core/Verify/Lives.antt =====
-- What holds of the keys of a chain, and of its artifacts, behind STATUS of verifyArtifacts.
use tesserra.Prelude.{
  ◌≡◌, refl, Bool, true, false, not, ◌||◌, Option, none, some, List, All, Text, codes, not-eq-false,
  ||-eq-false, some_of, some_of-eq-false, All-map_imp,
}
use tesserra.Json.{string, Members, Artifact, member, strict_eq, is_text}
use tesserra.Runtime.{Runtime}
use tesserra.Protocol.Ids.{semantic_digest_for}
use tesserra.Core.Run.Sound.{
  Sound, passes, Sound-bind, Sound-map, Sound-then, Sound-stop_if, Sound-attempt, Sound-each,
}
use tesserra.Core.Values.{status_for}
use tesserra.Core.Verify.Input.{Setup}
use tesserra.Core.Verify.Admits.{is_text_sound}
use tesserra.Core.Verify.Status.{
  offline_inspection, chain_keys, status_chain_valid, high_water, is_marked, marked_digest, after,
  before, revokes, check_fresh, check_selected, check_key, some_revokes, check_status, fresh_unless,
  standing,
}

-- The selected record is the one that the snapshot's high-water mark names, and the clock lies between
-- its publication and its expiry.
pub record IsFresh (rt : Runtime) (s : Setup) (key : Text) (selected : Artifact) : Type 0 where
  pub water : Members
  pub marked : high_water rt s.input.trust_snapshot (member "publisher" selected) key ≡ some water
  pub sequence : strict_eq (member "sequence" water) (member "sequence" selected) ≡ true
  pub digest : Text
  pub computed : semantic_digest_for rt selected ≡ some digest
  pub stated : member "semantic_digest" water ≡ some (string digest)
  pub published : after rt s.input.now (member "as_of" selected) ≡ false
  pub unexpired : before rt s.input.now (member "valid_until" selected) ≡ false

-- A key may be used: its newest record says so, at the end of an unbroken history, and freshly unless
-- the caller inspects offline; only offline may there be no record.
pub data IsUsable (rt : Runtime) (s : Setup) (key : Text) : Type 0 where
  unlisted :
      offline_inspection s ≡ true → status_for rt s.input.artifacts key ≡ none → IsUsable rt s key
  active :
      (selected : Artifact)
      → status_for rt s.input.artifacts key ≡ some selected
      → member "state" selected ≡ some (string (codes "active"))
      → status_chain_valid rt s.input.artifacts selected ≡ some true
      → (offline_inspection s ≡ false → IsFresh rt s key selected)
      → IsUsable rt s key

is_marked_sound :
    (o : Option Members) (selected : Artifact)
    → is_marked o selected ≡ true
    → (water : Members) × (o ≡ some water)
      × (strict_eq (member "sequence" water) (member "sequence" selected) ≡ true)
is_marked_sound none selected h = cc
is_marked_sound (some water) selected h = (water, refl, h)

fresh :
    (rt : Runtime) (s : Setup) (key : Text) (selected : Artifact) (digest : Text)
    → is_marked (high_water rt s.input.trust_snapshot (member "publisher" selected) key) selected
      ≡ true
    → semantic_digest_for rt selected ≡ some digest
    → is_text digest
        (marked_digest (high_water rt s.input.trust_snapshot (member "publisher" selected) key))
      ≡ true
    → (after rt s.input.now (member "as_of" selected)
        || before rt s.input.now (member "valid_until" selected))
      ≡ false
    → IsFresh rt s key selected
fresh rt s key selected digest m c d w =
    let (water, found, same) = is_marked_sound _ selected m in
    record {
      water = water;
      marked = found;
      sequence = same;
      digest = digest;
      computed = c;
      stated = is_text_sound digest _ (rw found at d);
      published = (||-eq-false _ _ w).0;
      unexpired = (||-eq-false _ _ w).1;
    }

check_fresh-IsFresh :
    (rt : Runtime) (s : Setup) (chain : List Artifact) (key : Text) (selected : Artifact)
    → Sound (λ _. IsFresh rt s key selected) (check_fresh rt s chain key selected)
unfolding check_fresh
check_fresh-IsFresh rt s chain key selected = Sound-then (Sound-stop_if _ _ refl) λ marked.
    Sound-bind (Sound-attempt _) λ digest computed. Sound-then (Sound-stop_if _ _ refl) λ stated.
      Sound-map
        (λ _ window.
          fresh rt s key selected digest (not-eq-false _ marked) computed (not-eq-false _ stated)
            window)
        (Sound-stop_if _ _ refl)

Sound-fresh_unless :
    (rt : Runtime) (s : Setup) (chain : List Artifact) (key : Text) (selected : Artifact) (b : Bool)
    → Sound (λ _. b ≡ false → IsFresh rt s key selected) (fresh_unless rt s chain key selected b)
unfolding fresh_unless
Sound-fresh_unless rt s chain key selected true = passes (λ e. cc)
Sound-fresh_unless rt s chain key selected false =
    Sound-map (λ _ f _. f) (check_fresh-IsFresh rt s chain key selected)

check_selected-IsUsable :
    (rt : Runtime) (s : Setup) (chain : List Artifact) (key : Text) (selected : Artifact)
    → status_for rt s.input.artifacts key ≡ some selected
    → Sound (λ _. IsUsable rt s key) (check_selected rt s chain key selected)
unfolding check_selected
check_selected-IsUsable rt s chain key selected e = Sound-then (Sound-stop_if _ _ refl) λ state.
    Sound-bind (Sound-attempt _) λ b history. Sound-then (Sound-stop_if (not b) _ refl) λ unbroken.
      Sound-map
        (λ _ f.
          active selected e (is_text_sound _ _ (not-eq-false _ state))
            (let same : b ≡ true = not-eq-false b unbroken in rw same at history) f)
        (Sound-fresh_unless rt s chain key selected (offline_inspection s))

Sound-standing :
    (rt : Runtime) (s : Setup) (chain : List Artifact) (key : Text) (o : Option Artifact)
    → status_for rt s.input.artifacts key ≡ o
    → Sound (λ _. IsUsable rt s key) (standing rt s chain key o)
unfolding standing
Sound-standing rt s chain key none e =
    Sound-map (λ _ h. unlisted (not-eq-false _ h) e) (Sound-stop_if _ _ refl)
Sound-standing rt s chain key (some selected) e = check_selected-IsUsable rt s chain key selected e

check_key-IsUsable :
    (rt : Runtime) (s : Setup) (chain : List Artifact) (key : Text)
    → Sound (λ _. IsUsable rt s key) (check_key rt s chain key)
unfolding check_key
check_key-IsUsable rt s chain key = Sound-standing rt s chain key _ refl

-- No record of the input revokes an artifact of the chain or one of its keys.
pub IsUnrevoked : Runtime → Setup → List Artifact → Type 0
IsUnrevoked rt s chain =
    All (λ r. All (λ a. revokes rt r a (chain_keys chain) s.input.now ≡ false) chain)
      s.input.artifacts

some_revokes-IsUnrevoked :
    (rt : Runtime) (s : Setup) (chain : List Artifact)
    → some_revokes rt s chain ≡ false
    → IsUnrevoked rt s chain
unfolding some_revokes IsUnrevoked
some_revokes-IsUnrevoked rt s chain h =
    All-map_imp
      (λ r e. some_of-eq-false (λ a. revokes rt r a (chain_keys chain) s.input.now) chain e)
      s.input.artifacts
      (some_of-eq-false (λ r. some_of (λ a. revokes rt r a (chain_keys chain) s.input.now) chain)
        s.input.artifacts h)

-- Every key of the chain is usable, and nothing of the chain is revoked.
pub record IsLive (rt : Runtime) (s : Setup) (chain : List Artifact) : Type 0 where
  pub usable : All (IsUsable rt s) (chain_keys chain)
  pub unrevoked : IsUnrevoked rt s chain

pub check_status-IsLive :
    (rt : Runtime) (s : Setup) (chain : List Artifact)
    → Sound (λ _. IsLive rt s chain) (check_status rt s chain)
unfolding check_status
check_status-IsLive rt s chain =
    Sound-then (Sound-each (chain_keys chain) (check_key-IsUsable rt s chain)) λ usable.
      Sound-map
        (λ _ h. record { usable = usable; unrevoked = some_revokes-IsUnrevoked rt s chain h })
        (Sound-stop_if _ _ refl)
