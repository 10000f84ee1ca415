-- ===== src/Core/Delegation/Lives.antt =====
-- What holds of the keys of a chain behind the stage STATUS of verifyDelegationChain.
use tesserra.Prelude.{
  ◌≡◌, refl, Bool, true, false, not, ◌||◌, Option, none, some, List, ◌∷◌, All, Text, codes,
  not-eq-false, if◌then◌else◌, ||-eq-false, some_of-eq-false,
}
use tesserra.Json.{string, Members, Artifact, member, strict_eq}
use tesserra.Runtime.{Runtime}
use tesserra.Protocol.Ids.{semantic_digest_for}
use tesserra.Core.Run.{Run, pass}
use tesserra.Core.Run.Sound.{
  Sound, passes, Sound-bind, Sound-map, Sound-then, Sound-stop_if, Sound-attempt, Sound-each,
}
use tesserra.Core.Values.{status_for}
use tesserra.Core.Verify.Admits.{is_text_sound}
use tesserra.Core.Verify.Status.{
  status_chain_valid, high_water, is_marked, marked_digest, after, before,
}
use tesserra.Core.Delegation.Input.{DelegationSetup}
use tesserra.Core.Delegation.Status.{
  is_revoked, all_keys, check_fresh, check_selected, standing, check_key, check_status,
}

-- The record stands at the high-water mark of the snapshot, and its window holds the clock.
pub record IsFresh (rt : Runtime) (s : DelegationSetup) (key : Text) (selected : Artifact)
    : Type 0 where
  pub water : Members
  pub marked : high_water rt s.input.trust_snapshot (member "publisher" selected) key ≡ some water
  pub sequence : strict_eq (member "sequence" water) (member "sequence" selected) ≡ true
  pub digest : Text
  pub computed : semantic_digest_for rt selected ≡ some digest
  pub stated : member "semantic_digest" water ≡ some (string digest)
  pub published : after rt s.input.now (member "as_of" selected) ≡ false
  pub unexpired : before rt s.input.now (member "valid_until" selected) ≡ false

-- A key is usable where its latest record is active and ends an unbroken history, and is fresh unless
-- the caller inspects offline; only an offline inspection does without a record.
pub data IsUsable (rt : Runtime) (s : DelegationSetup) (key : Text) : Type 0 where
  unlisted :
      s.input.offline_inspection ≡ true
      → status_for rt s.input.status_evidence key ≡ none
      → IsUsable rt s key
  active :
      (selected : Artifact)
      → status_for rt s.input.status_evidence key ≡ some selected
      → member "state" selected ≡ some (string (codes "active"))
      → status_chain_valid rt s.input.status_evidence selected ≡ some true
      → (s.input.offline_inspection ≡ false → IsFresh rt s key selected)
      → IsUsable rt s key

fresh_of :
    (rt : Runtime) (s : DelegationSetup) (key : Text) (selected : Artifact) (digest : Text)
    (water : Option Members)
    → high_water rt s.input.trust_snapshot (member "publisher" selected) key ≡ water
    → is_marked water selected ≡ true
    → semantic_digest_for rt selected ≡ some digest
    → marked_digest water ≡ some (string digest)
    → (after rt s.input.now (member "as_of" selected)
        || before rt s.input.now (member "valid_until" selected))
      ≡ false
    → IsFresh rt s key selected
fresh_of rt s key selected digest none e marked computed stated window = cc
fresh_of rt s key selected digest (some water) e marked computed stated window = record {
  water = water;
  marked = e;
  sequence = marked;
  digest = digest;
  computed = computed;
  stated = stated;
  published = (||-eq-false _ _ window).0;
  unexpired = (||-eq-false _ _ window).1;
}

check_fresh-IsFresh :
    (rt : Runtime) (s : DelegationSetup) (chain : List Artifact) (key : Text) (selected : Artifact)
    → Sound (λ _. IsFresh rt s key selected) (check_fresh rt s chain key selected)
unfolding check_fresh
check_fresh-IsFresh rt s chain key selected = Sound-then (Sound-stop_if _ _ refl) λ marked.
    Sound-bind (Sound-attempt _) λ digest computed. Sound-then (Sound-stop_if _ _ refl) λ stated.
      Sound-map
        (λ _ window.
          fresh_of rt s key selected digest _ refl (not-eq-false _ marked) computed
            (is_text_sound _ _ (not-eq-false _ stated)) window)
        (Sound-stop_if _ _ refl)

Sound-unless :
    {P : Type 0} {m : Run (Unit {0})} (b : Bool)
    → Sound (λ _. P) m
    → Sound (λ _. b ≡ false → P) (if b then pass tt else m)
Sound-unless true h = passes (λ e. cc)
Sound-unless false h = Sound-map (λ _ p _. p) h

check_selected-IsUsable :
    (rt : Runtime) (s : DelegationSetup) (chain : List Artifact) (key : Text) (selected : Artifact)
    → status_for rt s.input.status_evidence key ≡ some selected
    → Sound (λ _. IsUsable rt s key) (check_selected rt s chain key selected)
unfolding check_selected
check_selected-IsUsable rt s chain key selected e = Sound-bind (Sound-attempt _) λ b history.
    Sound-then (Sound-stop_if (not b) _ refl) λ unbroken.
      Sound-then (Sound-stop_if _ _ refl) λ state.
        let whole : status_chain_valid rt s.input.status_evidence selected ≡ some true =
          (let same : b ≡ true = not-eq-false b unbroken in rw same at history) in
        Sound-map
          (λ _ fresh. active selected e (is_text_sound _ _ (not-eq-false _ state)) whole fresh)
          (Sound-unless s.input.offline_inspection (check_fresh-IsFresh rt s chain key selected))

Sound-standing :
    (rt : Runtime) (s : DelegationSetup) (chain : List Artifact) (key : Text) (o : Option Artifact)
    → status_for rt s.input.status_evidence key ≡ o
    → Sound (λ _. IsUsable rt s key) (standing rt s chain key o)
unfolding standing
Sound-standing rt s chain key none e =
    Sound-map (λ _ off. unlisted (not-eq-false _ off) e) (Sound-stop_if _ _ refl)
Sound-standing rt s chain key (some selected) e = check_selected-IsUsable rt s chain key selected e

check_key-IsUsable :
    (rt : Runtime) (s : DelegationSetup) (chain : List Artifact) (key : Text)
    → Sound (λ _. IsUsable rt s key) (check_key rt s chain key)
unfolding check_key
check_key-IsUsable rt s chain key = Sound-standing rt s chain key _ refl

-- Every key of the chain, its root and the binding credentials is usable, and no record revokes one of
-- them or an artifact of the chain.
pub record IsLive (rt : Runtime) (s : DelegationSetup) (chain : List Artifact) : Type 0 where
  pub usable : All (IsUsable rt s) (all_keys s chain)
  pub unrevoked :
      All
        (λ r.
          is_revoked rt r (s.input.root_credential ∷ chain) (all_keys s chain) s.input.now ≡ false)
        s.input.status_evidence

pub check_status-IsLive :
    (rt : Runtime) (s : DelegationSetup) (chain : List Artifact)
    → Sound (λ _. IsLive rt s chain) (check_status rt s chain)
unfolding check_status
check_status-IsLive rt s chain =
    Sound-then (Sound-each (all_keys s chain) (check_key-IsUsable rt s chain)) λ usable.
      Sound-map
        (λ _ h. record {
          usable = usable;
          unrevoked =
              some_of-eq-false
                (λ r.
                  is_revoked rt r (s.input.root_credential ∷ chain) (all_keys s chain) s.input.now)
                s.input.status_evidence h;
        })
        (Sound-stop_if _ _ refl)
