-- ===== src/Core/Verify/Walk.antt =====
-- The walk of verifyArtifacts from the request: it ends within its fuel, and what it finds is a path.
use tesserra.Prelude.{
  ℕ, zero, suc, ◌≤◌, ◌<◌, ◌≡◌, refl, Bool, true, false, not, ◌&&◌, ◌||◌, some, List, [], ◌∷◌, ◌++◌,
  arith, Text, text_eq, text_eq_refl, not-eq-false, if◌then◌else◌, length, Option-cases, Bool-cases,
  inl, inr, ||-eq-false,
}
use tesserra.Prelude.Int.{sub_ℕ}
use tesserra.Json.{Artifact, member, as_string, strict_eq}
use tesserra.Runtime.{Runtime}
use tesserra.Protocol.Canonical.{canonical_equal}
use tesserra.Protocol.Coerce.{to_integer}
use tesserra.Core.Result.{is_valid}
use tesserra.Core.Run.Sound.{Sound, passes, Sound-bind, Sound-then, Sound-stop_if, Sound-require}
use tesserra.Core.Values.{is_kind, id_of, find_id, less}
use tesserra.Core.Verify.Input.{Setup}
use tesserra.Core.Verify.Crypto.{artifact_ref, parent_of, has_id, is_link}
use tesserra.Core.Verify.Chain.{
  reference_kind, principal_breaks, missing_parent, next_link, walk, ends_at_root, find_chain,
}

-- How many artifacts are not in a chain, by their ids.
unfoldable pub fresh : List Artifact → List Artifact → ℕ
fresh chain [] = 0
fresh chain (a ∷ rest) = if has_id (id_of a) chain then fresh chain rest else suc (fresh chain rest)

has_id-append :
    (id : Text) (chain : List Artifact) (p : Artifact)
    → has_id id (chain ++ (p ∷ [])) ≡ (has_id id chain || text_eq (id_of p) id)
has_id-append id [] p = ground arith
has_id-append id (a ∷ chain) p = ground (arith, has_id-append id chain p)

fresh-append-le :
    (chain rest : List Artifact) (p : Artifact) → fresh (chain ++ (p ∷ [])) rest ≤ fresh chain rest
unfolding fresh
fresh-append-le chain [] p = omega arith
fresh-append-le chain (a ∷ rest) p =
    ground (arith, has_id-append (id_of a) chain p, fresh-append-le chain rest p)

pub fresh-append-lt :
    (id : Text) (chain artifacts : List Artifact) (p : Artifact)
    → find_id id artifacts ≡ some p
    → has_id (id_of p) chain ≡ false
    → fresh (chain ++ (p ∷ [])) artifacts < fresh chain artifacts
unfolding fresh find_id
fresh-append-lt id chain [] p e new = cc
fresh-append-lt id chain (a ∷ rest) p e new = elim (Bool-cases (text_eq (id_of a) id)) [
  | inl same ↦
      let q : a ≡ p = ground arith in
      ground (
        arith,
        has_id-append (id_of a) chain p,
        text_eq_refl (id_of p),
        fresh-append-le chain rest p,
      )
  | inr other ↦
      ground
        (arith, has_id-append (id_of a) chain p, fresh-append-lt id chain rest p (ground arith) new)
]

pub fresh-le-length : (chain artifacts : List Artifact) → fresh chain artifacts ≤ length artifacts
unfolding fresh
fresh-le-length chain [] = omega arith
fresh-le-length chain (a ∷ rest) = ground (arith, fresh-le-length chain rest)

-- A parent is an artifact of the input.
pub parent_of-find_id :
    (artifacts : List Artifact) (a p : Artifact)
    → parent_of artifacts a ≡ some p
    → (id : Text) × (find_id id artifacts ≡ some p)
unfolding parent_of
parent_of-find_id artifacts a p h = elim (Option-cases (artifact_ref a)) [
  | inl e ↦ absurd (ground arith)
  | inr (reference, e) ↦ elim (Option-cases (as_string (member "id" reference))) [
    | inl f ↦ absurd (ground arith)
    | inr (id, f) ↦ (id, ground arith)
  ]
]

-- One step of a chain: `current` refers to `parent` by its id and kind, and was issued by the principal
-- that `parent` empowers.
pub record IsLinked (rt : Runtime) (s : Setup) (current parent : Artifact) : Type 0 where
  pub found : parent_of s.input.artifacts current ≡ some parent
  pub kind : strict_eq (member "kind" parent) (reference_kind current) ≡ true
  pub request :
      is_kind "request" current ≡ true
      → is_kind "delegation" parent ≡ true
      → canonical_equal rt (member "signer" current) (member "delegate" parent) ≡ true
  pub delegation : is_kind "delegation" current ≡ true → principal_breaks rt current parent ≡ false

-- A path from `start` to `end`, and the artifacts on it in order; no id stands on it twice.
pub data IsPath (rt : Runtime) (s : Setup) (start : Artifact)
    : Artifact → List Artifact → Type 0 where
  begin : IsPath rt s start start (start ∷ [])
  extend :
      {current parent : Artifact} {chain chain' : List Artifact}
      → IsPath rt s start current chain
      → IsLinked rt s current parent
      → has_id (id_of parent) chain ≡ false
      → chain' ≡ chain ++ (parent ∷ [])
      → IsPath rt s start parent chain'

guarded₂ : (a b c : Bool) → (a && b && not c) ≡ false → a ≡ true → b ≡ true → c ≡ true
guarded₂ a b c h e f = ground arith

guarded₁ : (a b : Bool) → (a && b) ≡ false → a ≡ true → b ≡ false
guarded₁ a b h e = ground arith

missing_parent-invalid :
    (rt : Runtime) (s : Setup) (root current : Artifact) (chain : List Artifact)
    → is_valid (missing_parent rt s root current chain).code ≡ false
unfolding missing_parent
missing_parent-invalid rt s root current chain = ground arith

abbrev Extends : Runtime → Setup → Artifact → List Artifact → Artifact → Type 0
Extends rt s current chain parent =
    IsLinked rt s current parent × (has_id (id_of parent) chain ≡ false)

next_link-IsLinked :
    (rt : Runtime) (s : Setup) (root current : Artifact) (chain : List Artifact)
    → Sound (Extends rt s current chain) (next_link rt s root current chain)
unfolding next_link
next_link-IsLinked rt s root current chain =
    Sound-bind (Sound-require _ _ (missing_parent-invalid rt s root current chain)) λ parent found.
      Sound-then (Sound-stop_if _ _ refl) λ kind. Sound-then (Sound-stop_if _ _ refl) λ _.
        Sound-then (Sound-stop_if _ _ refl) λ new. Sound-then (Sound-stop_if _ _ refl) λ request.
          Sound-then (Sound-stop_if _ _ refl) λ delegation. passes (
            record {
              found = found;
              kind = not-eq-false _ kind;
              request = guarded₂ _ _ _ request;
              delegation = guarded₁ _ _ delegation;
            },
            new,
          )

-- A path from `start` that stops at an artifact without a parent.
pub record IsComplete (rt : Runtime) (s : Setup) (start : Artifact) (chain : List Artifact)
    : Type 0 where
  pub end : Artifact
  pub path : IsPath rt s start end chain
  pub stopped : is_link end ≡ false

-- With more fuel than there are artifacts outside the chain, the loop does not run out of it.
walk-IsComplete :
    (rt : Runtime) (s : Setup) (root start : Artifact) (fuel : ℕ) (current : Artifact)
    (chain : List Artifact)
    → IsPath rt s start current chain
    → fresh chain s.input.artifacts < fuel
    → Sound (IsComplete rt s start) (walk rt s root fuel current chain)
unfolding walk
walk-IsComplete rt s root start zero current chain path h = elim h [ ]
walk-IsComplete rt s root start (suc fuel) current chain path h =
    elim (Bool-cases (is_link current)) [
      | inl e ↦
          rw (e, walk)
            (Sound-bind (next_link-IsLinked rt s root current chain) λ parent (linked, new).
              let (id, found) = parent_of-find_id _ _ _ linked.found in
              let less_fresh = fresh-append-lt id chain s.input.artifacts parent found new in
              walk-IsComplete rt s root start fuel parent (chain ++ (parent ∷ []))
                (extend path linked new refl) (omega arith))
      | inr e ↦ rw (e, walk) (passes (record { end = current; path = path; stopped = e }))
    ]

fresh-start :
    (start : Artifact) (artifacts : List Artifact)
    → fresh (start ∷ []) artifacts < suc (length artifacts)
fresh-start start artifacts = omega (arith, fresh-le-length (start ∷ []) artifacts)

-- The path that the request stands at the start of, its end at the root, and its length within the
-- snapshot's bound.
pub record IsRooted (rt : Runtime) (s : Setup) (root request : Artifact) (chain : List Artifact)
    : Type 0 where
  pub complete : IsComplete rt s request chain
  pub at_root : ends_at_root rt s root chain ≡ true
  pub bounded :
      less
        (to_integer rt (member "max_chain_depth" s.input.trust_snapshot))
        (some (sub_ℕ (length chain) 2))
      ≡ false

pub find_chain-IsRooted :
    (rt : Runtime) (s : Setup) (root request : Artifact)
    → Sound (IsRooted rt s root request) (find_chain rt s root request)
unfolding find_chain
find_chain-IsRooted rt s root request =
    Sound-bind
      (walk-IsComplete rt s root request (suc (length s.input.artifacts)) request (request ∷ [])
        begin (fresh-start request s.input.artifacts))
      λ chain complete. Sound-then (Sound-stop_if _ _ refl) λ ends. passes (record {
        complete = complete;
        at_root = not-eq-false _ (||-eq-false _ _ ends).0;
        bounded = (||-eq-false _ _ ends).1;
      })
