-- ===== src/Core/Delegation/Climbs.antt =====
-- The climb of verifyDelegationChain from the leaf to the root: it ends within its fuel, and what it
-- finds is a chain of delegations.
use tesserra.Prelude.{
  ℕ, zero, suc, ◌≤◌, ◌<◌, ◌≡◌, refl, Bool, true, false, not, ◌||◌, some, List, [], ◌∷◌, arith, Text,
  text_eq, text_eq_refl, not-eq-false, length, Option-cases, Bool-cases, inl, inr,
}
use tesserra.Prelude.Int.{pos}
use tesserra.Json.{Artifact, member, as_string, strict_eq}
use tesserra.Runtime.{Runtime}
use tesserra.Protocol.Canonical.{canonical_equal}
use tesserra.Protocol.Coerce.{to_integer}
use tesserra.Core.Run.Sound.{
  Sound, passes, Sound-bind, Sound-map, Sound-then, Sound-stop_if, Sound-require,
}
use tesserra.Core.Values.{is_kind, id_of, find_id, less}
use tesserra.Core.Verify.Crypto.{has_id}
use tesserra.Core.Verify.Walk.{fresh, fresh-le-length}
use tesserra.Core.Delegation.Input.{DelegationSetup, linked_artifacts}
use tesserra.Core.Delegation.Chain.{reference_member, parent_in, leaves, only, climb, find_chain}

fresh-cons-le :
    (chain rest : List Artifact) (p : Artifact) → fresh (p ∷ chain) rest ≤ fresh chain rest
unfolding fresh
fresh-cons-le chain [] p = omega arith
fresh-cons-le chain (a ∷ rest) p = ground (arith, fresh-cons-le chain rest p)

fresh-cons-lt :
    (id : Text) (chain artifacts : List Artifact) (p : Artifact)
    → find_id id artifacts ≡ some p
    → has_id (id_of p) chain ≡ false
    → fresh (p ∷ chain) artifacts < fresh chain artifacts
unfolding fresh find_id
fresh-cons-lt id chain [] p e new = cc
fresh-cons-lt id chain (a ∷ rest) p e new = elim (Bool-cases (text_eq (id_of a) id)) [
  | inl same ↦
      let q : a ≡ p = ground arith in
      ground (arith, text_eq_refl (id_of p), fresh-cons-le chain rest p)
  | inr other ↦ ground (arith, fresh-cons-lt id chain rest p (ground arith) new)
]

-- A parent is the root credential or a delegation of the input.
parent_in-find_id :
    (artifacts : List Artifact) (a p : Artifact)
    → parent_in artifacts a ≡ some p
    → (id : Text) × (find_id id artifacts ≡ some p)
unfolding parent_in
parent_in-find_id artifacts a p h = elim (Option-cases (as_string (reference_member "id" a))) [
  | inl e ↦ absurd (ground arith)
  | inr (id, e) ↦ (id, ground arith)
]

-- The parent that an artifact refers to, by its id and kind.
pub record IsReferred (s : DelegationSetup) (a parent : Artifact) : Type 0 where
  pub found : parent_in (linked_artifacts s.input) a ≡ some parent
  pub kind : strict_eq (member "kind" parent) (reference_member "kind" a) ≡ true

-- A chain of delegations, the farthest from the leaf first: each was issued by the delegate of the one
-- that it refers to, and no id stands in it twice.
pub data IsAscent (rt : Runtime) (s : DelegationSetup) (leaf : Artifact)
    : List Artifact → Type 0 where
  begin : IsAscent rt s leaf (leaf ∷ [])
  climbed :
      {current parent : Artifact} {below : List Artifact}
      → IsAscent rt s leaf (current ∷ below)
      → IsReferred s current parent
      → is_kind "delegation" parent ≡ true
      → canonical_equal rt (member "delegator" current) (member "delegate" parent) ≡ true
      → has_id (id_of parent) (current ∷ below) ≡ false
      → IsAscent rt s leaf (parent ∷ current ∷ below)

-- The first delegation of a chain refers to the root credential and was issued by its subject.
pub record IsGrounded (rt : Runtime) (s : DelegationSetup) (leaf : Artifact) (chain : List Artifact)
    : Type 0 where
  pub top : Artifact
  pub below : List Artifact
  pub same : chain ≡ top ∷ below
  pub ascent : IsAscent rt s leaf (top ∷ below)
  pub parent : Artifact
  pub referred : IsReferred s top parent
  pub at_root : text_eq (id_of parent) (id_of s.input.root_credential) ≡ true
  pub empowered : canonical_equal rt (member "delegator" top) (member "subject" parent) ≡ true

both : (a b : Bool) → (not a || not b) ≡ false → (a ≡ true) × (b ≡ true)
both a b h = ground arith

-- With more fuel than there are artifacts outside the chain, the loop does not run out of it.
climb-IsGrounded :
    (rt : Runtime) (s : DelegationSetup) (leaf : Artifact) (fuel : ℕ) (current : Artifact)
    (below : List Artifact)
    → IsAscent rt s leaf (current ∷ below)
    → fresh (current ∷ below) (linked_artifacts s.input) < fuel
    → Sound (IsGrounded rt s leaf) (climb rt s fuel current below)
unfolding climb
climb-IsGrounded rt s leaf zero current below ascent h = elim h [ ]
climb-IsGrounded rt s leaf (suc fuel) current below ascent h =
    Sound-bind (Sound-require _ _ refl) λ parent found. Sound-then (Sound-stop_if _ _ refl) λ kind.
      let referred : IsReferred s current parent = record {
        found = found;
        kind = not-eq-false _ kind;
      } in
      elim (Bool-cases (text_eq (id_of parent) (id_of s.input.root_credential))) [
        | inl e ↦ rw e (
            Sound-then (Sound-stop_if _ _ refl) λ empowered. passes (record {
              top = current;
              below = below;
              same = refl;
              ascent = ascent;
              parent = parent;
              referred = referred;
              at_root = e;
              empowered = not-eq-false _ empowered;
            }))
        | inr e ↦ rw e (
            Sound-then
              (Sound-then (Sound-stop_if _ _ refl)
                λ issued. Sound-map (λ _ new. (issued, new)) (Sound-stop_if _ _ refl))
              λ (issued, new).
                let (id, listed) = parent_in-find_id _ _ _ found in
                let less_fresh =
                  fresh-cons-lt id (current ∷ below) (linked_artifacts s.input) parent listed new in
                climb-IsGrounded rt s leaf fuel parent (current ∷ below)
                  (climbed ascent referred (both _ _ issued).0 (both _ _ issued).1 new)
                  (omega arith))
      ]

-- The one leaf of the delegations, the chain from it to the root, and the bound on its length.
pub record IsResolved (rt : Runtime) (s : DelegationSetup) (chain : List Artifact) : Type 0 where
  pub leaf : Artifact
  pub only_leaf : only (leaves s.input.delegations) ≡ some leaf
  pub grounded : IsGrounded rt s leaf chain
  pub bounded :
      less
        (to_integer rt (member "max_chain_depth" s.input.trust_snapshot))
        (some (pos (length chain)))
      ≡ false

pub find_chain-IsResolved :
    (rt : Runtime) (s : DelegationSetup) → Sound (IsResolved rt s) (find_chain rt s)
unfolding find_chain
find_chain-IsResolved rt s = Sound-bind (Sound-require _ _ refl) λ leaf only_leaf.
    Sound-bind
      (climb-IsGrounded rt s leaf (suc (length (linked_artifacts s.input))) leaf [] begin
        (let h = fresh-le-length (leaf ∷ []) (linked_artifacts s.input) in omega arith))
      λ chain grounded. Sound-then (Sound-stop_if _ _ refl) λ bounded.
        passes
          (record { leaf = leaf; only_leaf = only_leaf; grounded = grounded; bounded = bounded })
