-- ===== src/Core/Verify/Authority.antt =====
-- Attenuation along a chain: what the nearest delegation grants, every authority above it grants.
use tesserra.Prelude.{
  ◌≡◌, Bool, true, false, not, ◌||◌, Option, some, List, [], ◌∷◌, All, Any, here, there, arith,
  Text, String, text_eq_sound, text_eq_refl, not-eq-false, Option-cases, inl, inr, ||-eq-false,
  some_of, some_of-eq-true, some_of-eq-false, All-Any, Any-map_imp,
}
use tesserra.Json.{Json, Members, Artifact, member}
use tesserra.Runtime.{Runtime}
use tesserra.Protocol.Canonical.{canonicalize, canonical_equal}
use tesserra.Core.Values.{array_or_empty, constraints, contains, local_member, at, less, at_most}
use tesserra.Protocol.Coerce.{to_integer}
use tesserra.Core.Verify.Chain.{limited_fields, exceeds, outlasts, amplifies, some_amplifies}

-- Two values are canonically equal when they have the same canonical text.
pub SameText : Runtime → Json → Json → Type 0
SameText rt a b = (t : Text) × (canonicalize rt a ≡ some t) × (canonicalize rt b ≡ some t)

canonical_equal-SameText :
    (rt : Runtime) (a b : Json) → canonical_equal rt (some a) (some b) ≡ true → SameText rt a b
unfolding canonical_equal SameText
canonical_equal-SameText rt a b h = elim (Option-cases (canonicalize rt a)) [
  | inl e ↦ absurd (ground arith)
  | inr (s, e) ↦ elim (Option-cases (canonicalize rt b)) [
    | inl f ↦ absurd (ground arith)
    | inr (t, f) ↦ let same : s ≡ t = ground (arith, text_eq_sound s t) in (s, e, rw same f)
  ]
]

SameText-canonical_equal :
    (rt : Runtime) (a b : Json) → SameText rt a b → canonical_equal rt (some a) (some b) ≡ true
unfolding canonical_equal SameText
SameText-canonical_equal rt a b (t, e, f) = ground (arith, text_eq_refl t)

-- Canonical equality of two values carries over a third: where a equals b and b equals c, a equals c.
pub canonical_equal_trans :
    (rt : Runtime) (a b c : Json)
    → canonical_equal rt (some a) (some b) ≡ true
    → canonical_equal rt (some b) (some c) ≡ true
    → canonical_equal rt (some a) (some c) ≡ true
unfolding SameText
canonical_equal_trans rt a b c h k =
    let (s, ea, eb) = canonical_equal-SameText rt a b h in
    let (t, fb, fc) = canonical_equal-SameText rt b c k in
    let same : s ≡ t = cc in SameText-canonical_equal rt a c (s, ea, rw same fc)

Any-some_of :
    {A : Type 0} (test : A → Bool) {xs : List A}
    → Any (λ x. test x ≡ true) xs
    → some_of test xs ≡ true
Any-some_of test (here e) = rw e
Any-some_of test (there a) = ground (arith, Any-some_of test a)

-- contains, as the entry that it finds
contains-Any :
    (rt : Runtime) (o : Option Json) (v : Json)
    → contains rt o (some v) ≡ true
    → Any (λ u. canonical_equal rt (some u) (some v) ≡ true) (array_or_empty o)
unfolding contains
contains-Any rt o v h =
    some_of-eq-true (λ u. canonical_equal rt (some u) (some v)) (array_or_empty o) h

Any-contains :
    (rt : Runtime) (o : Option Json) (v : Json)
    → Any (λ u. canonical_equal rt (some u) (some v) ≡ true) (array_or_empty o)
    → contains rt o (some v) ≡ true
unfolding contains
Any-contains rt o v a = Any-some_of (λ u. canonical_equal rt (some u) (some v)) a

-- A list that contains a value contains every value that is canonically equal to it.
pub contains_trans :
    (rt : Runtime) (o : Option Json) (v w : Json)
    → canonical_equal rt (some v) (some w) ≡ true
    → contains rt o (some v) ≡ true
    → contains rt o (some w) ≡ true
contains_trans rt o v w e h =
    Any-contains rt o w
      (Any-map_imp (λ u p. canonical_equal_trans rt u v w p e) (contains-Any rt o v h))

-- A field that does not exceed the parent's has every value in the parent's.
contains-parent :
    (rt : Runtime) (child parent : Members) (field : String) (v : Json)
    → exceeds rt child parent field ≡ false
    → contains rt (member field child) (some v) ≡ true
    → contains rt (member field parent) (some v) ≡ true
contains-parent rt child parent field v h k =
    let kept =
      some_of-eq-false (λ u. not (contains rt (member field parent) (some u)))
        (array_or_empty (member field child)) h in
    let (u, inside, same) = All-Any kept (contains-Any rt (member field child) v k) in
    contains_trans rt (member field parent) u v same (not-eq-false _ inside)

-- The constraints of an artifact grant a value under a field.
abbrev pub Grants : Runtime → String → Json → Artifact → Type 0
Grants rt field v a = contains rt (local_member field a) (some v) ≡ true

-- A child with constraints that its parent's do not stop: neither outlasts nor exceeds them.
pub record IsNarrower (rt : Runtime) (child parent : Artifact) : Type 0 where
  pub own : Members
  pub given : Members
  pub child_constraints : constraints child ≡ some own
  pub parent_constraints : constraints parent ≡ some given
  pub depth_falls :
      at_most
        (to_integer rt (member "remaining_depth" given))
        (to_integer rt (member "remaining_depth" own))
      ≡ false
  pub starts_no_earlier :
      less (at rt (member "not_before" own)) (at rt (member "not_before" given)) ≡ false
  pub ends_no_later :
      less (at rt (member "expires_at" given)) (at rt (member "expires_at" own)) ≡ false
  pub lists : All (λ field. exceeds rt own given field ≡ false) limited_fields

disjuncts :
    (a b c d : Bool)
    → (a || b || c || d) ≡ false
    → (a ≡ false) × (b ≡ false) × (c ≡ false) × (d ≡ false)
disjuncts a b c d h = ground arith

narrower :
    (rt : Runtime) (child parent : Artifact) (own given : Members)
    → constraints child ≡ some own
    → constraints parent ≡ some given
    → (outlasts rt own given || some_of (exceeds rt own given) limited_fields) ≡ false
    → IsNarrower rt child parent
narrower rt child parent own given e f k =
    let (depth, start, finish, lists) = disjuncts _ _ _ _ k in
    record {
      own = own;
      given = given;
      child_constraints = e;
      parent_constraints = f;
      depth_falls = depth;
      starts_no_earlier = start;
      ends_no_later = finish;
      lists = some_of-eq-false (exceeds rt own given) limited_fields lists;
    }

pub amplifies-IsNarrower :
    (rt : Runtime) (child parent : Artifact)
    → amplifies rt child parent ≡ false
    → IsNarrower rt child parent
unfolding amplifies
amplifies-IsNarrower rt child parent h = elim (Option-cases (constraints child)) [
  | inl e ↦ absurd (ground arith)
  | inr (own, e) ↦ elim (Option-cases (constraints parent)) [
    | inl f ↦ absurd (ground arith)
    | inr (given, f) ↦ narrower rt child parent own given e f (rw (e, f, amplifies) at h)
  ]
]

abbrev pub IsLimited : String → Type 0
IsLimited field = Any (λ f. f ≡ field) limited_fields

pub local-member :
    (field : String) (a : Artifact) (ms : Members)
    → constraints a ≡ some ms
    → local_member field a ≡ member field ms
local-member field a ms e = rw (e, local_member)

pub Grants-parent :
    (rt : Runtime) (field : String) (v : Json) (child parent : Artifact)
    → IsLimited field
    → IsNarrower rt child parent
    → Grants rt field v child
    → Grants rt field v parent
Grants-parent rt field v child parent limited n g =
    let (f, kept, same) = All-Any {P = λ x. exceeds rt n.own n.given x ≡ false} n.lists limited in
    rw (local-member field parent n.given n.parent_constraints) (
      contains-parent rt n.own n.given field v (rw same at kept)
        (rw (local-member field child n.own n.child_constraints) at g))

-- No pair of a chain amplifies authority.
pub IsAttenuated : Runtime → List Artifact → Type 0
IsAttenuated rt [] = Unit
IsAttenuated rt (child ∷ []) = Unit
IsAttenuated rt (child ∷ parent ∷ rest) =
    IsNarrower rt child parent × IsAttenuated rt (parent ∷ rest)

pub some_amplifies-IsAttenuated :
    (rt : Runtime) (chain : List Artifact) → some_amplifies rt chain ≡ false → IsAttenuated rt chain
unfolding some_amplifies IsAttenuated
some_amplifies-IsAttenuated rt [] h = tt
some_amplifies-IsAttenuated rt (child ∷ []) h = tt
some_amplifies-IsAttenuated rt (child ∷ parent ∷ rest) h =
    let (pair, later) = ||-eq-false _ _ h in
    (
      amplifies-IsNarrower rt child parent pair,
      some_amplifies-IsAttenuated rt (parent ∷ rest) later,
    )

-- What the first authority of an attenuated chain grants, all of them grant.
pub Grants-all :
    (rt : Runtime) (field : String) (v : Json) (first : Artifact) (rest : List Artifact)
    → IsLimited field
    → IsAttenuated rt (first ∷ rest)
    → Grants rt field v first
    → All (Grants rt field v) (first ∷ rest)
unfolding IsAttenuated
Grants-all rt field v first [] limited h g = (g, tt)
Grants-all rt field v first (next ∷ rest) limited (n, h) g =
    (g, Grants-all rt field v next rest limited h (Grants-parent rt field v first next limited n g))
