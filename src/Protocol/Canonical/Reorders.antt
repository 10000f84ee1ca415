-- ===== src/Protocol/Canonical/Reorders.antt =====
-- Canonical JSON and the order of members (packages/protocol/src/canonical.ts).
use tesserra.Prelude.{
  ◌≡◌, refl, sym, ap, ◌∙◌, true, false, not, Option, none, some, List, [], ◌∷◌, ◌++◌, map, arith,
  Text, text_eq, text_lt, text_lt_negative_trans, text_lt_asym, Bool-cases, Option-cases, inl, inr,
  insert_by,
}
use tesserra.Json.{Json, object, array, Items, nil, cons, Members, end, entry}
use tesserra.Runtime.{Runtime}
use tesserra.Protocol.Canonical.{
  Printed, key_le, sort_members, string_text, canonicalize, canonicalize_items,
  canonicalize_members, join, ◌>>=◌,
}

mutual
  -- The same value but for the order of members of objects, at any depth.
  pub data Same : Json → Json → Type 0 where
    itself : (v : Json) → Same v v
    objects : {a b : Members} → Reordered a b → Same (object a) (object b)
    arrays : {a b : Items} → SameItems a b → Same (array a) (array b)

  pub data SameItems : Items → Items → Type 0 where
    no_items : SameItems nil nil
    items :
        {v w : Json} {vs ws : Items}
        → Same v w
        → SameItems vs ws
        → SameItems (cons v vs) (cons w ws)

  -- Members in another order: neighbours with different keys may change places.
  pub data Reordered : Members → Members → Type 0 where
    no_members : Reordered end end
    kept :
        {k : Text} {v w : Json} {ms ns : Members}
        → Same v w
        → Reordered ms ns
        → Reordered (entry k v ms) (entry k w ns)
    swapped :
        {k l : Text} {v w : Json} {ms : Members}
        → text_eq k l ≡ false
        → Reordered (entry k v (entry l w ms)) (entry l w (entry k v ms))
    chained : {a b c : Members} → Reordered a b → Reordered b c → Reordered a c

text_lt_total : (a b : Text) → text_lt a b ≡ false → text_eq a b ≡ false → text_lt b a ≡ true
unfolding text_lt text_eq
text_lt_total [] [] h k = cc
text_lt_total [] (y ∷ b) h k = cc
text_lt_total (x ∷ a) [] h k = refl
text_lt_total (x ∷ a) (y ∷ b) h k = ground (arith, text_lt_total a b)

-- Of two printed members with different keys, one stands in front.
front : (a b : Printed) → text_eq a.0 b.0 ≡ false → key_le a b ≡ not (key_le b a)
front a b apart = elim (Bool-cases (text_lt a.0 b.0)) [
  | inl e ↦ rw (e, text_lt_asym a.0 b.0 e) refl
  | inr e ↦ rw (e, text_lt_total a.0 b.0 e apart) refl
]

key_le_trans : (a b c : Printed) → key_le a b ≡ true → key_le b c ≡ true → key_le a c ≡ true
key_le_trans a b c h k = ground (arith, text_lt_negative_trans a.0 b.0 c.0)

insert-insert :
    (a b : Printed) (xs : List Printed)
    → text_eq a.0 b.0 ≡ false
    → insert_by key_le a (insert_by key_le b xs) ≡ insert_by key_le b (insert_by key_le a xs)
insert-insert a b [] apart = ground (arith, front a b apart)
insert-insert a b (y ∷ ys) apart =
    let one = front a b apart in
    let left = key_le_trans a b y in
    let right = key_le_trans b a y in let later = insert-insert a b ys apart in ground arith

-- A member printed in front of sorted ones.
abbrev placed : Text → Option Text → Option Text → Option (List Printed) → Option (List Printed)
placed k none part rest = none
placed k (some name) none rest = none
placed k (some name) (some part) none = none
placed k (some name) (some part) (some ps) = some (insert_by key_le (k, name ++ (b':' ∷ part)) ps)

placed-none : (k : Text) (name part : Option Text) → placed k name part none ≡ none
placed-none k none part = refl
placed-none k (some name) none = refl
placed-none k (some name) (some part) = refl

placed-placed :
    (k l : Text) (n p m q : Option Text) (rest : Option (List Printed))
    → text_eq k l ≡ false
    → placed k n p (placed l m q rest) ≡ placed l m q (placed k n p rest)
placed-placed k l none p m q rest h = sym (placed-none l m q)
placed-placed k l (some n) none m q rest h = sym (placed-none l m q)
placed-placed k l (some n) (some p) none q rest h = refl
placed-placed k l (some n) (some p) (some m) none rest h = refl
placed-placed k l (some n) (some p) (some m) (some q) none h = refl
placed-placed k l (some n) (some p) (some m) (some q) (some ps) h =
    ap some (insert-insert (k, n ++ (b':' ∷ p)) (l, m ++ (b':' ∷ q)) ps h)

module _ (rt : Runtime) where
  sorted : Members → Option (List Printed)
  sorted ms = canonicalize_members rt ms >>= λ ps. some (sort_members ps)

  sorted-entry :
      (k : Text) (v : Json) (ms : Members)
      → sorted (entry k v ms) ≡ placed k (string_text k) (canonicalize rt v) (sorted ms)
  unfolding sorted canonicalize_members sort_members
  sorted-entry k v ms = elim (Option-cases (string_text k)) [
    | inl e ↦ rw (e, canonicalize_members) refl
    | inr (name, e) ↦ elim (Option-cases (canonicalize rt v)) [
      | inl f ↦ rw (e, f, canonicalize_members) refl
      | inr (part, f) ↦ elim (Option-cases (canonicalize_members rt ms)) [
        | inl g ↦ rw (e, f, g, canonicalize_members) refl
        | inr (ps, g) ↦ rw (e, f, g, canonicalize_members) refl
      ]
    ]
  ]

  printed : Option (List Printed) → Option Text
  printed none = none
  printed (some ps) = some (b'{' ∷ (join (map (λ p. p.1) ps) ++ (b'}' ∷ [])))

  canonicalize-object : (ms : Members) → canonicalize rt (object ms) ≡ printed (sorted ms)
  unfolding sorted canonicalize printed
  canonicalize-object ms = elim (Option-cases (canonicalize_members rt ms)) [
    | inl e ↦ rw (e, canonicalize) refl
    | inr (ps, e) ↦ rw (e, canonicalize) refl
  ]

  canonicalize-array :
      (a b : Items)
      → canonicalize_items rt a ≡ canonicalize_items rt b
      → canonicalize rt (array a) ≡ canonicalize rt (array b)
  unfolding canonicalize
  canonicalize-array a b h = rw (canonicalize, h) refl

  items-cons :
      (v w : Json) (vs ws : Items)
      → canonicalize rt v ≡ canonicalize rt w
      → canonicalize_items rt vs ≡ canonicalize_items rt ws
      → canonicalize_items rt (cons v vs) ≡ canonicalize_items rt (cons w ws)
  unfolding canonicalize_items
  items-cons v w vs ws h k = rw (canonicalize_items, h, k) refl

  mutual
    value-Same : {v w : Json} → Same v w → canonicalize rt v ≡ canonicalize rt w
    value-Same (itself v) = refl
    value-Same (objects {a} {b} r) =
        canonicalize-object a ∙ (ap printed (sorted-Reordered r) ∙ sym (canonicalize-object b))
    value-Same (arrays {a} {b} r) = canonicalize-array a b (items-SameItems r)

    items-SameItems :
        {a b : Items} → SameItems a b → canonicalize_items rt a ≡ canonicalize_items rt b
    items-SameItems no_items = refl
    items-SameItems (items {v} {w} {vs} {ws} s r) =
        items-cons v w vs ws (value-Same s) (items-SameItems r)

    sorted-Reordered : {a b : Members} → Reordered a b → sorted a ≡ sorted b
    sorted-Reordered no_members = refl
    sorted-Reordered (kept {k} {v} {w} {ms} {ns} s r) =
        sorted-entry k v ms
        ∙ (rw (value-Same s, sorted-Reordered r) refl ∙ sym (sorted-entry k w ns))
    sorted-Reordered (swapped {k} {l} {v} {w} {ms} h) =
        sorted-entry k v (entry l w ms)
        ∙ (ap (placed k (string_text k) (canonicalize rt v)) (sorted-entry l w ms)
            ∙ (placed-placed k l _ _ _ _ (sorted ms) h
                ∙ (ap (placed l (string_text l) (canonicalize rt w)) (sym (sorted-entry k v ms))
                    ∙ sym (sorted-entry l w (entry k v ms)))))
    sorted-Reordered (chained r t) = sorted-Reordered r ∙ sorted-Reordered t

-- Values that differ in the order of the members of objects only, at any depth and among different keys,
-- have one canonical text, or both have none.
pub canonicalize-Same :
    (rt : Runtime) (v w : Json) → Same v w → canonicalize rt v ≡ canonicalize rt w
canonicalize-Same rt v w s = value-Same rt s
