-- ===== src/Storage/Provenance/Reaches.antt =====
-- The recursive query finds the ids that edges lead to, and all of them.
use tesserra.Prelude.{
  ℕ, zero, suc, ◌+◌, ◌<◌, ◌≡◌, ◌↔◌, refl, sym, ◌∙◌, true, not, ◌&&◌, List, [], ◌∷◌, arith, here,
  there, length, Bool-cases, inl, inr, ◌⊎◌, Text, text_eq, text_eq_sound, text_eq_refl,
}
use tesserra.Core.Values.{text_mem}
use tesserra.Storage.Provenance.{absorb, closure, reachable}
use tesserra.Storage.Records.{EdgeRow}
use tesserra.Storage.Provenance.Rounds.{Has, unseen, unseen-length, absorb-Absorbed}

-- Along edges from the first id to the second.
pub data Reaches (edges : List EdgeRow) (root : Text) : Text → Type 0 where
  self : Reaches edges root root
  along :
      {id : Text} (x : EdgeRow)
      → Reaches edges root id
      → Has edges x
      → x.from_id ≡ id
      → Reaches edges root x.to_id

-- What is seen is reached, as long as the id that is taken out is.
absorb-Reaches :
    (edges : List EdgeRow) (root id : Text) (xs : List EdgeRow) (queue seen : List Text)
    → ((x : EdgeRow) → Has xs x → Has edges x)
    → Reaches edges root id
    → ((a : Text) → text_mem a seen ≡ true → Reaches edges root a)
    → (a : Text) → text_mem a (absorb id xs queue seen).1 ≡ true
    → Reaches edges root a
unfolding absorb
absorb-Reaches edges root id [] queue seen within at all a h = all a h
absorb-Reaches edges root id (x ∷ xs) queue seen within at all a h =
    elim (Bool-cases (text_eq x.from_id id && not (text_mem x.to_id seen))) [
      | inr e ↦
          absorb-Reaches edges root id xs queue seen (λ y g. within y (there g)) at all a
            (rw (e, absorb) at h)
      | inl e ↦
          let from : x.from_id ≡ id = text_eq_sound x.from_id id (ground arith) in
          let next : Reaches edges root x.to_id = along x at (within x (here refl)) from in
          absorb-Reaches edges root id xs (x.to_id ∷ queue) (x.to_id ∷ seen)
            (λ y g. within y (there g)) at
            (λ b g. elim (Bool-cases (text_eq x.to_id b)) [
              | inl own ↦ rw (← text_eq_sound x.to_id b own) next
              | inr other ↦ all b (rw other at g)
            ])
            a (rw (e, absorb) at h)
    ]

-- Queued ids are seen, and the edges out of the others have been followed.
record Explored (edges : List EdgeRow) (queue seen : List Text) : Type 0 where
  inside : (a : Text) → text_mem a queue ≡ true → text_mem a seen ≡ true
  followed :
      (a : Text)
      → text_mem a seen ≡ true
      → (text_mem a queue ≡ true)
        ⊎ ((x : EdgeRow) → Has edges x → x.from_id ≡ a → text_mem x.to_id seen ≡ true)

absorb-inside :
    (id : Text) (xs : List EdgeRow) (queue seen : List Text)
    → ((a : Text) → text_mem a queue ≡ true → text_mem a seen ≡ true)
    → (a : Text) → text_mem a (absorb id xs queue seen).0 ≡ true
    → text_mem a (absorb id xs queue seen).1 ≡ true
unfolding absorb
absorb-inside id [] queue seen inside a h = inside a h
absorb-inside id (x ∷ xs) queue seen inside a h =
    elim (Bool-cases (text_eq x.from_id id && not (text_mem x.to_id seen))) [
      | inr e ↦ rw (e, absorb) (absorb-inside id xs queue seen inside a (rw (e, absorb) at h))
      | inl e ↦
          rw (e, absorb)
            (absorb-inside id xs (x.to_id ∷ queue) (x.to_id ∷ seen)
              (λ b g. elim (Bool-cases (text_eq x.to_id b)) [
                | inl own ↦ rw own refl
                | inr other ↦ rw other (inside b (rw other at g))
              ])
              a (rw (e, absorb) at h))
    ]

absorb-Explored :
    (edges : List EdgeRow) (id : Text) (queue seen : List Text)
    → Explored edges (id ∷ queue) seen
    → Explored edges (absorb id edges queue seen).0 (absorb id edges queue seen).1
absorb-Explored edges id queue seen h =
    let round = absorb-Absorbed edges id edges queue seen (λ x g. g) in
    record {
      inside = absorb-inside id edges queue seen (λ a g. h.inside a (ground (arith, g)));
      followed = λ a g. elim (round.new a g) [
        | inr q ↦ inl q
        | inl old ↦ elim (h.followed a old) [
          | inr done ↦ inr (λ x edge from. round.grows x.to_id (done x edge from))
          | inl waits ↦ elim (Bool-cases (text_eq id a)) [
            | inl own ↦
                inr (λ x edge from. round.covers x edge (from ∙ sym (text_eq_sound id a own)))
            | inr other ↦ inl (round.queued a (rw other at waits))
          ]
        ]
      ];
    }

-- The search ends with a set that holds the first ids and is closed under the edges.
record IsClosed (edges : List EdgeRow) (seen out : List Text) : Type 0 where
  holds : (a : Text) → text_mem a seen ≡ true → text_mem a out ≡ true
  closed : (x : EdgeRow) → Has edges x → text_mem x.from_id out ≡ true → text_mem x.to_id out ≡ true

closure-IsClosed :
    (fuel : ℕ) (edges : List EdgeRow) (queue seen : List Text)
    → Explored edges queue seen
    → length queue + unseen edges seen < fuel
    → IsClosed edges seen (closure fuel edges queue seen)
unfolding closure
closure-IsClosed zero edges queue seen h less = elim less [ ]
closure-IsClosed (suc fuel) edges [] seen h less = record {
  holds = λ a g. g;
  closed = λ x edge from. elim (h.followed x.from_id from) [
    | inl waits ↦ cc waits
    | inr done ↦ done x edge refl
  ];
}
closure-IsClosed (suc fuel) edges (id ∷ queue) seen h less =
    let round = absorb-Absorbed edges id edges queue seen (λ x g. g) in
    let drop = round.less in
    let rest =
      closure-IsClosed fuel edges (absorb id edges queue seen).0 (absorb id edges queue seen).1
        (absorb-Explored edges id queue seen h) (omega (arith, drop, less)) in
    record { holds = λ a g. rest.holds a (round.grows a g); closed = rest.closed }

closure-Reaches :
    (fuel : ℕ) (edges : List EdgeRow) (root : Text) (queue seen : List Text)
    → ((a : Text) → text_mem a queue ≡ true → text_mem a seen ≡ true)
    → ((a : Text) → text_mem a seen ≡ true → Reaches edges root a)
    → (a : Text) → text_mem a (closure fuel edges queue seen) ≡ true
    → Reaches edges root a
unfolding closure
closure-Reaches zero edges root queue seen inside all a h = all a h
closure-Reaches (suc fuel) edges root [] seen inside all a h = all a h
closure-Reaches (suc fuel) edges root (id ∷ queue) seen inside all a h =
    closure-Reaches fuel edges root (absorb id edges queue seen).0 (absorb id edges queue seen).1
      (absorb-inside id edges queue seen (λ b g. inside b (ground (arith, g))))
      (absorb-Reaches edges root id edges queue seen (λ x g. g)
        (all id (inside id (rw (text_eq_refl id) refl))) all)
      a h

closed-Reaches :
    (edges : List EdgeRow) (root : Text) (seen out : List Text)
    → IsClosed edges seen out
    → text_mem root seen ≡ true
    → (a : Text) → Reaches edges root a
    → text_mem a out ≡ true
closed-Reaches edges root seen out c at _ self = c.holds root at
closed-Reaches edges root seen out c at _ (along x path edge from) =
    c.closed x edge (rw from (closed-Reaches edges root seen out c at _ path))

-- The ids that the recursive query gives are exactly those to which edges lead from the root, the root
-- among them.
pub reachable_iff :
    (edges : List EdgeRow) (root id : Text)
    → (text_mem id (reachable edges root) ≡ true) ↔ Reaches edges root id
unfolding reachable
reachable_iff edges root id =
    let start : text_mem root (root ∷ []) ≡ true = rw (text_eq_refl root) refl in
    let whole =
      closure-IsClosed (suc (suc (length edges))) edges (root ∷ []) (root ∷ [])
        (record { inside = λ a g. g; followed = λ a g. inl g })
        (omega (arith, unseen-length edges (root ∷ []))) in
    (
      closure-Reaches (suc (suc (length edges))) edges root (root ∷ []) (root ∷ []) (λ a g. g)
          (λ a g. elim (Bool-cases (text_eq root a)) [
            | inl own ↦ rw (← text_eq_sound root a own) self
            | inr other ↦ (let f = rw other at g in cc f)
          ])
          id,
      closed-Reaches edges root (root ∷ []) _ whole start id,
    )
