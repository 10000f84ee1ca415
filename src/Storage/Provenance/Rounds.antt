-- ===== src/Storage/Provenance/Rounds.antt =====
-- One round of the recursive query: what it does to the queue and to what is seen.
use tesserra.Prelude.{
  ℕ, suc, ◌+◌, ◌≤◌, ◌<◌, ◌≡◌, refl, true, false, not, ◌&&◌, List, [], ◌∷◌, arith, Any, here, there,
  length, if◌then◌else◌, Bool-cases, inl, inr, ◌⊎◌, Text, text_eq, text_eq_refl,
}
use tesserra.Core.Values.{text_mem}
use tesserra.Storage.Provenance.{absorb}
use tesserra.Storage.Records.{EdgeRow}

abbrev pub Has : List EdgeRow → EdgeRow → Type 0
Has edges x = Any (λ y. y ≡ x) edges

unfoldable pub unseen : List EdgeRow → List Text → ℕ
unseen [] seen = 0
unseen (x ∷ xs) seen = if text_mem x.to_id seen then unseen xs seen else suc (unseen xs seen)

unseen-le :
    (xs : List EdgeRow) (t : Text) (seen : List Text) → unseen xs (t ∷ seen) ≤ unseen xs seen
unfolding unseen
unseen-le [] t seen = omega arith
unseen-le (x ∷ xs) t seen = ground (arith, unseen-le xs t seen)

unseen-lt :
    (xs : List EdgeRow) (x : EdgeRow) (seen : List Text)
    → Has xs x
    → text_mem x.to_id seen ≡ false
    → unseen xs (x.to_id ∷ seen) < unseen xs seen
unfolding unseen
unseen-lt [] x seen h new = elim h [ ]
unseen-lt (y ∷ xs) x seen (here same) new =
    let least = unseen-le xs x.to_id seen in
    let at : text_mem y.to_id seen ≡ false = rw same new in
    let own : text_eq x.to_id y.to_id ≡ true = rw same (text_eq_refl x.to_id) in
    rw (own, at) (omega (arith, least))
unseen-lt (y ∷ xs) x seen (there h) new = ground (arith, unseen-lt xs x seen h new)

pub unseen-length : (xs : List EdgeRow) (seen : List Text) → unseen xs seen ≤ length xs
unfolding unseen
unseen-length [] seen = omega arith
unseen-length (x ∷ xs) seen = ground (arith, unseen-length xs seen)

-- What a round does to the queue and to what is seen.
pub record Absorbed (edges : List EdgeRow) (id : Text) (xs : List EdgeRow)
    (queue seen q s : List Text) : Type 0 where
  pub grows : (a : Text) → text_mem a seen ≡ true → text_mem a s ≡ true
  pub queued : (a : Text) → text_mem a queue ≡ true → text_mem a q ≡ true
  pub new : (a : Text) → text_mem a s ≡ true → (text_mem a seen ≡ true) ⊎ (text_mem a q ≡ true)
  pub covers : (x : EdgeRow) → Has xs x → x.from_id ≡ id → text_mem x.to_id s ≡ true
  pub less : length q + unseen edges s ≤ length queue + unseen edges seen

module _ (edges : List EdgeRow) (id : Text) (xs : List EdgeRow) (queue seen q s : List Text)
    (x : EdgeRow) where
  taken :
      Absorbed edges id xs (x.to_id ∷ queue) (x.to_id ∷ seen) q s
      → Has edges x
      → text_mem x.to_id seen ≡ false
      → Absorbed edges id (x ∷ xs) queue seen q s
  taken rest edge fresh = record {
    grows = λ a h. rest.grows a (ground (arith, h));
    queued = λ a h. rest.queued a (ground (arith, h));
    new = λ a h. elim (rest.new a h) [
      | inr g ↦ inr g
      | inl g ↦ elim (Bool-cases (text_eq x.to_id a)) [
        | inl own ↦ inr (rest.queued a (rw own refl))
        | inr other ↦ inl (rw other at g)
      ]
    ];
    covers = λ y h from. elim h [
      | here same ↦ rw (← same) (rest.grows x.to_id (rw (text_eq_refl x.to_id) refl))
      | there g ↦ rest.covers y g from
    ];
    less =
        let lt = unseen-lt edges x seen edge fresh in let le = rest.less in omega (arith, lt, le);
  }

  passed :
      Absorbed edges id xs queue seen q s
      → (text_eq x.from_id id && not (text_mem x.to_id seen)) ≡ false
      → Absorbed edges id (x ∷ xs) queue seen q s
  passed rest e = record {
    grows = rest.grows;
    queued = rest.queued;
    new = rest.new;
    covers = λ y h from. elim h [
      | here same ↦
          let own : text_eq x.from_id id ≡ true = rw (same, from) (text_eq_refl id) in
          rw (← same) (rest.grows x.to_id (ground (arith, own, e)))
      | there g ↦ rest.covers y g from
    ];
    less = rest.less;
  }

pub absorb-Absorbed :
    (edges : List EdgeRow) (id : Text) (xs : List EdgeRow) (queue seen : List Text)
    → ((x : EdgeRow) → Has xs x → Has edges x)
    → Absorbed edges id xs queue seen (absorb id xs queue seen).0 (absorb id xs queue seen).1
unfolding absorb
absorb-Absorbed edges id [] queue seen within = record {
  grows = λ a h. h;
  queued = λ a h. h;
  new = λ a h. inl h;
  covers = λ x h. elim h [ ];
  less = omega arith;
}
absorb-Absorbed edges id (x ∷ xs) queue seen within =
    elim (Bool-cases (text_eq x.from_id id && not (text_mem x.to_id seen))) [
      | inl e ↦
          let rest =
            absorb-Absorbed edges id xs (x.to_id ∷ queue) (x.to_id ∷ seen)
              (λ y h. within y (there h)) in
          rw (e, absorb)
            (taken edges id xs queue seen _ _ x rest (within x (here refl)) (ground arith))
      | inr e ↦
          let rest = absorb-Absorbed edges id xs queue seen (λ y h. within y (there h)) in
          rw (e, absorb) (passed edges id xs queue seen _ _ x rest e)
    ]
