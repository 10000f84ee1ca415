-- ===== src/Storage/Steps/Tables.antt =====
-- What becomes of the rows of one table under one step.
use tesserra.Prelude.{
  ◌≡◌, refl, ◌∙◌, Bool, true, false, Option, none, some, List, ◌∷◌, arith, some_of, find,
  Bool-cases, inl, inr, ◌⊎◌, Text, text_eq, text_eq_sound, text_eq_refl, &&-eq-true,
}
use tesserra.Prelude.Int.{ℤ, pos, ◌+ℤ◌, ◌<ℤ◌, +ℤ_parts}
use tesserra.Storage.Credentials.{has_key, idempotency_of, remember}
use tesserra.Storage.Engine.{Engine}
use tesserra.Storage.Keys.{has_key_id, key_row, replaced_key}
use tesserra.Storage.Records.{
  KeyRow, KeyRecord, StatusPublisherHighWater, IdentityCredentialRecord, RevocationRow, Store,
}
use tesserra.Storage.Rows.{update, find-update, find-update_other, find-insert}
use tesserra.Storage.Trust.{is_mark_of, replace_mark}

-- The row under a key is still there.
abbrev pub Kept : {A : Type 0} → (Text → A → Bool) → List A → List A → Type 0
Kept {A} has xs ys =
    (id : Text) (row : A) → find (has id) xs ≡ some row → find (has id) ys ≡ some row

-- What some row met is still met by some row.
abbrev pub Met : List RevocationRow → List RevocationRow → Type 0
Met xs ys = (test : RevocationRow → Bool) → some_of test xs ≡ true → some_of test ys ≡ true

-- The same agent and public key, and a later version where the row has changed.
abbrev pub Follows : KeyRow → KeyRow → Type 0
Follows row next =
    (next.agent_id ≡ row.agent_id)
    × (next.public_jwk_json ≡ row.public_jwk_json)
    × ((next ≡ row) ⊎ (row.history_sequence <ℤ next.history_sequence))

abbrev pub Versioned : List KeyRow → List KeyRow → Type 0
Versioned xs ys =
    (id : Text) (row : KeyRow)
    → find (has_key_id id) xs ≡ some row
    → (next : KeyRow) × (find (has_key_id id) ys ≡ some next) × Follows row next

-- The same mark, or one further on.
abbrev pub Advanced : List StatusPublisherHighWater → List StatusPublisherHighWater → Type 0
Advanced xs ys =
    (snapshot_id publisher_id target_key_id : Text) (mark : StatusPublisherHighWater)
    → find (is_mark_of snapshot_id publisher_id target_key_id) xs ≡ some mark
    → (next : StatusPublisherHighWater) × (find (is_mark_of snapshot_id publisher_id target_key_id)
          ys
        ≡ some next)
      × ((next ≡ mark) ⊎ (mark.sequence <ℤ next.sequence))

pub kept : {A : Type 0} (has : Text → A → Bool) (xs : List A) → Kept has xs xs
kept has xs id row h = h

pub met : (xs : List RevocationRow) → Met xs xs
met xs test h = h

pub versioned : (xs : List KeyRow) → Versioned xs xs
versioned xs id row h = (row, h, (refl, refl, inl refl))

pub advanced : (xs : List StatusPublisherHighWater) → Advanced xs xs
advanced xs a b c mark h = (mark, h, inl refl)

pub add-Versioned :
    (e : Engine) (key : KeyRecord) (xs : List KeyRow)
    → find (has_key_id key.id) xs ≡ none
    → Versioned xs (key_row e key ∷ xs)
add-Versioned e key xs absent id row h =
    (row, find-insert (λ r. r.id) (key_row e key) xs id row absent h, (refl, refl, inl refl))

pub change-Versioned :
    (e : Engine) (key : KeyRecord) (old : KeyRow) (xs : List KeyRow)
    → find (has_key_id key.id) xs ≡ some old
    → old.history_sequence <ℤ key.history_sequence
    → Versioned xs (update (has_key_id key.id) (replaced_key e key) xs)
change-Versioned e key old xs found less id row h = elim (Bool-cases (text_eq key.id id)) [
  | inl e1 ↦
      let same = text_eq_sound key.id id e1 in
      let g = rw (← same) at h in
      let it : old ≡ row = cc (found, g) in
      (
        replaced_key e key row,
        rw (← same)
            (find-update (has_key_id key.id) (replaced_key e key) xs row g (text_eq_refl key.id)),
        (refl, refl, inr (rw it at less)),
      )
  | inr e1 ↦ (
    row,
    find-update_other (has_key_id id) (has_key_id key.id) (replaced_key e key)
          (λ y t. (rw (text_eq_sound y.id key.id t) e1, e1)) xs
        ∙ h,
    (refl, refl, inl refl),
  )
]

pub next_less : (a b : ℤ) → b ≡ a +ℤ pos 1 → a <ℤ b
next_less a b h = rw h (omega (arith, +ℤ_parts a (pos 1)))

-- One key of a mark is another's, or no row has both.
mark_apart :
    (value : StatusPublisherHighWater) (a b c : Text)
    → is_mark_of a b c value ≡ false
    → (y : StatusPublisherHighWater)
    → is_mark_of value.snapshot_id value.publisher_id value.target_key_id y ≡ true
    → (is_mark_of a b c y ≡ false) × (is_mark_of a b c value ≡ false)
mark_apart value a b c apart y h =
    let (both, third) = &&-eq-true _ _ h in
    let (first, second) = &&-eq-true _ _ both in
    (
      rw
          (
            text_eq_sound y.snapshot_id value.snapshot_id first,
            text_eq_sound y.publisher_id value.publisher_id second,
            text_eq_sound y.target_key_id value.target_key_id third,
          )
          apart,
      apart,
    )

mark_own :
    (value : StatusPublisherHighWater)
    → is_mark_of value.snapshot_id value.publisher_id value.target_key_id value ≡ true
mark_own value =
    rw
      (
        text_eq_refl value.snapshot_id,
        text_eq_refl value.publisher_id,
        text_eq_refl value.target_key_id,
      )
      refl

same_mark :
    (value : StatusPublisherHighWater) (a b c : Text) (xs : List StatusPublisherHighWater)
    → is_mark_of a b c value ≡ true
    → find (is_mark_of a b c) xs
      ≡ find (is_mark_of value.snapshot_id value.publisher_id value.target_key_id) xs
same_mark value a b c xs h =
    let (both, third) = &&-eq-true _ _ h in
    let (first, second) = &&-eq-true _ _ both in
    rw
      (
        text_eq_sound value.snapshot_id a first,
        text_eq_sound value.publisher_id b second,
        text_eq_sound value.target_key_id c third,
      )
      refl

pub open-Advanced :
    (value : StatusPublisherHighWater) (xs : List StatusPublisherHighWater)
    → find (is_mark_of value.snapshot_id value.publisher_id value.target_key_id) xs ≡ none
    → Advanced xs (value ∷ xs)
open-Advanced value xs absent a b c mark h = elim (Bool-cases (is_mark_of a b c value)) [
  | inl e ↦ absurd (let g = same_mark value a b c xs e in cc (g, h, absent))
  | inr e ↦ (mark, rw e h, inl refl)
]

pub move-Advanced :
    (value previous : StatusPublisherHighWater) (xs : List StatusPublisherHighWater)
    → find (is_mark_of value.snapshot_id value.publisher_id value.target_key_id) xs ≡ some previous
    → previous.sequence <ℤ value.sequence
    → Advanced xs (replace_mark value xs)
move-Advanced value previous xs found less a b c mark h =
    elim (Bool-cases (is_mark_of a b c value)) [
      | inl e ↦
          let g = same_mark value a b c xs e in
          let it : previous ≡ mark = cc (g, h, found) in
          (
            value,
            same_mark value a b c (replace_mark value xs) e
                ∙ find-update (is_mark_of value.snapshot_id value.publisher_id value.target_key_id)
                    (λ row. value) xs previous found (mark_own value),
            inr (rw it at less),
          )
      | inr e ↦ (
        mark,
        find-update_other (is_mark_of a b c)
              (is_mark_of value.snapshot_id value.publisher_id value.target_key_id) (λ row. value)
              (mark_apart value a b c e) xs
            ∙ h,
        inl refl,
      )
    ]

pub remember-Kept :
    (key : Option Text) (r : IdentityCredentialRecord) (s : Store)
    → idempotency_of key s ≡ none
    → Kept has_key s.idempotency (remember key r s.idempotency)
remember-Kept none r s fresh id row h = h
remember-Kept (some key) r s fresh id row h =
    find-insert (λ i. i.key) _ s.idempotency id row fresh h
