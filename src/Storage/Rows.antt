-- ===== src/Storage/Rows.antt =====
-- What the statements of packages/storage-sqlite/src/sqlite-storage.ts do to a list of rows.
use tesserra.Prelude.{
  ℕ, zero, suc, ◌≡◌, refl, ap, Bool, true, false, not, none, some, List, [], ◌∷◌, find,
  if◌then◌else◌, Bool-cases, inl, inr, Text, text_eq, text_eq_sound,
}
use tesserra.Storage.Engine.{sql_lt}

-- The rows on a first pair, then a second: ORDER BY left, right
abbrev pub in_order : Text → Text → Text → Text → Bool
in_order left right other_left other_right =
    if text_eq left other_left then not (sql_lt other_right right) else not (sql_lt other_left left)

module _ {A : Type 0} where
  -- ON CONFLICT DO UPDATE: the row with the key, changed
  unfoldable pub update : (A → Bool) → (A → A) → List A → List A
  update test change [] = []
  update test change (x ∷ xs) = if test x then change x ∷ xs else x ∷ update test change xs

  -- LIMIT
  unfoldable pub take : ℕ → List A → List A
  take zero xs = []
  take (suc n) [] = []
  take (suc n) (x ∷ xs) = x ∷ take n xs

  pub find-update :
      (test : A → Bool) (change : A → A) (xs : List A) (x : A)
      → find test xs ≡ some x
      → test (change x) ≡ true
      → find test (update test change xs) ≡ some (change x)
  unfolding update
  find-update test change [] x h k = cc
  find-update test change (y ∷ ys) x h k = elim (Bool-cases (test y)) [
    | inl e ↦ let f = rw e at h in let same : y ≡ x = cc f in rw e (rw same (rw k refl))
    | inr e ↦ let f = rw e at h in rw (e, e) (find-update test change ys x f k)
  ]

  -- A change of one row is not seen by a search for other rows.
  pub find-update_other :
      (other test : A → Bool) (change : A → A)
      → ((y : A) → test y ≡ true → (other y ≡ false) × (other (change y) ≡ false))
      → (xs : List A) → find other (update test change xs) ≡ find other xs
  unfolding update
  find-update_other other test change apart [] = refl
  find-update_other other test change apart (y ∷ ys) = elim (Bool-cases (test y)) [
    | inl e ↦ let (old, new) = apart y e in rw e (rw (old, new) refl)
    | inr e ↦
        rw e
          (ap (λ o. if other y then some y else o) (find-update_other other test change apart ys))
  ]

  -- A row that is found under its key stays found when a row under a new key comes.
  pub find-insert :
      (key : A → Text) (new : A) (xs : List A) (id : Text) (row : A)
      → find (λ r. text_eq (key r) (key new)) xs ≡ none
      → find (λ r. text_eq (key r) id) xs ≡ some row
      → find (λ r. text_eq (key r) id) (new ∷ xs) ≡ some row
  find-insert key new xs id row absent h = elim (Bool-cases (text_eq (key new) id)) [
    | inl e ↦
        let same : key new ≡ id = text_eq_sound (key new) id e in
        absurd (let f = rw same at absent in cc (f, h))
    | inr e ↦ rw e h
  ]
