-- ===== src/Storage/Events/Pages.antt =====
-- What a page of verification events holds.
use tesserra.Prelude.{
  ℕ, zero, suc, ◌≤◌, ◌<◌, ◌≡◌, refl, ap, ◌∙◌, Bool, true, Option, none, some, List, [], ◌∷◌, arith,
  All, length, leb, last?, filter, insert_by, sort_by, Bool-cases, Option-cases, ◌⊎◌, inl, inr,
  Text,
}
use tesserra.Prelude.Int.{ℤ, pos, negsuc}
use tesserra.Storage.Events.{
  VerificationEventFilter, page_limit, meets, page_of, id_of, newest_first,
  list_verification_events,
}
use tesserra.Storage.Records.{EventRow, Store}
use tesserra.Storage.Rows.{take}

page_limit-bounds : (limit : Option ℤ) → (1 ≤ page_limit limit) × (page_limit limit ≤ 200)
unfolding page_limit
page_limit-bounds none = (omega arith, omega arith)
page_limit-bounds (some (pos n)) = (ground arith, ground arith)
page_limit-bounds (some (negsuc n)) = (omega arith, omega arith)

module _ {A : Type 0} where
  length-take : (n : ℕ) (xs : List A) → length (take n xs) ≤ n
  unfolding take
  length-take zero xs = omega arith
  length-take (suc n) [] = omega arith
  length-take (suc n) (x ∷ xs) = omega (arith, length-take n xs)

  take-take : (n : ℕ) (xs : List A) → take n (take (suc n) xs) ≡ take n xs
  unfolding take
  take-take zero xs = refl
  take-take (suc n) [] = refl
  take-take (suc n) (x ∷ xs) = ap (λ ys. x ∷ ys) (take-take n xs)

  -- Fewer than one more: there are no others.
  take-whole : (n : ℕ) (xs : List A) → length (take (suc n) xs) ≤ n → take n xs ≡ xs
  unfolding take
  take-whole zero [] h = refl
  take-whole zero (x ∷ xs) h = absurd (omega (arith, h))
  take-whole (suc n) [] h = refl
  take-whole (suc n) (x ∷ xs) h = ap (λ ys. x ∷ ys) (take-whole n xs (omega (arith, h)))

  take-full : (n : ℕ) (xs : List A) → n < length (take (suc n) xs) → length (take n xs) ≡ n
  unfolding take
  take-full zero xs h = refl
  take-full (suc n) [] h = absurd (omega (arith, h))
  take-full (suc n) (x ∷ xs) h = ap suc (take-full n xs (omega (arith, h)))

  filter-All : (test : A → Bool) (xs : List A) → All (λ x. test x ≡ true) (filter test xs)
  filter-All test [] = tt
  filter-All test (x ∷ xs) = elim (Bool-cases (test x)) [
    | inl e ↦ rw e (e, filter-All test xs)
    | inr e ↦ rw e (filter-All test xs)
  ]

  last-none : (xs : List A) → last? xs ≡ none → length xs ≡ 0
  last-none [] h = refl
  last-none (x ∷ []) h = cc h
  last-none (x ∷ y ∷ ys) h = let f = last-none (y ∷ ys) h in absurd (omega (arith, f))

module _ {A : Type 0} (P : A → Type 0) where
  take-All : (n : ℕ) (xs : List A) → All P xs → All P (take n xs)
  unfolding take
  take-All zero xs h = tt
  take-All (suc n) [] h = tt
  take-All (suc n) (x ∷ xs) (p, ps) = (p, take-All n xs ps)

  insert_by-All :
      (before : A → A → Bool) (x : A) (xs : List A) → P x → All P xs → All P (insert_by before x xs)
  insert_by-All before x [] p h = (p, tt)
  insert_by-All before x (y ∷ ys) p (q, qs) = elim (Bool-cases (before x y)) [
    | inl e ↦ rw e (p, (q, qs))
    | inr e ↦ rw e (q, insert_by-All before x ys p qs)
  ]

  sort_by-All : (before : A → A → Bool) (xs : List A) → All P xs → All P (sort_by before xs)
  sort_by-All before [] h = tt
  sort_by-All before (x ∷ xs) (p, ps) =
      insert_by-All before x (sort_by before xs) p (sort_by-All before xs ps)

id_of-none : (row : Option EventRow) → id_of row ≡ none → row ≡ none
id_of-none none h = refl
id_of-none (some row) h = cc h

items-take : (n : ℕ) (rows : List EventRow) → (page_of n (take (suc n) rows)).items ≡ take n rows
unfolding page_of
items-take n rows = take-take n rows

items-length : (n : ℕ) (rows : List EventRow) → length (page_of n (take (suc n) rows)).items ≤ n
unfolding page_of
items-length n rows = length-take n (take (suc n) rows)

-- Where it ends, and how it goes on.
next-none :
    (n : ℕ) (rows : List EventRow)
    → 1 ≤ n
    → (page_of n (take (suc n) rows)).next_after_id ≡ none
    → (page_of n (take (suc n) rows)).items ≡ rows
unfolding page_of
next-none n rows le h = elim (Bool-cases (leb (length (take (suc n) rows)) n)) [
  | inl e ↦ take-take n rows ∙ take-whole n rows (ground arith)
  | inr e ↦
      let g = rw (e, take-take n rows) at h in
      let full = take-full n rows (ground arith) in
      let empty = last-none (take n rows) (id_of-none _ g) in
      absurd (omega (arith, full, empty, le))
]

next-some :
    (n : ℕ) (rows : List EventRow) (id : Text)
    → (page_of n (take (suc n) rows)).next_after_id ≡ some id
    → (length (page_of n (take (suc n) rows)).items ≡ n)
      × (id_of (last? (page_of n (take (suc n) rows)).items) ≡ some id)
unfolding page_of
next-some n rows id h = elim (Bool-cases (leb (length (take (suc n) rows)) n)) [
  | inl e ↦ absurd (let g = rw e at h in cc g)
  | inr e ↦ (rw (take-take n rows) (take-full n rows (ground arith)), rw e at h)
]

-- The page of a filter, of at most as many rows as its limit says, and that between 1 and 200: the
-- first of the matching events from the newest id on. Either it has no next id and holds them all, or
-- it is full, and the next id is that of its last row.
pub page_complete :
    (f : VerificationEventFilter) (s : Store)
    → (1 ≤ page_limit f.limit)
      × (page_limit f.limit ≤ 200)
      × (length (list_verification_events f s).items ≤ page_limit f.limit)
      × ((list_verification_events f s).items
          ≡ take (page_limit f.limit) (newest_first (filter (meets f) s.events)))
      × All (λ row. meets f row ≡ true) (list_verification_events f s).items
      × ((((list_verification_events f s).next_after_id ≡ none)
            × ((list_verification_events f s).items ≡ newest_first (filter (meets f) s.events)))
          ⊎ ((id : Text) × ((list_verification_events f s).next_after_id ≡ some id)
              × (length (list_verification_events f s).items ≡ page_limit f.limit)
              × (id_of (last? (list_verification_events f s).items) ≡ some id)))
unfolding list_verification_events
page_complete f s =
    let n = page_limit f.limit in
    let rows = newest_first (filter (meets f) s.events) in
    let (low, high) = page_limit-bounds f.limit in
    (
      low,
      high,
      items-length n rows,
      items-take n rows,
      rw (items-take n rows) (
          take-All (λ row. meets f row ≡ true) n rows
            (sort_by-All (λ row. meets f row ≡ true) _ (filter (meets f) s.events)
              (filter-All (meets f) s.events))),
      elim (Option-cases (page_of n (take (suc n) rows)).next_after_id) [
        | inl e ↦ inl (e, next-none n rows low e)
        | inr (id, e) ↦ let (full, last) = next-some n rows id e in inr (id, e, full, last)
      ],
    )
