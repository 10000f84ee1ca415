-- ===== src/Prelude/Lists.antt =====
-- Lists searched and measured as the program does it, with Boolean tests.
use Prim.Native.Nat.{ℕ, suc, ◌+◌}
use mathlib.Core.Path.{◌≡◌, refl}
use mathlib.Core.Logic.{inl, inr}
use mathlib.Core.Bool.{Bool, true, false, ◌&&◌, ◌||◌}
use mathlib.Core.Option.{Option, none, some}
use mathlib.Core.List.{List, [], ◌∷◌, ◌++◌}
use native.Mathlib.Omega.{arith}
use tesserra.Prelude.Tests.{if◌then◌else◌, Bool-cases}

-- A predicate of every entry.
abbrev pub All {ℓ κ} : {A : Type ℓ} → (A → Type κ) → List A → Type κ
All P [] = Unit
All P (x ∷ xs) = P x × All P xs

-- There is an entry, kept, of which the predicate holds.
pub data Any {ℓ κ} {A : Type ℓ} (P : A → Type κ) : List A → Type (ℓ ⊔ κ) where
  here : {x : A} {xs : List A} → P x → Any P (x ∷ xs)
  there : {x : A} {xs : List A} → Any P xs → Any P (x ∷ xs)

module _ {ℓ} {A : Type ℓ} where
  abbrev pub length : List A → ℕ
  length [] = 0
  length (x ∷ xs) = suc (length xs)

  -- xs.some(test), xs.every(test), xs.find(test), xs.filter(test)
  abbrev pub some_of : (A → Bool) → List A → Bool
  some_of test [] = false
  some_of test (x ∷ xs) = test x || some_of test xs

  abbrev pub every : (A → Bool) → List A → Bool
  every test [] = true
  every test (x ∷ xs) = test x && every test xs

  abbrev pub find : (A → Bool) → List A → Option A
  find test [] = none
  find test (x ∷ xs) = if test x then some x else find test xs

  abbrev pub filter : (A → Bool) → List A → List A
  filter test [] = []
  filter test (x ∷ xs) = if test x then x ∷ filter test xs else filter test xs

  -- xs.sort(compare), which is stable: `before x y` says that x may stand in front of y.
  abbrev pub insert_by : (A → A → Bool) → A → List A → List A
  insert_by before x [] = x ∷ []
  insert_by before x (y ∷ ys) = if before x y then x ∷ y ∷ ys else y ∷ insert_by before x ys

  abbrev pub sort_by : (A → A → Bool) → List A → List A
  sort_by before [] = []
  sort_by before (x ∷ xs) = insert_by before x (sort_by before xs)

  abbrev pub head? : List A → Option A
  head? [] = none
  head? (x ∷ xs) = some x

  abbrev pub last? : List A → Option A
  last? [] = none
  last? (x ∷ []) = some x
  last? (x ∷ y ∷ ys) = last? (y ∷ ys)

  abbrev pub drop_last : List A → List A
  drop_last [] = []
  drop_last (x ∷ []) = []
  drop_last (x ∷ y ∷ ys) = x ∷ drop_last (y ∷ ys)

  pub length-append : (xs ys : List A) → length (xs ++ ys) ≡ length xs + length ys
  length-append [] ys = omega arith
  length-append (x ∷ xs) ys = omega (arith, length-append xs ys)

  pub every-eq-true :
      (test : A → Bool) (xs : List A) → every test xs ≡ true → All (λ x. test x ≡ true) xs
  every-eq-true test [] h = tt
  every-eq-true test (x ∷ xs) h = (ground arith, every-eq-true test xs (ground arith))

  pub some_of-eq-false :
      (test : A → Bool) (xs : List A) → some_of test xs ≡ false → All (λ x. test x ≡ false) xs
  some_of-eq-false test [] h = tt
  some_of-eq-false test (x ∷ xs) h = (ground arith, some_of-eq-false test xs (ground arith))

  pub some_of-eq-true :
      (test : A → Bool) (xs : List A) → some_of test xs ≡ true → Any (λ x. test x ≡ true) xs
  some_of-eq-true test [] h = cc
  some_of-eq-true test (x ∷ xs) h = elim (Bool-cases (test x)) [
    | inl e ↦ here e
    | inr e ↦ there (some_of-eq-true test xs (ground arith))
  ]

  pub find-Any :
      (test : A → Bool) (xs : List A) (x : A)
      → find test xs ≡ some x
      → Any (λ y. (test y ≡ true) × (y ≡ x)) xs
  find-Any test [] x h = cc
  find-Any test (y ∷ ys) x h = elim (Bool-cases (test y)) [
    | inl e ↦ here (e, ground arith)
    | inr e ↦ there (find-Any test ys x (ground arith))
  ]

  pub find-test : (test : A → Bool) (xs : List A) (x : A) → find test xs ≡ some x → test x ≡ true
  find-test test [] x h = cc
  find-test test (y ∷ ys) x h = elim (Bool-cases (test y)) [
    | inl e ↦ let same : y ≡ x = ground arith in cc
    | inr e ↦ find-test test ys x (ground arith)
  ]

  pub find-eq-none : (test : A → Bool) (xs : List A) → some_of test xs ≡ false → find test xs ≡ none
  find-eq-none test [] h = refl
  find-eq-none test (x ∷ xs) h = elim (Bool-cases (test x)) [
    | inl e ↦ ground arith
    | inr e ↦ rw e (find-eq-none test xs (ground arith))
  ]

  pub none-some_of : (test : A → Bool) (xs : List A) → find test xs ≡ none → some_of test xs ≡ false
  none-some_of test [] h = refl
  none-some_of test (x ∷ xs) h = elim (Bool-cases (test x)) [
    | inl e ↦ absurd (let f = rw e at h in cc f)
    | inr e ↦ let f = rw e at h in rw e (none-some_of test xs f)
  ]

  pub found-some_of :
      (test : A → Bool) (xs : List A) (x : A) → find test xs ≡ some x → some_of test xs ≡ true
  found-some_of test [] x h = cc
  found-some_of test (y ∷ ys) x h = elim (Bool-cases (test y)) [
    | inl e ↦ rw e refl
    | inr e ↦ let f = rw e at h in rw e (found-some_of test ys x f)
  ]

module _ {ℓ κ} {A : Type ℓ} where
  pub All-map_imp {μ} :
      {P : A → Type κ} {Q : A → Type μ} (imp : (x : A) → P x → Q x) (xs : List A)
      → All P xs
      → All Q xs
  All-map_imp imp [] h = tt
  All-map_imp imp (x ∷ xs) h = (imp x h.0, All-map_imp imp xs h.1)

  pub Any-map_imp {μ} :
      {P : A → Type κ} {Q : A → Type μ} (imp : (x : A) → P x → Q x) {xs : List A}
      → Any P xs
      → Any Q xs
  Any-map_imp imp (here p) = here (imp _ p)
  Any-map_imp imp (there a) = there (Any-map_imp imp a)

  -- What holds of every entry holds of one that is found.
  pub All-Any {μ} :
      {P : A → Type κ} {Q : A → Type μ} {xs : List A} → All P xs → Any Q xs → (x : A) × P x × Q x
  All-Any h (here q) = (_, h.0, q)
  All-Any h (there a) = All-Any h.1 a
