-- ===== src/Storage/Result.antt =====
-- A call of the storage: it returns a value or throws. What a call throws changes nothing: a method
-- that writes more than one row runs in `#transaction`, which rolls back, and one statement is atomic.
use tesserra.Prelude.{
  ◌≡◌, refl, ◌⊎◌, inl, inr, Bool, true, false, Option, none, some, List, [], ◌∷◌,
}

-- The errors of packages/storage-sqlite/src/sqlite-storage.ts; `constraint` is SQLite's, `corrupt` that
-- of a row that does not read back.
pub data StorageError : Type 0 where
  empty_field private_material not_public_jwk prohibited_field : StorageError
  invalid_interval immutable_key stale_sequence foreign_anchor : StorageError
  snapshot_conflict snapshot_rollback invalid_high_water sequence_gap : StorageError
  artifact_conflict not_a_revocation invalid_idempotency constraint corrupt : StorageError
  unknown_migrations migration_mismatch : StorageError

pub data Result (A : Type 0) : Type 0 where
  ok : A → Result A
  err : StorageError → Result A

infixl 5 ◌>>=◌ ◌>>◌
abbrev pub ◌>>=◌ : {A B : Type 0} → Result A → (A → Result B) → Result B
ok a >>= f = f a
err e >>= f = err e

abbrev pub ◌>>◌ : {B : Type 0} → Result (Unit {0}) → Result B → Result B
m >> k = m >>= λ _. k

-- if (test) throw new Error(...)
unfoldable pub throw_if : Bool → StorageError → Result (Unit {0})
throw_if true e = err e
throw_if false e = ok tt

-- A value that has to be there.
unfoldable pub expect : {A : Type 0} → Option A → StorageError → Result A
expect none e = err e
expect (some a) e = ok a

unfoldable pub each : {A : Type 0} → (A → Result (Unit {0})) → List A → Result (Unit {0})
each body [] = ok tt
each body (x ∷ xs) = body x >> each body xs

-- rows.map(read)
unfoldable pub read_all : {A B : Type 0} → (A → Result B) → List A → Result (List B)
read_all read [] = ok []
read_all read (x ∷ xs) = do y ← read x; ys ← read_all read xs; ok (y ∷ ys)

-- row === undefined ? undefined : read(row)
unfoldable pub read_one : {A B : Type 0} → (A → Result B) → Option A → Result (Option B)
read_one read none = ok none
read_one read (some x) = do y ← read x; ok (some y)

-- What a call has given where it returns.
pub data Ensures {A : Type 0} (P : A → Type 0) : Result A → Type 0 where
  done : {a : A} → P a → Ensures P (ok a)
  failed : {e : StorageError} → Ensures P (err e)

pub Ensures-ok : {A : Type 0} {P : A → Type 0} {m : Result A} {a : A} → Ensures P m → m ≡ ok a → P a
Ensures-ok {a} (done {a = b} p) e = let same : b ≡ a = cc in rw (← same) p
Ensures-ok failed e = cc

module _ {A B : Type 0} {P : A → Type 0} {Q : B → Type 0} where
  pub Ensures-bind :
      {m : Result A} {f : A → Result B}
      → Ensures P m
      → ((a : A) → P a → Ensures Q (f a))
      → Ensures Q (m >>= f)
  Ensures-bind (done p) k = k _ p
  Ensures-bind failed k = failed

module _ {A : Type 0} {P Q : A → Type 0} where
  pub Ensures-map : {m : Result A} → ((a : A) → P a → Q a) → Ensures P m → Ensures Q m
  Ensures-map imp (done p) = done (imp _ p)
  Ensures-map imp failed = failed

module _ {B : Type 0} {P : Type 0} {Q : B → Type 0} where
  pub Ensures-then :
      {m : Result (Unit {0})} {k : Result B}
      → Ensures (λ _. P) m
      → (P → Ensures Q k)
      → Ensures Q (m >> k)
  Ensures-then (done p) k = k p
  Ensures-then failed k = failed

pub Ensures-throw_if : (b : Bool) (e : StorageError) → Ensures (λ _. b ≡ false) (throw_if b e)
unfolding throw_if
Ensures-throw_if true e = failed
Ensures-throw_if false e = done refl

pub Ensures-expect :
    {A : Type 0} (o : Option A) (e : StorageError) → Ensures (λ a. o ≡ some a) (expect o e)
unfolding expect
Ensures-expect none e = failed
Ensures-expect (some a) e = done refl

-- Any call that returns, returns what it returns.
pub Ensures-self : {A : Type 0} (m : Result A) → Ensures (λ a. m ≡ ok a) m
Ensures-self (ok a) = done refl
Ensures-self (err e) = failed

-- What is read is read from a row, if there is one.
abbrev pub IsReadFrom : {A B : Type 0} → (A → Result B) → Option A → Option B → Type 0
IsReadFrom {A} {B} read o r =
    ((o ≡ none) × (r ≡ none)) ⊎ ((x : A) × (y : B) × (o ≡ some x) × (r ≡ some y) × (read x ≡ ok y))

pub Ensures-read_one :
    {A B : Type 0} (read : A → Result B) (o : Option A)
    → Ensures (IsReadFrom read o) (read_one read o)
unfolding read_one
Ensures-read_one read none = done (inl (refl, refl))
Ensures-read_one read (some x) =
    Ensures-bind (Ensures-self (read x)) (λ y h. done (inr (x, y, refl, refl, h)))
