-- ===== src/Core/Run/Sound.antt =====
-- Rules for what holds when a run of stages goes on, and that an early return is never VALID.
use tesserra.Prelude.{◌≡◌, ◌≢◌, refl, Bool, true, false, Option, none, some, List, [], ◌∷◌, All}
use tesserra.Core.Result.{VerificationResult, is_valid}
use tesserra.Core.Run.{
  Run, pass, stop, throw, ◌>>=◌, ◌>>◌, stop_if, attempt, require, each, returned, unfinished,
  outcome,
}

-- `Sound P m`: when `m` goes on it is with a value of `P`; when it returns, the code is not VALID;
-- and it does not run out of fuel.
pub data Sound {A : Type 0} (P : A → Type 0) : Run A → Type 0 where
  passes : {a : A} → P a → Sound P (pass a)
  stops : {r : VerificationResult} → is_valid r.code ≡ false → Sound P (stop r)
  throws : Sound P throw

module _ {A B : Type 0} {P : A → Type 0} {Q : B → Type 0} where
  pub Sound-bind :
      {m : Run A} {f : A → Run B} → Sound P m → ((a : A) → P a → Sound Q (f a)) → Sound Q (m >>= f)
  unfolding ◌>>=◌
  Sound-bind (passes p) k = k _ p
  Sound-bind (stops h) k = stops h
  Sound-bind throws k = throws

module _ {A : Type 0} {P Q : A → Type 0} where
  pub Sound-map : {m : Run A} → ((a : A) → P a → Q a) → Sound P m → Sound Q m
  Sound-map imp (passes p) = passes (imp _ p)
  Sound-map imp (stops h) = stops h
  Sound-map imp throws = throws

  pub Sound-and : {m : Run A} → Sound P m → Sound Q m → Sound (λ a. P a × Q a) m
  Sound-and (passes p) (passes q) = passes (p, q)
  Sound-and (stops h) k = stops h
  Sound-and throws k = throws

pub Sound-stop_if :
    (b : Bool) (r : VerificationResult)
    → is_valid r.code ≡ false
    → Sound (λ _. b ≡ false) (stop_if b r)
unfolding stop_if
Sound-stop_if true r h = stops h
Sound-stop_if false r h = passes refl

pub Sound-attempt : {A : Type 0} (o : Option A) → Sound (λ a. o ≡ some a) (attempt o)
unfolding attempt
Sound-attempt none = throws
Sound-attempt (some a) = passes refl

pub Sound-require :
    {A : Type 0} (o : Option A) (r : VerificationResult)
    → is_valid r.code ≡ false
    → Sound (λ a. o ≡ some a) (require o r)
unfolding require
Sound-require none r h = stops h
Sound-require (some a) r h = passes refl

-- The first check of two, with what the second gives.
module _ {B : Type 0} {P : Type 0} {Q : B → Type 0} where
  pub Sound-then :
      {m : Run (Unit {0})} {k : Run B} → Sound (λ _. P) m → (P → Sound Q k) → Sound Q (m >> k)
  unfolding ◌>>◌
  Sound-then (passes p) k = k p
  Sound-then (stops h) k = stops h
  Sound-then throws k = throws

module _ {A : Type 0} {P : A → Type 0} where
  pub Sound-each :
      {body : A → Run (Unit {0})} (xs : List A)
      → ((x : A) → Sound (λ _. P x) (body x))
      → Sound (λ _. All P xs) (each body xs)
  unfolding each
  Sound-each [] h = passes tt
  Sound-each (x ∷ xs) h = Sound-then (h x) (λ p. Sound-map (λ _ ps. (p, ps)) (Sound-each xs h))

-- A result VALID that a caller sees is one that a run has gone on to.
pub outcome-valid :
    {P : VerificationResult → Type 0} {m : Run VerificationResult} (r : VerificationResult)
    → Sound P m
    → outcome m ≡ returned r
    → is_valid r.code ≡ true
    → P r
outcome-valid {P} r (passes {a} p) e v = let same : a ≡ r = cc in rw (← same) p
outcome-valid r (stops {r = q} h) e v = let same : q ≡ r = cc in cc (same, h, v)
outcome-valid r throws e v = cc

-- A run of sound stages is finished.
pub outcome-finished :
    {P : VerificationResult → Type 0} {m : Run VerificationResult}
    → Sound P m
    → outcome m ≢ unfinished
outcome-finished (passes p) e = cc
outcome-finished (stops h) e = cc
outcome-finished throws e = cc
