-- ===== src/Core/Run/Ends.antt =====
-- Rules for what every result of a run of stages meets, whether it returns early or goes on to it.
use tesserra.Prelude.{◌≡◌, refl, Bool, true, false, Option, none, some, List, [], ◌∷◌}
use tesserra.Core.Result.{VerificationResult}
use tesserra.Core.Run.{
  Run, pass, stop, throw, exhausted, ◌>>=◌, ◌>>◌, stop_if, attempt, require, each, returned,
  outcome,
}

-- `Ends P Q m`: when `m` goes on it is with a value of `P`, when it returns it is with a result of `Q`.
pub data Ends {A : Type 0} (P : A → Type 0) (Q : VerificationResult → Type 0) : Run A → Type 0 where
  goes : {a : A} → P a → Ends P Q (pass a)
  returns : {r : VerificationResult} → Q r → Ends P Q (stop r)
  throws : Ends P Q throw
  runs_out : Ends P Q exhausted

-- A run whose early returns meet `Q`.
abbrev pub Stops : {A : Type 0} → (VerificationResult → Type 0) → Run A → Type 0
Stops Q m = Ends (λ a. Unit {0}) Q m

module _ {Q : VerificationResult → Type 0} where
  pub Ends-bind :
      {A B : Type 0} {P : B → Type 0} {m : Run A} {f : A → Run B}
      → Stops Q m
      → ((a : A) → Ends P Q (f a))
      → Ends P Q (m >>= f)
  unfolding ◌>>=◌
  Ends-bind (goes p) k = k _
  Ends-bind (returns q) k = returns q
  Ends-bind throws k = throws
  Ends-bind runs_out k = runs_out

  pub Ends-then :
      {B : Type 0} {P : B → Type 0} {m : Run (Unit {0})} {k : Run B}
      → Stops Q m
      → Ends P Q k
      → Ends P Q (m >> k)
  unfolding ◌>>◌
  Ends-then (goes p) k = k
  Ends-then (returns q) k = returns q
  Ends-then throws k = throws
  Ends-then runs_out k = runs_out

  pub Stops-stop_if : (b : Bool) (r : VerificationResult) → (b ≡ true → Q r) → Stops Q (stop_if b r)
  unfolding stop_if
  Stops-stop_if true r q = returns (q refl)
  Stops-stop_if false r q = goes tt

  pub Stops-attempt : {A : Type 0} (o : Option A) → Stops Q (attempt o)
  unfolding attempt
  Stops-attempt none = throws
  Stops-attempt (some a) = goes tt

  pub Stops-require :
      {A : Type 0} (o : Option A) (r : VerificationResult) → Q r → Stops Q (require o r)
  unfolding require
  Stops-require none r q = returns q
  Stops-require (some a) r q = goes tt

  pub Stops-each :
      {A : Type 0} {body : A → Run (Unit {0})} (xs : List A)
      → ((x : A) → Stops Q (body x))
      → Stops Q (each body xs)
  unfolding each
  Stops-each [] h = goes tt
  Stops-each (x ∷ xs) h = Ends-then (h x) (Stops-each xs h)

pub Ends-map :
    {P Q : VerificationResult → Type 0} {m : Run VerificationResult}
    → ((r : VerificationResult) → P r → Q r)
    → Ends P P m
    → Ends Q Q m
Ends-map imp (goes p) = goes (imp _ p)
Ends-map imp (returns p) = returns (imp _ p)
Ends-map imp throws = throws
Ends-map imp runs_out = runs_out

-- What a caller sees meets what every result of the run meets.
pub outcome-Ends :
    {Q : VerificationResult → Type 0} {m : Run VerificationResult} (r : VerificationResult)
    → Ends Q Q m
    → outcome m ≡ returned r
    → Q r
outcome-Ends {Q} r (goes {a} q) e = let same : a ≡ r = cc in rw (← same) q
outcome-Ends {Q} r (returns {r = p} q) e = let same : p ≡ r = cc in rw (← same) q
outcome-Ends r throws e = cc
outcome-Ends r runs_out e = cc
