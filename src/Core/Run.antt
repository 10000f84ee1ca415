-- ===== src/Core/Run.antt =====
-- A stage of a verifier: it goes on with a value, or it returns early (`return stop(...)`), or it
-- throws. `exhausted` is no behaviour of the program: a loop's fuel has run out.
pub mod Sound
pub mod Ends
use tesserra.Prelude.{◌≡◌, refl, Bool, true, false, Option, none, some, List, [], ◌∷◌, String}
use tesserra.Core.Result.{VerificationResult}

pub data Run (A : Type 0) : Type 0 where
  pass : A → Run A
  stop : VerificationResult → Run A
  throw : Run A
  exhausted : Run A

infixl 5 ◌>>=◌ ◌>>◌
unfoldable pub ◌>>=◌ : {A B : Type 0} → Run A → (A → Run B) → Run B
pass a >>= f = f a
stop r >>= f = stop r
throw >>= f = throw
exhausted >>= f = exhausted

unfoldable pub ◌>>◌ : {B : Type 0} → Run (Unit {0}) → Run B → Run B
pass _ >> k = k
stop r >> k = stop r
throw >> k = throw
exhausted >> k = exhausted

-- if (test) return result;
unfoldable pub stop_if : Bool → VerificationResult → Run (Unit {0})
stop_if true r = stop r
stop_if false r = pass tt

-- A value that a call computes or throws.
unfoldable pub attempt : {A : Type 0} → Option A → Run A
attempt none = throw
attempt (some a) = pass a

-- const value = ...; if (value === undefined) return result;
unfoldable pub require : {A : Type 0} → Option A → VerificationResult → Run A
require none r = stop r
require (some a) r = pass a

-- for (const entry of entries) body(entry)
unfoldable pub each : {A : Type 0} → (A → Run (Unit {0})) → List A → Run (Unit {0})
unfolding ◌>>◌
each body [] = pass tt
each body (x ∷ xs) = body x >> each body xs

-- What the caller sees.
pub data Outcome : Type 0 where
  returned : VerificationResult → Outcome
  thrown : Outcome
  unfinished : Outcome

abbrev pub outcome : Run VerificationResult → Outcome
outcome (pass r) = returned r
outcome (stop r) = returned r
outcome throw = thrown
outcome exhausted = unfinished
