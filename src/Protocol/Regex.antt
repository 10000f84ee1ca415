-- ===== src/Protocol/Regex.antt =====
-- The regular expressions of packages/protocol/src/validate.ts and base64url.ts: their syntax, the
-- test of a whole text by derivatives, and (in Regex/Language) what a pattern means.
pub mod Language
use tesserra.Prelude.{
  ℕ, zero, suc, ◌≡◌, Bool, true, false, ◌&&◌, ◌||◌, List, [], ◌∷◌, ◌==◌, leb, if◌then◌else◌, Text,
  codes, String,
}

-- `between low n c` is c{low,low+n}: `low` required characters of the class and `n` optional ones.
pub data Regex : Type 0 where
  never empty : Regex
  class : (ℕ → Bool) → Regex
  between : (low extra : ℕ) → (ℕ → Bool) → Regex
  seq alt : Regex → Regex → Regex
  star : Regex → Regex

unfoldable pub nullable : Regex → Bool
nullable never = false
nullable empty = true
nullable (class c) = false
nullable (between zero extra c) = true
nullable (between (suc low) extra c) = false
nullable (seq r s) = nullable r && nullable s
nullable (alt r s) = nullable r || nullable s
nullable (star r) = true

-- What may follow the character `a`.
unfoldable pub derive : ℕ → Regex → Regex
unfolding nullable
derive a never = never
derive a empty = never
derive a (class c) = if c a then empty else never
derive a (between zero zero c) = never
derive a (between zero (suc extra) c) = if c a then between zero extra c else never
derive a (between (suc low) extra c) = if c a then between low extra c else never
derive a (seq r s) =
    if nullable r then alt (seq (derive a r) s) (derive a s) else seq (derive a r) s
derive a (alt r s) = alt (derive a r) (derive a s)
derive a (star r) = seq (derive a r) (star r)

-- /^...$/.test(text)
unfoldable pub matches : Regex → Text → Bool
unfolding derive nullable
matches r [] = nullable r
matches r (a ∷ s) = matches (derive a r) s

-- Notation for transcribing the patterns.
abbrev pub opt : Regex → Regex
opt r = alt r empty

abbrev pub some_times : (ℕ → Bool) → Regex
some_times c = seq (class c) (star (class c))

abbrev pub exactly : ℕ → (ℕ → Bool) → Regex
exactly n c = between n 0 c

abbrev pub within : ℕ → ℕ → ℕ → Bool
within low high c = leb low c && leb c high

abbrev pub is_char : ℕ → ℕ → Bool
is_char d c = c == d

abbrev pub one_of : Text → ℕ → Bool
one_of [] c = false
one_of (d ∷ ds) c = (c == d) || one_of ds c

abbrev pub text_pattern : Text → Regex
text_pattern [] = empty
text_pattern (a ∷ s) = seq (class (is_char a)) (text_pattern s)

abbrev pub literal : String → Regex
literal s = text_pattern (codes s)
