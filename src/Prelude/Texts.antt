-- ===== src/Prelude/Texts.antt =====
-- JavaScript texts: lists of UTF-16 code units.
use Prim.Native.Nat.{ℕ, zero, suc, ◌-◌}
use Prim.Native.Char.{code}
use Prim.Native.String.{String}
use mathlib.Core.Path.{◌≡◌, refl}
use mathlib.Core.Logic.{◌↔◌}
use mathlib.Core.Bool.{Bool, true, false, ◌&&◌}
use mathlib.Core.List.{List, [], ◌∷◌}
use native.Mathlib.Omega.{arith}
use tesserra.Prelude.Tests.{ltb, ◌==◌, if◌then◌else◌}
use tesserra.Prelude.Lists.{length}

abbrev pub Text : Type 0
Text = List ℕ

-- A literal of the source; they are ASCII, so code points are code units.
abbrev pub codes : String → Text
codes String.[] = []
codes (String.◌∷◌ c s) = code c ∷ codes s

-- left === right
unfoldable pub text_eq : Text → Text → Bool
text_eq [] [] = true
text_eq (a ∷ s) (b ∷ t) = (a == b) && text_eq s t
text_eq _ _ = false

-- left < right, by code units
unfoldable pub text_lt : Text → Text → Bool
text_lt [] [] = false
text_lt [] (b ∷ t) = true
text_lt (a ∷ s) [] = false
text_lt (a ∷ s) (b ∷ t) = if a == b then text_lt s t else ltb a b

pub text_eq_sound : (s t : Text) → text_eq s t ≡ true → s ≡ t
unfolding text_eq
text_eq_sound [] [] h = refl
text_eq_sound [] (b ∷ t) h = cc
text_eq_sound (a ∷ s) [] h = cc
text_eq_sound (a ∷ s) (b ∷ t) h = ground (arith, text_eq_sound s t)

pub text_eq_refl : (s : Text) → text_eq s s ≡ true
unfolding text_eq
text_eq_refl [] = refl
text_eq_refl (a ∷ s) = ground (arith, text_eq_refl s)

pub text_eq_iff : (s t : Text) → (text_eq s t ≡ true) ↔ (s ≡ t)
text_eq_iff s t = (text_eq_sound s t, λ e. rw e (text_eq_refl t))

abbrev pad : ℕ → Text → Text
pad zero s = s
pad (suc n) s = b'0' ∷ pad n s

-- text.padStart(width, '0')
unfoldable pub pad_start : ℕ → Text → Text
pad_start width s = pad (width - length s) s

pub text_lt_negative_trans :
    (a b c : Text) → text_lt b a ≡ false → text_lt c b ≡ false → text_lt c a ≡ false
unfolding text_lt
text_lt_negative_trans [] [] [] h k = refl
text_lt_negative_trans [] [] (z ∷ c) h k = refl
text_lt_negative_trans [] (y ∷ b) [] h k = cc
text_lt_negative_trans [] (y ∷ b) (z ∷ c) h k = refl
text_lt_negative_trans (x ∷ a) [] [] h k = cc
text_lt_negative_trans (x ∷ a) [] (z ∷ c) h k = cc
text_lt_negative_trans (x ∷ a) (y ∷ b) [] h k = cc
text_lt_negative_trans (x ∷ a) (y ∷ b) (z ∷ c) h k = ground (arith, text_lt_negative_trans a b c)

pub text_lt_asym : (a b : Text) → text_lt a b ≡ true → text_lt b a ≡ false
unfolding text_lt
text_lt_asym [] [] h = refl
text_lt_asym [] (y ∷ b) h = refl
text_lt_asym (x ∷ a) [] h = cc
text_lt_asym (x ∷ a) (y ∷ b) h = ground (arith, text_lt_asym a b)
