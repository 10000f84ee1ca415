-- ===== src/Protocol/Timestamp.antt =====
-- isTimestamp of packages/protocol/src/validate.ts, and the instants that Date.parse gives to such
-- texts: milliseconds from 1970-01-01T00:00:00Z.
use tesserra.Prelude.{
  ℕ, zero, suc, ◌+◌, ◌-◌, ◌*◌, ◌/◌, ◌%◌, ◌≡◌, refl, Bool, true, false, ◌&&◌, ◌||◌, not, Option,
  none, some, [], ◌∷◌, ◌==◌, ltb, leb, if◌then◌else◌, Text, codes,
}
use tesserra.Prelude.Int.{ℤ, pos, sub_ℕ}
use tesserra.Json.{Json, string}
use tesserra.Protocol.Regex.{Regex, seq, exactly, literal, within, matches}

abbrev digit : ℕ → Bool
digit = within b'0' b'9'

-- timestamp
abbrev timestamp : Regex
timestamp = seq (exactly 4 digit) (
    seq (literal "-") (
      seq (exactly 2 digit) (
        seq (literal "-") (
          seq (exactly 2 digit) (
            seq (literal "T") (
              seq (exactly 2 digit) (
                seq (literal ":") (
                  seq (exactly 2 digit)
                    (seq (literal ":") (seq (exactly 2 digit) (literal "Z")))))))))))

pub record Fields : Type 0 where
  pub year : ℕ
  pub month : ℕ
  pub day : ℕ
  pub hour : ℕ
  pub minute : ℕ
  pub second : ℕ

abbrev value_of : Text → ℕ → ℕ
value_of [] acc = acc
value_of (c ∷ s) acc = value_of s (acc * 10 + (c - 48))

-- The numbers of a text that the pattern accepts.
abbrev pub read_fields : Text → Option Fields
read_fields
      (y₁ ∷ y₂ ∷ y₃ ∷ y₄ ∷ _ ∷ m₁ ∷ m₂ ∷ _ ∷ d₁ ∷ d₂ ∷ _ ∷ h₁ ∷ h₂ ∷ _ ∷ n₁ ∷ n₂ ∷ _ ∷ s₁ ∷ s₂
        ∷ _) =
    some (record {
      year = value_of (y₁ ∷ y₂ ∷ y₃ ∷ y₄ ∷ []) 0;
      month = value_of (m₁ ∷ m₂ ∷ []) 0;
      day = value_of (d₁ ∷ d₂ ∷ []) 0;
      hour = value_of (h₁ ∷ h₂ ∷ []) 0;
      minute = value_of (n₁ ∷ n₂ ∷ []) 0;
      second = value_of (s₁ ∷ s₂ ∷ []) 0;
    })
read_fields _ = none

unfoldable pub is_leap : ℕ → Bool
is_leap y = (y % 4 == 0) && (not (y % 100 == 0) || (y % 400 == 0))

unfoldable pub days_in_month : ℕ → ℕ → ℕ
days_in_month y m =
    if m == 2
    then (if is_leap y then 29 else 28)
    else if m == 4 || m == 6 || m == 9 || m == 11
    then 30
    else 31

-- A day of the calendar at a time of day: the texts that survive Date and toISOString unchanged.
unfoldable pub is_calendar : Fields → Bool
is_calendar f =
    leb 1 f.month
    && leb f.month 12
    && leb 1 f.day
    && leb f.day (days_in_month f.year f.month)
    && ltb f.hour 24
    && ltb f.minute 60
    && ltb f.second 60

days_before_month : ℕ → ℕ → ℕ
days_before_month y zero = 0
days_before_month y (suc zero) = 0
days_before_month y (suc (suc m)) = days_before_month y (suc m) + days_in_month y (suc m)

days_before_year : ℕ → ℕ
days_before_year y = 365 * y + (y + 3) / 4 - (y + 99) / 100 + (y + 399) / 400

-- From 0000-01-01T00:00:00Z.
unfoldable pub seconds_of : Fields → ℕ
unfolding days_before_year days_before_month
seconds_of f =
    (days_before_year f.year + days_before_month f.year f.month + (f.day - 1)) * 86400
    + f.hour * 3600
    + f.minute * 60
    + f.second

abbrev epoch_seconds : ℕ
epoch_seconds = 719528 * 86400

unfoldable pub instant : Text → Option ℤ
instant s =
    if matches timestamp s
    then elim (read_fields s) [
      | none ↦ none
      | some f ↦
          if is_calendar f then some (sub_ℕ (seconds_of f * 1000) (epoch_seconds * 1000)) else none
    ]
    else none

-- isTimestamp(value)
unfoldable pub is_timestamp : Option Json → Bool
is_timestamp (some (string s)) = elim (instant s) [ none ↦ false | some t ↦ true ]
is_timestamp _ = false

leap_day : instant (codes "2024-02-29T12:34:56Z") ≡ some (pos 1709210096000)
unfolding instant matches is_calendar days_in_month is_leap seconds_of
leap_day = refl

no_leap_day : instant (codes "2023-02-29T12:34:56Z") ≡ none
unfolding instant matches is_calendar days_in_month is_leap seconds_of
no_leap_day = refl
