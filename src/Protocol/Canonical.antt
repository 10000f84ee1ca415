-- ===== src/Protocol/Canonical.antt =====
-- packages/protocol/src/canonical.ts. `none` is a thrown TypeError.
pub mod Reorders
use tesserra.Prelude.{
  ℕ, zero, suc, ◌+◌, ◌-◌, ◌*◌, ◌/◌, ◌%◌, Bool, true, false, not, ◌&&◌, ◌||◌, Option, none, some,
  List, [], ◌∷◌, ◌++◌, map, ◌==◌, ltb, leb, if◌then◌else◌, some_of, sort_by, Text, codes, text_lt,
  text_eq, String,
}
use tesserra.Prelude.Int.{ℤ, pos, negsuc}
use tesserra.Json.{
  Number, int, fraction, Json, null, boolean, number, string, array, object, Items, nil, cons,
  Members, end, entry, is_safe,
}
use tesserra.Runtime.{Runtime}

-- assertUnicodeScalars(value), as a test: every surrogate stands in a pair.
unfoldable pub are_unicode_scalars : Text → Bool
are_unicode_scalars [] = true
are_unicode_scalars (c ∷ []) = not (leb 0xd800 c && leb c 0xdfff)
are_unicode_scalars (c ∷ low ∷ rest) =
    let paired = are_unicode_scalars rest in
    let single = are_unicode_scalars (low ∷ rest) in
    if leb 0xd800 c && leb c 0xdbff
    then leb 0xdc00 low && leb low 0xdfff && paired
    else not (leb 0xdc00 c && leb c 0xdfff) && single

-- Sixteen rounds write any safe integer: 2 ^ 53 < 10 ^ 16.
unfoldable pub decimal_digits : ℕ → ℕ → Text → Text
decimal_digits zero n acc = acc
decimal_digits (suc fuel) n acc =
    let more = decimal_digits fuel (n / 10) ((n % 10 + 48) ∷ acc) in
    if ltb n 10 then (n + 48) ∷ acc else more

unfoldable pub decimal : ℤ → Text
decimal (pos n) = decimal_digits 16 n []
decimal (negsuc n) = b'-' ∷ decimal_digits 16 (suc n) []

unfoldable pub hex_digit : ℕ → ℕ
hex_digit n = if ltb n 10 then n + 48 else n + 87

-- One character inside JSON.stringify(text), for a text of Unicode scalars.
unfoldable pub escape : ℕ → Text
escape c =
    if c == b'"' || c == b'\\'
    then b'\\' ∷ c ∷ []
    else if c == 8
    then codes "\\b"
    else if c == 9
    then codes "\\t"
    else if c == 10
    then codes "\\n"
    else if c == 12
    then codes "\\f"
    else if c == 13
    then codes "\\r"
    else if ltb c 32
    then codes "\\u00" ++ (hex_digit (c / 16) ∷ hex_digit (c % 16) ∷ [])
    else c ∷ []

unfoldable pub escape_all : Text → Text
escape_all [] = []
escape_all (c ∷ s) = escape c ++ escape_all s

-- JSON.stringify(text)
unfoldable pub quote : Text → Text
quote s = b'"' ∷ (escape_all s ++ (b'"' ∷ []))

-- parts.join(',')
unfoldable pub join : List Text → Text
join [] = []
join (s ∷ []) = s
join (s ∷ t ∷ rest) = s ++ (b',' ∷ join (t ∷ rest))

-- One member, its key beside its text, for the sort of the keys.
abbrev pub Printed : Type 0
Printed = Text × Text

abbrev pub key_le : Printed → Printed → Bool
key_le a b = not (text_lt b.0 a.0)

unfoldable pub sort_members : List Printed → List Printed
sort_members = sort_by key_le

infixl 5 ◌>>=◌
abbrev pub ◌>>=◌ {ℓ κ} : {A : Type ℓ} {B : Type κ} → Option A → (A → Option B) → Option B
none >>= f = none
some a >>= f = f a

abbrev pub string_text : Text → Option Text
string_text s = if are_unicode_scalars s then some (quote s) else none

abbrev pub number_json : Runtime → Number → Option Text
number_json rt (int z) = if is_safe z then some (decimal z) else none
number_json rt (fraction s n k) = some (rt.number_text (fraction s n k))
number_json rt _ = none

module _ (rt : Runtime) where
  -- canonicalize(value); the values are written before the sort, and any failure fails the whole.
  unfoldable mutual
    pub canonicalize : Json → Option Text
    canonicalize null = some (codes "null")
    canonicalize (boolean true) = some (codes "true")
    canonicalize (boolean false) = some (codes "false")
    canonicalize (string s) = string_text s
    canonicalize (number n) = number_json rt n
    canonicalize (array vs) = do
      parts ← canonicalize_items vs
      some (b'[' ∷ (join parts ++ (b']' ∷ [])))
    canonicalize (object ms) = do
      parts ← canonicalize_members ms
      some (b'{' ∷ (join (map (λ p. p.1) (sort_members parts)) ++ (b'}' ∷ [])))

    pub canonicalize_items : Items → Option (List Text)
    canonicalize_items nil = some []
    canonicalize_items (cons v vs) = do
      part ← canonicalize v
      parts ← canonicalize_items vs
      some (part ∷ parts)

    pub canonicalize_members : Members → Option (List Printed)
    canonicalize_members end = some []
    canonicalize_members (entry k v ms) = do
      name ← string_text k
      part ← canonicalize v
      parts ← canonicalize_members ms
      some ((k, name ++ (b':' ∷ part)) ∷ parts)

  -- canonicalEqual, equal, equalJson. `canonicalize` answers undefined on undefined, so two absent
  -- values are equal; a value that throws equals nothing.
  unfoldable pub canonical_equal : Option Json → Option Json → Bool
  canonical_equal (some a) (some b) = elim (canonicalize a) [
    | none ↦ false
    | some s ↦ elim (canonicalize b) [ none ↦ false | some t ↦ text_eq s t ]
  ]
  canonical_equal none none = true
  canonical_equal _ _ = false

-- TextEncoder on a text of Unicode scalars; a surrogate pair is one scalar.
unfoldable pub utf8_scalar : ℕ → List ℕ
utf8_scalar c =
    if ltb c 0x80
    then c ∷ []
    else if ltb c 0x800
    then (192 + c / 64) ∷ (128 + c % 64) ∷ []
    else if ltb c 0x10000
    then (224 + c / 4096) ∷ (128 + c / 64 % 64) ∷ (128 + c % 64) ∷ []
    else (240 + c / 262144) ∷ (128 + c / 4096 % 64) ∷ (128 + c / 64 % 64) ∷ (128 + c % 64) ∷ []

unfoldable pub utf8 : Text → List ℕ
utf8 [] = []
utf8 (c ∷ []) = utf8_scalar c
utf8 (c ∷ low ∷ rest) =
    let pair = utf8_scalar (0x10000 + (c - 0xd800) * 1024 + (low - 0xdc00)) ++ utf8 rest in
    let single = utf8_scalar c ++ utf8 (low ∷ rest) in
    if leb 0xd800 c && leb c 0xdbff then pair else single

unfoldable pub canonical_bytes : Runtime → Json → Option (List ℕ)
canonical_bytes rt v = do s ← canonicalize rt v; some (utf8 s)

-- omit(value, keys)
unfoldable pub omit : List String → Members → Members
omit keys end = end
omit keys (entry k v ms) =
    let rest = omit keys ms in
    if some_of (λ key. text_eq (codes key) k) keys then rest else entry k v rest
