-- ===== src/Protocol/Base64url.antt =====
-- packages/protocol/src/base64url.ts. `none` is a thrown TypeError.
pub mod Roundtrip
use tesserra.Prelude.{
  ℕ, zero, suc, ◌+◌, ◌-◌, ◌*◌, ◌/◌, ◌%◌, Bool, true, false, not, ◌&&◌, ◌||◌, Option, none, some,
  List, [], ◌∷◌, ◌==◌, ltb, leb, length, if◌then◌else◌, some_of, Text, text_eq,
}
use tesserra.Json.{Json, string, is_some}
use tesserra.Protocol.Regex.{Regex, class, star, within, matches}

unfoldable pub is_base64url : ℕ → Bool
is_base64url c =
    within b'A' b'Z' c || within b'a' b'z' c || within b'0' b'9' c || c == b'_' || c == b'-'

-- BASE64URL
abbrev pub alphabet : Regex
alphabet = star (class is_base64url)

-- The character of a six-bit group, and back. `Buffer.from` is called on alphabet characters only.
unfoldable pub char_of : ℕ → ℕ
char_of n =
    if ltb n 26
    then n + 65
    else if ltb n 52
    then n + 71
    else if ltb n 62
    then n - 4
    else if n == 62
    then 45
    else 95

unfoldable pub group_of : ℕ → ℕ
group_of c =
    if within b'A' b'Z' c
    then c - 65
    else if within b'a' b'z' c
    then c - 71
    else if within b'0' b'9' c
    then c + 4
    else if c == b'-'
    then 62
    else 63

-- Buffer.from(bytes).toString('base64url')
unfoldable pub encode_base64url : List ℕ → Text
encode_base64url [] = []
encode_base64url (a ∷ []) = char_of (a / 4) ∷ char_of (a % 4 * 16) ∷ []
encode_base64url (a ∷ b ∷ []) =
    char_of (a / 4) ∷ char_of (a % 4 * 16 + b / 16) ∷ char_of (b % 16 * 4) ∷ []
encode_base64url (a ∷ b ∷ c ∷ rest) =
    char_of (a / 4)
    ∷ char_of (a % 4 * 16 + b / 16)
    ∷ char_of (b % 16 * 4 + c / 64)
    ∷ char_of (c % 64)
    ∷ encode_base64url rest

-- Buffer.from(value, 'base64url')
unfoldable pub buffer_from : Text → List ℕ
buffer_from [] = []
buffer_from (p ∷ []) = []
buffer_from (p ∷ q ∷ []) = (group_of p * 4 + group_of q / 16) ∷ []
buffer_from (p ∷ q ∷ r ∷ []) =
    (group_of p * 4 + group_of q / 16) ∷ (group_of q % 16 * 16 + group_of r / 4) ∷ []
buffer_from (p ∷ q ∷ r ∷ s ∷ rest) =
    (group_of p * 4 + group_of q / 16)
    ∷ (group_of q % 16 * 16 + group_of r / 4)
    ∷ (group_of r % 4 * 64 + group_of s)
    ∷ buffer_from rest

abbrev pub length_is : Option ℕ → List ℕ → Bool
length_is none bytes = true
length_is (some n) bytes = length bytes == n

-- decodeBase64Url(value, expectedLength)
unfoldable pub decode_base64url : Text → Option ℕ → Option (List ℕ)
decode_base64url value expected =
    if not (matches alphabet value) || some_of (λ c. c == b'=') value || length value % 4 == 1
    then none
    else if not (text_eq (encode_base64url (buffer_from value)) value)
    then none
    else if not (length_is expected (buffer_from value))
    then none
    else some (buffer_from value)

-- isCanonicalBase64Url(value, expectedLength); validB64 of validate.ts is the same on a JSON value.
unfoldable pub is_canonical_base64url : Option Json → Option ℕ → Bool
is_canonical_base64url (some (string value)) expected = is_some (decode_base64url value expected)
is_canonical_base64url _ expected = false
