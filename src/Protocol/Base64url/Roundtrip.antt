-- ===== src/Protocol/Base64url/Roundtrip.antt =====
-- Encoding and decoding are inverse on canonical texts.
use tesserra.Prelude.{
  ==_iff, ℕ, ◌+◌, ◌*◌, ◌/◌, ◌%◌, ◌<◌, ◌≡◌, refl, ap, ◌↔◌, true, false, Option, none, some, List, [],
  ◌∷◌, arith, All, ◌==◌, length, some_of, Text, text_eq_sound, text_eq_refl,
}
use tesserra.Protocol.Regex.{matches}
use tesserra.Protocol.Regex.Language.{Language, finish, again, is_class, matches_iff}
use tesserra.Protocol.Base64url.{
  is_base64url, alphabet, char_of, group_of, encode_base64url, buffer_from, decode_base64url,
  length_is,
}

abbrev pub IsBytes : List ℕ → Type 0
IsBytes bytes = All (λ b. b < 256) bytes

cons_path : {a b : ℕ} {s t : List ℕ} → a ≡ b → s ≡ t → ◌≡◌ {A = List ℕ} (a ∷ s) (b ∷ t)
cons_path e h = cc

cons₂ :
    {a b c d : ℕ} {s t : List ℕ} → a ≡ b → c ≡ d → s ≡ t → ◌≡◌ {A = List ℕ} (a ∷ c ∷ s) (b ∷ d ∷ t)
cons₂ e f h = cc

group_of-char_of : (n : ℕ) → n < 64 → group_of (char_of n) ≡ n
unfolding group_of char_of
group_of-char_of n h = ground arith

char_of-is_base64url : (n : ℕ) → n < 64 → is_base64url (char_of n) ≡ true
unfolding is_base64url char_of
char_of-is_base64url n h = ground arith

group_of-lt : (c : ℕ) → is_base64url c ≡ true → group_of c < 64
unfolding is_base64url group_of
group_of-lt c h = ground arith

pub buffer_from-encode :
    (bytes : List ℕ) → IsBytes bytes → buffer_from (encode_base64url bytes) ≡ bytes
unfolding buffer_from encode_base64url
buffer_from-encode [] h = refl
buffer_from-encode (a ∷ []) (ha, _) =
    rw (group_of-char_of (a / 4) (omega arith), group_of-char_of (a % 4 * 16) (omega arith))
      (ap (λ x. x ∷ []) (omega arith))
buffer_from-encode (a ∷ b ∷ []) (ha, (hb, _)) =
    rw
      (
        group_of-char_of (a / 4) (omega arith),
        group_of-char_of (a % 4 * 16 + b / 16) (omega arith),
        group_of-char_of (b % 16 * 4) (omega arith),
      )
      (cons₂ (omega arith) (omega arith) refl)
buffer_from-encode (a ∷ b ∷ c ∷ rest) (ha, (hb, (hc, hs))) =
    rw
      (
        group_of-char_of (a / 4) (omega arith),
        group_of-char_of (a % 4 * 16 + b / 16) (omega arith),
        group_of-char_of (b % 16 * 4 + c / 64) (omega arith),
        group_of-char_of (c % 64) (omega arith),
      )
      (cons₂ (omega arith) (omega arith) (cons_path (omega arith) (buffer_from-encode rest hs)))

encode-alphabet :
    (bytes : List ℕ) → IsBytes bytes → All (λ c. is_base64url c ≡ true) (encode_base64url bytes)
unfolding encode_base64url
encode-alphabet [] h = tt
encode-alphabet (a ∷ []) (ha, _) =
    (char_of-is_base64url _ (omega arith), (char_of-is_base64url _ (omega arith), tt))
encode-alphabet (a ∷ b ∷ []) (ha, (hb, _)) = (
  char_of-is_base64url _ (omega arith),
  (char_of-is_base64url _ (omega arith), (char_of-is_base64url _ (omega arith), tt)),
)
encode-alphabet (a ∷ b ∷ c ∷ rest) (ha, (hb, (hc, hs))) = (
  char_of-is_base64url _ (omega arith),
  (
    char_of-is_base64url _ (omega arith),
    (
      char_of-is_base64url _ (omega arith),
      (char_of-is_base64url _ (omega arith), encode-alphabet rest hs),
    ),
  ),
)

length-encode : (bytes : List ℕ) → (length (encode_base64url bytes) % 4 == 1) ≡ false
unfolding encode_base64url
length-encode [] = refl
length-encode (a ∷ []) = refl
length-encode (a ∷ b ∷ []) = refl
length-encode (a ∷ b ∷ c ∷ rest) = ground (arith, length-encode rest)

no_padding : (s : Text) → All (λ c. is_base64url c ≡ true) s → some_of (λ c. c == b'=') s ≡ false
unfolding is_base64url
no_padding [] h = refl
no_padding (c ∷ s) h = ground (arith, no_padding s h.1)

Alphabet : (s : Text) → All (λ c. is_base64url c ≡ true) s → Language alphabet s
Alphabet [] h = finish refl
Alphabet (c ∷ s) (hc, hs) = again (c ∷ []) s (is_class c hc refl) (Alphabet s hs) refl

encode-matches : (bytes : List ℕ) → IsBytes bytes → matches alphabet (encode_base64url bytes) ≡ true
encode-matches bytes h =
    (matches_iff alphabet (encode_base64url bytes)).1 (Alphabet _ (encode-alphabet bytes h))

-- Decoding the encoding of bytes gives the bytes back.
decode-encode :
    (bytes : List ℕ) → IsBytes bytes → decode_base64url (encode_base64url bytes) none ≡ some bytes
unfolding decode_base64url
decode-encode bytes h = rw (
  encode-matches bytes h,
  no_padding _ (encode-alphabet bytes h),
  length-encode bytes,
  buffer_from-encode bytes h,
  text_eq_refl (encode_base64url bytes),
)

pub decode-encode-length :
    (bytes : List ℕ)
    → IsBytes bytes
    → decode_base64url (encode_base64url bytes) (some (length bytes)) ≡ some bytes
unfolding decode_base64url
decode-encode-length bytes h = rw (
  encode-matches bytes h,
  no_padding _ (encode-alphabet bytes h),
  length-encode bytes,
  buffer_from-encode bytes h,
  text_eq_refl (encode_base64url bytes),
  (==_iff (length bytes) (length bytes)).1 refl,
)

-- A decoded text is the encoding of what it decodes to, of the length that was asked for.
pub decode-encodes :
    (value : Text) (n : Option ℕ) (bytes : List ℕ)
    → decode_base64url value n ≡ some bytes
    → (encode_base64url bytes ≡ value) × (length_is n bytes ≡ true)
unfolding decode_base64url
decode-encodes value n bytes h =
    ground (arith, text_eq_sound (encode_base64url (buffer_from value)) value)

-- A text decodes to given bytes exactly when it is the encoding of those bytes: no second text, padded
-- or with stray bits, stands for them.
pub decode_iff :
    (value : Text) (bytes : List ℕ)
    → IsBytes bytes
    → (decode_base64url value none ≡ some bytes) ↔ (encode_base64url bytes ≡ value)
decode_iff value bytes h =
    (λ e. (decode-encodes value none bytes e).0, λ e. rw (← e) (decode-encode bytes h))
