-- ===== src/Core/Values.antt =====
-- The helpers on values and artifacts at the head of packages/core/src/verify.ts, which delegation.ts
-- declares once more.
use tesserra.Prelude.{
  Bool, false, not, ◌&&◌, Option, none, some, List, [], ◌∷◌, if◌then◌else◌, some_of, find, filter,
  sort_by, head?, Text, text_eq, String,
}
use tesserra.Prelude.Int.{ℤ, ltb_ℤ, leb_ℤ}
use tesserra.Json.{
  Json, string, object, Members, Artifact, member, as_object, as_array, as_string, is_literal,
  is_text,
}
use tesserra.Runtime.{Runtime}
use tesserra.Protocol.Timestamp.{instant}
use tesserra.Protocol.Canonical.{canonical_equal}
use tesserra.Protocol.Coerce.{to_integer}
use tesserra.Protocol.Validate.{valid_jwk}

-- left < right and left <= right where a side may be undefined or NaN
unfoldable pub less : Option ℤ → Option ℤ → Bool
less (some a) (some b) = ltb_ℤ a b
less _ _ = false

unfoldable pub at_most : Option ℤ → Option ℤ → Bool
at_most (some a) (some b) = leb_ℤ a b
at_most _ _ = false

-- array(value) ?? []
abbrev pub array_or_empty : Option Json → List Json
array_or_empty v = elim (as_array v) [ none ↦ [] | some vs ↦ vs ]

-- The objects among some values, in order.
unfoldable pub objects_of : List Json → List Members
objects_of [] = []
objects_of (object ms ∷ vs) = ms ∷ objects_of vs
objects_of (v ∷ vs) = objects_of vs

-- artifact.kind === 'literal'
abbrev pub is_kind : String → Artifact → Bool
is_kind kind a = is_literal kind (member "kind" a)

-- A text that the envelope check has made sure of.
abbrev pub text_or_empty : Option Json → Text
text_or_empty v = elim (as_string v) [ none ↦ [] | some s ↦ s ]

-- artifact.id
unfoldable pub id_of : Artifact → Text
id_of a = text_or_empty (member "id" a)

-- artifact.proof.kid
unfoldable pub kid_of : Artifact → Text
kid_of a = elim (as_object (member "proof" a)) [
  | none ↦ []
  | some proof ↦ text_or_empty (member "kid" proof)
]

-- The id as a result shows it.
abbrev pub shown_id : Artifact → Option Json
shown_id a = member "id" a

-- constraints(value)
unfoldable pub constraints : Artifact → Option Members
constraints a = elim (as_object (member "constraints" a)) [
  | some ms ↦ some ms
  | none ↦ as_object (member "authority_ceiling" a)
]

-- constraints(value)?.field
abbrev pub local_member : String → Artifact → Option Json
local_member key a = elim (constraints a) [ none ↦ none | some ms ↦ member key ms ]

-- jwk(value)
unfoldable pub jwk : Option Json → Option Members
jwk v = if valid_jwk v then as_object v else none

-- pinned?.public_jwk
abbrev pub jwk_of : Option Members → Option Members
jwk_of none = none
jwk_of (some ms) = jwk (member "public_jwk" ms)

-- trustKey(snapshot, keyId, role)
unfoldable pub trust_key : Members → Text → String → Option Members
trust_key snapshot key_id role =
    find (λ e. is_text key_id (member "key_id" e))
      (objects_of (array_or_empty (member role snapshot)))

-- Map.get on entries that are set in order: the last one of a key counts.
unfoldable pub map_get {ℓ} : {A : Type ℓ} → Text → List (Text × A) → Option A
map_get key [] = none
map_get key ((k, a) ∷ rest) = elim (map_get key rest) [
  | some b ↦ some b
  | none ↦ if text_eq k key then some a else none
]

-- artifacts.get(id), for artifacts whose ids differ
unfoldable pub find_id : Text → List Artifact → Option Artifact
find_id id = find (λ a. text_eq (id_of a) id)

-- [...new Set(texts)]
unfoldable pub distinct : List Text → List Text
distinct [] = []
distinct (t ∷ ts) = t ∷ filter (λ u. not (text_eq t u)) (distinct ts)

abbrev pub text_mem : Text → List Text → Bool
text_mem t ts = some_of (λ u. text_eq u t) ts

module _ (rt : Runtime) where
  -- Date.parse(text), `none` for NaN
  unfoldable pub date_parse : Text → Option ℤ
  date_parse s = elim (instant s) [ some t ↦ some t | none ↦ rt.other_date s ]

  -- at(value)
  unfoldable pub at : Option Json → Option ℤ
  at (some (string s)) = date_parse s
  at _ = none

  -- contains(values, expected)
  unfoldable pub contains : Option Json → Option Json → Bool
  contains values expected =
      some_of (λ v. canonical_equal rt (some v) expected) (array_or_empty values)

  -- (left, right) => Number(right.sequence) - Number(left.sequence): may left stand in front?
  abbrev pub sequence_descending : Artifact → Artifact → Bool
  sequence_descending left right =
      not (less (to_integer rt (member "sequence" left)) (to_integer rt (member "sequence" right)))

  abbrev pub sequence_ascending : Artifact → Artifact → Bool
  sequence_ascending left right =
      not (less (to_integer rt (member "sequence" right)) (to_integer rt (member "sequence" left)))

  abbrev pub is_status_of : Text → Artifact → Bool
  is_status_of key_id r = is_kind "key_status" r && is_text key_id (member "target_key_id" r)

  -- statusFor(records, keyId)
  unfoldable pub status_for : List Artifact → Text → Option Artifact
  status_for records key_id =
      head? (sort_by sequence_descending (filter (is_status_of key_id) records))
