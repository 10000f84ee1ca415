-- ===== src/Storage/Guards.antt =====
-- The checks of packages/storage-sqlite/src/sqlite-storage.ts on what enters the tables.
use tesserra.Prelude.{
  ℕ, Bool, true, false, not, ◌&&◌, ◌||◌, Option, none, some, List, [], ◌∷◌, some_of, Text, codes,
  text_eq, String, ◌+◌,
}
use tesserra.Json.{
  Json, array, object, Items, nil, cons, Members, end, entry, member, is_some, is_string,
  is_literal,
}
use tesserra.Storage.Engine.{Engine}
use tesserra.Storage.Result.{
  Result, ◌>>◌, throw_if, empty_field, private_material, not_public_jwk, prohibited_field,
}

abbrev pub is_empty : Text → Bool
is_empty s = text_eq s []

-- nonEmpty(value, name)
unfoldable pub non_empty : Text → Result (Unit {0})
non_empty value = throw_if (is_empty value) empty_field

-- isObject(value) && value.kty === 'OKP' && value.crv === 'Ed25519' && typeof value.x === 'string'
unfoldable pub is_public_jwk : Json → Bool
is_public_jwk (object ms) =
    is_literal "OKP" (member "kty" ms)
    && is_literal "Ed25519" (member "crv" ms)
    && is_string (member "x" ms)
is_public_jwk v = false

abbrev pub jwk_private_members : List String
jwk_private_members = "d" ∷ "k" ∷ "p" ∷ "q" ∷ "dp" ∷ "dq" ∷ "qi" ∷ "oth" ∷ []

abbrev pub has_member : Json → String → Bool
has_member (object ms) name = is_some (member name ms)
has_member v name = false

-- assertPublicEd25519Jwk(value)
unfoldable pub assert_public_jwk : Json → Result (Unit {0})
assert_public_jwk v = do
  throw_if (not (is_public_jwk v)) not_public_jwk
  throw_if (some_of (has_member v) jwk_private_members) private_material

-- walk(value) throws: some object in the value has a member whose key is prohibited.
unfoldable mutual
  pub some_key : (Text → Bool) → Json → Bool
  some_key bad (array vs) = some_key_in bad vs
  some_key bad (object ms) = some_key_of bad ms
  some_key bad v = false

  pub some_key_in : (Text → Bool) → Items → Bool
  some_key_in bad nil = false
  some_key_in bad (cons v vs) = some_key bad v || some_key_in bad vs

  pub some_key_of : (Text → Bool) → Members → Bool
  some_key_of bad end = false
  some_key_of bad (entry k v ms) = bad k || some_key bad v || some_key_of bad ms

abbrev pub private_names : List String
private_names =
    "d" ∷ "k" ∷ "p" ∷ "q" ∷ "dp" ∷ "dq" ∷ "qi" ∷ "oth" ∷ "private_key" ∷ "passphrase" ∷ "secret"
    ∷ []

-- prohibited.has(key.toLowerCase())
unfoldable pub is_private_name : Engine → Text → Bool
is_private_name e k = some_of (λ name. text_eq (codes name) (e.runtime.to_lower k)) private_names

-- assertNoPrivateMaterial(value)
unfoldable pub assert_no_private_material : Engine → Json → Result (Unit {0})
assert_no_private_material e v = throw_if (some_key (is_private_name e) v) private_material

-- One letter against a small letter of the pattern, under the flag i
abbrev pub same_letter : ℕ → ℕ → Bool
same_letter a c = text_eq (a ∷ []) (c ∷ []) || text_eq (a ∷ []) ((c + 32) ∷ [])

abbrev pub starts_with : Text → Text → Bool
starts_with [] t = true
starts_with (a ∷ s) [] = false
starts_with (a ∷ s) (c ∷ t) = same_letter a c && starts_with s t

abbrev pub contains_word : Text → Text → Bool
contains_word word [] = starts_with word []
contains_word word (c ∷ t) = starts_with word (c ∷ t) || contains_word word t

-- /private|secret|token|passphrase|password|authorization|payload|nonce/i.test(key)
unfoldable pub is_prohibited_name : Text → Bool
is_prohibited_name k =
    some_of (λ word. contains_word (codes word) k)
      ("private" ∷ "secret" ∷ "token" ∷ "passphrase" ∷ "password" ∷ "authorization" ∷ "payload"
        ∷ "nonce" ∷ [])

-- assertRedacted(value)
unfoldable pub assert_redacted : Option Json → Result (Unit {0})
assert_redacted none = Result.ok tt
assert_redacted (some v) = throw_if (some_key is_prohibited_name v) prohibited_field
