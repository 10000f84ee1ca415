-- ===== src/Runtime.antt =====
-- What the program takes from Node and from the JavaScript engine and this development does not
-- define: SHA-256, Ed25519, URL parsing, locale order, and the conversions of rare values to texts and
-- numbers. They are the fields of one record, a parameter of the verifiers.
use tesserra.Prelude.{ℕ, Bool, Option, List, Text}
use tesserra.Prelude.Int.{ℤ}
use tesserra.Json.{Json, Number}

-- The parts of `new URL(text)` that the verifier reads.
pub record Url : Type 0 where
  pub protocol : Text
  pub hostname : Text
  pub port : Text
  pub username : Text
  pub password : Text
  pub search : Text
  pub hash : Text
  pub pathname : Text

pub record Runtime : Type 0 where
  -- createHash('sha256').update(bytes).digest()
  pub sha256 : List ℕ → List ℕ
  -- verify(null, message, createPublicKey(jwk), signature); `none` where either call throws
  pub verify_signature : (jwk : Json) (message signature : List ℕ) → Option Bool
  -- new URL(text); `none` where it throws
  pub parse_url : Text → Option Url
  -- text.toLowerCase()
  pub to_lower : Text → Text
  -- Date.parse of a text that is not of the form YYYY-MM-DDTHH:MM:SSZ; `none` for NaN
  pub other_date : Text → Option ℤ
  -- left.localeCompare(right) <= 0
  pub locale_le : Text → Text → Bool
  -- JSON.stringify and String() of a number that is no safe integer
  pub number_text : Number → Text
  -- String() of an array or an object
  pub container_text : Json → Text
  -- Number() of a text, an array or an object
  pub coerce_number : Json → Number
