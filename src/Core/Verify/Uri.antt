-- ===== src/Core/Verify/Uri.antt =====
-- canonicalUri of packages/core/src/verify.ts.
use tesserra.Prelude.{
  ℕ, Bool, true, false, not, ◌&&◌, ◌||◌, none, some, List, [], ◌∷◌, ◌++◌, ◌==◌, if◌then◌else◌,
  some_of, Text, codes, text_eq,
}
use tesserra.Json.{Members, member, as_string, is_literal}
use tesserra.Runtime.{Runtime, Url}
use tesserra.Protocol.Regex.{class, star, within, one_of, matches}

-- value.split('/'), with the segment read so far
unfoldable pub split_from : Text → Text → List Text
split_from segment [] = segment ∷ []
split_from segment (c ∷ s) =
    let closed = split_from [] s in
    let longer = split_from (segment ++ (c ∷ [])) s in
    if c == b'/' then segment ∷ closed else longer

abbrev pub path_char : ℕ → Bool
path_char c =
    within b'A' b'Z' c || within b'a' b'z' c || within b'0' b'9' c || one_of (codes "._~/-") c

abbrev pub is_empty : Text → Bool
is_empty s = text_eq s []

-- The test of a parsed URL against the text that it was parsed from.
abbrev pub is_plain_url : Runtime → Text → Url → Bool
is_plain_url rt value url =
    text_eq url.protocol (codes "https:")
    && text_eq url.hostname (rt.to_lower url.hostname)
    && is_empty url.port
    && is_empty url.username
    && is_empty url.password
    && is_empty url.search
    && is_empty url.hash
    && not (some_of (λ c. c == b'%') value)
    && not (
        some_of (λ segment. text_eq segment (codes ".") || text_eq segment (codes ".."))
          (split_from [] value))
    && matches (star (class path_char)) url.pathname

-- canonicalUri(resource)
unfoldable pub canonical_uri : Runtime → Members → Bool
canonical_uri rt resource = elim (as_string (member "value" resource)) [
  | none ↦ true
  | some value ↦
      if is_literal "uri" (member "type" resource)
      then (elim (rt.parse_url value) [ none ↦ false | some url ↦ is_plain_url rt value url ])
      else true
]
