-- ===== src/Tests/Computes.antt =====
-- What the tests compute with: the definitions of packages/protocol and the small ones of packages/core.
use tesserra.Prelude.{text_eq, text_lt, pad_start}
use tesserra.Prelude.Int.{◌+ℤ◌, ◌-ℤ◌, ltb_ℤ, leb_ℤ, eqb_ℤ}
use tesserra.Json.{member_text, as_integer, number_eq, strict_eq}
use tesserra.Protocol.Regex.{nullable, derive, matches}
use tesserra.Protocol.Base64url.{
  is_base64url, char_of, group_of, encode_base64url, buffer_from, decode_base64url,
  is_canonical_base64url,
}
use tesserra.Protocol.Canonical.{
  are_unicode_scalars, decimal_digits, decimal, hex_digit, escape, escape_all, quote, join,
  sort_members, canonical_equal, utf8_scalar, utf8, canonical_bytes, omit, canonicalize,
}
use tesserra.Protocol.Ids.{
  prefixed_bytes, hash, key_id_for, artifact_id_for, policy_hash_for, status_hash_for, ascii,
  signing_input_for, sha256_digest_for, semantic_digest_for,
}
use tesserra.Protocol.Timestamp.{
  is_leap, days_in_month, is_calendar, seconds_of, instant, is_timestamp,
}
use tesserra.Protocol.Coerce.{to_text, to_integer, test}
use tesserra.Protocol.Validate.{
  fields, validate_outer_envelope, valid_resource, valid_jwk, valid_proof, valid_agent_id,
  valid_principal, valid_ref, valid_references, valid_provenance_subject, valid_digest_array,
  valid_provenance_predicate, valid_constraints,
}
use tesserra.Protocol.Validate.Kinds.{
  valid_credential, valid_delegation, valid_request, valid_key_status, valid_revocation,
  valid_key_rotation, valid_provenance, valid_kind, validate_artifact,
}
use tesserra.Core.Run.{◌>>=◌, ◌>>◌, stop_if, attempt, require, each}
use tesserra.Core.Values.{
  less, at_most, objects_of, id_of, kid_of, constraints, jwk, trust_key, map_get, find_id, distinct,
  date_parse, at, contains, status_for,
}
use tesserra.Core.Verify.Uri.{split_from, canonical_uri}

unfoldable pub computes : Unit {0}
unfolding text_eq text_lt pad_start ◌+ℤ◌ ◌-ℤ◌ ltb_ℤ leb_ℤ eqb_ℤ member_text as_integer number_eq
    strict_eq nullable derive matches is_base64url char_of group_of encode_base64url buffer_from
    decode_base64url is_canonical_base64url are_unicode_scalars decimal_digits decimal hex_digit
    escape escape_all quote join sort_members canonical_equal utf8_scalar utf8 canonical_bytes omit
    canonicalize prefixed_bytes hash key_id_for artifact_id_for policy_hash_for status_hash_for
    ascii signing_input_for sha256_digest_for semantic_digest_for is_leap days_in_month is_calendar
    seconds_of instant is_timestamp to_text to_integer test fields validate_outer_envelope
    valid_resource valid_jwk valid_proof valid_agent_id valid_principal valid_ref valid_references
    valid_provenance_subject valid_digest_array valid_provenance_predicate valid_constraints
    valid_credential valid_delegation valid_request valid_key_status valid_revocation
    valid_key_rotation valid_provenance valid_kind validate_artifact ◌>>=◌ ◌>>◌ stop_if attempt
    require each less at_most objects_of id_of kid_of constraints jwk trust_key map_get find_id
    distinct date_parse at contains status_for split_from canonical_uri
computes = tt
