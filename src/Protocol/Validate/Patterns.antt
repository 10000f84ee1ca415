-- ===== src/Protocol/Validate/Patterns.antt =====
-- The regular expressions of packages/protocol/src/validate.ts.
use tesserra.Prelude.{ℕ, Bool, ◌||◌, ◌==◌, codes}
use tesserra.Protocol.Regex.{
  Regex, class, between, seq, star, opt, some_times, exactly, literal, within, one_of,
}

abbrev lower : ℕ → Bool
lower = within b'a' b'z'

abbrev digit : ℕ → Bool
digit = within b'0' b'9'

abbrev lower_digit : ℕ → Bool
lower_digit c = lower c || digit c

abbrev hex : ℕ → Bool
hex c = digit c || within b'a' b'f' c

abbrev alphanumeric : ℕ → Bool
alphanumeric c = within b'A' b'Z' c || lower c || digit c

abbrev base64_char : ℕ → Bool
base64_char c = alphanumeric c || c == b'_' || c == b'-'

-- /^[0-9a-f]{8}-[0-9a-f]{4}-7[0-9a-f]{3}-[89ab][0-9a-f]{3}-[0-9a-f]{12}$/
abbrev pub uuid_v7 : Regex
uuid_v7 = seq (exactly 8 hex) (
    seq (literal "-") (
      seq (exactly 4 hex) (
        seq (literal "-7") (
          seq (exactly 3 hex) (
            seq (literal "-") (
              seq (class (one_of (codes "89ab")))
                (seq (exactly 3 hex) (seq (literal "-") (exactly 12 hex)))))))))

-- /^[a-z][a-z0-9]*(?:[._-][a-z0-9]+)*$/
abbrev pub action : Regex
action = seq (class lower) (
    seq (star (class lower_digit))
      (star (seq (class (one_of (codes "._-"))) (some_times lower_digit))))

abbrev audience_char : ℕ → Bool
audience_char c = lower_digit c || one_of (codes ".-") c

-- /^[a-z0-9][a-z0-9.-]{0,252}$/
abbrev pub audience : Regex
audience = seq (class lower_digit) (between 0 252 audience_char)

-- /^urn:agent-proof:v1:sha256:[A-Za-z0-9_-]{43}$/
abbrev pub artifact_id : Regex
artifact_id = seq (literal "urn:agent-proof:v1:sha256:") (exactly 43 base64_char)

-- /^urn:agent-proof:kid:v1:sha256:[A-Za-z0-9_-]{43}$/
abbrev pub key_id : Regex
key_id = seq (literal "urn:agent-proof:kid:v1:sha256:") (exactly 43 base64_char)

-- /^sha256:[A-Za-z0-9_-]{43}$/
abbrev pub digest : Regex
digest = seq (literal "sha256:") (exactly 43 base64_char)

abbrev principal_char : ℕ → Bool
principal_char c = alphanumeric c || one_of (codes "._:@/-") c

-- /^[A-Za-z0-9][A-Za-z0-9._:@/-]{2,254}$/
abbrev pub principal_id : Regex
principal_id = seq (class alphanumeric) (between 2 252 principal_char)

abbrev host_char : ℕ → Bool
host_char c = lower_digit c || c == b'-'

-- [a-z0-9](?:[a-z0-9-]{0,61}[a-z0-9])?
abbrev host_label : Regex
host_label = seq (class lower_digit) (opt (seq (between 0 61 host_char) (class lower_digit)))

-- /^label(?:\.label)*$/
abbrev pub authority : Regex
authority = seq host_label (star (seq (literal ".") host_label))

abbrev segment_char : ℕ → Bool
segment_char c = lower_digit c || one_of (codes "._-") c

-- /^[a-z0-9](?:[a-z0-9._-]{0,62})$/
abbrev pub path_segment : Regex
path_segment = seq (class lower_digit) (between 0 62 segment_char)
