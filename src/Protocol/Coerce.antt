-- ===== src/Protocol/Coerce.antt =====
-- JavaScript's conversions where the source applies String(), Number() or a RegExp to a JSON value.
use tesserra.Prelude.{Bool, true, false, Option, none, some, Text, codes, if◌then◌else◌}
use tesserra.Prelude.Int.{ℤ, pos}
use tesserra.Json.{Number, int, Json, null, boolean, number, string, is_safe}
use tesserra.Runtime.{Runtime}
use tesserra.Protocol.Canonical.{decimal}
use tesserra.Protocol.Regex.{Regex, matches}

abbrev pub number_integer : Number → Option ℤ
number_integer (int z) = some z
number_integer _ = none

module _ (rt : Runtime) where
  -- String(value)
  unfoldable pub to_text : Option Json → Text
  to_text none = codes "undefined"
  to_text (some null) = codes "null"
  to_text (some (boolean true)) = codes "true"
  to_text (some (boolean false)) = codes "false"
  to_text (some (number (int z))) = if is_safe z then decimal z else rt.number_text (int z)
  to_text (some (number n)) = rt.number_text n
  to_text (some (string s)) = s
  to_text (some v) = rt.container_text v

  -- Number(value), where it is an integer; `none` stands for NaN, with which every order is false.
  -- The values that are ordered have passed `integer` before, so no fraction reaches this.
  unfoldable pub to_integer : Option Json → Option ℤ
  to_integer none = none
  to_integer (some null) = some (pos 0)
  to_integer (some (boolean true)) = some (pos 1)
  to_integer (some (boolean false)) = some (pos 0)
  to_integer (some (number n)) = number_integer n
  to_integer (some v) = number_integer (rt.coerce_number v)

  -- pattern.test(value as string)
  unfoldable pub test : Regex → Option Json → Bool
  test pattern v = matches pattern (to_text v)
