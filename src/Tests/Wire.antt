-- ===== src/Tests/Wire.antt =====
-- Texts and values of the wire format on concrete inputs.
use tesserra.Prelude.{◌≡◌, ◌↔◌, refl, none, some, [], ◌∷◌, codes, arith, text_eq}
use tesserra.Json.{string, object, Members, end, entry}
use tesserra.Protocol.Base64url.{encode_base64url, decode_base64url}
use tesserra.Protocol.Base64url.Roundtrip.{decode_iff}
use tesserra.Protocol.Canonical.{canonicalize}
use tesserra.Protocol.Canonical.Reorders.{
  itself, objects, Reordered, no_members, kept, swapped, chained, canonicalize-Same,
}
use tesserra.Protocol.Ids.{artifact_id_for, policy_hash_for, signing_input_for, semantic_digest_for}
use tesserra.Protocol.Ids.Reorders.{addresses-Reordered}
use tesserra.Tests.Samples.{runtime}

decode_iff_example :
    (decode_base64url (codes "AAH_") none ≡ some (0 ∷ 1 ∷ 255 ∷ []))
    ↔ (encode_base64url (0 ∷ 1 ∷ 255 ∷ []) ≡ codes "AAH_")
decode_iff_example =
    decode_iff (codes "AAH_") (0 ∷ 1 ∷ 255 ∷ []) (omega arith, (omega arith, (omega arith, tt)))

abbrev resource : Members
resource =
    entry (codes "name") (string (codes "file")) (entry (codes "type") (string (codes "x")) end)

abbrev resource_turned : Members
resource_turned =
    entry (codes "type") (string (codes "x")) (entry (codes "name") (string (codes "file")) end)

abbrev written : Members
written =
    entry (codes "kind") (string (codes "request")) (entry (codes "resource") (object resource) end)

abbrev rewritten : Members
rewritten =
    entry (codes "resource") (object resource_turned)
      (entry (codes "kind") (string (codes "request")) end)

resource-Reordered : Reordered resource resource_turned
unfolding text_eq
resource-Reordered = swapped refl

written-Reordered : Reordered written rewritten
unfolding text_eq
written-Reordered =
    chained
      (kept (itself (string (codes "request"))) (kept (objects resource-Reordered) no_members))
      (swapped refl)

canonicalize-Same_example :
    canonicalize runtime (object written) ≡ canonicalize runtime (object rewritten)
canonicalize-Same_example =
    canonicalize-Same runtime (object written) (object rewritten) (objects written-Reordered)

addresses-Reordered_example :
    (artifact_id_for runtime written ≡ artifact_id_for runtime rewritten)
    × (semantic_digest_for runtime written ≡ semantic_digest_for runtime rewritten)
    × (signing_input_for runtime written ≡ signing_input_for runtime rewritten)
    × (policy_hash_for runtime written ≡ policy_hash_for runtime rewritten)
addresses-Reordered_example = addresses-Reordered runtime written rewritten written-Reordered
