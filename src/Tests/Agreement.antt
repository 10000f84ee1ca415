-- ===== src/Tests/Agreement.antt =====
-- Attenuation, evidence and signing inputs on the sample artifacts.
use tesserra.Prelude.{
  ℕ, suc, ◌≤◌, ◌≡◌, refl, true, not, ◌==◌, ◌&&◌, ltb, some, List, [], ◌∷◌, arith, every, length,
  reverse, Text, codes,
}
use tesserra.Json.{as_string, member}
use tesserra.Protocol.Ids.{signing_input_for}
use tesserra.Protocol.Ids.Separates.{signed_bytes, IsPlain, signing_input-separates}
use tesserra.Core.Verify.Chain.{some_amplifies}
use tesserra.Core.Verify.Crypto.{resolve}
use tesserra.Core.Verify.Resolves.{resolve_whole}
use tesserra.Core.Delegation.Chain.{some_amplifies_below}
use tesserra.Core.Delegation.Agrees.{some_amplifies-agree}
use tesserra.Tests.Computes.{computes}
use tesserra.Tests.Samples.{runtime, input, or_empty, root, delegation, request}

some_amplifies-agree_example :
    some_amplifies runtime (reverse (root ∷ delegation ∷ []))
    ≡ some_amplifies_below runtime root (delegation ∷ [])
some_amplifies-agree_example = some_amplifies-agree runtime root (delegation ∷ [])

four_rounds : suc (length input.artifacts) ≤ 9
four_rounds = omega arith

resolve_whole_example :
    resolve input.artifacts 9 request (request ∷ [])
    ≡ resolve input.artifacts (suc (length input.artifacts)) request (request ∷ [])
resolve_whole_example = resolve_whole input.artifacts request 9 four_rounds

text-IsPlain : (s : Text) → every (λ c. not (c == 0) && ltb c 256) s ≡ true → IsPlain s
text-IsPlain [] h = tt
text-IsPlain (c ∷ s) h =
    (((λ e. absurd (ground arith)), ground arith), text-IsPlain s (ground arith))

abbrev message : List ℕ
message = or_empty (signing_input_for runtime root)

root_kind : as_string (member "kind" root) ≡ some (codes "credential")
unfolding computes
root_kind = refl

has_message : signing_input_for runtime root ≡ some message
unfolding computes
has_message = refl

credential-IsPlain : IsPlain (codes "credential")
credential-IsPlain = text-IsPlain (codes "credential") refl

signing_input-separates_example :
    (codes "credential" ≡ codes "credential")
    × (c : List ℕ) × (signed_bytes runtime root ≡ some c)
    × (signed_bytes runtime root ≡ some c)
signing_input-separates_example =
    signing_input-separates runtime root root (codes "credential") (codes "credential") message
      root_kind root_kind credential-IsPlain credential-IsPlain has_message has_message
