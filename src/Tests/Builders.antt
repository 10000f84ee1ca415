-- ===== src/Tests/Builders.antt =====
-- The builders of artifacts, the issuer, the graph and the loop of chain on concrete inputs, and the
-- theorems applied to them.
use tesserra.Prelude.{
  ℕ, zero, suc, ◌≤◌, ◌≡◌, ◌⊎◌, ◌↔◌, refl, true, Option, some, none, List, [], ◌∷◌, arith, Text,
  codes,
}
use tesserra.Prelude.Int.{pos}
use tesserra.Json.{int, string, Members, end, Artifact, member}
use tesserra.Core.Artifacts.{KeyProvider, set_member, sign_artifact, delegation_draft}
use tesserra.Core.Artifacts.Signed.{IsSigner, sign_artifact-valid}
use tesserra.Core.Values.{id_of, kid_of, text_mem}
use tesserra.Core.Verify.Crypto.{signature_valid}
use tesserra.Protocol.Base64url.Roundtrip.{IsBytes}
use tesserra.Protocol.Ids.{artifact_id_for, key_id_for, policy_hash_for}
use tesserra.Service.Identity.{
  Answer, answered, refused, invalid_input, internal, Constraints, CreateIdentityInput,
  IdentityRepository, IdentityIssuer, list_agents,
}
use tesserra.Service.Identity.Pages.{list_agents-bounds}
use tesserra.Service.Issuer.{
  KeyStore, LocalCredentialAssembly, without_millis, seal, issue_for, issue, with_policy_hash,
}
use tesserra.Service.Issuer.Seals.{issue-valid, with_policy_hash-own}
use tesserra.Service.Workflows.{chain}
use tesserra.Service.Workflows.Ends.{GivesFrom, chain_ends}
use tesserra.Storage.Provenance.{reachable}
use tesserra.Storage.Provenance.Reaches.{Reaches, reachable_iff}
use tesserra.Storage.Records.{EdgeRow, Relation, empty_store}
use tesserra.Tests.Computes.{computes}
use tesserra.Tests.Online.{repository}
use tesserra.Tests.Samples.{
  runtime, repeat, key_members, service, reference, limits, root, request, delegation, record_of,
  snapshot_content, obj, text,
}
use tesserra.Tests.Verify.{verifies}

builds : Unit {0}
unfolding computes verifies set_member sign_artifact without_millis seal issue_for issue
    with_policy_hash
builds = tt

abbrev or_end : Option Members → Members
or_end none = end
or_end (some ms) = ms

-- A provider of one key, which signs everything with the same bytes.
abbrev provider : KeyProvider
provider = record {
  public_key = λ reference. some key_members;
  sign = λ reference message. some (repeat 64 0);
}

repeat-IsBytes : (n : ℕ) → IsBytes (repeat n 0)
repeat-IsBytes zero = tt
repeat-IsBytes (suc n) = (omega arith, repeat-IsBytes n)

provider-IsSigner : IsSigner runtime provider (codes "key")
unfolding IsSigner
provider-IsSigner jwk message signature at signed =
    let same : repeat 64 0 ≡ signature = cc signed in rw (← same) (repeat-IsBytes 64, refl, refl)

abbrev draft : Artifact
draft = delegation_draft (record {
  issued_at = codes "1970-01-02T00:00:00Z";
  delegator = service;
  delegate = service;
  parent_ref = reference root "credential";
  constraints = limits 1;
  signing_reference = codes "key";
})

abbrev made : Artifact
made = or_end (sign_artifact runtime provider (codes "key") draft)

signs : sign_artifact runtime provider (codes "key") draft ≡ some made
unfolding builds
signs = refl

sign_artifact-valid_example :
    (jwk : Members) × (some key_members ≡ some jwk)
    × (key_id_for runtime jwk ≡ some (kid_of made))
    × (artifact_id_for runtime made ≡ some (id_of made))
    × (signature_valid runtime made jwk ≡ true)
sign_artifact-valid_example =
    sign_artifact-valid runtime provider (codes "key") draft made provider-IsSigner signs

-- The same key for every subject, in a state of no content.
abbrev keys : KeyStore Text
keys = record {
  create = λ s. ((codes "subject", key_members), s);
  public_key = λ reference s. some key_members;
  sign = λ reference message s. some (repeat 64 0);
}

abbrev assembly : LocalCredentialAssembly Text
assembly = record {
  key_provider = keys;
  issuer = record_of (("type", text "service") ∷ ("id", text "svc") ∷ []);
  issuer_reference = codes "key";
}

abbrev ceiling : Constraints
ceiling = record {
  capabilities = text "read" ∷ [];
  resources = text "r" ∷ [];
  tasks = text "t" ∷ [];
  audiences = text "api" ∷ [];
  not_before = codes "1970-01-01T00:00:00Z";
  expires_at = codes "1970-01-03T00:00:00Z";
  remaining_depth = pos 1;
}

abbrev asked : CreateIdentityInput
asked = record {
  subject = obj (("scheme", text "agid") ∷ []);
  issuer = record_of (("type", text "service") ∷ []);
  authority_ceiling = ceiling;
  credential_purpose = none;
  idempotency_key = none;
}

abbrev answer_of : Answer (Option Artifact) → Artifact
answer_of (answered (some a)) = a
answer_of (answered none) = end
answer_of (refused code) = end

abbrev credential : Artifact
credential =
    answer_of (issue runtime (λ z. codes "1970-01-02T00:00:00.000Z") assembly asked (pos 0) []).0

issues :
    issue runtime (λ z. codes "1970-01-02T00:00:00.000Z") assembly asked (pos 0) []
    ≡ (answered (some credential), [])
unfolding builds
issues = refl

issue-valid_example :
    (jwk : Members) × (some key_members ≡ some jwk)
    × (key_id_for runtime jwk ≡ some (kid_of credential))
    × (artifact_id_for runtime credential ≡ some (id_of credential))
    × (signature_valid runtime credential jwk ≡ true)
issue-valid_example =
    issue-valid runtime (λ z. codes "1970-01-02T00:00:00.000Z") assembly asked (pos 0) [] []
      credential provider-IsSigner issues

abbrev policy : Members
policy = or_end (with_policy_hash runtime (record_of snapshot_content))

completes : with_policy_hash runtime (record_of snapshot_content) ≡ some policy
unfolding builds
completes = refl

with_policy_hash-own_example :
    (hash : Text) × (policy_hash_for runtime policy ≡ some hash)
    × (member "policy_hash" policy ≡ some (string hash))
with_policy_hash-own_example =
    with_policy_hash-own runtime (record_of snapshot_content) policy completes

-- A repository of no identities, and an issuer that is not there.
abbrev identities : IdentityRepository Text
identities = record {
  create = λ r key s. (answered r, s);
  get_by_idempotency = none;
  get = λ id s. none;
  list = λ cursor n s. record { items = []; next_cursor = none };
}

abbrev issuer : IdentityIssuer Text
issuer = record { issue = λ input now s. (refused internal, s) }

list_agents-bounds_example :
    (list_agents runtime (λ z. []) identities issuer none (some (int (pos 7))) []
      ≡ refused invalid_input)
    ⊎ ((n : ℕ) × (1 ≤ n)
        × (n ≤ 100)
        × (list_agents runtime (λ z. []) identities issuer none (some (int (pos 7))) []
            ≡ answered (identities.list none n [])))
list_agents-bounds_example =
    list_agents-bounds runtime (λ z. []) identities issuer none (some (int (pos 7))) []

given : GivesFrom repository empty_store (delegation ∷ root ∷ [])
unfolding GivesFrom
given id p h = (id, h)

chain_ends_example : (found : List Artifact) × (chain repository empty_store 3 request ≡ some found)
chain_ends_example = chain_ends repository empty_store (delegation ∷ root ∷ []) request given

abbrev edges : List EdgeRow
edges =
    (record { from_id = codes "a"; to_id = codes "b"; relation = Relation.authority })
    ∷ (record { from_id = codes "b"; to_id = codes "a"; relation = Relation.request })
    ∷ []

reachable_iff_example :
    (text_mem (codes "b") (reachable edges (codes "a")) ≡ true)
    ↔ Reaches edges (codes "a") (codes "b")
reachable_iff_example = reachable_iff edges (codes "a") (codes "b")
