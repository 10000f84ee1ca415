-- ===== src/Core/Delegation/Accepts.antt =====
-- What a VALID result of verifyDelegationChain stands for, and that it always comes to an end.
use tesserra.Prelude.{◌≡◌, ◌≢◌, refl, not, some, List, ◌∷◌, All, String, ap, ◌∙◌}
use tesserra.Json.{Json, Artifact}
use tesserra.Runtime.{Runtime}
use tesserra.Core.Result.{valid, is_valid, VerificationResult}
use tesserra.Core.Run.{returned, unfinished}
use tesserra.Core.Run.Sound.{
  Sound, passes, Sound-bind, Sound-map, Sound-then, Sound-attempt, Sound-each, outcome-valid,
  outcome-finished,
}
use tesserra.Core.Verify.Input.{policy_hash}
use tesserra.Core.Verify.Admits.{IsIdentified, IsSupported}
use tesserra.Core.Verify.Authority.{IsLimited, Grants}
use tesserra.Core.Delegation.Input.{
  DelegationInput, DelegationSetup, delegation_status_hash, all_artifacts, evidence, set_up,
}
use tesserra.Core.Delegation.Chain.{only, leaves}
use tesserra.Core.Delegation.Status.{conclude}
use tesserra.Core.Delegation.Stands.{
  parse-IsIdentified, version-IsSupported, HasRoots, check_roots-HasRoots, IsAuthentic,
  check_signature-IsAuthentic, IsCurrent, check_time-IsCurrent, IsTrusted, check_trust-IsTrusted,
  IsReferring, check_references-IsReferring,
}
use tesserra.Core.Delegation.Climbs.{IsAscent, begin, climbed, IsResolved, find_chain-IsResolved}
use tesserra.Core.Delegation.Narrows.{Narrows, check_attenuation-Narrows, leaf_of, Narrows-Grants}
use tesserra.Core.Delegation.Lives.{IsLive, check_status-IsLive}
use tesserra.Core.Delegation.{delegation_stages, verify_delegation, verify_delegation_chain}

-- The evidence that a VALID result rests on.
pub record IsAccepted (rt : Runtime) (s : DelegationSetup) (r : VerificationResult) : Type 0 where
  pub chain : List Artifact
  pub identified : All (IsIdentified rt) (all_artifacts s.input)
  pub supported : All (IsSupported rt) (all_artifacts s.input)
  pub roots : HasRoots s
  pub authentic : All (IsAuthentic rt s) (all_artifacts s.input)
  pub current : All (IsCurrent rt s) (all_artifacts s.input)
  pub trusted : IsTrusted rt s
  pub referring : All (IsReferring s) s.input.delegations
  pub resolved : IsResolved rt s chain
  pub narrows : Narrows rt s.input.root_credential chain
  pub live : IsLive rt s chain
  pub ids : r.evidence_ids ≡ evidence s.input.root_credential chain
  pub fresh : r.status_fresh ≡ not s.input.offline_inspection

stages-IsAccepted :
    (rt : Runtime) (s : DelegationSetup) → Sound (IsAccepted rt s) (delegation_stages rt s)
unfolding delegation_stages conclude
stages-IsAccepted rt s =
    Sound-then (Sound-each (all_artifacts s.input) (parse-IsIdentified rt s)) λ identified.
      Sound-then (Sound-each (all_artifacts s.input) (version-IsSupported rt s)) λ supported.
        Sound-then (check_roots-HasRoots rt s) λ roots.
          Sound-then (Sound-each (all_artifacts s.input) (check_signature-IsAuthentic rt s))
            λ authentic.
              Sound-then (Sound-each (all_artifacts s.input) (check_time-IsCurrent rt s)) λ current.
                Sound-then (check_trust-IsTrusted rt s) λ trusted.
                  Sound-then (Sound-each s.input.delegations (check_references-IsReferring s))
                    λ referring. Sound-bind (find_chain-IsResolved rt s) λ chain resolved.
                      Sound-then (check_attenuation-Narrows rt s chain) λ narrows.
                        Sound-then (check_status-IsLive rt s chain) λ live. passes (record {
                          chain = chain;
                          identified = identified;
                          supported = supported;
                          roots = roots;
                          authentic = authentic;
                          current = current;
                          trusted = trusted;
                          referring = referring;
                          resolved = resolved;
                          narrows = narrows;
                          live = live;
                          ids = refl;
                          fresh = refl;
                        })

-- The setup of a run, whose hashes are those of the input, together with what its result rests on.
pub record Acceptance (rt : Runtime) (input : DelegationInput) (r : VerificationResult)
    : Type 0 where
  pub setup : DelegationSetup
  pub same : setup.input ≡ input
  pub policy : policy_hash rt input.trust_snapshot ≡ some setup.policy_hash
  pub status : delegation_status_hash rt input.status_evidence ≡ some setup.status_hash
  pub accepted : IsAccepted rt setup r

verify-Acceptance :
    (rt : Runtime) (input : DelegationInput)
    → Sound (Acceptance rt input) (verify_delegation rt input)
unfolding verify_delegation set_up
verify-Acceptance rt input =
    Sound-bind
      {P = λ s.
        (s.input ≡ input)
        × (policy_hash rt input.trust_snapshot ≡ some s.policy_hash)
        × (delegation_status_hash rt input.status_evidence ≡ some s.status_hash)}
      (Sound-bind (Sound-attempt _)
        λ policy p. Sound-bind (Sound-attempt _) λ status q. passes (refl, p, q))
      λ s (same, p, q).
        Sound-map (λ r a. record { setup = s; same = same; policy = p; status = q; accepted = a })
          (stages-IsAccepted rt s)

-- A result VALID of verifyDelegationChain rests on complete evidence: every artifact is identified by
-- its content, schema-valid, signed by a pinned or credentialed key, and current; the root is pinned and
-- listed; every delegation refers to an artifact of the input; there is one leaf, and the chain above it,
-- without repetition and within the depth bound, is grounded in the root and narrows at each step; and
-- its keys are usable and nothing of it revoked.
pub valid_delegation-Acceptance :
    (rt : Runtime) (input : DelegationInput) (r : VerificationResult)
    → verify_delegation_chain rt input ≡ returned r
    → r.code ≡ valid
    → Acceptance rt input r
unfolding verify_delegation_chain
valid_delegation-Acceptance rt input r h v =
    outcome-valid r (verify-Acceptance rt input) h (ap is_valid v)

-- verifyDelegationChain returns or throws on every input: its climb from the leaf never runs out.
pub verify_delegation_chain_ends :
    (rt : Runtime) (input : DelegationInput) → verify_delegation_chain rt input ≢ unfinished
unfolding verify_delegation_chain
verify_delegation_chain_ends rt input = outcome-finished (verify-Acceptance rt input)

-- The leaf that an ascent starts from is the last artifact of its chain.
ascent-leaf :
    {rt : Runtime} {s : DelegationSetup} {leaf : Artifact} {chain : List Artifact} (root : Artifact)
    → IsAscent rt s leaf chain
    → leaf_of root chain ≡ leaf
unfolding leaf_of
ascent-leaf root begin = refl
ascent-leaf root (climbed {parent} below referred kind issued new) = ascent-leaf parent below

accepted-leaf :
    (rt : Runtime) (s : DelegationSetup) (r : VerificationResult) (leaf : Artifact)
    (a : IsAccepted rt s r)
    → only (leaves s.input.delegations) ≡ some leaf
    → leaf_of s.input.root_credential a.chain ≡ leaf
accepted-leaf rt s r leaf a e =
    let same : a.resolved.leaf ≡ leaf = cc (a.resolved.only_leaf, e) in
    ap (leaf_of s.input.root_credential) a.resolved.grounded.same
    ∙ (ascent-leaf s.input.root_credential a.resolved.grounded.ascent ∙ same)

-- The chain of a run, as an ascent through its input from the one leaf to the root that narrows at each
-- step, and the value that all of it grants under a field.
pub record IsGranted (rt : Runtime) (input : DelegationInput) (r : VerificationResult)
    (field : String) (v : Json) : Type 0 where
  pub setup : DelegationSetup
  pub same : setup.input ≡ input
  pub chain : List Artifact
  pub resolved : IsResolved rt setup chain
  pub narrows : Narrows rt setup.input.root_credential chain
  pub ids : r.evidence_ids ≡ evidence input.root_credential chain
  pub granted : All (Grants rt field v) (input.root_credential ∷ chain)

accepted-IsGranted :
    (rt : Runtime) (s : DelegationSetup) (r : VerificationResult) (leaf : Artifact) (field : String)
    (v : Json)
    → IsAccepted rt s r
    → only (leaves s.input.delegations) ≡ some leaf
    → IsLimited field
    → Grants rt field v leaf
    → IsGranted rt s.input r field v
accepted-IsGranted rt s r leaf field v a e limited g =
    let last = accepted-leaf rt s r leaf a e in
    record {
      setup = s;
      same = refl;
      chain = a.chain;
      resolved = a.resolved;
      narrows = a.narrows;
      ids = a.ids;
      granted =
          Narrows-Grants rt field v s.input.root_credential a.chain limited a.narrows (rw last g);
    }

-- Where verifyDelegationChain returns VALID, its result names the chain that ascends through the input,
-- parent by parent, from the one leaf of the delegations to the root; each delegation of that chain is
-- narrower than the one before it, the first than the root credential; and whatever value of a limited
-- list the leaf grants, the root credential and every delegation of the chain grant.
pub valid_delegation-grants :
    (rt : Runtime) (input : DelegationInput) (r : VerificationResult) (leaf : Artifact)
    (field : String) (v : Json)
    → verify_delegation_chain rt input ≡ returned r
    → r.code ≡ valid
    → only (leaves input.delegations) ≡ some leaf
    → IsLimited field
    → Grants rt field v leaf
    → IsGranted rt input r field v
valid_delegation-grants rt input r leaf field v h ok e limited g =
    let a = valid_delegation-Acceptance rt input r h ok in
    let granted = accepted-IsGranted rt a.setup r leaf field v a.accepted (rw a.same e) limited g in
    rw a.same at granted
