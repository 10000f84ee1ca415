-- ===== src/Core/Delegation.antt =====
-- verifyDelegationChain of packages/core/src/delegation.ts: its stages, in child modules.
pub mod Input
pub mod Stages
pub mod Chain
pub mod Status
pub mod Climbs
pub mod Narrows
pub mod Lives
pub mod Stands
pub mod Accepts
pub mod Agrees
use tesserra.Prelude.{List, ◌∷◌}
use tesserra.Json.{Artifact}
use tesserra.Runtime.{Runtime}
use tesserra.Core.Result.{VerificationResult}
use tesserra.Core.Run.{Run, ◌>>=◌, ◌>>◌, each, Outcome, outcome}
use Input.{DelegationInput, DelegationSetup, set_up, all_artifacts}
use Stages.{parse_artifact, version_artifact, check_roots, check_signature, check_time, check_trust}
use Chain.{check_references, find_chain, check_attenuation}
use Status.{check_status, conclude}

module _ (rt : Runtime) where
  unfoldable pub delegation_stages : DelegationSetup → Run VerificationResult
  delegation_stages s = do
    each (parse_artifact rt s) (all_artifacts s.input)
    each (version_artifact rt s) (all_artifacts s.input)
    check_roots rt s
    each (check_signature rt s) (all_artifacts s.input)
    each (check_time rt s) (all_artifacts s.input)
    check_trust rt s
    each (check_references s) s.input.delegations
    chain ← find_chain rt s
    check_attenuation rt s chain
    check_status rt s chain
    conclude s chain

  unfoldable pub verify_delegation : DelegationInput → Run VerificationResult
  verify_delegation input = set_up rt input >>= delegation_stages

  -- verifyDelegationChain(input)
  unfoldable pub verify_delegation_chain : DelegationInput → Outcome
  verify_delegation_chain input = outcome (verify_delegation input)
