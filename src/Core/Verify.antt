-- ===== src/Core/Verify.antt =====
-- verifyArtifacts of packages/core/src/verify.ts: its stages, in child modules, in their order.
pub mod Input
pub mod Uri
pub mod Admission
pub mod Crypto
pub mod Trust
pub mod Chain
pub mod Status
pub mod Binding
pub mod Admits
pub mod Signs
pub mod Trusts
pub mod Walk
pub mod Resolves
pub mod Authority
pub mod Lives
pub mod Binds
pub mod Accepts
pub mod Authorizes
pub mod Reports
pub mod Reported
use tesserra.Json.{Artifact}
use tesserra.Runtime.{Runtime}
use tesserra.Core.Result.{VerificationResult}
use tesserra.Core.Run.{Run, ◌>>=◌, ◌>>◌, each, Outcome, outcome}
use Input.{VerificationInput, Setup, set_up}
use Admission.{admission}
use Crypto.{check_signature, find_request}
use Trust.{check_time, find_root}
use Chain.{find_chain, check_attenuation}
use Status.{check_status}
use Binding.{check_binding, check_replay}

module _ (rt : Runtime) where
  -- The stages behind the two hashes.
  unfoldable pub stages : Setup → Run VerificationResult
  stages s = do
    admission rt s
    each (check_signature rt s) s.input.artifacts
    request ← find_request rt s
    each (check_time rt s) s.input.artifacts
    root ← find_root rt s
    chain ← find_chain rt s root request
    check_attenuation rt s root chain
    check_status rt s chain
    check_binding rt s root request chain
    check_replay rt s root request chain

  unfoldable pub verify : VerificationInput → Run VerificationResult
  verify input = set_up rt input >>= stages

  -- verifyArtifacts(input)
  unfoldable pub verify_artifacts : VerificationInput → Outcome
  verify_artifacts input = outcome (verify input)
