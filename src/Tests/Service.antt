-- ===== src/Tests/Service.antt =====
-- The service on concrete inputs, and the theorems applied to them.
use tesserra.Prelude.{◌≡◌, ◌≢◌, ◌⊎◌, refl, true, some, [], ◌∷◌, arith, codes}
use tesserra.Prelude.Int.{ℤ, pos, negsuc}
use tesserra.Core.Result.{valid}
use tesserra.Core.Run.{returned}
use tesserra.Service.Workflows.{
  parent_in, collect, chain, reserve, decide, verify_evidence, replay_input,
  verify_request_with_replay,
}
use tesserra.Storage.Records.{Store, empty_store}
use tesserra.Storage.Replay.{core_consume, replay_key}
use tesserra.Tests.Computes.{computes}
use tesserra.Tests.Verify.{verifies}
use tesserra.Tests.Storage.{stores}
use tesserra.Tests.Online.{repository, request_input, accepted, repeated, daily, day}
use tesserra.Service.Workflows.Reserves.{IsReserved, valid_request-IsReserved}
use tesserra.Service.Workflows.Once.{accepted_once}
use tesserra.Storage.Replay.Once.{IsAscii, IsOrdered, all_happen}
use tesserra.Tests.Samples.{runtime}

runs : Unit {0}
unfolding computes verifies stores parent_in collect chain reserve decide verify_evidence
    verify_request_with_replay core_consume replay_key
runs = tt

abbrev once_consumed : Store
once_consumed = record empty_store {
  replays =
      (record {
        key = replay_key daily (replay_input request_input.request (pos 172800000));
        consumed_at = codes "1";
      })
      ∷ [];
}

answers_valid :
    verify_request_with_replay runtime repository 4 request_input empty_store
    ≡ some (returned accepted, once_consumed)
unfolding runs
answers_valid = refl

answers_repeated :
    verify_request_with_replay runtime repository 4 request_input once_consumed
    ≡ some (returned repeated, once_consumed)
unfolding runs
answers_repeated = refl

valid_request-IsReserved_example :
    IsReserved runtime repository request_input empty_store once_consumed
valid_request-IsReserved_example =
    valid_request-IsReserved runtime repository 4 request_input accepted empty_store once_consumed
      refl refl refl refl answers_valid

prints-IsAscii : (z : ℤ) → IsAscii (day z)
prints-IsAscii (pos n) = (omega arith, tt)
prints-IsAscii (negsuc n) = (omega arith, tt)

same_day : IsOrdered (codes "1") [] (codes "1")
unfolding runs IsOrdered
same_day = refl

nothing_between : once_consumed.replays ≡ all_happen [] once_consumed.replays
unfolding all_happen
nothing_between = refl

accepted_once_example : (repeated.code ≢ valid) ⊎ (repeated.valid ≢ true)
accepted_once_example =
    accepted_once runtime daily request_input.now request_input.now repository repository 4 4
      request_input request_input accepted repeated empty_store once_consumed once_consumed
      once_consumed [] prints-IsAscii refl refl refl refl refl refl refl answers_valid refl refl
      nothing_between same_day answers_repeated
