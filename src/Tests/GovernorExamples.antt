-- ===== src/Tests/GovernorExamples.antt =====
-- The governor's theorems at the sample governor.
use stream_fi_contracts.Prelude.{◌≡◌, refl, some, arith, leb, if◌then◌else◌}
use stream_fi_contracts.Prelude.Int.{ltb_ℤ, checked_mul, ◌*ℤ◌}
use stream_fi_contracts.Prelude.Effect.{ok}
use stream_fi_contracts.Common.Pause
use stream_fi_contracts.Contract.{insert}
use stream_fi_contracts.Governor.Storage.{
  at_status, record_checkpoint, get_checkpoint_weight, matched_weight,
}
use stream_fi_contracts.Governor.Storage.Checkpoints.{
  AllUpTo, record_checkpoint-get_checkpoint_weight,
}
use stream_fi_contracts.Governor.Roles.{grant_role}
use stream_fi_contracts.Governor.Roles.Admins.{HasAdmins}
use stream_fi_contracts.Governor.Roles.Calls.{run_role, grant_one, run_role-HasAdmins}
use stream_fi_contracts.Governor.Types.{admin}
use stream_fi_contracts.Prelude.Lists.{length, member}
use stream_fi_contracts.Governor.Params.{set_min_duration}
use stream_fi_contracts.Governor.Params.Bounds.{set_param, InBounds, set_param-InBounds}
use stream_fi_contracts.Governor.Params.Bounds
use stream_fi_contracts.Governor.Proposals.{execute_proposal, cancel_proposal}
use stream_fi_contracts.Governor.Proposals.Execution.{Executes, execute_proposal-Executes}
use stream_fi_contracts.Governor.Proposals.Cancellation.{Cancels, cancel_proposal-Cancels}
use stream_fi_contracts.Tests.{test_host, change, test_transfer}
use stream_fi_contracts.Tests.GovernorSamples as Samples
use stream_fi_contracts.Tests.GovernorSamples.{author, executor, voter}

execute_runs : execute_proposal test_host executor 1 Samples.env ≡ ok tt Samples.done
unfolding execute_proposal insert change test_transfer at_status
execute_runs = refl

cancel_runs : cancel_proposal author 1 Samples.unsigned ≡ ok tt Samples.dropped
unfolding cancel_proposal insert
cancel_runs = refl

record_runs : record_checkpoint voter 11 Samples.env ≡ ok tt Samples.weighed
unfolding record_checkpoint
record_runs = refl

fee_runs : set_param author (Bounds.min_duration 7200) Samples.env ≡ ok tt Samples.fee
unfolding set_param set_min_duration checked_mul Pause.is_paused ◌*ℤ◌
fee_runs = refl

bounds : InBounds Samples.blank
unfolding ltb_ℤ checked_mul ◌*ℤ◌
bounds = record {
  fee = ground arith;
  shortest = ground arith;
  ordered = ground arith;
  rate = refl;
  fits = refl;
  quorum = ground arith;
}

execute_proposal-Executes_example :
    Executes test_host executor 1 Samples.proposal Samples.env Samples.done
execute_proposal-Executes_example =
    execute_proposal-Executes test_host executor 1 Samples.proposal Samples.env Samples.done refl
      execute_runs

cancel_proposal-Cancels_example : Cancels author 1 Samples.proposal Samples.unsigned Samples.dropped
cancel_proposal-Cancels_example =
    cancel_proposal-Cancels test_host author 1 Samples.proposal Samples.unsigned Samples.dropped
      refl cancel_runs

set_param-InBounds_example : InBounds Samples.fee.store
set_param-InBounds_example =
    set_param-InBounds author (Bounds.min_duration 7200) Samples.env Samples.fee bounds fee_runs

checkpoints-AllUpTo : AllUpTo 12 Samples.checkpoints
checkpoints-AllUpTo = (ground arith, (ground arith, tt))

record_checkpoint-get_checkpoint_weight_example :
    get_checkpoint_weight Samples.weighed.store voter 10
    ≡ some (if leb 12 10 then 11 else matched_weight 10 0 Samples.checkpoints)
record_checkpoint-get_checkpoint_weight_example =
    record_checkpoint-get_checkpoint_weight voter 11 10 Samples.checkpoints Samples.env
      Samples.weighed refl checkpoints-AllUpTo record_runs

joined_runs : run_role test_host author (grant_one admin voter) Samples.env ≡ ok tt Samples.joined
unfolding run_role grant_role
joined_runs = refl

registry : HasAdmins Samples.blank
unfolding length member
registry = record {
  counted = refl;
  single = (refl, tt);
  listed = λ a. ground arith;
  lasting = λ a r x. ground arith;
  governed = ground arith;
}

run_role-HasAdmins_example : HasAdmins Samples.joined.store
run_role-HasAdmins_example =
    run_role-HasAdmins test_host author (grant_one admin voter) Samples.env Samples.joined registry
      joined_runs
