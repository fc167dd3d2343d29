-- ===== src/Gas/Tests.antt =====
-- Gas at concrete costs.
use evmjit.Prelude.{◌*◌, ◌^◌, ◌≡◌, refl, List, [], ◌∷◌, some, arith}
use evmjit.Instruction.{Instruction}
use evmjit.Gas.Schedule.{Revisions, get_step_cost}
use evmjit.Gas.Check.{gas_check, spend}
use evmjit.Gas.Meter.{
  Call, instruction, value, commit, new_meter, commit_cost_block, meter_calls, run_checks,
}
use evmjit.Gas.Metering.{run_charges, meter_calls-run_charges}
use evmjit.Gas.Dynamic.{clamp_cost, log_data_cost, log_data_cost-spend}

-- Numbers in the order of the revisions.
abbrev numbers : Revisions
numbers = record {
  homestead = 1;
  tangerine_whistle = 2;
  spurious_dragon = 3;
  byzantium = 4;
  constantinople = 5;
}

-- PUSH1, PUSH1, EXP with a cost known at run time, GAS, STOP.
abbrev calls : List Call
calls =
    instruction (Instruction.push 1)
    ∷ instruction (Instruction.push 1)
    ∷ instruction Instruction.exp
    ∷ value 50
    ∷ instruction Instruction.gas
    ∷ commit
    ∷ instruction Instruction.stop
    ∷ []

charged : run_charges numbers 3 100 calls ≡ some 32
unfolding run_charges get_step_cost
charged = refl

meter_calls-run_charges_example :
    run_checks 100 (commit_cost_block (meter_calls numbers 3 calls new_meter)).emitted
    ≡ run_charges numbers 3 100 calls
unfolding get_step_cost
meter_calls-run_charges_example =
    meter_calls-run_charges numbers 3 calls 100 (omega arith) (omega arith)
      (tt, (tt, (tt, (omega arith, (tt, (tt, (tt, tt)))))))

log_data_cost-spend_example :
    gas_check 10 (clamp_cost (log_data_cost (2 ^ 100))) ≡ spend 10 (2 ^ 100 * 8)
log_data_cost-spend_example = log_data_cost-spend 10 (2 ^ 100) (omega arith) (omega arith)
