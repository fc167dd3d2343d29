-- ===== src/Gas/Schedule.antt =====
-- The static costs: `JITSchedule` of libevmjit/JIT.h and `GasMeter::getStepCost` of
-- libevmjit/GasMeter.cpp.
use evmjit.Prelude.{ℕ, ◌+◌, ◌*◌, leb, if◌then◌else◌}
use evmjit.Instruction.{Instruction}

-- `struct JITSchedule`.
pub record Schedule : Type 0 where
  pub stack_limit : ℕ
  pub step_gas0 : ℕ
  pub step_gas1 : ℕ
  pub step_gas2 : ℕ
  pub step_gas3 : ℕ
  pub step_gas4 : ℕ
  pub step_gas5 : ℕ
  pub step_gas6 : ℕ
  pub step_gas7 : ℕ
  pub exp_byte_gas : ℕ
  pub sha3_gas : ℕ
  pub sha3_word_gas : ℕ
  pub sload_gas : ℕ
  pub sstore_set_gas : ℕ
  pub sstore_reset_gas : ℕ
  pub sstore_clear_gas : ℕ
  pub jumpdest_gas : ℕ
  pub log_gas : ℕ
  pub log_data_gas : ℕ
  pub log_topic_gas : ℕ
  pub create_gas : ℕ
  pub call_gas : ℕ
  pub memory_gas : ℕ
  pub copy_gas : ℕ
  pub value_transfer_gas : ℕ
  pub call_stipend : ℕ
  pub call_new_account : ℕ

abbrev pub jit_schedule : Schedule
jit_schedule = record {
  stack_limit = 1024;
  step_gas0 = 0;
  step_gas1 = 2;
  step_gas2 = 3;
  step_gas3 = 5;
  step_gas4 = 8;
  step_gas5 = 10;
  step_gas6 = 20;
  step_gas7 = 0;
  exp_byte_gas = 10;
  sha3_gas = 30;
  sha3_word_gas = 6;
  sload_gas = 50;
  sstore_set_gas = 20000;
  sstore_reset_gas = 5000;
  sstore_clear_gas = 5000;
  jumpdest_gas = 1;
  log_gas = 375;
  log_data_gas = 8;
  log_topic_gas = 375;
  create_gas = 32000;
  call_gas = 40;
  memory_gas = 3;
  copy_gas = 3;
  value_transfer_gas = 9000;
  call_stipend = 2300;
  call_new_account = 25000;
}

-- The numbers that evmc gives to the protocol revisions; evmc is not part of the repository.
pub record Revisions : Type 0 where
  pub homestead : ℕ
  pub tangerine_whistle : ℕ
  pub spurious_dragon : ℕ
  pub byzantium : ℕ
  pub constantinople : ℕ

open jit_schedule use {
  step_gas0, step_gas1, step_gas2, step_gas3, step_gas4, step_gas5, step_gas6, sha3_gas, sload_gas,
  jumpdest_gas, log_gas, log_topic_gas, create_gas, call_gas,
}

-- `m_rev >= first ? then_cost : cost`.
abbrev since : ℕ → ℕ → ℕ → ℕ → ℕ
since first rev then_cost cost = if leb first rev then then_cost else cost

module _ (evmc : Revisions) (rev : ℕ) where
  open evmc use {tangerine_whistle, constantinople}

  unfoldable pub get_step_cost : Instruction → ℕ
  get_step_cost Instruction.stop = step_gas0
  get_step_cost Instruction.return = step_gas0
  get_step_cost Instruction.revert = step_gas0
  get_step_cost Instruction.sstore = step_gas0
  get_step_cost Instruction.address = step_gas1
  get_step_cost Instruction.origin = step_gas1
  get_step_cost Instruction.caller = step_gas1
  get_step_cost Instruction.callvalue = step_gas1
  get_step_cost Instruction.calldatasize = step_gas1
  get_step_cost Instruction.returndatasize = step_gas1
  get_step_cost Instruction.codesize = step_gas1
  get_step_cost Instruction.gasprice = step_gas1
  get_step_cost Instruction.coinbase = step_gas1
  get_step_cost Instruction.timestamp = step_gas1
  get_step_cost Instruction.number = step_gas1
  get_step_cost Instruction.difficulty = step_gas1
  get_step_cost Instruction.gaslimit = step_gas1
  get_step_cost Instruction.pop = step_gas1
  get_step_cost Instruction.pc = step_gas1
  get_step_cost Instruction.msize = step_gas1
  get_step_cost Instruction.gas = step_gas1
  get_step_cost Instruction.add = step_gas2
  get_step_cost Instruction.sub = step_gas2
  get_step_cost Instruction.lt = step_gas2
  get_step_cost Instruction.gt = step_gas2
  get_step_cost Instruction.slt = step_gas2
  get_step_cost Instruction.sgt = step_gas2
  get_step_cost Instruction.eq = step_gas2
  get_step_cost Instruction.iszero = step_gas2
  get_step_cost Instruction.and = step_gas2
  get_step_cost Instruction.or = step_gas2
  get_step_cost Instruction.xor = step_gas2
  get_step_cost Instruction.not = step_gas2
  get_step_cost Instruction.byte = step_gas2
  get_step_cost Instruction.calldataload = step_gas2
  get_step_cost Instruction.calldatacopy = step_gas2
  get_step_cost Instruction.returndatacopy = step_gas2
  get_step_cost Instruction.codecopy = step_gas2
  get_step_cost Instruction.mload = step_gas2
  get_step_cost Instruction.mstore = step_gas2
  get_step_cost Instruction.mstore8 = step_gas2
  get_step_cost (Instruction.push n) = step_gas2
  get_step_cost (Instruction.dup n) = step_gas2
  get_step_cost (Instruction.swap n) = step_gas2
  get_step_cost Instruction.mul = step_gas3
  get_step_cost Instruction.div = step_gas3
  get_step_cost Instruction.sdiv = step_gas3
  get_step_cost Instruction.umod = step_gas3
  get_step_cost Instruction.smod = step_gas3
  get_step_cost Instruction.signextend = step_gas3
  get_step_cost Instruction.addmod = step_gas4
  get_step_cost Instruction.mulmod = step_gas4
  get_step_cost Instruction.jump = step_gas4
  get_step_cost Instruction.exp = step_gas5
  get_step_cost Instruction.jumpi = step_gas5
  get_step_cost Instruction.balance = since tangerine_whistle rev 400 step_gas6
  get_step_cost Instruction.extcodesize = since tangerine_whistle rev 700 step_gas6
  get_step_cost Instruction.extcodecopy = since tangerine_whistle rev 700 step_gas6
  get_step_cost Instruction.blockhash = since constantinople rev 800 step_gas6
  get_step_cost Instruction.sha3 = sha3_gas
  get_step_cost Instruction.sload = since tangerine_whistle rev 200 sload_gas
  get_step_cost Instruction.jumpdest = jumpdest_gas
  get_step_cost (Instruction.log n) = log_gas + n * log_topic_gas
  get_step_cost Instruction.call = since tangerine_whistle rev 700 call_gas
  get_step_cost Instruction.callcode = since tangerine_whistle rev 700 call_gas
  get_step_cost Instruction.delegatecall = since tangerine_whistle rev 700 call_gas
  get_step_cost Instruction.staticcall = since tangerine_whistle rev 700 call_gas
  get_step_cost Instruction.create = create_gas
  get_step_cost Instruction.suicide = since tangerine_whistle rev 5000 step_gas0
  get_step_cost (Instruction.invalid b) = 0
