-- ===== src/Gas/Meter.antt =====
-- `class GasMeter`: the checks that it emits while a block is compiled.
use evmjit.Prelude.{
  ℕ, zero, suc, ◌+◌, List, [], ◌∷◌, ◌++◌, Option, none, some, length, set, ◌==◌, ◌>>=◌,
  if◌then◌else◌,
}
use evmjit.Instruction.{Instruction}
use evmjit.Gas.Schedule.{Revisions, get_step_cost}
use evmjit.Gas.Check.{gas_check}

-- A call of `gas.check` in the emitted code, with its cost: a constant, undefined until the cost
-- block is committed, or the value that a cost has when the code runs.
pub data Check : Type 0 where
  static : Option ℕ → Check
  dynamic : ℕ → Check

-- `m_checkCall` is a position in the emitted code.
pub record GasMeter : Type 0 where
  pub check_call : Option ℕ
  pub block_cost : ℕ
  pub emitted : List Check

abbrev pub new_meter : GasMeter
new_meter = record { check_call = none; block_cost = 0; emitted = [] }

-- `eraseFromParent`.
abbrev pub erase_at : List Check → ℕ → List Check
erase_at [] k = []
erase_at (c ∷ code) zero = code
erase_at (c ∷ code) (suc k) = c ∷ erase_at code k

-- The call with the mocked cost, made at the beginning of a cost block.
abbrev pub with_check_call : GasMeter → GasMeter
with_check_call m = elim m.check_call [
  | some k ↦ m
  | none ↦ record m {
    check_call = some (length m.emitted);
    emitted = m.emitted ++ static none ∷ [];
  }
]

-- `commitCostBlock`.
unfoldable pub commit_cost_block : GasMeter → GasMeter
commit_cost_block m = elim m.check_call [
  | none ↦ m
  | some k ↦
      if m.block_cost == 0
      then record m { check_call = none; emitted = erase_at m.emitted k }
      else (record {
        check_call = none;
        block_cost = 0;
        emitted = set m.emitted k (static (some m.block_cost));
      })
]

-- `count` of a cost known when the code runs.
unfoldable pub count_value : ℕ → GasMeter → GasMeter
count_value cost m = record m { emitted = m.emitted ++ dynamic cost ∷ [] }

-- `countMemory`, which nothing calls: the words themselves, without the price of a word.
unfoldable count_memory : ℕ → GasMeter → GasMeter
unfolding count_value
count_memory additional_memory_in_words m = count_value additional_memory_in_words m

-- The calls that the compilation of a block makes on the gas meter.
pub data Call : Type 0 where
  instruction : Instruction → Call
  value : ℕ → Call
  commit : Call

-- The emitted checks, run one after the other on a gas counter. One whose cost is still undefined
-- has no outcome.
unfoldable pub run_checks : ℕ → List Check → Option ℕ
run_checks gas [] = some gas
run_checks gas (static none ∷ code) = none
run_checks gas (static (some cost) ∷ code) = gas_check gas cost >>= λ g. run_checks g code
run_checks gas (dynamic cost ∷ code) = gas_check gas cost >>= λ g. run_checks g code

module _ (evmc : Revisions) (rev : ℕ) where
  -- `count` of an instruction.
  unfoldable pub count : Instruction → GasMeter → GasMeter
  count inst m =
      let m' = with_check_call m in
      record m' { block_cost = m'.block_cost + get_step_cost evmc rev inst }

  unfoldable pub meter_calls : List Call → GasMeter → GasMeter
  meter_calls [] m = m
  meter_calls (instruction inst ∷ calls) m = meter_calls calls (count inst m)
  meter_calls (value cost ∷ calls) m = meter_calls calls (count_value cost m)
  meter_calls (commit ∷ calls) m = meter_calls calls (commit_cost_block m)
