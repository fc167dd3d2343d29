-- ===== src/Optimizer.antt =====
-- `LowerEVMPass` of libevmjit/Optimizer.cpp, which puts calls of the functions of `Arith256` in place
-- of divisions of words and of remainders of 512 bits.
pub mod Laws
pub mod LongJmp
pub mod Tests
use evmjit.Prelude.{ℕ, Bool, true, false, List, [], ◌∷◌, Option, none, some, ◌==◌, if◌then◌else◌}

-- The operation codes that the pass knows, and all others.
pub data Opcode : Type 0 where
  udiv urem sdiv srem : Opcode
  other : ℕ → Opcode

-- An instruction of an integer type; its operands play no part.
pub record Inst : Type 0 where
  pub opcode : Opcode
  pub width : ℕ

pub data Func : Type 0 where
  udiv256 urem256 sdiv256 srem256 urem512 : Func

pub data Lowered : Type 0 where
  kept : Inst → Lowered
  called : Func → Lowered

-- The switch for the type of words.
abbrev pub word_func : Opcode → Option Func
word_func Opcode.udiv = some Func.udiv256
word_func Opcode.urem = some Func.urem256
word_func Opcode.sdiv = some Func.sdiv256
word_func Opcode.srem = some Func.srem256
word_func (Opcode.other n) = none

-- The switch for 512 bits.
abbrev pub wide_func : Opcode → Option Func
wide_func Opcode.urem = some Func.urem512
wide_func _ = none

-- `func` at the end of a round.
abbrev pub func_of : Inst → Option Func
func_of inst =
    if inst.width == 256
    then word_func inst.opcode
    else if inst.width == 512
    then wide_func inst.opcode
    else none

abbrev pub replaced : Inst → Option Func → Lowered
replaced inst none = Lowered.kept inst
replaced inst (some func) = Lowered.called func

abbrev pub is_call : Option Func → Bool
is_call none = false
is_call (some func) = true

-- The loop over the block: the block after it, and `modified`.
unfoldable pub run_on_basic_block : List Inst → List Lowered × Bool
run_on_basic_block [] = ([], false)
run_on_basic_block (inst ∷ bb) =
    let (lowered, modified) = run_on_basic_block bb in
    (replaced inst (func_of inst) ∷ lowered, if is_call (func_of inst) then true else modified)
