-- ===== src/Instruction.antt =====
-- The bytecode instructions: `enum class Instruction: uint8_t` of libevmjit/Instruction.h.
-- Code is a list of bytes; an iterator into it is an index.
pub mod PushData
pub mod Tests
use evmjit.Prelude.{
  ℕ, zero, suc, ◌+◌, ◌-◌, ◌<◌, ◌≡◌, ◌&&◌, Bool, true, false, List, [], ◌∷◌, leb, ltb, ◌==◌,
  if◌then◌else◌, get_or, refl, arith, ==_iff,
}

-- The enumerators. `PUSHn`, `DUPn`, `SWAPn` and `LOGn` are one constructor each, with the number;
-- `MOD` is `umod`, since `mod` is reserved. A byte with no enumerator is `invalid`.
pub data Instruction : Type 0 where
  stop add mul sub div sdiv umod smod addmod mulmod exp signextend : Instruction
  lt gt slt sgt eq iszero and or xor not byte sha3 : Instruction
  address balance origin caller callvalue calldataload calldatasize calldatacopy : Instruction
  codesize codecopy gasprice extcodesize extcodecopy returndatasize returndatacopy : Instruction
  blockhash coinbase timestamp number difficulty gaslimit : Instruction
  pop mload mstore mstore8 sload sstore jump jumpi pc msize gas jumpdest : Instruction
  push dup swap log : ℕ → Instruction
  create call callcode return delegatecall staticcall revert suicide : Instruction
  invalid : ℕ → Instruction

-- The enumerators that follow one another from `first` on.
number_from : ℕ → List Instruction → ℕ → Instruction → Instruction
number_from first [] b otherwise = otherwise
number_from first (i ∷ is) b otherwise =
    if b == first then i else number_from (first + 1) is b otherwise

abbrev arithmetic : List Instruction
arithmetic =
    stop ∷ add ∷ mul ∷ sub ∷ div ∷ sdiv ∷ umod ∷ smod ∷ addmod ∷ mulmod ∷ exp ∷ signextend ∷ []

abbrev comparison : List Instruction
comparison = lt ∷ gt ∷ slt ∷ sgt ∷ eq ∷ iszero ∷ and ∷ or ∷ xor ∷ not ∷ byte ∷ []

abbrev environment : List Instruction
environment =
    address ∷ balance ∷ origin ∷ caller ∷ callvalue ∷ calldataload ∷ calldatasize ∷ calldatacopy
    ∷ codesize ∷ codecopy ∷ gasprice ∷ extcodesize ∷ extcodecopy ∷ returndatasize ∷ returndatacopy
    ∷ []

abbrev block_data : List Instruction
block_data = blockhash ∷ coinbase ∷ timestamp ∷ number ∷ difficulty ∷ gaslimit ∷ []

abbrev machine_state : List Instruction
machine_state =
    pop ∷ mload ∷ mstore ∷ mstore8 ∷ sload ∷ sstore ∷ jump ∷ jumpi ∷ pc ∷ msize ∷ gas ∷ jumpdest
    ∷ []

abbrev system : List Instruction
system = create ∷ call ∷ callcode ∷ return ∷ delegatecall ∷ []

-- `Instruction(b)` for a byte `b`.
unfoldable pub decode : ℕ → Instruction
unfolding number_from
decode b =
    if b == 0x20
    then sha3
    else if leb 0x60 b && leb b 0x7f
    then push (b - 0x60 + 1)
    else if leb 0x80 b && leb b 0x8f
    then dup (b - 0x80 + 1)
    else if leb 0x90 b && leb b 0x9f
    then swap (b - 0x90 + 1)
    else if leb 0xa0 b && leb b 0xa4
    then log (b - 0xa0)
    else if b == 0xfa
    then staticcall
    else if b == 0xfd
    then revert
    else if b == 0xff
    then suicide
    else number_from 0 arithmetic b (
        number_from 0x10 comparison b (
          number_from 0x30 environment b (
            number_from 0x40 block_data b
              (number_from 0x50 machine_state b (number_from 0xf0 system b (invalid b))))))

-- The enumerator's value.
unfoldable pub encode : Instruction → ℕ
encode stop = 0x00
encode add = 0x01
encode mul = 0x02
encode sub = 0x03
encode div = 0x04
encode sdiv = 0x05
encode umod = 0x06
encode smod = 0x07
encode addmod = 0x08
encode mulmod = 0x09
encode exp = 0x0a
encode signextend = 0x0b
encode lt = 0x10
encode gt = 0x11
encode slt = 0x12
encode sgt = 0x13
encode eq = 0x14
encode iszero = 0x15
encode and = 0x16
encode or = 0x17
encode xor = 0x18
encode not = 0x19
encode byte = 0x1a
encode sha3 = 0x20
encode address = 0x30
encode balance = 0x31
encode origin = 0x32
encode caller = 0x33
encode callvalue = 0x34
encode calldataload = 0x35
encode calldatasize = 0x36
encode calldatacopy = 0x37
encode codesize = 0x38
encode codecopy = 0x39
encode gasprice = 0x3a
encode extcodesize = 0x3b
encode extcodecopy = 0x3c
encode returndatasize = 0x3d
encode returndatacopy = 0x3e
encode blockhash = 0x40
encode coinbase = 0x41
encode timestamp = 0x42
encode number = 0x43
encode difficulty = 0x44
encode gaslimit = 0x45
encode pop = 0x50
encode mload = 0x51
encode mstore = 0x52
encode mstore8 = 0x53
encode sload = 0x54
encode sstore = 0x55
encode jump = 0x56
encode jumpi = 0x57
encode pc = 0x58
encode msize = 0x59
encode gas = 0x5a
encode jumpdest = 0x5b
encode (push n) = 0x60 + n - 1
encode (dup n) = 0x80 + n - 1
encode (swap n) = 0x90 + n - 1
encode (log n) = 0xa0 + n
encode create = 0xf0
encode call = 0xf1
encode callcode = 0xf2
encode return = 0xf3
encode delegatecall = 0xf4
encode staticcall = 0xfa
encode revert = 0xfd
encode suicide = 0xff
encode (invalid b) = b

-- `*_curr`. A read past the end is no read of the source: every use is guarded.
abbrev pub byte_at : List ℕ → ℕ → ℕ
byte_at code i = get_or code i 0

-- A table of truth values, one for each number below the bound, from the top down.
holds_for : (ℕ → Bool) → ℕ → Bool
holds_for test zero = true
holds_for test (suc top) = holds_for test top && test top

holds_at : (test : ℕ → Bool) (top b : ℕ) → b < top → holds_for test top ≡ true → test b ≡ true
unfolding holds_for
holds_at test (suc top) b below h = ground (arith, holds_at test top b)
holds_at test zero b below h = absurd (omega arith)

encode-decode_table : holds_for (λ b. encode (decode b) == b) 256 ≡ true
unfolding holds_for encode decode
encode-decode_table = refl

-- Every byte is the value of the enumerator, or of the `invalid` instruction, that it decodes to.
pub encode-decode : (b : ℕ) → b < 256 → encode (decode b) ≡ b
encode-decode b h = (==_iff _ b).0 (holds_at _ 256 b h encode-decode_table)
