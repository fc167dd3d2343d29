-- ===== src/LocalStack.antt =====
-- `class LocalStack` of libevmjit/BasicBlock.h and .cpp, and the function `stack.prepare` that it
-- emits. While a basic block is compiled, the stack items that the block handles are kept as values;
-- items below them are loaded from the global stack when they are first needed, and `finalize`
-- stores what has to be stored. The model runs the emitted loads and stores at once: `load idx`
-- stands for the load from slot `-idx - 1` relative to `sp`. All loads of a block come before the
-- stores of `finalize`, so each reads the stack as it was when the block was entered.
pub mod Program
pub mod Finalize
pub mod View
pub mod Get
pub mod Stored
pub mod Steps
pub mod Exchange
pub mod Swap
pub mod Refines
pub mod Tests
use mathlib.Core.Option
use evmjit.Prelude.{
  ℕ, zero, suc, ◌+◌, ◌-◌, ◌<◌, Bool, ◌&&◌, false, List, [], ◌∷◌, Option, none, some, length,
  get_elem?, set as set_elem, ltb, leb, if◌then◌else◌,
}
use evmjit.Prelude.Int.{ℤ, pos, negsuc, pos_part, sub_ℕ, ◌+ℤ◌, leb_ℤ, min_ℤ, max_ℤ}

-- `m_input` starts with the top of the global stack. `m_local` is kept top first: `m_local.rbegin()`
-- is the head of the list.
pub record LocalStack (V : Type 0) : Type 0 where
  pub input : List (Option V)
  pub local : List V
  pub global_pops : ℕ
  pub min_size : ℤ
  pub max_size : ℤ

abbrev pub empty : {V : Type 0} → LocalStack V
empty = record { input = []; local = []; global_pops = 0; min_size = pos 0; max_size = pos 0 }

module _ {V : Type 0} where
  abbrev pub size : LocalStack V → ℤ
  size s = sub_ℕ (length s.local) s.global_pops

  -- `m_input[idx]`, null where nothing has been fetched.
  unfoldable pub item : List (Option V) → ℕ → Option V
  item [] idx = none
  item (x ∷ input) zero = x
  item (x ∷ input) (suc idx) = item input idx

  -- `std::vector::resize`.
  unfoldable pub resize : List (Option V) → ℕ → List (Option V)
  resize input zero = []
  resize [] (suc n) = none ∷ resize [] n
  resize (x ∷ input) (suc n) = x ∷ resize input n

  unfoldable pub push : V → LocalStack V → LocalStack V
  push value s =
      let s' = record s { local = value ∷ s.local } in
      record s' { max_size = max_ℤ s'.max_size (size s') }

  -- The part of `get` below the local items.
  unfoldable pub fetch : (ℕ → V) → ℕ → LocalStack V → V × LocalStack V
  unfolding item resize
  fetch load idx s =
      let input = if leb (length s.input) idx then resize s.input (idx + 1) else s.input in
      elim (item input idx) [
        | some v ↦ (v, record s { input = input })
        | none ↦ (
          load idx,
          record s {
            input = set_elem input idx (some (load idx));
            min_size = min_ℤ s.min_size (negsuc idx);
          },
        )
      ]

  unfoldable pub get : (ℕ → V) → ℕ → LocalStack V → V × LocalStack V
  unfolding fetch
  get load index s = elim (get_elem? s.local index) [
    | some v ↦ (v, s)
    | none ↦ fetch load (index - length s.local + s.global_pops) s
  ]

  unfoldable pub set : ℕ → V → LocalStack V → LocalStack V
  set index word s =
      if ltb index (length s.local)
      then record s { local = set_elem s.local index word }
      else (record s {
        input = set_elem s.input (index - length s.local + s.global_pops) (some word);
      })

  -- `if (m_local.size() > 0) m_local.pop_back(); else ++m_globalPops;`
  unfoldable pub remove_top : List V → LocalStack V → LocalStack V
  remove_top (x ∷ below) s = record s { local = below }
  remove_top [] s = record s { global_pops = s.global_pops + 1 }

  unfoldable pub pop : (ℕ → V) → LocalStack V → V × LocalStack V
  unfolding get remove_top
  pop load s =
      let (top, s₁) = get load 0 s in
      let s₂ = remove_top s₁.local s₁ in (top, record s₂ { min_size = min_ℤ s₂.min_size (size s₂) })

  unfoldable pub dup : (ℕ → V) → ℕ → LocalStack V → LocalStack V
  unfolding get push
  dup load index s = let (val, s₁) = get load index s in push val s₁

  unfoldable pub swap : (ℕ → V) → ℕ → LocalStack V → LocalStack V
  unfolding get set
  swap load index s =
      let (val, s₁) = get load index s in
      let (tos, s₂) = get load 0 s₁ in set 0 val (set index tos s₂)

-- `RuntimeManager::stackSizeLimit`.
abbrev pub stack_size_limit : ℕ
stack_size_limit = 1024

-- `icmp ule` on a sum that is not negative as a signed number, or else above every small limit.
abbrev pub ule : ℤ → ℕ → Bool
ule (pos n) limit = leb n limit
ule (negsuc n) limit = false

-- The function `stack.prepare`: the size of the global stack after the block, or none where it jumps
-- to the block that aborts. The sums stay far below the width of 64 bits: sizes are at most 1024,
-- and a block moves the size by less than its own length.
unfoldable pub stack_prepare : ℕ → ℤ → ℤ → ℤ → Option ℕ
unfolding leb_ℤ ◌+ℤ◌
stack_prepare size min max diff =
    if leb_ℤ (pos 0) (pos size +ℤ min) && ule (pos size +ℤ max) stack_size_limit
    then some (pos_part (pos size +ℤ diff))
    else none
