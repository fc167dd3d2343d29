-- ===== src/Compiler/Handlers/Loop.antt =====
-- The loop over a block: from the code of each instruction to that of the whole block.
use evmjit.Prelude.{
  ℕ, zero, suc, ◌+◌, ◌-◌, ◌≤◌, ◌<◌, ◌≡◌, List, [], ◌∷◌, inl, inr, arith, ◌==◌, Bool-cases, ==_iff,
  bit_or, ◌*◌, ◌%◌, ◌^◌,
}
use evmjit.Instruction.{Instruction, decode, byte_at}
use evmjit.Instruction.PushData.{read_push_data, read_loop, num_bytes}
use evmjit.Compiler.Blocks.{BasicBlock}
use evmjit.Compiler.Emit.{Effect, tell, done, Emit}
use evmjit.Compiler.Handlers.{emit_instruction, emit_round, emit_loop, emit_block}
use evmjit.Compiler.Handlers.Control.{pop_topics, log}
use evmjit.Compiler.Observer.{Observer, Always, then_emit-Always}
use evmjit.Compiler.Setting.{Setting, invalid_instruction}
use evmjit.Ext
use evmjit.Gas.Dynamic.{clamp_cost, log_data_cost}

read_loop-bounds :
    (n : ℕ) (code : List ℕ) (end c v : ℕ)
    → c ≤ end
    → (c ≤ (read_loop n code end c v).1) × ((read_loop n code end c v).1 ≤ end)
unfolding read_loop
read_loop-bounds zero code end c v h = (omega arith, h)
read_loop-bounds (suc n) code end c v h = elim (Bool-cases (c == end)) [
  | inl at_end ↦ rw (read_loop, at_end) (read_loop-bounds n code end c _ h)
  | inr inside ↦
      let below : c + 1 ≤ end = ground arith in
      let (from, to) =
        read_loop-bounds n code end (c + 1) (bit_or (v * 2 ^ 8 % 2 ^ 256) (byte_at code c)) below in
      rw (read_loop, inside) (omega (arith, from), to)
]

-- The iterator stays in the block.
abbrev pub StaysIn : BasicBlock → ℕ → ℕ → Type 0
StaysIn block it it' = (it ≤ it') × (it' < block.end)

pub read_push_data-StaysIn :
    (code : List ℕ) (block : BasicBlock) (it : ℕ)
    → it < block.end
    → StaysIn block it (read_push_data code it block.end).1
unfolding read_push_data
read_push_data-StaysIn code block it h =
    let (from, to) =
      read_loop-bounds (num_bytes (byte_at code it)) code block.end (it + 1) 0 (omega arith) in
    (omega (arith, from), omega (arith, from, to))

module _ {S : Type 0} (o : Observer S) (post : S → ℕ → Type 0) (x : S) where
  pub pop_topics-Always :
      (n : ℕ) (k : List ℕ → Emit)
      → ((ts : List ℕ) → Always o post x (k ts))
      → Always o post x (pop_topics n k)
  unfolding pop_topics
  pop_topics-Always zero k rest = rest []
  pop_topics-Always (suc n) k rest = λ t. pop_topics-Always n (λ ts. k (t ∷ ts)) λ ts. rest (t ∷ ts)

-- The code of a log.
module _ {S : Type 0} (o : Observer S) (post : S → ℕ → Type 0) (x : S) where
  pub log-Always :
      (s : Setting) (block : BasicBlock) (n it : ℕ)
      → Always o post x (invalid_instruction block)
      → ((begin_idx num_bytes : ℕ)
          → let required = Effect.require begin_idx num_bytes in
            let counted = Effect.count (clamp_cost (log_data_cost num_bytes)) in
            let x' = o.told x required in
            o.may_tell x required
            × (o.may_tell x' counted
                × ((topics : List ℕ)
                    → Always o post
                        (o.told x' counted)
                        (Ext.log s.is_le begin_idx num_bytes topics (done it)))))
      → Always o post x (log s n block it)
  log-Always s block n it invalid rest = elim (Bool-cases s.static_call) [
    | inl static ↦ rw static invalid
    | inr writes ↦ rw writes λ begin_idx num_bytes.
        let (required, (counted, logged)) = rest begin_idx num_bytes in
        (required, (counted, pop_topics-Always o post _ n _ logged))
  ]

module _ {S : Type 0} (o : Observer S) (I Last : S → Type 0) (s : Setting) (block : BasicBlock)
    (each : (x : S) (inst : Instruction) (it : ℕ)
      → I x
      → it < block.end
      → Always o
          (λ x' it'. I x' × StaysIn block it it')
          x
          (tell (Effect.count_inst inst) (emit_instruction s block inst it)))
    (commits : (x : S) → I x → o.may_tell x Effect.commit × Last (o.told x Effect.commit)) where
  abbrev AtEnd : S → ℕ → Type 0
  AtEnd x it = Last x × (it ≡ block.end)

  emit_loop-Always :
      (fuel : ℕ) (x : S) (it : ℕ)
      → I x
      → it ≤ block.end
      → block.end - it < fuel
      → Always o AtEnd x (emit_loop s block fuel it)
  unfolding emit_loop emit_round
  emit_loop-Always zero x it ix below enough = absurd (omega arith)
  emit_loop-Always (suc fuel) x it ix below enough = elim (Bool-cases (it == block.end)) [
    | inl at_end ↦
        let (may, last) = commits x ix in rw at_end (may, (last, (==_iff it block.end).0 at_end))
    | inr inside ↦
        let before : it < block.end = ground arith in
        let here = each x (decode (byte_at s.code it)) it ix before in
        let rest =
          then_emit-Always o AtEnd (λ x' it'. I x' × StaysIn block it it')
            (λ it'. emit_loop s block fuel (it' + 1))
            (λ x' it' (ix', (from, to)).
              emit_loop-Always fuel x' (it' + 1) ix' (omega (arith, to))
                (omega (arith, from, to, enough)))
            x (emit_round s block it) here in
        rw inside rest
  ]

  pub emit_block-Always :
      (x : S) → I x → block.begin ≤ block.end → Always o AtEnd x (emit_block s block)
  unfolding emit_block
  emit_block-Always x ix ordered =
      emit_loop-Always (block.end - block.begin + 1) x block.begin ix ordered (omega arith)
