-- ===== src/Compiler/Handlers/Funding.antt =====
-- The gas that a call may hand to its callee: the observer, and the lemmas on the limit of that gas.
use evmjit.Prelude.{
  ℕ, ◌+◌, ◌-◌, ◌/◌, ◌%◌, ◌^◌, ◌≤◌, ◌<◌, ◌≡◌, ◌⊎◌, inl, inr, arith, leb, ◌==◌, Bool-cases,
  if◌then◌else◌,
}
use evmjit.Compiler.Emit.{Emit, Query, Effect, CallArgs, tell}
use evmjit.Ext
use evmjit.Compiler.Handlers.Calls.{limit_gas}
use evmjit.Compiler.Observer.{Observer, Always}
use evmjit.Compiler.Setting.{Setting, int64_max}
use evmjit.Gas.Schedule.{jit_schedule}
use evmjit.Gas.Dynamic.{clamp_cost}
open jit_schedule use {call_stipend}

-- The state: the gas counter when it was last read, and the last charge.
pub record Seen : Type 0 where
  pub gas : ℕ
  pub charge : ℕ

-- All of the gas but a 64th, from Tangerine Whistle on.
abbrev most_of : ℕ → ℕ
most_of gas = gas - gas / 64

-- CREATE hands over the gas of the caller; a call hands over the last charge, and a stipend of 2300
-- where it may transfer value. A charge of the maximum is left out: it takes all the gas there can be.
abbrev Funded : Setting → Seen → CallArgs → Type 0
Funded s seen args =
    if args.kind == s.kinds.create
    then args.gas ≡ (if leb s.evmc.tangerine_whistle s.rev then most_of seen.gas else seen.gas)
    else (seen.charge < int64_max
        → ((args.gas ≡ seen.charge) ⊎ (args.gas ≡ seen.charge + 2300))
          × (s.evmc.tangerine_whistle ≤ s.rev → seen.charge ≤ most_of seen.gas))

abbrev MayAsk : Setting → Seen → Query → Type 0
MayAsk s seen (Query.call args) = Funded s seen args
MayAsk s seen _ = Unit

abbrev seen_after : Seen → Effect → Seen
seen_after seen (Effect.count cost) = record seen { charge = cost }
seen_after seen _ = seen

abbrev gas_seen : Seen → Query → ℕ → Seen
gas_seen seen Query.gas v = record seen { gas = v }
gas_seen seen _ v = seen

abbrev pub funding : Setting → Observer Seen
funding s = record {
  may_ask = MayAsk s;
  asked = gas_seen;
  may_tell = λ seen f. Unit;
  told = seen_after;
}

-- The gas of a call in 64 bits.
declared :
    (limited stipend : ℕ)
    → stipend ≤ 2300
    → clamp_cost limited < int64_max
    → (limited % 2 ^ 64 + stipend) % 2 ^ 64 ≡ clamp_cost limited + stipend
unfolding clamp_cost
declared limited stipend small below = ground arith

clamp_cost-le : (limited : ℕ) → clamp_cost limited ≤ limited
unfolding clamp_cost
clamp_cost-le limited = ground arith

module _ (s : Setting) (post : Seen → ℕ → Type 0) (k : ℕ → Emit)
    (rest : (x : Seen) (r : ℕ) → Always (funding s) post x (k r)) where
  -- The call with a limit on its gas that has just been charged.
  call-funding :
      (gas kind limited stipend addr value in_off in_size out_off out_size : ℕ)
      → kind < s.kinds.create ⊎ s.kinds.create < kind
      → (stipend ≡ 0) ⊎ (stipend ≡ 2300)
      → (s.evmc.tangerine_whistle ≤ s.rev → limited ≤ most_of gas)
      → Always
          (funding s)
          post
          (record { gas = gas; charge = clamp_cost limited })
          (Ext.call s.is_le s.kinds kind
            (limited % 2 ^ 64 + stipend)
            addr
            value
            in_off
            in_size
            out_off
            out_size
            k)
  call-funding gas kind limited stipend addr value in_off in_size out_off out_size other fixed
        limit =
      let small : stipend ≤ 2300 = ground arith in
      let exact = declared limited stipend small in
      let below = clamp_cost-le limited in grind (arith, rest)

  pub limit_gas-funding :
      (seen : Seen) (kind call_gas stipend addr value in_off in_size out_off out_size : ℕ)
      → kind < s.kinds.create ⊎ s.kinds.create < kind
      → (stipend ≡ 0) ⊎ (stipend ≡ 2300)
      → Always (funding s) post seen (
          limit_gas s call_gas λ limited. tell (Effect.count (clamp_cost limited)) (
            Ext.call s.is_le s.kinds kind
              (limited % 2 ^ 64 + stipend)
              addr
              value
              in_off
              in_size
              out_off
              out_size
              k))
  limit_gas-funding seen kind call_gas stipend addr value in_off in_size out_off out_size other
        fixed =
      elim (Bool-cases (leb s.evmc.tangerine_whistle s.rev)) [
        | inl late ↦ rw late (
          tt,
          λ gas. (
            tt,
            call-funding gas kind _ stipend addr value in_off in_size out_off out_size other fixed
                λ since. ground arith,
          ),
        )
        | inr early ↦ rw early (
          tt,
          call-funding seen.gas kind call_gas stipend addr value in_off in_size out_off out_size
              other fixed λ since. ground arith,
        )
      ]
