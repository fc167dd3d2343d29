-- ===== src/Gas/Metering.antt =====
-- Gas checked once for each cost block, against charging every instruction where it stands.
use mathlib.Core.List.{append_assoc}
use evmjit.Prelude.{
  ℕ, ◌+◌, ◌-◌, ◌^◌, ◌<◌, ◌≡◌, refl, sym, ap, ◌∙◌, ◌⊎◌, inl, inr, List, [], ◌∷◌, ◌++◌, All, Option,
  none, some, length, set, ◌==◌, ◌>>=◌, Bool-cases, Option-cases, arith,
}
use evmjit.Instruction.{Instruction}
use evmjit.Gas.Schedule.{Revisions, get_step_cost}
use evmjit.Gas.Check.{spend}
use evmjit.Gas.Meter.{
  Check, static, dynamic, GasMeter, new_meter, erase_at, commit_cost_block, count_value, Call,
  instruction, value, commit, run_checks, count, meter_calls,
}
use evmjit.Gas.Checks.{
  IsDefined, total, total-append, All-append, set-middle, erase_at-middle, run_checks-spend,
}

-- No cost block is open, and the checks emitted come to `sum`.
record IsClosed (m : GasMeter) (sum : ℕ) : Type 0 where
  no_call : m.check_call ≡ none
  no_cost : m.block_cost ≡ 0
  defined : All IsDefined m.emitted
  comes_to : total m.emitted ≡ sum

-- A cost block is open: its check is the only one with no cost yet.
record IsOpen (m : GasMeter) (sum : ℕ) : Type 0 where
  before : List Check
  after : List Check
  at : m.check_call ≡ some (length before)
  code : m.emitted ≡ before ++ static none ∷ after
  before_defined : All IsDefined before
  after_defined : All IsDefined after
  comes_to : total before + total after + m.block_cost ≡ sum

abbrev IsMetered : GasMeter → ℕ → Type 0
IsMetered m sum = IsClosed m sum ⊎ IsOpen m sum

commit-IsClosed :
    (m : GasMeter) (sum : ℕ)
    → m.block_cost < 2 ^ 63
    → IsMetered m sum
    → IsClosed (commit_cost_block m) sum
unfolding commit_cost_block
commit-IsClosed m sum small (inl c) = rw (c.no_call, commit_cost_block) c
commit-IsClosed m sum small (inr o) = elim (Bool-cases (m.block_cost == 0)) [
  | inl nothing ↦
      let e : erase_at m.emitted (length o.before) ≡ o.before ++ o.after =
        ap (λ c. erase_at c (length o.before)) o.code
        ∙ erase_at-middle o.before o.after (static none) in
      rw (o.at, nothing, commit_cost_block)
        record {
          no_call = refl;
          no_cost = ground arith;
          defined = rw e (All-append o.before o.after o.before_defined o.after_defined);
          comes_to = rw (e, total-append) (ground (arith, o.comes_to));
        }
  | inr something ↦
      let e : set m.emitted (length o.before) (static (some m.block_cost))
          ≡ o.before ++ static (some m.block_cost) ∷ o.after =
        ap (λ c. set c (length o.before) (static (some m.block_cost))) o.code
        ∙ set-middle o.before o.after (static none) (static (some m.block_cost)) in
      rw (o.at, something, commit_cost_block)
        record {
          no_call = refl;
          no_cost = refl;
          defined = rw e (All-append o.before _ o.before_defined (small, o.after_defined));
          comes_to = rw (e, total-append) (omega (arith, o.comes_to));
        }
]

count_value-IsMetered :
    (cost : ℕ) (m : GasMeter) (sum : ℕ)
    → cost < 2 ^ 63
    → IsMetered m sum
    → IsMetered (count_value cost m) (sum + cost)
unfolding count_value
count_value-IsMetered cost m sum small (inl c) = inl record {
  no_call = c.no_call;
  no_cost = c.no_cost;
  defined = All-append m.emitted (dynamic cost ∷ []) c.defined (small, tt);
  comes_to = omega (arith, total-append m.emitted (dynamic cost ∷ []), c.comes_to);
}
count_value-IsMetered cost m sum small (inr o) = inr record {
  before = o.before;
  after = o.after ++ dynamic cost ∷ [];
  at = o.at;
  code = rw o.code (append_assoc o.before (static none ∷ o.after) (dynamic cost ∷ []));
  before_defined = o.before_defined;
  after_defined = All-append o.after (dynamic cost ∷ []) o.after_defined (small, tt);
  comes_to = omega (arith, total-append o.after (dynamic cost ∷ []), o.comes_to);
}

module _ (evmc : Revisions) (rev : ℕ) where
  count-IsMetered :
      (inst : Instruction) (m : GasMeter) (sum : ℕ)
      → IsMetered m sum
      → IsMetered (count evmc rev inst m) (sum + get_step_cost evmc rev inst)
  unfolding count
  count-IsMetered inst m sum (inl c) = inr (
      rw (c.no_call, count)
        record {
          before = m.emitted;
          after = [];
          at = refl;
          code = refl;
          before_defined = c.defined;
          after_defined = tt;
          comes_to = omega (arith, c.comes_to, c.no_cost);
        })
  count-IsMetered inst m sum (inr o) = inr (
      rw (o.at, count)
        record {
          before = o.before;
          after = o.after;
          at = refl;
          code = o.code;
          before_defined = o.before_defined;
          after_defined = o.after_defined;
          comes_to = omega (arith, o.comes_to);
        })

  count-block_cost :
      (inst : Instruction) (m : GasMeter)
      → (count evmc rev inst m).block_cost ≡ m.block_cost + get_step_cost evmc rev inst
  unfolding count
  count-block_cost inst m = elim (Option-cases m.check_call) [
    | inl absent ↦ rw (absent, count)
    | inr (k, present) ↦ rw (present, count)
  ]

  -- What a call adds to the cost of the code.
  unfoldable pub charge : Call → ℕ
  charge (instruction inst) = get_step_cost evmc rev inst
  charge (value cost) = cost
  charge commit = 0

  -- The gas left when every call is charged where it stands, or none once there is too little.
  unfoldable pub run_charges : ℕ → List Call → Option ℕ
  unfolding charge
  run_charges gas [] = some gas
  run_charges gas (c ∷ calls) = spend gas (charge c) >>= λ g. run_charges g calls

  -- The static costs of the instructions.
  abbrev pub static_cost : List Call → ℕ
  static_cost [] = 0
  static_cost (instruction inst ∷ calls) = get_step_cost evmc rev inst + static_cost calls
  static_cost (value cost ∷ calls) = static_cost calls
  static_cost (commit ∷ calls) = static_cost calls

  abbrev pub IsSmall : Call → Type 0
  IsSmall (instruction inst) = Unit
  IsSmall (value cost) = cost < 2 ^ 63
  IsSmall commit = Unit

  charges : List Call → ℕ
  charges [] = 0
  charges (c ∷ calls) = charge c + charges calls

  run_charges-spend :
      (calls : List Call) (gas : ℕ) → run_charges gas calls ≡ spend gas (charges calls)
  unfolding run_charges charges
  run_charges-spend [] gas = ground arith
  run_charges-spend (c ∷ calls) gas = ground (arith, run_charges-spend calls (gas - charge c))

  meter_calls-IsClosed :
      (calls : List Call) (m : GasMeter) (sum : ℕ)
      → IsMetered m sum
      → m.block_cost + static_cost calls < 2 ^ 63
      → All IsSmall calls
      → IsClosed (commit_cost_block (meter_calls evmc rev calls m)) (sum + charges calls)
  unfolding meter_calls charges charge
  meter_calls-IsClosed [] m sum h small values =
      let e : sum + 0 ≡ sum = omega arith in rw e (commit-IsClosed m sum (omega (arith, small)) h)
  meter_calls-IsClosed (instruction inst ∷ calls) m sum h small values =
      let cost : ℕ = get_step_cost evmc rev inst in
      let e : sum + (cost + charges calls) ≡ sum + cost + charges calls = omega arith in
      rw e (
        meter_calls-IsClosed calls (count evmc rev inst m) (sum + cost)
          (count-IsMetered inst m sum h) (omega (arith, small, count-block_cost inst m)) values.1)
  meter_calls-IsClosed (value cost ∷ calls) m sum h small values =
      let e : sum + (cost + charges calls) ≡ sum + cost + charges calls = omega arith in
      rw e (
        meter_calls-IsClosed calls (count_value cost m) (sum + cost)
          (count_value-IsMetered cost m sum values.0 h) (unfold count_value in small) values.1)
  meter_calls-IsClosed (commit ∷ calls) m sum h small values =
      let e : sum + (0 + charges calls) ≡ sum + charges calls = omega arith in
      let closed = commit-IsClosed m sum (omega (arith, small)) h in
      rw e (
        meter_calls-IsClosed calls (commit_cost_block m) sum (inl closed)
          (omega (arith, small, closed.no_cost)) values.1)

  -- For any calls that the compilation of code makes on the gas meter, with a commit at the end: the
  -- emitted checks leave the gas that charging each instruction and each cost in its place leaves,
  -- and run out of gas exactly when that does. The static costs together and each cost known at run
  -- time fit 63 bits, as does the gas.
  pub meter_calls-run_charges :
      (calls : List Call) (gas : ℕ)
      → gas < 2 ^ 63
      → static_cost calls < 2 ^ 63
      → All IsSmall calls
      → run_checks gas (commit_cost_block (meter_calls evmc rev calls new_meter)).emitted
        ≡ run_charges gas calls
  meter_calls-run_charges calls gas fits small values =
      let start : IsClosed new_meter 0 = record {
        no_call = refl;
        no_cost = refl;
        defined = tt;
        comes_to = refl;
      } in
      let closed =
        meter_calls-IsClosed calls new_meter 0 (inl start) (omega (arith, small)) values in
      let sum : 0 + charges calls ≡ charges calls = omega arith in
      run_checks-spend _ gas fits closed.defined
      ∙ ap (spend gas) (closed.comes_to ∙ sum)
      ∙ sym (run_charges-spend calls gas)
