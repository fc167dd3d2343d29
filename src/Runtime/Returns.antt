-- ===== src/Runtime/Returns.antt =====
-- RETURN and REVERT: from the handler, through the memory and the registered return data, to the result
-- that `execute` gives to the host.
use mathlib.Core.List.{append-nil}
use evmjit.Prelude.{
  ℕ, ◌+◌, ◌-◌, ◌%◌, ◌^◌, ◌≤◌, ◌<◌, ◌≡◌, ◌⊎◌, refl, sym, ap, ◌∙◌, true, List, [], ◌∷◌, ◌++◌, Option,
  none, some, inl, inr, length, take, drop, replicate, length-append, length-replicate, ltb, ltb→le,
  ◌==◌, Bool-cases, Option-cases, arith, if◌then◌else◌,
}
use evmjit.Compiler.Emit.{Emit, done, tell, Effect, ReturnCode}
use evmjit.Compiler.Handlers.Control.{register_and_exit}
use evmjit.Jit.{Result, StatusCode}
use evmjit.Jit.Execute.{Run, result_of, get_return_data, status_of, has_output}
use evmjit.Memory.Require.{price}
use evmjit.Memory.Expansion.{expand, expand_lem, mem_require-expand, size_bound}
use evmjit.Runtime.{Runtime, register_return_data, exit, require}
use evmjit.Runtime.Machine.{World, Outcome, returned, perform, run}

-- Memory of the size, with zeros behind what it held.
abbrev pub extended : List ℕ → ℕ → List ℕ
extended mem new_size = mem ++ replicate (new_size - length mem) 0

-- A result of the code, where the main function has returned.
abbrev pub result : Option Outcome → Option Result
result (some (returned left)) = some (result_of left)
result _ = none

get_return_data_lem :
    (left : Run) (offset size : ℕ)
    → left.mem_data + length left.mem < 2 ^ 64
    → (size ≡ 0) ⊎ (offset + size ≤ length left.mem)
    → left.return_data ≡ (left.mem_data + offset % 2 ^ 64) % 2 ^ 64
    → left.return_data_size ≡ size % 2 ^ 64
    → get_return_data left ≡ take size (drop offset left.mem)
unfolding get_return_data
get_return_data_lem left offset size fits held at same = elim (Bool-cases (size == 0)) [
  | inl nothing ↦
      let zero_size : size ≡ 0 = ground arith in
      let none_left : left.return_data_size ≡ 0 = omega (arith, same, zero_size) in
      rw (zero_size, none_left) (ground arith)
  | inr something ↦
      let inside : offset + size ≤ length left.mem = ground arith in
      let start : left.return_data ≡ left.mem_data + offset = ground arith in
      let exact : left.return_data_size ≡ size = omega (arith, same, inside, fits) in
      rw (start, exact, something) (ground arith)
]

extended-length : (mem : List ℕ) (n : ℕ) → length mem ≤ n → length (extended mem n) ≡ n
extended-length mem n h = omega (
  arith,
  length-append mem (replicate (n - length mem) 0),
  length-replicate {A = ℕ} (n - length mem) 0,
)

extended_same : (mem : List ℕ) (n : ℕ) → n ≤ length mem → extended mem n ≡ mem
extended_same mem n h = let e : n - length mem ≡ 0 = omega arith in rw e (append-nil mem)

abbrev out_of_gas : Result
out_of_gas = record { status_code = StatusCode.failure; gas_left = 0; output = [] }

-- The variables after a payment for an area.
abbrev grown : (ℕ → ℕ) → Runtime → ℕ → ℕ → Runtime
grown moved rt gas n =
    let larger = record rt { mem = extended rt.mem n; mem_data = moved n } in
    record (if ltb (length rt.mem) n then larger else rt) { gas = gas }

grown_lem :
    (moved : ℕ → ℕ) (rt : Runtime) (gas n : ℕ)
    → length rt.mem ≤ n
    → rt.mem_data + length rt.mem < 2 ^ 64
    → moved n + n < 2 ^ 64
    → ((grown moved rt gas n).mem ≡ extended rt.mem n)
      × ((grown moved rt gas n).mem_data + length (grown moved rt gas n).mem < 2 ^ 64)
grown_lem moved rt gas n larger fits fits' = elim (Bool-cases (ltb (length rt.mem) n)) [
  | inl grows ↦ rw grows (refl, omega (arith, extended-length rt.mem n larger))
  | inr stays ↦
      rw stays (ap (λ m. m) (sym (extended_same rt.mem n (ltb→le (length rt.mem) n stays))), fits)
]

module _ (w : World) (rt : Runtime) (whole : length rt.mem % 32 ≡ 0)
    (affordable : rt.gas + price (length rt.mem) < 2 ^ 47) where
  require_lem :
      (offset size : ℕ)
      → require w.moved offset size rt ≡ elim (expand rt.gas (length rt.mem) offset size) [
        | none ↦ none
        | some (gas, n) ↦ some (grown w.moved rt gas n)
      ]
  unfolding require
  require_lem offset size =
      rw (mem_require-expand rt.gas (length rt.mem) offset size whole affordable, require)
        (ground arith)

  -- The code from a demand for memory on.
  run-require :
      (offset size : ℕ) (e : Emit) (stack : List ℕ)
      → run w (tell (Effect.require offset size) e) stack rt
        ≡ elim (expand rt.gas (length rt.mem) offset size) [
          | none ↦ some (returned (exit ReturnCode.out_of_gas rt))
          | some (gas, n) ↦ run w e stack (grown w.moved rt gas n)
        ]
  unfolding run perform
  run-require offset size e stack = ground (arith, require_lem offset size)

  abbrev left_by : ReturnCode → (offset size gas n : ℕ) → Run
  left_by code offset size gas n =
      exit code (register_return_data (offset % 2 ^ 64) (size % 2 ^ 64) (grown w.moved rt gas n))

  output_lem :
      (code : ReturnCode) (offset size gas n : ℕ)
      → rt.mem_data + length rt.mem < 2 ^ 64
      → w.moved n + n < 2 ^ 64
      → length rt.mem ≤ n
      → (size ≡ 0) ⊎ (offset + size ≤ n)
      → get_return_data (left_by code offset size gas n)
        ≡ take size (drop offset (extended rt.mem n))
  unfolding exit register_return_data
  output_lem code offset size gas n fits fits' larger held =
      let (memory, room) = grown_lem w.moved rt gas n larger fits fits' in
      let held' : (size ≡ 0) ⊎ (offset + size ≤ length (grown w.moved rt gas n).mem) =
        rw memory (ground (arith, extended-length rt.mem n larger)) in
      get_return_data_lem (left_by code offset size gas n) offset size room held' refl
        (ground arith)
      ∙ ap (λ m. take size (drop offset m)) memory

  returns :
      (code : ReturnCode) (offset size gas n : ℕ)
      → has_output code ≡ true
      → rt.mem_data + length rt.mem < 2 ^ 64
      → w.moved n + n < 2 ^ 64
      → length rt.mem ≤ n
      → (size ≡ 0) ⊎ (offset + size ≤ n)
      → result_of (left_by code offset size gas n) ≡ record {
        status_code = status_of code;
        gas_left = gas;
        output = take size (drop offset (extended rt.mem n));
      }
  unfolding result_of
  returns code offset size gas n outputs fits fits' larger held =
      let bytes = output_lem code offset size gas n fits fits' larger held in
      unfold exit register_return_data in ground (arith, bytes)

  abort_result : result_of (exit ReturnCode.out_of_gas rt) ≡ out_of_gas
  unfolding result_of exit
  abort_result = refl

  -- RETURN and REVERT give the host the bytes of the area, from the memory with zeros behind what it held,
  -- and all the gas but the price of the expansion; where the gas does not pay for it, the result is a
  -- failure without gas and without output. This holds for every offset and size, also beyond 64 bits,
  -- where the memory has whole words, what it has cost and the gas are less than 2 ^ 47, and `realloc`
  -- gives no memory of less than 2 ^ 33 bytes that ends at 2 ^ 64 or behind.
  pub register_and_exit-result :
      (code : ReturnCode) (offset size it : ℕ) (stack : List ℕ)
      → has_output code ≡ true
      → rt.mem_data + length rt.mem < 2 ^ 64
      → ((n : ℕ) → n < 2 ^ 33 → w.moved n + n < 2 ^ 64)
      → result (run w (register_and_exit code it) (offset ∷ size ∷ stack) rt)
        ≡ some (elim (expand rt.gas (length rt.mem) offset size) [
          | none ↦ out_of_gas
          | some (gas, n) ↦ record {
            status_code = status_of code;
            gas_left = gas;
            output = take size (drop offset (extended rt.mem n));
          }
        ])
  unfolding run perform
  register_and_exit-result code offset size it stack outputs fits fits' =
      let rest : Emit =
        tell (Effect.return_data (offset % 2 ^ 64) (size % 2 ^ 64))
          (tell (Effect.exit code) (done it)) in
      elim (Option-cases (expand rt.gas (length rt.mem) offset size)) [
        | inl broke ↦
            let aborts = run-require offset size rest stack in
            rw broke (ap result (rw broke at aborts) ∙ ap some abort_result)
        | inr ((gas, n), paid) ↦
            let (larger, held, cost) = expand_lem rt.gas (length rt.mem) offset size gas n paid in
            let goes_on = run-require offset size rest stack in
            rw paid (
              ap result (rw paid at goes_on)
              ∙ ap some (
                  returns code offset size gas n outputs fits
                    (fits' n (size_bound n (omega (arith, cost, affordable)))) larger held))
      ]
