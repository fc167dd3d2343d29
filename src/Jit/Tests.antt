-- ===== src/Jit/Tests.antt =====
-- Tests and examples for the interface of the JIT.
use evmjit.Prelude.{
  ℕ, ◌<◌, ◌≡◌, true, false, List, [], ◌∷◌, refl, arith, none, some, length, if◌then◌else◌,
}
use evmjit.Compiler.Emit.{ReturnCode}
use evmjit.Compiler.Setting.{call_succeeded, call_gas_left}
use evmjit.Jit.{
  Jit, Message, Kind, Revision, Result, StatusCode, empty_entry, make_code_id, get_exec_func,
  to_char,
}
use evmjit.Jit.Calls.{call_result, call_succeeded-call_result}
use evmjit.Jit.CodeId.{make_code_id-same}
use evmjit.Jit.Execute.{
  ToolChain, Run, execute, run_func, compile_and_run, compile, result_of, get_return_data,
}
use evmjit.Jit.Execute.Counting.{after, execute_msg, execute-threshold}
use evmjit.Jit.Execute.Messages.{is_early, execute-current_msg}

abbrev hash : List ℕ
hash = 255 ∷ 16 ∷ []

abbrev msg : Message
msg = record {
  destination = 7;
  sender = 8;
  value = 0;
  input = [];
  code_hash = hash;
  gas = 100;
  depth = 1;
  is_static = false;
  kind = Kind.call;
}

-- A tool chain whose modules and functions are numbers, and code that spends one unit of gas.
abbrev tools : ToolChain ℕ ℕ
tools = record {
  get_object = λ id. none;
  compile_module = λ rev static_call code id. length code;
  optimize = λ m. m;
  prepare = λ m. m;
  get_function_address = λ id m. some 1;
  section_size = λ m. 10;
}

abbrev run : ℕ → Message → Jit ℕ → Run × Jit ℕ
run func m j = (
  record {
    return_code = ReturnCode.return;
    gas = 99;
    mem_data = 1000;
    mem = 5 ∷ 6 ∷ 7 ∷ [];
    return_data = 1001;
    return_data_size = 2;
  },
  j,
)

abbrev jit : Jit ℕ
jit = record {
  code_map = λ id. empty_entry;
  host = none;
  current_msg = none;
  return_buffer = [];
  code_buffer = [];
  hit_threshold = 2;
  total_memory_size = 0;
}

abbrev executed : ℕ → Result
executed n =
    (execute_msg tools true run 3 Revision.byzantium msg []
      (after tools true run 3 Revision.byzantium msg [] n jit)).0

rejected_twice : (executed 1).status_code ≡ StatusCode.rejected
unfolding execute get_exec_func make_code_id to_char
rejected_twice = refl

runs_then :
    executed 2 ≡ record { status_code = StatusCode.success; gas_left = 99; output = 6 ∷ 7 ∷ [] }
unfolding execute get_exec_func make_code_id to_char compile_and_run compile run_func result_of
    get_return_data
runs_then = refl

execute-threshold_example :
    ((n : ℕ) → n < 2 → (executed n).status_code ≡ StatusCode.rejected)
    × ((j : Jit ℕ) × (execute_msg tools true run 3 Revision.byzantium msg []
            (after tools true run 3 Revision.byzantium msg [] 2 jit)
          ≡ run_func tools true run 1 msg
              (after tools true run 3 Revision.byzantium msg [] 2 jit).current_msg
              j))
unfolding compile
execute-threshold_example =
    execute-threshold tools true run 3 Revision.byzantium msg [] 1 (λ j. refl) jit 2 (omega arith)
      (refl, refl, refl, omega arith)

execute-current_msg_example :
    let (result, jit') = execute tools true run 3 Revision.byzantium msg [] jit in
    jit'.current_msg ≡ (if is_early result.status_code then some msg else none)
execute-current_msg_example = execute-current_msg tools true run 3 Revision.byzantium msg [] jit

make_code_id-same_example :
    (hash ≡ hash) × (Revision.byzantium ≡ Revision.byzantium) × (true ≡ true)
make_code_id-same_example =
    make_code_id-same hash hash Revision.byzantium Revision.byzantium true true refl
      (omega arith, (omega arith, tt)) (omega arith, (omega arith, tt)) refl

abbrev failed : Result
failed = record { status_code = StatusCode.revert; gas_left = 42; output = [] }

call_succeeded-call_result_example :
    (call_succeeded (call_result failed) ≡ false) × (call_gas_left (call_result failed) ≡ 42)
call_succeeded-call_result_example = call_succeeded-call_result failed (omega arith)
