-- ===== src/Jit/Execute.antt =====
-- `JITImpl::compile` and the function `execute` of libevmjit/JIT.cpp, which the host calls to run the
-- code of a message. The tool chain, the cache and the compiled code are parameters.
pub mod Counting
pub mod Messages
use evmjit.Prelude.{
  ℕ, ◌+◌, Bool, true, false, List, [], Option, none, some, leb, ltb, ◌==◌, ◌&&◌, ◌||◌, not, length,
  take, drop, ◌-◌, if◌then◌else◌,
}
use evmjit.Jit.{
  Jit, Message, Result, StatusCode, Revision, make_code_id, get_exec_func, map_exec_func,
  check_memory_size,
}
use evmjit.Compiler.Emit.{ReturnCode}

-- What `compile` calls: the cache, the compiler, the passes, and LLVM's engine, with the memory that
-- the engine's sections take. `M` are modules, `F` functions.
pub record ToolChain (M F : Type 0) : Type 0 where
  pub get_object : List ℕ → Option M
  pub compile_module : Revision → Bool → List ℕ → List ℕ → M
  pub optimize : M → M
  pub prepare : M → M
  pub get_function_address : List ℕ → M → Option F
  pub section_size : M → ℕ

-- What a run of compiled code leaves in the context: the memory as an address and its bytes, the
-- return data as an address and a size.
pub record Run : Type 0 where
  pub return_code : ReturnCode
  pub gas : ℕ
  pub mem_data : ℕ
  pub mem : List ℕ
  pub return_data : ℕ
  pub return_data_size : ℕ

-- `ExecutionContext::getReturnData`.
unfoldable pub get_return_data : Run → List ℕ
get_return_data run =
    let outside =
      ltb run.return_data run.mem_data || leb (run.mem_data + length run.mem) run.return_data in
    if outside || run.return_data_size == 0
    then []
    else take run.return_data_size (drop (run.return_data - run.mem_data) run.mem)

abbrev pub status_of : ReturnCode → StatusCode
status_of ReturnCode.revert = StatusCode.revert
status_of ReturnCode.out_of_gas = StatusCode.failure
status_of _ = StatusCode.success

abbrev pub keeps_gas : ReturnCode → Bool
keeps_gas ReturnCode.out_of_gas = false
keeps_gas _ = true

abbrev pub has_output : ReturnCode → Bool
has_output ReturnCode.return = true
has_output ReturnCode.revert = true
has_output _ = false

-- The result, from the return code on.
unfoldable pub result_of : Run → Result
result_of run = record {
  status_code = status_of run.return_code;
  gas_left = if keeps_gas run.return_code then run.gas else 0;
  output = if has_output run.return_code then get_return_data run else [];
}

-- The results of the early returns.
abbrev pub without_run : StatusCode → Result
without_run status = record { status_code = status; gas_left = 0; output = [] }

-- `run` is the compiled code, with the `RuntimeData` that `execute` makes of the message and the code; it
-- may call the host, and with it change the state.
module _ {M F : Type 0} (tools : ToolChain M F) (optimizes : Bool)
    (run : F → Message → Jit F → Run × Jit F) where
  unfoldable pub compile : Revision → Bool → List ℕ → List ℕ → Jit F → Option F × Jit F
  compile rev static_call code id jit =
      let compiled = tools.compile_module rev static_call code id in
      let optimized = if optimizes then tools.optimize compiled else compiled in
      let m : M = elim (tools.get_object id) [
        | some found ↦ found
        | none ↦ tools.prepare optimized
      ] in
      let total = jit.total_memory_size + tools.section_size m in
      (tools.get_function_address id m, record jit { total_memory_size = total })

  -- The end of `execute`, where the function is there: it may run other messages on the way.
  unfoldable pub run_func : F → Message → Option Message → Jit F → Result × Jit F
  run_func func msg prev_msg jit =
      let (ran, jit') = run func msg jit in (result_of ran, record jit' { current_msg = prev_msg })

  -- The part that compiles, where the map has no function.
  unfoldable pub compile_and_run :
      Revision → Message → List ℕ → List ℕ → Option Message → Jit F → Result × Jit F
  compile_and_run rev msg code id prev_msg jit =
      let (compiled, jit') = compile rev msg.is_static code id jit in
      elim compiled [
        | none ↦ (without_run StatusCode.internal_error, jit')
        | some func ↦ run_func func msg prev_msg (map_exec_func id func jit')
      ]

  -- `fn_table` is the host's, which the source requires not to change.
  unfoldable pub execute : ℕ → Revision → Message → List ℕ → Jit F → Result × Jit F
  execute fn_table rev msg code jit =
      let jit1 = if msg.depth == 0 then check_memory_size jit else jit in
      let host : Option ℕ = elim jit1.host [ none ↦ some fn_table | some h ↦ some h ] in
      let prev_msg = jit1.current_msg in
      let jit2 = record jit1 { host = host; current_msg = some msg } in
      let id = make_code_id msg.code_hash rev msg.is_static in
      let (entry, jit3) = get_exec_func id jit2 in
      elim entry.func [
        | some func ↦ run_func func msg prev_msg jit3
        | none ↦
            if leb entry.hits jit3.hit_threshold
            then (without_run StatusCode.rejected, jit3)
            else compile_and_run rev msg code id prev_msg jit3
      ]
