-- ===== src/Jit/Execute/Messages.antt =====
-- The current message around `execute` of libevmjit/JIT.cpp.
use evmjit.Prelude.{ℕ, ◌≡◌, Bool, true, false, List, some, arith, if◌then◌else◌}
use evmjit.Jit.{Jit, Message, StatusCode, Revision, get_exec_func, map_exec_func, check_memory_size}
use evmjit.Jit.Execute.{ToolChain, Run, compile, run_func, compile_and_run, execute, result_of}

-- The statuses of the early returns.
abbrev pub is_early : StatusCode → Bool
is_early StatusCode.rejected = true
is_early StatusCode.internal_error = true
is_early _ = false

module _ {M F : Type 0} (tools : ToolChain M F) (optimizes : Bool)
    (run : F → Message → Jit F → Run × Jit F) where
  -- After `execute` the current message is the one before it, but for an early return, which leaves the
  -- message that was not run as the current one.
  pub execute-current_msg :
      (fn_table : ℕ) (rev : Revision) (msg : Message) (code : List ℕ) (jit : Jit F)
      → let (result, jit') = execute tools optimizes run fn_table rev msg code jit in
        jit'.current_msg ≡ (if is_early result.status_code then some msg else jit.current_msg)
  unfolding execute run_func compile_and_run get_exec_func map_exec_func check_memory_size compile
      result_of
  execute-current_msg fn_table rev msg code jit = ground arith
