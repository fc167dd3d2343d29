-- ===== src/Jit/Execute/Counting.antt =====
-- The counter of executions and the threshold of `execute` of libevmjit/JIT.cpp.
use evmjit.Prelude.{
  ℕ, zero, suc, ◌-◌, ◌*◌, ◌^◌, ◌≤◌, ◌<◌, ◌≡◌, ◌∙◌, Bool, true, List, [], ◌∷◌, Option, none, some,
  refl, arith, eqb_refl,
}
use evmjit.Jit.{
  Jit, Message, Result, StatusCode, Revision, get_exec_func, map_exec_func, check_memory_size,
  make_code_id, same_id,
}
use evmjit.Jit.Execute.{ToolChain, Run, compile, run_func, compile_and_run, execute}

same_id_refl : (id : List ℕ) → same_id id id ≡ true
same_id_refl [] = refl
same_id_refl (a ∷ id) = ground (arith, eqb_refl a, same_id_refl id)

module _ {M F : Type 0} (tools : ToolChain M F) (optimizes : Bool)
    (run : F → Message → Jit F → Run × Jit F) (fn_table : ℕ) (rev : Revision) (msg : Message)
    (code : List ℕ) where
  abbrev id : List ℕ
  id = make_code_id msg.code_hash rev msg.is_static

  abbrev pub execute_msg : Jit F → Result × Jit F
  execute_msg jit = execute tools optimizes run fn_table rev msg code jit

  -- The state after so many executions.
  abbrev pub after : ℕ → Jit F → Jit F
  after zero jit = jit
  after (suc n) jit = (execute_msg (after n jit)).1

  -- The function is not there and has been asked for so often; the memory is not reset.
  abbrev pub Waits : ℕ → ℕ → Jit F → Type 0
  Waits threshold hits jit =
      ((jit.code_map id).func ≡ none)
      × ((jit.code_map id).hits ≡ hits)
      × (jit.hit_threshold ≡ threshold)
      × (jit.total_memory_size ≤ 1000 * 1024 * 1024)

  rejected_once :
      (jit : Jit F) (threshold hits : ℕ)
      → Waits threshold hits jit
      → hits < threshold
      → threshold < 2 ^ 64
      → ((execute_msg jit).0.status_code ≡ StatusCode.rejected)
        × Waits threshold (suc hits) (execute_msg jit).1
  unfolding execute get_exec_func check_memory_size
  rejected_once jit threshold hits (no_func, asked, same, small) below fits =
      ground (arith, same_id_refl id)

  after-Waits :
      (threshold n : ℕ) (jit : Jit F)
      → threshold < 2 ^ 64
      → Waits threshold 0 jit
      → n ≤ threshold
      → Waits threshold n (after n jit)
  after-Waits threshold zero jit fits waits within = waits
  after-Waits threshold (suc n) jit fits waits within =
      let before = after-Waits threshold n jit fits waits (omega (arith, within)) in
      (rejected_once (after n jit) threshold n before (omega (arith, within)) fits).1

  counted : Jit F → Jit F
  counted jit =
      let host : Option ℕ = elim jit.host [ none ↦ some fn_table | some h ↦ some h ] in
      (get_exec_func id (record jit { host = host; current_msg = some msg })).1

  no_longer_rejected :
      (jit : Jit F) (threshold : ℕ)
      → threshold < 2 ^ 64 - 1
      → Waits threshold threshold jit
      → execute_msg jit
        ≡ compile_and_run tools optimizes run rev msg code id jit.current_msg (counted jit)
  unfolding execute get_exec_func check_memory_size counted
  no_longer_rejected jit threshold fits (no_func, asked, same, small) = ground arith

  module _ (func : F)
      (compiles : (j : Jit F)
        → (compile tools optimizes run rev msg.is_static code id j).0 ≡ some func) where
    compiled_once :
        (prev_msg : Option Message) (j : Jit F)
        → compile_and_run tools optimizes run rev msg code id prev_msg j
          ≡ run_func tools optimizes run func msg prev_msg
              (map_exec_func id func (compile tools optimizes run rev msg.is_static code id j).1)
    unfolding compile_and_run
    compiled_once prev_msg j = ground (arith, compiles j)

    -- Code that compiles and is not in the map is rejected as often as the threshold says, and runs when
    -- it is asked for once more, where nothing else is executed in between and the memory stays below the
    -- limit of 1000 MB.
    pub execute-threshold :
        (jit : Jit F) (threshold : ℕ)
        → threshold < 2 ^ 64 - 1
        → Waits threshold 0 jit
        → ((n : ℕ)
            → n < threshold
            → (execute_msg (after n jit)).0.status_code ≡ StatusCode.rejected)
          × ((j : Jit F) × (execute_msg (after threshold jit)
                ≡ run_func tools optimizes run func msg (after threshold jit).current_msg j))
    execute-threshold jit threshold fits waits =
        let last : Jit F = after threshold jit in
        let waits_last = after-Waits threshold threshold jit (omega arith) waits (omega arith) in
        (
          λ n below.
              (rejected_once (after n jit) threshold n
                (after-Waits threshold n jit (omega arith) waits (omega (arith, below))) below
                (omega arith)).0,
          (
            map_exec_func id func
                (compile tools optimizes run rev msg.is_static code id (counted last)).1,
            no_longer_rejected last threshold fits waits_last
                ∙ compiled_once last.current_msg (counted last),
          ),
        )
