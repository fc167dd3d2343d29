-- ===== src/Runtime/Context.antt =====
-- The transaction context in runs of emitted code: when the host is asked for it, and what the items are
-- read from.
use evmjit.Prelude.{ℕ, ◌≡◌, refl, true, false, List, [], some, ◌⊎◌, inl, inr, arith}
use evmjit.Compiler.Emit.{Emit, Query, Effect}
use evmjit.Runtime.{
  Runtime, RuntimeData, tx_item, load_tx_ctx, get_tx_context_item, new_runtime, set_gas,
  reset_return_buf, register_return_data, require,
}
use evmjit.Runtime.Keeps.{run-keeps}
use evmjit.Runtime.Machine.{World, finished, answer, perform, run}

module _ (w : World) where
  -- The context has not been asked for, or it has been asked for once and is there.
  abbrev IsOnce : Runtime → Type 0
  IsOnce rt =
      ((rt.tx_ctx_loaded ≡ false) × (rt.tx_ctx_calls ≡ 0))
      ⊎ ((rt.tx_ctx_loaded ≡ true)
          × (rt.tx_ctx_calls ≡ 1)
          × (rt.tx_ctx ≡ some (w.get_tx_context 0)))

  answer-IsOnce :
      (q : Query) (rt : Runtime) (v : ℕ) (rt' : Runtime)
      → IsOnce rt
      → answer w q rt ≡ some (v, rt')
      → IsOnce rt'
  unfolding answer get_tx_context_item load_tx_ctx
  answer-IsOnce q rt v rt' once e = ground arith

  perform-IsOnce :
      (f : Effect) (rt rt' : Runtime) → IsOnce rt → perform w f rt ≡ inr rt' → IsOnce rt'
  unfolding perform set_gas reset_return_buf register_return_data require
  perform-IsOnce f rt rt' once e = ground arith

  new-IsOnce : (data_ptr : RuntimeData) → IsOnce (new_runtime data_ptr)
  unfolding new_runtime reset_return_buf
  new-IsOnce data_ptr = inl (refl, refl)

  item-IsOnce :
      (rt : Runtime) (index : ℕ)
      → IsOnce rt
      → (rt' : Runtime) × (get_tx_context_item w.get_tx_context index rt
          ≡ some (tx_item (w.get_tx_context 0) index, rt'))
        × (rt'.tx_ctx_calls ≡ 1)
  unfolding get_tx_context_item load_tx_ctx
  item-IsOnce rt index once = (load_tx_ctx w.get_tx_context rt, ground arith, ground arith)

  -- Whatever code of blocks has run to its end since the entry of the main function, with any answers of the
  -- host, an item of the transaction context is that of the first context that the host gave, and the host has
  -- been asked for it once.
  pub get_tx_context_item-first :
      (e : Emit) (data_ptr : RuntimeData) (index : ℕ) {stack : List ℕ} {rt : Runtime}
      → run w e [] (new_runtime data_ptr) ≡ some (finished stack rt)
      → (rt' : Runtime) × (get_tx_context_item w.get_tx_context index rt
          ≡ some (tx_item (w.get_tx_context 0) index, rt'))
        × (rt'.tx_ctx_calls ≡ 1)
  get_tx_context_item-first e data_ptr index {rt} ran = item-IsOnce rt index (
      run-keeps w IsOnce answer-IsOnce perform-IsOnce e [] (new_runtime data_ptr)
        (new-IsOnce data_ptr) ran)
