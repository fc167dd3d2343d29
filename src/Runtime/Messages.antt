-- ===== src/Runtime/Messages.antt =====
-- The data of the message, from `execute` to what the handlers push.
use evmjit.Prelude.{
  ℕ, ◌^◌, ◌<◌, ◌≤◌, ◌≡◌, refl, ap, ◌∙◌, Bool, true, false, List, [], ◌∷◌, some, inr, length, arith,
}
use evmjit.Compiler.Emit.{Emit, Query, Effect}
use evmjit.Compiler.Handlers.Data
use evmjit.Endianness.{bswap_if_le}
use evmjit.Endianness.Laws.{byte_swap-byte_swap}
use evmjit.Jit.{Message}
use evmjit.Runtime.{
  Runtime, RuntimeData, runtime_data, load_tx_ctx, get_tx_context_item, new_runtime, set_gas,
  reset_return_buf, register_return_data, require,
}
use evmjit.Runtime.Keeps.{run-keeps}
use evmjit.Runtime.Machine.{World, finished, answer, perform, run}

bswap_if_le-twice :
    (is_le : Bool) (x : ℕ) → x < 256 ^ 32 → bswap_if_le is_le 32 (bswap_if_le is_le 32 x) ≡ x
unfolding bswap_if_le
bswap_if_le-twice true x h = byte_swap-byte_swap 32 x h
bswap_if_le-twice false x h = refl

module _ (w : World) where
  answer-elts :
      (elts : RuntimeData) (q : Query) (rt : Runtime) (v : ℕ) (rt' : Runtime)
      → rt.elts ≡ elts
      → answer w q rt ≡ some (v, rt')
      → rt'.elts ≡ elts
  unfolding answer get_tx_context_item load_tx_ctx
  answer-elts elts q rt v rt' same e = ground arith

  perform-elts :
      (elts : RuntimeData) (f : Effect) (rt rt' : Runtime)
      → rt.elts ≡ elts
      → perform w f rt ≡ inr rt'
      → rt'.elts ≡ elts
  unfolding perform set_gas reset_return_buf register_return_data require
  perform-elts elts f rt rt' same e = ground arith

  new-elts : (filled : RuntimeData) → (new_runtime filled).elts ≡ filled
  unfolding new_runtime reset_return_buf
  new-elts filled = refl

  -- Whatever code of blocks has run to its end since `execute` has filled in the message, with any answers of
  -- the host, ADDRESS, CALLER and CALLVALUE push the message's destination, sender and value, for addresses
  -- below 2 ^ 160 and a value below 2 ^ 256, and CALLDATASIZE the size of its input, on a host of either byte
  -- order.
  pub execute-handlers :
      (msg : Message) (input_at code_at code_size it : ℕ) (e : Emit) {stack : List ℕ} {rt : Runtime}
      → msg.destination < 2 ^ 160
      → msg.sender < 2 ^ 160
      → msg.value < 2 ^ 256
      → run w e [] (new_runtime (runtime_data w.setting.is_le msg input_at code_at code_size))
        ≡ some (finished stack rt)
      → let pushes =
          λ (handler : Emit) (v : ℕ). run w handler stack rt ≡ some (finished (v ∷ stack) rt) in
        pushes (Data.address w.setting it) msg.destination
        × pushes (Data.caller w.setting it) msg.sender
        × pushes (Data.callvalue w.setting it) msg.value
        × pushes (Data.calldatasize w.setting it) (length msg.input)
  unfolding run answer
  execute-handlers msg input_at code_at code_size it e {stack} {rt} d_small s_small v_small ran =
      let filled : RuntimeData = runtime_data w.setting.is_le msg input_at code_at code_size in
      let same : rt.elts ≡ filled =
        run-keeps w (λ rt'. rt'.elts ≡ filled) (answer-elts filled) (perform-elts filled) e []
          (new_runtime filled) (new-elts filled) ran in
      let pushed = λ (f : RuntimeData → ℕ). ap (λ d. finished (f d ∷ stack) rt) same in
      let word = λ (x : ℕ) (small : x < 256 ^ 32).
        ap (λ v. finished (v ∷ stack) rt) (bswap_if_le-twice w.setting.is_le x small) in
      let small : 2 ^ 160 ≤ 256 ^ 32 = omega arith in
      (
        ap some (
            pushed (λ d. bswap_if_le w.setting.is_le 32 d.address)
            ∙ word msg.destination (omega arith)),
        ap some
            (pushed (λ d. bswap_if_le w.setting.is_le 32 d.caller) ∙ word msg.sender (omega arith)),
        ap some (
            pushed (λ d. bswap_if_le w.setting.is_le 32 d.apparent_value)
            ∙ word msg.value (omega arith)),
        ap some (pushed (λ d. d.call_data_size)),
      )
