-- ===== src/Jit/Calls.antt =====
-- The function `call` of libevmjit/JIT.cpp, which the emitted code calls as `evm.call`: it makes the
-- message for the host and turns the host's result into one number. The host is a parameter.
use evmjit.Prelude.{
  ℕ, ◌+◌, ◌*◌, ◌^◌, ◌<◌, min, ◌≡◌, ◌∙◌, Bool, true, false, List, take, length, Option, none, some,
  sym, ap, arith, bit_or, ◌||◌, ◌&&◌, [], if◌then◌else◌,
}
use evmjit.Prelude.Bits.{bit_or_high}
use evmjit.Compiler.Setting.{call_succeeded, call_gas_left}
use evmjit.Ext.{evm_call_failure}
use evmjit.Jit.{Jit, Message, Result, StatusCode, Kind}

abbrev pub is_delegatecall : Kind → Bool
is_delegatecall Kind.delegatecall = true
is_delegatecall _ = false

abbrev pub is_staticcall : Kind → Bool
is_staticcall Kind.staticcall = true
is_staticcall _ = false

abbrev is_create : Kind → Bool
is_create Kind.create = true
is_create _ = false

abbrev pub is_success : StatusCode → Bool
is_success StatusCode.success = true
is_success _ = false

-- The message, from the one that is being executed. Its code hash is not set.
unfoldable pub call_message : Message → Kind → ℕ → ℕ → ℕ → List ℕ → Message
call_message current kind gas address value input = record {
  destination = address;
  sender = if is_delegatecall kind then current.sender else current.destination;
  value = if is_delegatecall kind then current.value else value;
  input = input;
  code_hash = [];
  gas = gas;
  depth = current.depth + 1;
  is_static = current.is_static || is_staticcall kind;
  kind = if is_staticcall kind then Kind.call else kind;
}

-- What the emitted code gets: the number `r`, the bytes copied to the output area, and the address of
-- a created contract where that replaces them.
pub record Returned : Type 0 where
  pub r : ℕ
  pub output : List ℕ
  pub created : Option ℕ

unfoldable pub call_result : Result → ℕ
call_result result =
    if is_success result.status_code
    then result.gas_left
    else bit_or result.gas_left evm_call_failure

-- The host may execute the message, and with it change the state.
module _ {F : Type 0} (host_call : Message → Jit F → (Result × ℕ) × Jit F) where
  -- None where there is no current message: the source reads through a null pointer.
  unfoldable pub call : Kind → ℕ → ℕ → ℕ → List ℕ → ℕ → Jit F → Option (Returned × Jit F)
  unfolding call_result call_message
  call kind gas address value input output_size jit = elim jit.current_msg [
    | none ↦ none
    | some current ↦
        let ((result, create_address), jit') =
          host_call (call_message current kind gas address value input) jit in
        let size = min output_size (length result.output) in
        let created = is_create kind && is_success result.status_code in
        let returned : Returned = record {
          r = call_result result;
          output = take size result.output;
          created = if created then some create_address else none;
        } in
        some (returned, record jit' { return_buffer = result.output })
  ]

or_failure : (gas : ℕ) → gas < 2 ^ 63 → bit_or gas evm_call_failure ≡ 2 ^ 63 + gas
or_failure gas small =
    let e : 0 * 2 ^ 63 + gas ≡ gas = omega arith in
    ap (λ t. bit_or t evm_call_failure) (sym e) ∙ bit_or_high 63 0 gas 1 small

-- What `call` encodes in one number, the emitted code decodes: whether the host's call succeeded, and
-- the gas that it left.
pub call_succeeded-call_result :
    (result : Result)
    → result.gas_left < 2 ^ 63
    → (call_succeeded (call_result result) ≡ is_success result.status_code)
      × (call_gas_left (call_result result) ≡ result.gas_left)
unfolding call_result
call_succeeded-call_result result small = ground (arith, or_failure result.gas_left small)
