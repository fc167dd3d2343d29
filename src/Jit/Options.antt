-- ===== src/Jit/Options.antt =====
-- `setOption` and `getCode` of libevmjit/JIT.cpp. `std::stoul` is a parameter, none where it throws, and so
-- are the host's functions for code.
pub mod Tests
use Prim.Native.String.{String}
use text.Mathlib.Text.{◌==◌ as ◌str_eq◌}
use evmjit.Prelude.{
  ℕ, ◌≡◌, ◌∙◌, ap, refl, List, [], ◌∷◌, ◌++◌, Option, none, some, Bool, true, false, length,
  length-append, length-replicate, length-take, ◌-◌, take, drop, replicate, arith, if◌then◌else◌,
}
use evmjit.Jit.{Jit}

-- Whether the option has been set, and the state.
unfoldable pub set_option :
    {F : Type 0} → (String → Option ℕ) → String → String → Jit F → Bool × Jit F
set_option stoul name value jit =
    if name str_eq "hits-threshold"
    then (elim (stoul value) [
      | none ↦ (false, jit)
      | some n ↦ (true, record jit { hit_threshold = n })
    ])
    else (false, jit)

-- The buffer that the code is copied to, of the size that the host gives.
abbrev resized : ℕ → List ℕ → List ℕ
resized n buffer = take n buffer ++ replicate (n - length buffer) 0

resized-length : (n : ℕ) (buffer : List ℕ) → length (resized n buffer) ≡ n
resized-length n buffer = omega (
  arith,
  length-append (take n buffer) (replicate (n - length buffer) 0),
  length-replicate {A = ℕ} (n - length buffer) 0,
  length-take n buffer,
)

take_whole : (xs : List ℕ) → take (length xs) xs ≡ xs
take_whole [] = refl
take_whole (x ∷ xs) = ap (λ t. x ∷ t) (take_whole xs)

take-append_whole : (xs ys : List ℕ) → take (length xs) (xs ++ ys) ≡ xs
take-append_whole [] ys = refl
take-append_whole (x ∷ xs) ys = ap (λ t. x ∷ t) (take-append_whole xs ys)

module _ {F : Type 0} (get_code_size : ℕ → ℕ) (copy_code : ℕ → ℕ → ℕ → List ℕ) where
  -- The size that `getCode` returns; the pointer leads to the buffer.
  unfoldable pub get_code : ℕ → Jit F → ℕ × Jit F
  get_code address jit =
      let buffer = resized (get_code_size address) jit.code_buffer in
      let copied = copy_code address 0 (length buffer) in
      (length copied, record jit { code_buffer = copied ++ drop (length copied) buffer })

  -- `getCode` hands over the whole code of the account, whatever the buffer has held before, where the host
  -- gives the size of its code and copies as many of its bytes as there is room for.
  pub get_code-whole :
      (code_of : ℕ → List ℕ) (address : ℕ) (jit : Jit F)
      → get_code_size address ≡ length (code_of address)
      → ((n : ℕ) → copy_code address 0 n ≡ take n (code_of address))
      → let (size, jit') = get_code address jit in
        (size ≡ length (code_of address)) × (take size jit'.code_buffer ≡ code_of address)
  unfolding get_code
  get_code-whole code_of address jit sized copies =
      let n : ℕ = length (resized (get_code_size address) jit.code_buffer) in
      let n_lem : n ≡ length (code_of address) =
        resized-length (get_code_size address) jit.code_buffer ∙ sized in
      let copied : copy_code address 0 n ≡ code_of address =
        copies n ∙ ap (λ k. take k (code_of address)) n_lem ∙ take_whole (code_of address) in
      rw copied (refl, take-append_whole (code_of address) _)
