-- ===== src/Memory/Word/Laws.antt =====
-- Words in memory against big-endian numbers, on either byte order of the host.
use native.Mathlib.Nat.{pow-suc, pow-zero, div-div-eq-div-mul, div-eq_of_lt}
use evmjit.Prelude.{
  ℕ, zero, suc, ◌+◌, ◌-◌, ◌*◌, ◌/◌, ◌%◌, ◌^◌, ◌≤◌, ◌<◌, ◌≡◌, ◌∙◌, Bool, true, false, refl, sym, ap,
  arith, ltb, leb, ◌&&◌, if◌then◌else◌, Bool-cases, inl, inr,
}
use evmjit.Endianness.{byte_swap, bswap_if_le, extract_element}
use evmjit.Endianness.Laws.{byte_swap-top, digit-lt}
use evmjit.Compiler.Bytes.Laws.{extract_element-bswap_if_le}
use evmjit.Memory.Word.{
  little_end, big_end, load_word, mload, mstore, call_data_bytes, calldataload,
}

abbrev pub AreBytes : (ℕ → ℕ) → Type 0
AreBytes data_at = (i : ℕ) → data_at i < 256

module _ (data_at : ℕ → ℕ) (bytes : AreBytes data_at) (p : ℕ) where
  little_end-lt : (n : ℕ) → little_end n data_at p < 256 ^ n
  unfolding little_end
  little_end-lt zero = omega (arith, pow-zero 256)
  little_end-lt (suc n) =
      digit-lt (data_at (p + n)) n (little_end n data_at p) (bytes (p + n)) (little_end-lt n)

  byte_swap-little_end : (n : ℕ) → byte_swap n (little_end n data_at p) ≡ big_end n data_at p
  unfolding little_end big_end byte_swap
  byte_swap-little_end zero = refl
  byte_swap-little_end (suc n) =
      byte_swap-top n (data_at (p + n)) (little_end n data_at p) (bytes (p + n)) (little_end-lt n)
      ∙ ap (λ t. t * 256 + data_at (p + n)) (byte_swap-little_end n)

  load_word-big_end :
      (is_le : Bool) → bswap_if_le is_le 32 (load_word is_le data_at p) ≡ big_end 32 data_at p
  unfolding bswap_if_le
  load_word-big_end true = byte_swap-little_end 32
  load_word-big_end false = refl

big_end-same :
    (f g : ℕ → ℕ) (p q n : ℕ)
    → ((i : ℕ) → i < n → f (p + i) ≡ g (q + i))
    → big_end n f p ≡ big_end n g q
unfolding big_end
big_end-same f g p q zero h = refl
big_end-same f g p q (suc n) h =
    let front = big_end-same f g p q n λ i below. h i (omega (arith, below)) in
    omega (arith, front, h n (omega arith))

-- The first `k` of `m` digits of a number.
big_end-div :
    (f : ℕ → ℕ) (p v m k : ℕ)
    → v < 256 ^ m
    → k ≤ m
    → ((i : ℕ) → i < m → f (p + i) ≡ v / 256 ^ (m - 1 - i) % 256)
    → big_end k f p ≡ v / 256 ^ (m - k)
unfolding big_end
big_end-div f p v m zero small fits h =
    let e : m - 0 ≡ m = omega arith in rw e (sym (div-eq_of_lt small))
big_end-div f p v m (suc k) small fits h =
    let w : ℕ = v / 256 ^ (m - 1 - k) in
    let front = big_end-div f p v m k small (omega arith) h in
    let before : v / 256 ^ (m - k) ≡ w / 256 =
      let e : m - k ≡ suc (m - 1 - k) = omega arith in
      ap (λ j. v / 256 ^ j) e
      ∙ ap (λ t. v / t) (omega (arith, pow-suc 256 (m - 1 - k)))
      ∙ sym (div-div-eq-div-mul v (256 ^ (m - 1 - k)) 256) in
    let last : m - suc k ≡ m - 1 - k = omega arith in
    rw last (omega (arith, front, before, h k (omega arith)))

extract_element-lt : (is_le : Bool) (value i : ℕ) → extract_element is_le value i < 256
unfolding extract_element
extract_element-lt is_le value i = omega arith

mstore-AreBytes :
    (is_le : Bool) (data_at : ℕ → ℕ) (index value : ℕ)
    → AreBytes data_at
    → AreBytes (mstore is_le data_at index value)
unfolding mstore
mstore-AreBytes is_le data_at index value bytes i =
    ground
      (arith, bytes i, extract_element-lt is_le (bswap_if_le is_le 32 value) (i - index % 2 ^ 64))

-- MSTORE writes the word with its most significant byte first and changes no other byte, on either
-- byte order of the host.
mstore_lem :
    (is_le : Bool) (data_at : ℕ → ℕ) (index value i : ℕ)
    → mstore is_le data_at index value i ≡ (
        let p = index % 2 ^ 64 in
        if leb p i && ltb i (p + 32) then value / 256 ^ (31 - (i - p)) % 256 else data_at i)
unfolding mstore
mstore_lem is_le data_at index value i =
    ground (arith, extract_element-bswap_if_le is_le value (i - index % 2 ^ 64))

stored_byte :
    (is_le : Bool) (data_at : ℕ → ℕ) (index value i : ℕ)
    → i < 32
    → mstore is_le data_at index value (index % 2 ^ 64 + i) ≡ value / 256 ^ (32 - 1 - i) % 256
stored_byte is_le data_at index value i below =
    let at : index % 2 ^ 64 + i - index % 2 ^ 64 ≡ i = omega arith in
    mstore_lem is_le data_at index value (index % 2 ^ 64 + i) ∙ rw at (ground arith)

-- MLOAD yields the word that an MSTORE at the same index has stored.
pub mload-mstore :
    (is_le : Bool) (data_at : ℕ → ℕ) (index value : ℕ)
    → AreBytes data_at
    → value < 2 ^ 256
    → mload is_le (mstore is_le data_at index value) index ≡ value
unfolding mload
mload-mstore is_le data_at index value bytes small =
    let p : ℕ = index % 2 ^ 64 in
    let stored : ℕ → ℕ = mstore is_le data_at index value in
    let byte : (i : ℕ) → i < 32 → stored (p + i) ≡ value / 256 ^ (32 - 1 - i) % 256 =
      λ i below. stored_byte is_le data_at index value i below in
    load_word-big_end stored (mstore-AreBytes is_le data_at index value bytes) p is_le
    ∙ big_end-div stored p value 32 32 small (omega arith) byte
    ∙ omega arith

call_data_bytes-AreBytes :
    (data_at : ℕ → ℕ) (size index : ℕ)
    → AreBytes data_at
    → AreBytes (call_data_bytes data_at size index)
unfolding call_data_bytes
call_data_bytes-AreBytes data_at size index bytes i =
    ground (arith, bytes (index % 2 ^ 64 + i), bytes (size % 2 ^ 64 + i))

call_data_bytes_lem :
    (data_at : ℕ → ℕ) (size index i : ℕ)
    → size + 32 < 2 ^ 64
    → i < 32
    → call_data_bytes data_at size index i
      ≡ (if ltb (index + i) size then data_at (index + i) else 0)
unfolding call_data_bytes
call_data_bytes_lem data_at size index i small below = elim (Bool-cases (ltb index size)) [
  | inl valid ↦ let e : index % 2 ^ 64 ≡ index = ground arith in rw (valid, e) (ground arith)
  | inr invalid ↦ let e : size % 2 ^ 64 ≡ size = omega arith in rw (invalid, e) (ground arith)
]

-- CALLDATALOAD yields the big-endian number of the 32 bytes from the index on, with zeros for those
-- behind the end of the call data, for any index of 256 bits.
pub calldataload-big_end :
    (is_le : Bool) (data_at : ℕ → ℕ) (size index : ℕ)
    → AreBytes data_at
    → size + 32 < 2 ^ 64
    → calldataload is_le data_at size index
      ≡ big_end 32 (λ i. if ltb (index + i) size then data_at (index + i) else 0) 0
unfolding calldataload
calldataload-big_end is_le data_at size index bytes small =
    let buffer : ℕ → ℕ = call_data_bytes data_at size index in
    let expected : ℕ → ℕ = λ i. if ltb (index + i) size then data_at (index + i) else 0 in
    load_word-big_end buffer (call_data_bytes-AreBytes data_at size index bytes) 0 is_le
    ∙ big_end-same buffer expected 0 0 32 (λ i below.
      let e : 0 + i ≡ i = omega arith in
      rw e (call_data_bytes_lem data_at size index i small below))
