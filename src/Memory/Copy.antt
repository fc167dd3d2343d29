-- ===== src/Memory/Copy.antt =====
-- `Memory::copyBytes` of libevmjit/Memory.cpp: bytes of the call data or of code are copied into the
-- memory, with zeros for what lies behind their end. Both are given by the byte at each index.
use evmjit.Prelude.{
  ℕ, ◌+◌, ◌-◌, ◌/◌, ◌%◌, ◌^◌, ◌<◌, min, ◌≡◌, leb, ltb, ◌&&◌, Option, some, ◌>>=◌, ◌⊎◌, ◌≤◌, ◌∙◌,
  sym, ap, inl, inr, Option-cases, Bool-cases, arith, false, if◌then◌else◌,
}
use evmjit.Array.{mem_set}
use evmjit.Gas.Check.{gas_check}
use evmjit.Memory.Expansion.{mem_require-accepted}
use evmjit.Gas.Dynamic.{copy_cost}
use evmjit.Memory.Require.{mem_require, price}

-- `copyWords`.
abbrev pub copy_words : ℕ → ℕ
copy_words req_bytes = (req_bytes % 2 ^ 64 + 31) % 2 ^ 64 / 32

-- `bytesToCopy`.
unfoldable pub bytes_to_copy : ℕ → ℕ → ℕ → ℕ
bytes_to_copy src_size src_idx req_bytes =
    let is_outside_data = leb src_size src_idx in
    let data_left_size = (src_size % 2 ^ 64 + 2 ^ 64 - src_idx % 2 ^ 64) % 2 ^ 64 in
    let out_of_bound = ltb data_left_size req_bytes in
    if is_outside_data then 0 else if out_of_bound then data_left_size else req_bytes

-- `CreateMemCpy`.
abbrev pub mem_cpy : (ℕ → ℕ) → ℕ → (ℕ → ℕ) → ℕ → ℕ → ℕ → ℕ
mem_cpy data_at dst src_at src count =
    λ i. if leb dst i && ltb i (dst + count) then src_at (src + (i - dst)) else data_at i

-- The copy and the zeros behind it, on words for the indices and the number of bytes.
unfoldable pub copied : (ℕ → ℕ) → ℕ → ℕ → ℕ → ℕ → (ℕ → ℕ) → ℕ → ℕ
unfolding bytes_to_copy
copied src_at src_size src_idx dest_mem_idx req_bytes data_at =
    let req = req_bytes % 2 ^ 64 in
    let to_copy = bytes_to_copy src_size src_idx req in
    let to_zero = req - to_copy in
    let dst_idx = dest_mem_idx % 2 ^ 64 in
    let pad_idx = (dst_idx + to_copy) % 2 ^ 64 in
    mem_set (mem_cpy data_at dst_idx src_at (src_idx % 2 ^ 64) to_copy) pad_idx 0 to_zero

-- The gas, the size and the bytes of the memory after the call, or none where it runs out of gas.
-- `extend` fills what it adds with zeros.
unfoldable pub copy_bytes : ℕ → ℕ → ℕ → (ℕ → ℕ) → (ℕ → ℕ) → ℕ → ℕ → ℕ → ℕ → Option (ℕ × ℕ × (ℕ → ℕ))
unfolding mem_require copy_cost gas_check copied
copy_bytes poison gas size_cur data_at src_at src_size src_idx dest_mem_idx req_bytes =
    mem_require gas size_cur dest_mem_idx req_bytes >>= λ (r : ℕ × ℕ).
    gas_check r.0 (copy_cost poison (copy_words req_bytes)) >>= λ g. some (
      g,
      r.1,
      copied src_at src_size src_idx dest_mem_idx req_bytes
          (mem_set data_at size_cur 0 (r.1 - size_cur)),
    )

bytes_to_copy-min :
    (src_size src_idx req : ℕ)
    → src_size < 2 ^ 64
    → req < 2 ^ 64
    → bytes_to_copy src_size src_idx req ≡ min req (src_size - src_idx)
unfolding bytes_to_copy
bytes_to_copy-min src_size src_idx req size_fits fits = ground arith

-- The byte that the copy leaves at an index: in the area asked for, the source's byte, or 0 where the
-- source has ended; outside, what was there. The area lies below 2 ^ 64, as does the size of the
-- source; the index into the source may be any word.
pub copied_lem :
    (src_at data_at : ℕ → ℕ) (src_size src_idx dest req i : ℕ)
    → src_size < 2 ^ 64
    → dest + req < 2 ^ 64
    → copied src_at src_size src_idx dest req data_at i ≡ (
        if leb dest i && ltb i (dest + req)
        then (if ltb (src_idx + (i - dest)) src_size then src_at (src_idx + (i - dest)) else 0)
        else data_at i)
unfolding copied
copied_lem src_at data_at src_size src_idx dest req i size_fits area_fits =
    let whole : req % 2 ^ 64 ≡ req = omega arith in
    let there : dest % 2 ^ 64 ≡ dest = omega arith in
    let count = bytes_to_copy-min src_size src_idx req size_fits (omega arith) in
    let behind : (dest + min req (src_size - src_idx)) % 2 ^ 64
        ≡ dest + min req (src_size - src_idx) =
      omega (arith, area_fits) in
    rw (copied, whole, there, count, behind)
      (elim (Bool-cases (ltb src_idx src_size)) [
        | inl inside ↦
            let index : src_idx % 2 ^ 64 ≡ src_idx = ground arith in rw index (ground arith)
        | inr outside ↦ ground arith
      ])

-- Nothing is copied where no bytes are asked for, wherever the area is.
copied-none :
    (src_at data_at : ℕ → ℕ) (src_size src_idx dest i : ℕ)
    → copied src_at src_size src_idx dest 0 data_at i ≡ data_at i
unfolding copied bytes_to_copy
copied-none src_at data_at src_size src_idx dest i = ground arith

-- What the bytes are after a copy: in the area asked for those of the source, and zeros behind its end;
-- elsewhere zeros in what the memory has grown by, and what was there.
abbrev pub after_copy : (ℕ → ℕ) → (ℕ → ℕ) → (src_size src_idx dest req size_cur n : ℕ) → ℕ → ℕ
after_copy src_at data_at src_size src_idx dest req size_cur n i =
    if leb dest i && ltb i (dest + req)
    then (if ltb (src_idx + (i - dest)) src_size then src_at (src_idx + (i - dest)) else 0)
    else mem_set data_at size_cur 0 (n - size_cur) i

copied-after_copy :
    (src_at data_at : ℕ → ℕ) (src_size src_idx dest req size_cur n i : ℕ)
    → src_size < 2 ^ 64
    → (req ≡ 0) ⊎ ((dest + req ≤ n) × (n < 2 ^ 33))
    → copied src_at src_size src_idx dest req (mem_set data_at size_cur 0 (n - size_cur)) i
      ≡ after_copy src_at data_at src_size src_idx dest req size_cur n i
copied-after_copy src_at data_at src_size src_idx dest req size_cur n i size_fits (inl empty) =
    let grown : ℕ → ℕ = mem_set data_at size_cur 0 (n - size_cur) in
    let nowhere : (leb dest i && ltb i (dest + 0)) ≡ false = ground arith in
    rw empty (rw nowhere (copied-none src_at grown src_size src_idx dest i))
copied-after_copy src_at data_at src_size src_idx dest req size_cur n i size_fits
      (inr (inside, small)) =
    copied_lem src_at (mem_set data_at size_cur 0 (n - size_cur)) src_size src_idx dest req i
      size_fits (omega arith)

-- Where `copyBytes` does not run out of gas, it leaves in the area asked for the bytes of the source, with
-- zeros behind its end, and elsewhere the memory as it was, with zeros where it has grown. This holds for
-- every index and every number of bytes; the memory has whole words, the gas with what the memory has cost
-- is less than 2 ^ 47, and the size of the source is less than 2 ^ 64.
pub copy_bytes_lem :
    (poison gas size_cur : ℕ) (data_at src_at : ℕ → ℕ) (src_size src_idx dest req i : ℕ) {g n : ℕ}
    {bytes : ℕ → ℕ}
    → size_cur % 32 ≡ 0
    → gas + price size_cur < 2 ^ 47
    → src_size < 2 ^ 64
    → copy_bytes poison gas size_cur data_at src_at src_size src_idx dest req ≡ some (g, n, bytes)
    → bytes i ≡ after_copy src_at data_at src_size src_idx dest req size_cur n i
unfolding copy_bytes
copy_bytes_lem poison gas size_cur data_at src_at src_size src_idx dest req i {g} {n} {bytes} whole
      affordable size_fits ran =
    elim (Option-cases (mem_require gas size_cur dest req)) [
      | inl broke ↦ let ran' = rw (broke, copy_bytes) at ran in cc
      | inr ((g₁, n₁), paid) ↦
          let ran₁ = rw (paid, copy_bytes) at ran in
          elim (Option-cases (gas_check g₁ (copy_cost poison (copy_words req)))) [
            | inl broke ↦ let ran' = rw (broke, copy_bytes) at ran₁ in cc
            | inr (g₂, charged) ↦
                let ran₂ = rw (charged, copy_bytes) at ran₁ in
                let fits = mem_require-accepted gas size_cur dest req g₁ n₁ whole affordable paid in
                let same_n : n₁ ≡ n = cc in
                let left : copied src_at src_size src_idx dest req
                      (mem_set data_at size_cur 0 (n₁ - size_cur))
                    ≡ bytes =
                  cc in
                sym (ap (λ f. f i) left)
                ∙ copied-after_copy src_at data_at src_size src_idx dest req size_cur n₁ i size_fits
                    fits
                ∙ ap (λ k. after_copy src_at data_at src_size src_idx dest req size_cur k i) same_n
          ]
    ]
