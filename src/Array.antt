-- ===== src/Array.antt =====
-- `class Array` of libevmjit/Array.cpp: the functions `array.push`, `array.set`, `array.get` and
-- `array.extend` that it emits, `pop` and `size`. `data` gives the element at each index, words for
-- the first three and bytes for `array.extend`; what lies behind the capacity is not defined.
-- `realloc` is that of the C library, on a size in bytes.
pub mod Laws
pub mod Refines
pub mod Tests
use evmjit.Prelude.{ℕ, suc, ◌+◌, ◌-◌, ◌*◌, ◌^◌, ◌%◌, ◌==◌, leb, ltb, ◌&&◌, if◌then◌else◌}

pub record Array : Type 0 where
  pub data_at : ℕ → ℕ
  pub size : ℕ
  pub cap : ℕ

-- `ConstantAggregateZero`.
abbrev pub new_array : Array
new_array = record { data_at = λ i. 0; size = 0; cap = 0 }

-- `c_reallocStep`.
abbrev pub realloc_step : ℕ
realloc_step = 1

-- A store of one element.
abbrev pub write_at : (ℕ → ℕ) → ℕ → ℕ → ℕ → ℕ
write_at data_at index value = λ i. if i == index then value else data_at i

-- `CreateMemSet`.
abbrev pub mem_set : (ℕ → ℕ) → ℕ → ℕ → ℕ → ℕ → ℕ
mem_set data_at start value count =
    λ i. if leb start i && ltb i (start + count) then value else data_at i

module _ (realloc : (ℕ → ℕ) → ℕ → ℕ → ℕ) where
  -- The blocks Entry, Realloc and Push.
  unfoldable pub array_push : Array → ℕ → Array
  array_push a value =
      let realloc_req = a.cap == a.size in
      let new_cap = a.cap + realloc_step in
      let realloc_size = new_cap * 2 ^ 5 in
      let new_data = realloc a.data_at realloc_size in
      let data_phi = if realloc_req then new_data else a.data_at in
      record {
        data_at = write_at data_phi a.size value;
        size = a.size + 1;
        cap = if realloc_req then new_cap else a.cap;
      }

  -- The new size is not smaller than the size.
  unfoldable pub array_extend : Array → ℕ → Array
  array_extend a new_size =
      let ext_size = new_size - a.size in
      let new_data = realloc a.data_at new_size in
      record { data_at = mem_set new_data a.size 0 ext_size; size = new_size; cap = new_size }

unfoldable pub array_set : Array → ℕ → ℕ → Array
array_set a index value = record a { data_at = write_at a.data_at index value }

unfoldable pub array_get : Array → ℕ → ℕ
array_get a index = a.data_at index

-- The count is not larger than the size.
unfoldable pub array_pop : ℕ → Array → Array
array_pop count a = record a { size = a.size - count }
