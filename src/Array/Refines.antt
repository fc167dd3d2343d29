-- ===== src/Array/Refines.antt =====
-- Sequences of calls of the members of `Array` of words: push, set, get, pop and size, next to a list.
use evmjit.Prelude.{
  ℕ, ◌-◌, ◌≤◌, ◌≡◌, List, [], ◌∷◌, ◌++◌, Option, none, some, length, take, set, get_elem?, ltb, leb,
  if◌then◌else◌,
}
use evmjit.Array.{Array, array_push, array_set, array_get, array_pop}
use evmjit.Array.Laws.{elements}

pub data Op : Type 0 where
  push : ℕ → Op
  set_at : ℕ → ℕ → Op
  get_at pop : ℕ → Op
  size : Op

-- What a call yields, where it yields a value, and the array after it.
unfoldable pub call_op : ((ℕ → ℕ) → ℕ → ℕ → ℕ) → Op → Array → Option ℕ × Array
call_op realloc (push v) a = (none, array_push realloc a v)
call_op realloc (set_at i v) a = (none, array_set a i v)
call_op realloc (get_at i) a = (some (array_get a i), a)
call_op realloc (pop n) a = (none, array_pop n a)
call_op realloc size a = (some a.size, a)

unfoldable pub call_ops : ((ℕ → ℕ) → ℕ → ℕ → ℕ) → List Op → Array → List (Option ℕ) × Array
call_ops realloc [] a = ([], a)
call_ops realloc (op ∷ ops) a =
    let (out, a') = call_op realloc op a in
    let (outs, a'') = call_ops realloc ops a' in (out ∷ outs, a'')

-- The same on a list. None where an index or a count is out of range.
unfoldable pub list_op : Op → List ℕ → Option (Option ℕ × List ℕ)
list_op (push v) xs = some (none, xs ++ v ∷ [])
list_op (set_at i v) xs = if ltb i (length xs) then some (none, set xs i v) else none
list_op (get_at i) xs = elim (get_elem? xs i) [ none ↦ none | some v ↦ some (some v, xs) ]
list_op (pop n) xs = if leb n (length xs) then some (none, take (length xs - n) xs) else none
list_op size xs = some (some (length xs), xs)

unfoldable pub list_ops : List Op → List ℕ → Option (List (Option ℕ) × List ℕ)
list_ops [] xs = some ([], xs)
list_ops (op ∷ ops) xs = elim (list_op op xs) [
  | none ↦ none
  | some (out, xs') ↦ elim (list_ops ops xs') [
    | none ↦ none
    | some (outs, xs'') ↦ some (out ∷ outs, xs'')
  ]
]

-- One call next to the list.
abbrev Agrees : Option ℕ → List ℕ → Option ℕ × Array → Type 0
Agrees out xs (out', a') = (out' ≡ out) × (elements a' ≡ xs) × (a'.size ≤ a'.cap)
