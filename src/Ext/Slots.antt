-- ===== src/Ext/Slots.antt =====
-- `Ext::getArgAlloca` and `Ext::createCABICall` of libevmjit/Ext.cpp: a value for a parameter that is a
-- pointer is passed in a slot of the main function's frame. The slots are `m_argAllocas`.
use evmjit.Prelude.{
  ℕ, ◌+◌, ◌<◌, ◌≡◌, refl, ap, ◌∙◌, Bool, true, false, List, [], ◌∷◌, ◌==◌, length, arith, lt→eqb,
  eqb_refl, if◌then◌else◌,
}
use evmjit.Ext.Declarations.{Ty}

-- A value, or a pointer to somewhere else; and what is passed: one of these, or the address of a slot.
pub data Arg : Type 0 where
  value pointer : ℕ → Arg

pub data Passed : Type 0 where
  direct : Arg → Passed
  slot : ℕ → Passed

-- `m_argCounter`, and what the slots hold.
pub record Slots : Type 0 where
  pub arg_counter : ℕ
  pub held : ℕ → ℕ

abbrev pub is_pointer : Ty → Bool
is_pointer Ty.void = false
is_pointer Ty.i32 = false
is_pointer Ty.i64 = false
is_pointer Ty.size = false
is_pointer Ty.gas = false
is_pointer Ty.word = false
is_pointer Ty.addr = false
is_pointer _ = true

unfoldable pub get_arg_alloca : Slots → ℕ × Slots
get_arg_alloca s = (s.arg_counter, record s { arg_counter = s.arg_counter + 1 })

-- A store into the slot that has just been taken.
abbrev pub store_slot : ℕ → ℕ → Slots → Slots
store_slot i v s = record s { held = λ j. if j == i then v else s.held j }

-- One round of the loop over the parameters.
unfoldable pub pass_arg : Bool → Arg → Slots → Passed × Slots
unfolding get_arg_alloca
pass_arg by_pointer (pointer p) s = (direct (pointer p), s)
pass_arg false (value v) s = (direct (value v), s)
pass_arg true (value v) s = let (mem, s') = get_arg_alloca s in (slot mem, store_slot mem v s')

-- The loop. There are as many arguments as parameters.
unfoldable pub pass_args : List Ty → List Arg → Slots → List Passed × Slots
pass_args [] args s = ([], s)
pass_args (ty ∷ params) [] s = ([], s)
pass_args (ty ∷ params) (a ∷ args) s =
    let (p, s') = pass_arg (is_pointer ty) a s in
    let (ps, s'') = pass_args params args s' in (p ∷ ps, s'')

unfoldable pub create_cabi_call : List Ty → List Arg → Slots → List Passed × Slots
create_cabi_call params args s =
    let (ps, s') = pass_args params args s in (ps, record s' { arg_counter = 0 })

-- What the callee finds: a value behind a pointer to a slot is that of the slot.
abbrev pub found : (ℕ → ℕ) → Passed → Arg
found held (direct a) = a
found held (slot i) = value (held i)

abbrev pub HasArgs : (ℕ → ℕ) → List Passed → List Arg → Type 0
HasArgs held [] [] = Unit
HasArgs held (p ∷ ps) (a ∷ args) = (found held p ≡ a) × HasArgs held ps args
HasArgs held _ _ = ⊥

-- The slots that are passed are those from `low` on, one after the other.
abbrev pub AreSlots : ℕ → List Passed → Type 0
AreSlots low [] = Unit
AreSlots low (direct a ∷ ps) = AreSlots low ps
AreSlots low (slot i ∷ ps) = (i ≡ low) × AreSlots (low + 1) ps

-- What may be passed for a parameter: an address for a pointer, and the value itself for any other type.
abbrev pub Suits : Ty → Arg → Passed → Type 0
Suits ty (pointer p) passed = passed ≡ direct (pointer p)
Suits ty (value v) (slot i) = is_pointer ty ≡ true
Suits ty (value v) (direct a) = is_pointer ty ≡ false

abbrev pub AllSuit : List Ty → List Arg → List Passed → Type 0
AllSuit [] [] [] = Unit
AllSuit (ty ∷ params) (a ∷ args) (p ∷ ps) = Suits ty a p × AllSuit params args ps
AllSuit _ _ _ = ⊥

-- What the slots and the callee find after the arguments have been passed.
abbrev Holds : List Ty → List Arg → Slots → List Passed → Slots → Type 0
Holds params args s ps s' =
    ((j : ℕ) → j < s.arg_counter → s'.held j ≡ s.held j)
    × HasArgs s'.held ps args
    × AllSuit params args ps
    × AreSlots s.arg_counter ps

-- One value, for a parameter that is a pointer or not, before arguments that hold in any slots.
passed_value-Holds :
    (ty : Ty) (by_pointer : Bool) (v : ℕ) (params : List Ty) (args : List Arg) (s : Slots)
    → is_pointer ty ≡ by_pointer
    → ((s₁ : Slots)
        → Holds params args s₁ (pass_args params args s₁).0 (pass_args params args s₁).1)
    → let (p, s₁) = pass_arg by_pointer (value v) s in
      let (ps, s') = pass_args params args s₁ in
      ((j : ℕ) → j < s.arg_counter → s'.held j ≡ s.held j)
      × HasArgs s'.held (p ∷ ps) (value v ∷ args)
      × AllSuit (ty ∷ params) (value v ∷ args) (p ∷ ps)
      × AreSlots s.arg_counter (p ∷ ps)
unfolding pass_arg get_arg_alloca
passed_value-Holds ty true v params args s e rest =
    let c : ℕ = s.arg_counter in
    let s₁ : Slots = store_slot c v (record s { arg_counter = c + 1 }) in
    let (kept, has, suit, slots) = rest s₁ in
    let held : (pass_args params args s₁).1.held c ≡ v =
      kept c (omega arith) ∙ rw (eqb_refl c) refl in
    (
      λ j lt. kept j (omega (arith, lt)) ∙ rw (lt→eqb j c lt) refl,
      (ap value held, has),
      (e, suit),
      (refl, slots),
    )
passed_value-Holds ty false v params args s e rest =
    let (kept, has, suit, slots) = rest s in (kept, (refl, has), (e, suit), slots)

pass_args-Holds :
    (params : List Ty) (args : List Arg) (s : Slots)
    → length args ≡ length params
    → Holds params args s (pass_args params args s).0 (pass_args params args s).1
unfolding pass_args pass_arg
pass_args-Holds [] [] s same = (λ j lt. refl, tt, tt, tt)
pass_args-Holds [] (a ∷ args) s same = absurd (omega arith)
pass_args-Holds (ty ∷ params) [] s same = absurd (omega arith)
pass_args-Holds (ty ∷ params) (pointer p ∷ args) s same =
    let (kept, has, suit, slots) = pass_args-Holds params args s (omega arith) in
    (kept, (refl, has), (refl, suit), slots)
pass_args-Holds (ty ∷ params) (value v ∷ args) s same =
    passed_value-Holds ty (is_pointer ty) v params args s refl
      λ s₁. pass_args-Holds params args s₁ (omega (arith, same))

-- Where there are as many arguments as parameters, each argument is passed in the way of its parameter: a
-- value for a pointer in a slot, a value for another type as it is, and a pointer as it is. The callee finds
-- the arguments that it is given. The slots are different ones, the next behind those that the caller has
-- taken before, whose contents stay; and the counter is reset for the next call.
pub create_cabi_call-HasArgs :
    (params : List Ty) (args : List Arg) (s : Slots)
    → length args ≡ length params
    → let (ps, s') = create_cabi_call params args s in
      ((j : ℕ) → j < s.arg_counter → s'.held j ≡ s.held j)
      × HasArgs s'.held ps args
      × AllSuit params args ps
      × AreSlots s.arg_counter ps
      × (s'.arg_counter ≡ 0)
unfolding create_cabi_call
create_cabi_call-HasArgs params args s same =
    let (kept, has, suit, slots) = pass_args-Holds params args s same in
    (kept, has, suit, slots, refl)
