-- ===== src/Ext/Tests.antt =====
-- The arguments of the host's functions in their slots.
use evmjit.Prelude.{ℕ, ◌<◌, ◌≡◌, refl, List, [], ◌∷◌}
use evmjit.Ext.Declarations.{set_storage_decl}
use evmjit.Ext.Slots.{
  Arg, Slots, HasArgs, AreSlots, AllSuit, value, pointer, direct, slot, create_cabi_call, pass_args,
  pass_arg, get_arg_alloca, create_cabi_call-HasArgs,
}

-- `Ext::sstore`: the environment, and three values in slots.
abbrev sstore_args : List Arg
sstore_args = pointer 900 ∷ value 7 ∷ value 1 ∷ value 2 ∷ []

abbrev none_taken : Slots
none_taken = record { arg_counter = 0; held = λ j. 0 }

passes_three :
    (create_cabi_call set_storage_decl.params sstore_args none_taken).0
    ≡ direct (pointer 900) ∷ slot 0 ∷ slot 1 ∷ slot 2 ∷ []
unfolding create_cabi_call pass_args pass_arg get_arg_alloca
passes_three = refl

create_cabi_call-HasArgs_example :
    let (ps, s') = create_cabi_call set_storage_decl.params sstore_args none_taken in
    ((j : ℕ) → j < 0 → s'.held j ≡ 0)
    × HasArgs s'.held ps sstore_args
    × AllSuit set_storage_decl.params sstore_args ps
    × AreSlots 0 ps
    × (s'.arg_counter ≡ 0)
create_cabi_call-HasArgs_example =
    create_cabi_call-HasArgs set_storage_decl.params sstore_args none_taken refl
