-- ===== src/Jit/CodeId.antt =====
-- `makeCodeId` of libevmjit/JIT.cpp against what the compiled code depends on.
use evmjit.Prelude.{ℕ, ◌/◌, ◌%◌, ◌^◌, ◌<◌, ◌≡◌, Bool, List, [], ◌∷◌, refl, arith, length, All}
use evmjit.Jit.{Revision, to_char, hex_char, make_code_id}

hex_char-same : (a b : ℕ) → a < 16 → b < 16 → hex_char a ≡ hex_char b → a ≡ b
hex_char-same a b ha hb h = ground arith

to_char-same : (r q : Revision) → to_char r ≡ to_char q → r ≡ q
unfolding to_char
to_char-same r q h = ground arith

two_chars :
    (x y x' y' : ℕ) (xs xs' : List ℕ)
    → (x ∷ y ∷ xs) ≡ (x' ∷ y' ∷ xs')
    → (x ≡ x') × ((y ≡ y') × (xs ≡ xs'))
two_chars x y x' y' xs xs' e = ground arith

-- Code identifiers of hashes of the same length are the same only for the same hash, the same revision
-- and the same choice of a static call.
pub make_code_id-same :
    (h g : List ℕ) (r q : Revision) (s t : Bool)
    → length h ≡ length g
    → All (λ b. b < 256) h
    → All (λ b. b < 256) g
    → make_code_id h r s ≡ make_code_id g q t
    → (h ≡ g) × (r ≡ q) × (s ≡ t)
unfolding make_code_id to_char
make_code_id-same [] [] r q s t same hb gb e = ground arith
make_code_id-same [] (b ∷ g) r q s t same hb gb e = absurd (omega arith)
make_code_id-same (a ∷ h) [] r q s t same hb gb e = absurd (omega arith)
make_code_id-same (a ∷ h) (b ∷ g) r q s t same (ha, hb) (gb', gb) e =
    let (high, (low, ids)) = two_chars _ _ _ _ _ _ e in
    let high_same = hex_char-same (a / 2 ^ 4) (b / 2 ^ 4) (omega arith) (omega arith) high in
    let low_same = hex_char-same (a % 2 ^ 4) (b % 2 ^ 4) (omega arith) (omega arith) low in
    let byte : a ≡ b = omega (arith, high_same, low_same) in
    let (rest, revs, statics) = make_code_id-same h g r q s t (omega arith) hb gb ids in
    (rw (byte, rest) refl, revs, statics)
