-- ===== src/Runtime/Keeps.antt =====
-- What every answer and every effect keeps, a run of emitted code keeps.
use evmjit.Prelude.{
  ℕ, ◌-◌, ◌≡◌, List, [], ◌∷◌, none, some, inl, inr, arith, Option-cases, ◌⊎◌, refl,
}
use evmjit.Compiler.Emit.{Emit, done, popping, pushing, dupping, swapping, ask, tell, Query, Effect}
use evmjit.Jit.Execute.{Run}
use evmjit.LocalStack.Program.{dup_word, swap_words}
use evmjit.Runtime.{Runtime}
use evmjit.Runtime.Machine.{World, finished, returned, answer, perform, run}

none-ne-some : {A : Type 0} {a : A} → none ≡ some a → ⊥
none-ne-some e = cc

sum-cases : {A B : Type 0} (x : A ⊎ B) → ((a : A) × (x ≡ inl a)) ⊎ ((b : B) × (x ≡ inr b))
sum-cases (inl a) = inl (a, refl)
sum-cases (inr b) = inr (b, refl)

returned-ne-finished :
    {left : Run} {stack : List ℕ} {rt : Runtime}
    → some (returned left) ≡ some (finished stack rt)
    → ⊥
returned-ne-finished e = cc

module _ (w : World) (P : Runtime → Type 0)
    (answers : (q : Query) (rt : Runtime) (v : ℕ) (rt' : Runtime)
      → P rt
      → answer w q rt ≡ some (v, rt')
      → P rt')
    (performs : (f : Effect) (rt rt' : Runtime) → P rt → perform w f rt ≡ inr rt' → P rt') where
  pub run-keeps :
      (e : Emit) (stack : List ℕ) (rt : Runtime) {stack' : List ℕ} {rt' : Runtime}
      → P rt
      → run w e stack rt ≡ some (finished stack' rt')
      → P rt'
  unfolding run
  run-keeps (done it) stack rt holds h = ground arith
  run-keeps (popping e) [] rt holds h = cc
  run-keeps (popping e) (v ∷ stack) rt holds h = run-keeps (e v) stack rt holds h
  run-keeps (pushing v e) stack rt holds h = run-keeps e (v ∷ stack) rt holds h
  run-keeps (dupping i e) stack rt holds h = elim (Option-cases (dup_word i stack)) [
    | inl no_item ↦ absurd (none-ne-some (rw (no_item, run) at h))
    | inr (stack', there) ↦ run-keeps e stack' rt holds (rw (there, run) at h)
  ]
  run-keeps (swapping i e) stack rt holds h = elim (Option-cases (swap_words (i - 1) stack)) [
    | inl no_item ↦ absurd (none-ne-some (rw (no_item, run) at h))
    | inr (stack', there) ↦ run-keeps e stack' rt holds (rw (there, run) at h)
  ]
  run-keeps (ask q e) stack rt holds h = elim (Option-cases (answer w q rt)) [
    | inl unknown ↦ absurd (none-ne-some (rw (unknown, run) at h))
    | inr ((v, rt₁), there) ↦
        run-keeps (e v) stack rt₁ (answers q rt v rt₁ holds there) (rw (there, run) at h)
  ]
  run-keeps (tell f e) stack rt holds h = elim (sum-cases (perform w f rt)) [
    | inl (left, there) ↦ absurd (returned-ne-finished (rw (there, run) at h))
    | inr (rt₁, there) ↦
        run-keeps e stack rt₁ (performs f rt rt₁ holds there) (rw (there, run) at h)
  ]
