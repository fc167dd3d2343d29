-- ===== src/Compiler/Observer.antt =====
-- Properties of every path through emitted code, with a state that what it reads and does changes.
use evmjit.Prelude.{ℕ}
use evmjit.Compiler.Emit.{
  Emit, done, popping, pushing, dupping, swapping, ask, tell, Query, Effect, then_emit,
}

-- What must hold where a value is read or an effect happens, and the state after it.
pub record Observer (S : Type 0) : Type 1 where
  pub may_ask : S → Query → Type 0
  pub asked : S → Query → ℕ → S
  pub may_tell : S → Effect → Type 0
  pub told : S → Effect → S

module _ {S : Type 0} (o : Observer S) where
  -- On every path from the state, all the conditions hold, and the last state and the iterator
  -- satisfy `post`.
  abbrev pub Always : (S → ℕ → Type 0) → S → Emit → Type 0
  Always post x (done it) = post x it
  Always post x (popping e) = (v : ℕ) → Always post x (e v)
  Always post x (pushing v e) = Always post x e
  Always post x (dupping i e) = Always post x e
  Always post x (swapping i e) = Always post x e
  Always post x (ask q e) = o.may_ask x q × ((v : ℕ) → Always post (o.asked x q v) (e v))
  Always post x (tell f e) = o.may_tell x f × Always post (o.told x f) e

  module _ (post mid : S → ℕ → Type 0) (k : ℕ → Emit)
      (rest : (x : S) (it : ℕ) → mid x it → Always post x (k it)) where
    pub then_emit-Always : (x : S) (e : Emit) → Always mid x e → Always post x (then_emit e k)
    unfolding then_emit
    then_emit-Always x (done it) h = rest x it h
    then_emit-Always x (popping e) h = λ v. then_emit-Always x (e v) (h v)
    then_emit-Always x (pushing v e) h = then_emit-Always x e h
    then_emit-Always x (dupping i e) h = then_emit-Always x e h
    then_emit-Always x (swapping i e) h = then_emit-Always x e h
    then_emit-Always x (ask q e) (may, h) = (may, λ v. then_emit-Always (o.asked x q v) (e v) (h v))
    then_emit-Always x (tell f e) (may, h) = (may, then_emit-Always (o.told x f) e h)

-- Where each state of one observer has one of another that allows what the first allows, the properties of
-- the first hold for the second.
module _ {S T : Type 0} (o : Observer S) (p : Observer T) (R : S → T → Type 0)
    (asks : (x : S) (y : T) (q : Query)
      → R x y
      → o.may_ask x q
      → p.may_ask y q × ((v : ℕ) → R (o.asked x q v) (p.asked y q v)))
    (tells : (x : S) (y : T) (f : Effect)
      → R x y
      → o.may_tell x f
      → p.may_tell y f × R (o.told x f) (p.told y f))
    (post : S → ℕ → Type 0) (post' : T → ℕ → Type 0)
    (ends : (x : S) (y : T) (it : ℕ) → R x y → post x it → post' y it) where
  pub Always-simulates : (x : S) (y : T) (e : Emit) → R x y → Always o post x e → Always p post' y e
  Always-simulates x y (done it) r h = ends x y it r h
  Always-simulates x y (popping e) r h = λ v. Always-simulates x y (e v) r (h v)
  Always-simulates x y (pushing v e) r h = Always-simulates x y e r h
  Always-simulates x y (dupping i e) r h = Always-simulates x y e r h
  Always-simulates x y (swapping i e) r h = Always-simulates x y e r h
  Always-simulates x y (ask q e) r (may, h) =
      let (may', r') = asks x y q r may in
      (may', λ v. Always-simulates (o.asked x q v) (p.asked y q v) (e v) (r' v) (h v))
  Always-simulates x y (tell f e) r (may, h) =
      let (may', r') = tells x y f r may in
      (may', Always-simulates (o.told x f) (p.told y f) e r' h)
