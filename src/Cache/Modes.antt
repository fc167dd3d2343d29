-- ===== src/Cache/Modes.antt =====
-- What the modes let the operations of the cache do.
use evmjit.Prelude.{
  ℕ, ◌≡◌, refl, ◌∙◌, false, List, [], ◌∷◌, Option, none, some, ◌>>=◌, All, arith, if◌then◌else◌,
}
use evmjit.Cache.{
  FileSystem, Cache, guarded, get_object, notify_object_compiled, take_object, loads, stores,
  written_files,
}
use mathlib.Core.Option

-- The operations that compilations make, in any order.
pub data Op : Type 0 where
  get : List ℕ → Op
  notify : List ℕ → List ℕ → Op
  take : Op

module _ {D : Type 0} (fs : FileSystem D) where
  -- An operation with the module's identifier or the object that it gives.
  unfoldable pub run_op : Op → Cache D → Option (Option (List ℕ) × Cache D)
  run_op (get id) c = get_object fs id c
  run_op (notify id object) c = notify_object_compiled fs id object c >>= λ r. some (none, r.1)
  run_op take c = take_object fs c

  unfoldable pub run_ops : List Op → Cache D → Option (List (Option (List ℕ)) × Cache D)
  run_ops [] c = some ([], c)
  run_ops (op ∷ ops) c =
      run_op op c >>= λ r. run_ops ops (r.1) >>= λ rest. some (r.0 ∷ rest.0, rest.1)

  -- What holds after operations that gave `outs`.
  abbrev pub Keeps : Cache D → List (Option (List ℕ)) → Cache D → Type 0
  Keeps c outs c' =
      (c'.locked ≡ false)
      × (c'.mode ≡ c.mode)
      × (stores c.mode ≡ false → c'.files ≡ c.files)
      × (loads c.mode ≡ false
          → c.last_object ≡ none
          → All (λ o. o ≡ none) outs × (c'.last_object ≡ none))

  run_op-Keeps :
      (op : Op) (c : Cache D)
      → c.locked ≡ false
      → (o : Option (List ℕ)) × (c' : Cache D) × (run_op op c ≡ some (o, c')) × Keeps c (o ∷ []) c'
  unfolding run_op get_object notify_object_compiled take_object guarded
  run_op-Keeps (get id) c free =
      let found : Option (List ℕ) = fs.get_file c.files id in
      (
        if loads c.mode then Option.map (λ object. id) found else none,
        if loads c.mode then record c { last_object = found } else c,
        ground arith,
        ground arith,
      )
  run_op-Keeps (notify id object) c free = (
    none,
    if stores c.mode then record c { files = written_files fs id object c.files } else c,
    ground arith,
    ground arith,
  )
  run_op-Keeps take c free =
      (c.last_object, record c { last_object = none }, ground arith, ground arith)

  -- With the mutex free, a sequence of operations on the cache comes back and leaves it free, in whichever
  -- order the objects are looked for, stored and taken. In a mode that does not store, no file has changed
  -- after it; in a mode that does not load, no operation has given an object, if there was none before.
  pub run_ops-modes :
      (ops : List Op) (c : Cache D)
      → c.locked ≡ false
      → (outs : List (Option (List ℕ))) × (c' : Cache D) × (run_ops ops c ≡ some (outs, c'))
        × Keeps c outs c'
  unfolding run_ops
  run_ops-modes [] c free = ([], c, refl, (free, refl, λ h. refl, λ h last. (tt, last)))
  run_ops-modes (op ∷ ops) c free =
      let (o, c₁, ran, (free₁, mode₁, files₁, none₁)) = run_op-Keeps op c free in
      let (outs, c', rest, (free', mode', files', none')) = run_ops-modes ops c₁ free₁ in
      (
        o ∷ outs,
        c',
        rw (ran, ◌>>=◌) (rw (rest, ◌>>=◌) refl),
        (
          free',
          mode' ∙ mode₁,
          λ h. files' (rw mode₁ h) ∙ files₁ h,
          λ h last.
              let ((o_none, _), last₁) = none₁ h last in
              let (outs_none, last') = none' (rw mode₁ h) last₁ in ((o_none, outs_none), last'),
        ),
      )
