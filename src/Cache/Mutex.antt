-- ===== src/Cache/Mutex.antt =====
-- The mutex of the cache: which operations come back.
use evmjit.Prelude.{ℕ, ◌≡◌, false, List, [], ◌∷◌, Option, none, some, arith, not, if◌then◌else◌}
use evmjit.Cache.{
  CacheMode, FileSystem, Cache, guarded, clear_cache, init, get_object, preload_files,
  preload_cache, is_clear, is_off,
}

module _ {D : Type 0} (fs : FileSystem D) where
  init-locked :
      (mode : CacheMode) (listener : Option ℕ) (c : Cache D)
      → c.locked ≡ false
      → init fs mode listener c ≡ (
          if is_clear mode
          then none
          else some (not (is_off mode), record c { mode = mode; listener = listener }))
  unfolding init guarded clear_cache
  init-locked mode listener c free = ground arith

  preload-locked :
      (address : List ℕ → ℕ) (func_cache : List (List ℕ × ℕ)) (c : Cache D)
      → c.locked ≡ false
      → preload_cache fs address func_cache c
        ≡ elim (fs.list_files c.files) [ [] ↦ some (func_cache, c) | name ∷ names ↦ none ]
  unfolding preload_cache guarded preload_files get_object
  preload-locked address func_cache c free = ground arith

  -- Where the mutex is free, `init` comes back, with the mode and the listener set, exactly if the mode is
  -- not `clear`, and `preload` comes back, with nothing loaded, exactly if there is no file in the
  -- directory; otherwise the thread waits for the mutex that it holds.
  pub init-preload_cache :
      (mode : CacheMode) (listener : Option ℕ) (address : List ℕ → ℕ)
      (func_cache : List (List ℕ × ℕ)) (c : Cache D)
      → c.locked ≡ false
      → (init fs mode listener c ≡ (
          if is_clear mode
          then none
          else some (not (is_off mode), record c { mode = mode; listener = listener })))
        × (preload_cache fs address func_cache c
            ≡ elim (fs.list_files c.files) [ [] ↦ some (func_cache, c) | name ∷ names ↦ none ])
  init-preload_cache mode listener address func_cache c free =
      (init-locked mode listener c free, preload-locked address func_cache c free)
