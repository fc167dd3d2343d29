-- ===== src/Jit/Engine.antt =====
-- The engine of `JITImpl` of libevmjit/JIT.cpp: its constructor, `createEngine`, and the memory that
-- `SymbolResolver` reports. LLVM's engine itself is not modelled, only the object cache that it is given.
use evmjit.Prelude.{
  ℕ, ◌+◌, ◌*◌, ◌≡◌, Bool, true, false, Option, none, some, leb, ◌&&◌, ◌||◌, ◌⊎◌, inl, inr, refl,
  ◌>>=◌, not, arith, if◌then◌else◌, List, All, ap, ◌∙◌,
}
use evmjit.Cache.Modes.{Op, run_ops, run_ops-modes, Keeps}
use evmjit.Cache.{
  CacheMode, FileSystem, Cache, guarded, clear_cache, init, is_clear, is_off, loads, stores,
}

-- `m_totalMemorySize` and `m_printMemoryLimit`.
pub record SymbolResolver : Type 0 where
  pub total_memory_size : ℕ
  pub print_memory_limit : ℕ

abbrev pub new_resolver : SymbolResolver
new_resolver = record { total_memory_size = 0; print_memory_limit = 1024 * 1024 }

-- `reportMemorySize`, with whether it prints. The sections of code and of data report alike.
unfoldable pub report_memory_size : Bool → ℕ → SymbolResolver → SymbolResolver × Bool
report_memory_size stats added_size m =
    let total = m.total_memory_size + added_size in
    let print_memory_step = 10 * 1024 * 1024 in
    let prints = stats && leb m.print_memory_limit total in
    let limit = if prints then m.print_memory_limit + print_memory_step else m.print_memory_limit in
    (record { total_memory_size = total; print_memory_limit = limit }, prints)

-- The engine: its memory manager, and whether objects are cached.
pub record Engine : Type 0 where
  pub memory_mgr : SymbolResolver
  pub object_cache : Bool

abbrev is_preload : CacheMode → Bool
is_preload CacheMode.preload = true
is_preload _ = false

module _ {D : Type 0} (fs : FileSystem D) where
  -- None where `Cache::init` does not come back.
  unfoldable pub create_engine : CacheMode → Cache D → Option (Engine × Cache D)
  create_engine g_cache c = init fs g_cache none c >>= λ r.
      some (record { memory_mgr = new_resolver; object_cache = r.0 }, r.1)

  -- The constructor of `JITImpl`, for the option "cache".
  unfoldable pub construct : CacheMode → Cache D → Option (Engine × Cache D)
  unfolding create_engine
  construct option c =
      let g_cache = if is_preload option then CacheMode.on else option in create_engine g_cache c

  -- What the option asks for.
  abbrev pub wants_loads : CacheMode → Bool
  wants_loads option = loads option || is_preload option

  abbrev pub wants_stores : CacheMode → Bool
  wants_stores option = stores option || is_preload option

  -- The JIT comes up exactly where the option is not to clear the cache. Then objects are loaded from the disk
  -- for the options 1, r and p, and stored there for the options 1, w and p; the engine has an object cache for
  -- all of them, and none for the option 0.
  pub construct-modes :
      (option : CacheMode) (c : Cache D)
      → c.locked ≡ false
      → ((is_clear option ≡ true) × (construct option c ≡ none))
        ⊎ ((engine : Engine) × (c' : Cache D) × (construct option c ≡ some (engine, c'))
            × (is_clear option ≡ false)
            × (engine.object_cache ≡ not (is_off option))
            × (loads c'.mode ≡ wants_loads option)
            × (stores c'.mode ≡ wants_stores option)
            × (c'.locked ≡ false))
  unfolding construct init guarded clear_cache
  construct-modes CacheMode.clear c free = inl (refl, ground arith)
  construct-modes option c free = inr (
    record { memory_mgr = new_resolver; object_cache = not (is_off option) },
    record c { mode = if is_preload option then CacheMode.on else option; listener = none },
    ground arith,
    refl,
    refl,
    refl,
    refl,
    free,
  )

  abbrev set_up : CacheMode → Cache D → Cache D
  set_up option c = record c {
    mode = if is_preload option then CacheMode.on else option;
    listener = none;
  }

  -- The constructor, where it comes back.
  constructed :
      (option : CacheMode) (c : Cache D) {engine : Engine} {c' : Cache D}
      → c.locked ≡ false
      → construct option c ≡ some (engine, c')
      → c' ≡ set_up option c
  unfolding construct init guarded clear_cache
  constructed CacheMode.clear c free e =
      let hangs : construct CacheMode.clear c ≡ none = ground arith in cc
  constructed option c free e =
      let up : construct option c
          ≡ some (
            record { memory_mgr = new_resolver; object_cache = not (is_off option) },
            set_up option c,
          ) =
        ground arith in
      cc

  -- What the option's description in the help text of the JIT says of the files and of the objects that
  -- operations give: "0: Disabled", "r: Read only. No new objects are added to cache", "w: Write only. No
  -- objects are loaded from cache".
  abbrev pub Described : CacheMode → D → D → List (Option (List ℕ)) → Type 0
  Described CacheMode.off before after given = (after ≡ before) × All (λ o. o ≡ none) given
  Described CacheMode.read before after given = after ≡ before
  Described CacheMode.write before after given = All (λ o. o ≡ none) given
  Described _ before after given = Unit

  Keeps-Described :
      (option : CacheMode) (c : Cache D) (given : List (Option (List ℕ))) (c'' : Cache D)
      → c.last_object ≡ none
      → Keeps fs (set_up option c) given c''
      → Described option c.files c''.files given
  Keeps-Described CacheMode.off c given c'' last (free, mode, stays, gives) =
      (stays refl, (gives refl last).0)
  Keeps-Described CacheMode.read c given c'' last (free, mode, stays, gives) = stays refl
  Keeps-Described CacheMode.write c given c'' last (free, mode, stays, gives) = (gives refl last).0
  Keeps-Described CacheMode.on c given c'' last keeps = tt
  Keeps-Described CacheMode.clear c given c'' last keeps = tt
  Keeps-Described CacheMode.preload c given c'' last keeps = tt

  -- Where the JIT has come up with an option, with the mutex free and no object fetched, any lookups,
  -- stores and fetches of objects come back, in any order, and leave the mutex free, and they do what the
  -- option's description says: nothing is stored for 0 and r, and no object is given for 0 and w.
  pub construct-run_ops :
      (option : CacheMode) (ops : List Op) (c : Cache D) {engine : Engine} {c' : Cache D}
      → c.locked ≡ false
      → c.last_object ≡ none
      → construct option c ≡ some (engine, c')
      → (given : List (Option (List ℕ))) × (c'' : Cache D) × (run_ops fs ops c' ≡ some (given, c''))
        × (c''.locked ≡ false)
        × Described option c.files c''.files given
  construct-run_ops option ops c {engine} {c'} free none_last e =
      let (given, c'', ran, keeps) = run_ops-modes fs ops (set_up option c) free in
      (
        given,
        c'',
        ap (run_ops fs ops) (constructed option c free e) ∙ ran,
        keeps.0,
        Keeps-Described option c given c'' none_last keeps,
      )
