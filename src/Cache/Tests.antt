-- ===== src/Cache/Tests.antt =====
-- A cache on a directory that is a list of named files, the newest first.
use evmjit.Prelude.{
  ℕ, ◌≡◌, ◌≢◌, refl, true, false, List, [], ◌∷◌, Option, none, some, map, ◌>>=◌, eqb_refl, arith,
  if◌then◌else◌,
}
use evmjit.Cache.{CacheMode, FileSystem, Cache, init, preload_cache, guarded, clear_cache}
use evmjit.Cache.Modes.{Op, run_ops}
use evmjit.Cache.Mutex.{init-preload_cache}
use evmjit.Cache.Objects.{IsFileSystem, notify_all, fetch, notify_object_compiled-get_object}
use evmjit.Jit.{same_id}
use evmjit.Jit.Engine.{construct, new_resolver, Described, construct-run_ops}

abbrev Dir : Type 0
Dir = List (List ℕ × List ℕ)

get_file : Dir → List ℕ → Option (List ℕ)
get_file [] name = none
get_file ((n, bytes) ∷ dir) name = if same_id name n then some bytes else get_file dir name

abbrev remove : Dir → List ℕ → Dir
remove [] name = []
remove ((n, bytes) ∷ dir) name =
    if same_id name n then remove dir name else (n, bytes) ∷ remove dir name

abbrev fs : FileSystem Dir
fs = record {
  list_files = map (λ f. f.0);
  get_file = get_file;
  write_file = λ dir name bytes. some ((name, bytes) ∷ dir);
  create_directories = λ dir. some dir;
  remove = remove;
}

same_id_refl : (id : List ℕ) → same_id id id ≡ true
same_id_refl [] = refl
same_id_refl (a ∷ id) = ground (arith, eqb_refl a, same_id_refl id)

eq_of_same_id : (a b : List ℕ) → same_id a b ≡ true → a ≡ b
eq_of_same_id [] [] h = refl
eq_of_same_id [] (y ∷ b) h = cc
eq_of_same_id (x ∷ a) [] h = cc
eq_of_same_id (x ∷ a) (y ∷ b) h = ground (arith, eq_of_same_id a b)

fs-IsFileSystem : IsFileSystem fs
unfolding get_file
fs-IsFileSystem = record {
  written = λ dir dir' name bytes e. ground (arith, same_id_refl name);
  kept = λ dir dir' name other bytes e differs. ground (arith, eq_of_same_id other name);
  created = λ dir dir' other e. ground arith;
}

abbrev cache : Cache Dir
cache = record {
  mode = CacheMode.on;
  last_object = none;
  listener = none;
  locked = false;
  files = [];
}

abbrev id : List ℕ
id = 97 ∷ 98 ∷ []

-- The option that asks for a cleared cache.
clear_waits : init fs CacheMode.clear none cache ≡ none
unfolding init guarded clear_cache
clear_waits = refl

abbrev filled : Cache Dir
filled = record cache { files = (id, []) ∷ [] }

init-preload_cache_example :
    (init fs CacheMode.read none filled ≡ some (true, record filled { mode = CacheMode.read }))
    × (preload_cache fs (λ name. 7) [] filled ≡ none)
init-preload_cache_example = init-preload_cache fs CacheMode.read none (λ name. 7) [] filled refl

different : id ≢ 97 ∷ []
different e = ground arith

notify_object_compiled-get_object_example :
    (notify_all fs fs-IsFileSystem ((id, 1 ∷ 2 ∷ []) ∷ (97 ∷ [], 3 ∷ []) ∷ []) cache
      >>= fetch fs fs-IsFileSystem id)
    ≡ some (some id, some (1 ∷ 2 ∷ []), none)
notify_object_compiled-get_object_example =
    notify_object_compiled-get_object fs fs-IsFileSystem id (1 ∷ 2 ∷ []) ((97 ∷ [], 3 ∷ []) ∷ [])
      cache refl refl refl refl (different, tt)

abbrev ops : List Op
ops = Op.get id ∷ Op.notify id (5 ∷ []) ∷ Op.get id ∷ Op.take ∷ []

-- The JIT comes up read only, and the object that is stored is not written.
read_only_set_up :
    construct fs CacheMode.read filled
    ≡ some (
      record { memory_mgr = new_resolver; object_cache = true },
      record filled { mode = CacheMode.read; listener = none },
    )
unfolding construct init guarded
read_only_set_up = refl

construct-run_ops_example :
    (given : List (Option (List ℕ))) × (c'' : Cache Dir) × (run_ops fs ops
        (record filled { mode = CacheMode.read; listener = none })
      ≡ some (given, c''))
    × (c''.locked ≡ false)
    × Described fs CacheMode.read filled.files c''.files given
construct-run_ops_example =
    construct-run_ops fs CacheMode.read ops filled refl refl read_only_set_up
