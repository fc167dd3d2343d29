-- ===== src/Cache.antt =====
-- libevmjit/Cache.cpp: the cache of compiled objects on disk. The state are the globals, with the mutex
-- `x_cacheMutex` and the directory; LLVM's functions on files are a parameter. An operation that locks
-- the mutex where its thread holds it already waits for itself: it has no result.
pub mod Modes
pub mod Mutex
pub mod Objects
mod Tests
use mathlib.Core.Option
use evmjit.Prelude.{
  ℕ, Bool, true, false, List, [], ◌∷◌, Option, none, some, ◌>>=◌, not, if◌then◌else◌,
}

pub data CacheMode : Type 0 where
  off on read write clear preload : CacheMode

-- Files by their names in the cache directory. `write_file` and `create_directories` may fail.
pub record FileSystem (D : Type 0) : Type 0 where
  pub list_files : D → List (List ℕ)
  pub get_file : D → List ℕ → Option (List ℕ)
  pub write_file : D → List ℕ → List ℕ → Option D
  pub create_directories : D → Option D
  pub remove : D → List ℕ → D

pub record Cache (D : Type 0) : Type 0 where
  pub mode : CacheMode
  pub last_object : Option (List ℕ)
  pub listener : Option ℕ
  pub locked : Bool
  pub files : D

-- The modes in which objects are loaded, and in which they are stored.
abbrev pub loads : CacheMode → Bool
loads CacheMode.on = true
loads CacheMode.read = true
loads _ = false

abbrev pub stores : CacheMode → Bool
stores CacheMode.on = true
stores CacheMode.write = true
stores _ = false

abbrev pub is_clear : CacheMode → Bool
is_clear CacheMode.clear = true
is_clear _ = false

abbrev pub is_off : CacheMode → Bool
is_off CacheMode.off = true
is_off _ = false

module _ {D : Type 0} where
  abbrev release : {A : Type 0} → A × Cache D → A × Cache D
  release (a, c) = (a, record c { locked = false })

  -- `Guard g{x_cacheMutex}` and what follows it.
  unfoldable pub guarded :
      {A : Type 0} → (Cache D → Option (A × Cache D)) → Cache D → Option (A × Cache D)
  guarded body c =
      let held = body (record c { locked = true }) in
      if c.locked then none else Option.map release held

module _ {D : Type 0} (fs : FileSystem D) where
  -- `remove` for each file of the directory.
  unfoldable pub remove_all : List (List ℕ) → D → D
  remove_all [] files = files
  remove_all (name ∷ names) files = remove_all names (fs.remove files name)

  -- `Cache::clear`.
  unfoldable pub clear_cache : Cache D → Option (Unit {0} × Cache D)
  clear_cache =
      guarded λ c. some (tt, record c { files = remove_all (fs.list_files c.files) c.files })

  -- Whether an object cache is returned.
  unfoldable pub init : CacheMode → Option ℕ → Cache D → Option (Bool × Cache D)
  init mode listener = guarded λ c.
      let c1 = record c { mode = mode; listener = listener } in
      let cleared = clear_cache c1 >>= λ r. some (false, record (r.1) { mode = CacheMode.off }) in
      if is_clear mode then cleared else some (not (is_off mode), c1)

  -- `Cache::getObject`: the identifier of the module that stands for the object. An object that nobody
  -- has fetched is dropped, as a release build does; a debug build stops there.
  unfoldable pub get_object : List ℕ → Cache D → Option (Option (List ℕ) × Cache D)
  get_object id = guarded λ c.
      let found = fs.get_file c.files id in
      let fetched = record c { last_object = found } in
      if loads c.mode then some (Option.map (λ object. id) found, fetched) else some (none, c)

  -- The part of `notifyObjectCompiled` that writes. Where the directory or the file cannot be made, nothing
  -- more happens.
  abbrev pub written_files : List ℕ → List ℕ → D → D
  written_files id object files = elim (fs.create_directories files) [
    | none ↦ files
    | some files' ↦ elim (fs.write_file files' id object) [ none ↦ files' | some files'' ↦ files'' ]
  ]

  -- `ObjectCache::notifyObjectCompiled`.
  unfoldable pub notify_object_compiled : List ℕ → List ℕ → Cache D → Option (Unit {0} × Cache D)
  notify_object_compiled id object = guarded λ c.
      let stored = record c { files = written_files id object c.files } in
      if stores c.mode then some (tt, stored) else some (tt, c)

  -- `ObjectCache::getObject`: the object is moved out.
  unfoldable pub take_object : Cache D → Option (Option (List ℕ) × Cache D)
  take_object = guarded λ c. some (c.last_object, record c { last_object = none })

  -- The loop of `preload`. The engine gives a function its address.
  unfoldable pub preload_files :
      (List ℕ → ℕ)
      → List (List ℕ)
      → List (List ℕ × ℕ)
      → Cache D
      → Option (List (List ℕ × ℕ) × Cache D)
  preload_files address [] func_cache c = some (func_cache, c)
  preload_files address (name ∷ names) func_cache c = elim (get_object name c) [
    | none ↦ none
    | some (none, c') ↦ preload_files address names func_cache c'
    | some (some id, c') ↦ preload_files address names ((name, address name) ∷ func_cache) c'
  ]

  -- `Cache::preload`.
  unfoldable pub preload_cache :
      (List ℕ → ℕ) → List (List ℕ × ℕ) → Cache D → Option (List (List ℕ × ℕ) × Cache D)
  preload_cache address func_cache = guarded λ c.
      let listener = c.listener in
      preload_files address (fs.list_files c.files) func_cache (record c { listener = none })
      >>= λ r. some (r.0, record (r.1) { listener = listener })
