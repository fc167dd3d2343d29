-- ===== src/Cache/Objects.antt =====
-- Objects from the compiler to the cache and back.
use evmjit.Prelude.{
  ℕ, ◌≡◌, ◌≢◌, refl, true, false, List, [], ◌∷◌, Option, none, some, ◌>>=◌, inl, inr, ap, ◌∙◌, All,
  Option-cases, arith, if◌then◌else◌,
}
use evmjit.Cache.{
  written_files, CacheMode, FileSystem, Cache, guarded, get_object, notify_object_compiled,
  take_object, loads, stores,
}

-- What is documented of files: a file that has been written holds what was written, and other files
-- stay as they are, also where directories are created.
pub record IsFileSystem {D : Type 0} (fs : FileSystem D) : Type 0 where
  pub written :
      (files files' : D) (name bytes : List ℕ)
      → fs.write_file files name bytes ≡ some files'
      → fs.get_file files' name ≡ some bytes
  pub kept :
      (files files' : D) (name other bytes : List ℕ)
      → fs.write_file files name bytes ≡ some files'
      → other ≢ name
      → fs.get_file files' other ≡ fs.get_file files other
  pub created :
      (files files' : D) (other : List ℕ)
      → fs.create_directories files ≡ some files'
      → fs.get_file files' other ≡ fs.get_file files other

module _ {D : Type 0} (fs : FileSystem D) (laws : IsFileSystem fs) where
  -- Objects are stored one after the other.
  abbrev pub notify_all : List (List ℕ × List ℕ) → Cache D → Option (Cache D)
  notify_all [] c = some c
  notify_all ((id, object) ∷ later) c = elim (notify_object_compiled fs id object c) [
    | none ↦ none
    | some (_, c') ↦ notify_all later c'
  ]

  notify_lem :
      (id object : List ℕ) (c : Cache D)
      → c.locked ≡ false
      → notify_object_compiled fs id object c
        ≡ some (
          tt,
          record c {
            files = if stores c.mode then written_files fs id object c.files else c.files;
          },
        )
  unfolding notify_object_compiled guarded
  notify_lem id object c free = ground arith

  written_other :
      (id object other : List ℕ) (files : D)
      → other ≢ id
      → fs.get_file (written_files fs id object files) other ≡ fs.get_file files other
  written_other id object other files differs = elim (Option-cases (fs.create_directories files)) [
    | inl no_dir ↦ rw (no_dir, written_files)
    | inr (files', made) ↦ elim (Option-cases (fs.write_file files' id object)) [
      | inl no_file ↦ rw (made, no_file, written_files) (laws.created files files' other made)
      | inr (files'', wrote) ↦
          rw (made, wrote, written_files)
            (laws.kept files' files'' id other object wrote differs
              ∙ laws.created files files' other made)
    ]
  ]

  notify_all-cons :
      (id object : List ℕ) (later : List (List ℕ × List ℕ)) (c : Cache D)
      → c.locked ≡ false
      → stores c.mode ≡ true
      → notify_all ((id, object) ∷ later) c
        ≡ notify_all later (record c { files = written_files fs id object c.files })
  notify_all-cons id object later c free on =
      rw (notify_lem id object c free, notify_all) (rw on refl)

  -- Storing other objects leaves an object.
  notify_all_lem :
      (later : List (List ℕ × List ℕ)) (id : List ℕ) (c : Cache D)
      → c.locked ≡ false
      → stores c.mode ≡ true
      → All (λ o. id ≢ o.0) later
      → (files : D) × (notify_all later c ≡ some (record c { files = files }))
        × (fs.get_file files id ≡ fs.get_file c.files id)
  notify_all_lem [] id c free on others = (c.files, refl, refl)
  notify_all_lem ((id', object) ∷ later) id c free on (differs, others) =
      let c' : Cache D = record c { files = written_files fs id' object c.files } in
      let (files, stored, same) = notify_all_lem later id c' free on others in
      (
        files,
        notify_all-cons id' object later c free on ∙ stored,
        same ∙ written_other id' object id c.files differs,
      )

  fetch_lem :
      (id object : List ℕ) (c : Cache D)
      → c.locked ≡ false
      → loads c.mode ≡ true
      → fs.get_file c.files id ≡ some object
      → get_object fs id c ≡ some (some id, record c { last_object = some object })
  unfolding get_object guarded
  fetch_lem id object c free on found = ground arith

  take_lem :
      (c : Cache D)
      → c.locked ≡ false
      → take_object fs c ≡ some (c.last_object, record c { last_object = none })
  unfolding take_object guarded
  take_lem c free = ground arith

  -- What a compilation gets from the cache: the module of `Cache::getObject`, and what the engine gets by
  -- asking `ObjectCache::getObject` twice.
  abbrev pub fetch : List ℕ → Cache D → Option (Option (List ℕ) × Option (List ℕ) × Option (List ℕ))
  fetch id c = get_object fs id c >>= λ found. take_object fs (found.1) >>= λ first.
      take_object fs (first.1) >>= λ second. some (found.0, first.0, second.0)

  fetch_steps :
      (id : List ℕ) (c : Cache D) (object : List ℕ)
      → get_object fs id c ≡ some (some id, record c { last_object = some object })
      → take_object fs (record c { last_object = some object })
        ≡ some (some object, record c { last_object = none })
      → take_object fs (record c { last_object = none })
        ≡ some (none, record c { last_object = none })
      → fetch id c ≡ some (some id, some object, none)
  fetch_steps id c object found first second =
      rw (found, fetch) (rw (first, fetch) (rw (second, fetch) refl))

  -- On a file system that gives back what has been written last under a name, with the mutex free, in the
  -- mode `on`: an object for which the directory and the file could be made comes back once, by its own identifier, however many
  -- objects of other identifiers are stored after it.
  pub notify_object_compiled-get_object :
      (id object : List ℕ) (later : List (List ℕ × List ℕ)) (c : Cache D) {dir : D} {files : D}
      → c.locked ≡ false
      → c.mode ≡ CacheMode.on
      → fs.create_directories c.files ≡ some dir
      → fs.write_file dir id object ≡ some files
      → All (λ o. id ≢ o.0) later
      → (notify_all ((id, object) ∷ later) c >>= fetch id) ≡ some (some id, some object, none)
  notify_object_compiled-get_object id object later c {dir} {files} free on made wrote others =
      let files₀ : D = written_files fs id object c.files in
      let stored₀ : files₀ ≡ files = rw (made, wrote, written_files) refl in
      let (files', stored, same) =
        notify_all_lem later id (record c { files = files₀ }) free (rw on refl) others in
      let c₁ : Cache D = record c { files = files' } in
      let there : fs.get_file files' id ≡ some object =
        same ∙ ap (λ d. fs.get_file d id) stored₀ ∙ laws.written dir files id object wrote in
      let found = fetch_lem id object c₁ free (rw on refl) there in
      let first = take_lem (record c₁ { last_object = some object }) free in
      let second = take_lem (record c₁ { last_object = none }) free in
      ap (λ o. o >>= fetch id) (notify_all-cons id object later c free (rw on refl) ∙ stored)
      ∙ fetch_steps id c₁ object found first second
