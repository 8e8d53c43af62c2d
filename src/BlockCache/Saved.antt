-- ===== src/BlockCache/Saved.antt =====
-- What is not marked as changed was not changed, so a flush loses nothing.
use mathlib.Core.Path.{subst}
use rsh.Prelude.{
  ℕ, suc, ◌+◌, ◌≡◌, refl, sym, ap, ◌∙◌, Bool, true, false, ◌&&◌, ◌||◌, not, Option, none, some,
  List, [], ◌∷◌, arith, if◌then◌else◌, Bool-cases, inl, inr, ltb,
}
use rsh.Prelude.Bytes.{Bytes}
use rsh.Error.{Result, ok}
use rsh.Text.{Text, text_eq}
use rsh.Text.Table.{Table, get, remove_all, retain, remove_absent}
use rsh.BlockCache.{
  BlockSource, BlockRecord, FileRecord, Cache, CacheStore, Disk, exists, is_some, is_empty,
  unchanged, index_known, index_stat, index_file, found_paths, gone_paths, see_files,
  find_by_content_hash, use_block, existing, sources_of, find_block_sources, remove_file,
  block_fresh, file_fresh, count_dropped, cleanup, store_of, of_store, parsed, new, flush,
}
use rsh.BlockCache.History.{
  Operation, index, by_content, block_sources, forget, clean, Event, perform, run,
}

-- A cache that is not dirty has the blocks and files of the earlier one, which was not dirty.
abbrev Kept : Cache → Cache → Type 0
Kept before after = (before.dirty ≡ false) × (store_of after ≡ store_of before)

see_files_none :
    (disk : Disk) (now : ℕ) (hash : Text) (files : Table FileRecord)
    → is_empty (found_paths disk hash files) ≡ true
    → see_files disk now hash files ≡ files
unfolding see_files found_paths
see_files_none disk now hash [] h = refl
see_files_none disk now hash ((path, e) ∷ files) h =
    elim (Bool-cases (text_eq e.content_hash hash && exists disk path)) [
      | inl seen ↦ let never : false ≡ true = rw seen at h in cc
      | inr other ↦
          rw other (ap (◌∷◌ (path, e)) (see_files_none disk now hash files (rw other at h)))
    ]

retain_all {ℓ} :
    {V : Type ℓ} (keep : V → Bool) (table : Table V)
    → count_dropped keep table ≡ 0
    → retain keep table ≡ table
unfolding retain count_dropped
retain_all keep [] h = refl
retain_all keep ((k, v) ∷ rest) h = elim (Bool-cases (keep v)) [
  | inl kept ↦ rw kept (ap (◌∷◌ (k, v)) (retain_all keep rest (rw kept at h)))
  | inr dropped ↦
      let never : suc (count_dropped keep rest) ≡ 0 = rw dropped at h in absurd (omega arith)
]

module _ (sha256 : Bytes → Bytes) where
  index_known-Kept :
      (disk : Disk) (path : Text) (size mtime now : ℕ) (o : Option FileRecord)
      (bytes : Option Bytes) (cache : Cache)
      → disk.read path ≡ bytes
      → (index_known sha256 disk path size mtime now o cache).0.dirty ≡ false
      → Kept cache (index_known sha256 disk path size mtime now o cache).0
  index_known-Kept disk path size mtime now none none cache e h = rw e (rw e at h, refl)
  index_known-Kept disk path size mtime now none (some b) cache e h =
      let never : true ≡ false = rw e at h in cc
  index_known-Kept disk path size mtime now (some r) bytes cache e h = cc

  index_stat-Kept :
      (disk : Disk) (path : Text) (now : ℕ) (o : Option (ℕ × ℕ)) (cache : Cache)
      → (index_stat sha256 disk path now o cache).0.dirty ≡ false
      → Kept cache (index_stat sha256 disk path now o cache).0
  index_stat-Kept disk path now none cache h = (h, refl)
  index_stat-Kept disk path now (some (size, mtime)) cache h =
      index_known-Kept disk path size mtime now (unchanged size mtime (get path cache.files))
        (disk.read path) cache refl h

  sources_of-Kept :
      (disk : Disk) (now : ℕ) (hash : Text) (o : Option BlockRecord) (cache : Cache)
      → (sources_of disk now hash o cache).0.dirty ≡ false
      → Kept cache (sources_of disk now hash o cache).0
  sources_of-Kept disk now hash none cache h = (h, refl)
  sources_of-Kept disk now hash (some r) cache h = use_block_dirty (existing disk r.sources) h
    where
      use_block_dirty :
          (valid : List BlockSource)
          → (use_block now hash r valid cache).0.dirty ≡ false
          → Kept cache (use_block now hash r valid cache).0
      use_block_dirty [] h = cc
      use_block_dirty (s ∷ valid) h = cc

  by_content-Kept :
      (disk : Disk) (now : ℕ) (hash : Text) (cache : Cache)
      → (find_by_content_hash disk now hash cache).0.dirty ≡ false
      → Kept cache (find_by_content_hash disk now hash cache).0
  unfolding find_by_content_hash
  by_content-Kept disk now hash cache h =
      let (was, found, gone) =
        unchanged_flags cache.dirty (found_paths disk hash cache.files)
          (gone_paths disk hash cache.files) h in
      (
        was,
        ap (λ (files : Table FileRecord). record { blocks = cache.blocks; files = files })
            (remove_all_none (gone_paths disk hash cache.files)
                (see_files disk now hash cache.files) gone
              ∙ see_files_none disk now hash cache.files found),
      )
    where
      unchanged_flags :
          (dirty : Bool) (paths to_remove : List Text)
          → dirty || not (is_empty paths) || not (is_empty to_remove) ≡ false
          → (dirty ≡ false) × (is_empty paths ≡ true) × (is_empty to_remove ≡ true)
      unchanged_flags dirty paths to_remove h = ground arith

      remove_all_none :
          (to_remove : List Text) (files : Table FileRecord)
          → is_empty to_remove ≡ true
          → remove_all to_remove files ≡ files
      remove_all_none [] files e = unfold remove_all in refl
      remove_all_none (p ∷ ps) files e = cc

  forget-Kept :
      (path : Text) (cache : Cache)
      → (remove_file path cache).dirty ≡ false
      → Kept cache (remove_file path cache)
  unfolding remove_file
  forget-Kept path cache h =
      let both : (cache.dirty ≡ false) × (is_some (get path cache.files) ≡ false) = ground arith in
      (
        both.0,
        ap (λ (files : Table FileRecord). record { blocks = cache.blocks; files = files })
            (remove_absent path cache.files (is_none (get path cache.files) both.1)),
      )
    where
      is_none : (o : Option FileRecord) → is_some o ≡ false → o ≡ none
      is_none none e = refl
      is_none (some r) e = cc

  clean-Kept :
      (now : ℕ) (cache : Cache)
      → (cleanup now cache).0.dirty ≡ false
      → Kept cache (cleanup now cache).0
  unfolding cleanup
  clean-Kept now cache h =
      let blocks : ℕ = count_dropped (block_fresh now cache) cache.blocks in
      let files : ℕ = count_dropped (file_fresh now cache) cache.files in
      let (was, b, f) = nothing_removed cache.dirty blocks files h in
      (
        was,
        ap
              (λ (t : Table BlockRecord). record {
                blocks = t;
                files = retain (file_fresh now cache) cache.files;
              })
              (retain_all (block_fresh now cache) cache.blocks b)
            ∙ ap (λ (t : Table FileRecord). record { blocks = cache.blocks; files = t })
                (retain_all (file_fresh now cache) cache.files f),
      )
    where
      nothing_removed :
          (dirty : Bool) (blocks files : ℕ)
          → dirty || ltb 0 (blocks + files) ≡ false
          → (dirty ≡ false) × (blocks ≡ 0) × (files ≡ 0)
      nothing_removed dirty blocks files h = ground arith

  perform-Kept :
      (disk : Disk) (now : ℕ) (operation : Operation) (cache : Cache)
      → (perform sha256 disk now operation cache).dirty ≡ false
      → Kept cache (perform sha256 disk now operation cache)
  unfolding perform index_file find_block_sources
  perform-Kept disk now (index path) cache h =
      index_stat-Kept disk path now (disk.stat path) cache h
  perform-Kept disk now (by_content hash) cache h = by_content-Kept disk now hash cache h
  perform-Kept disk now (block_sources hash) cache h =
      sources_of-Kept disk now hash (get hash cache.blocks) cache h
  perform-Kept disk now (forget path) cache h = forget-Kept path cache h
  perform-Kept disk now clean cache h = clean-Kept now cache h

  run-Kept :
      (events : List Event) (cache : Cache)
      → (run sha256 events cache).dirty ≡ false
      → Kept cache (run sha256 events cache)
  unfolding run
  run-Kept [] cache h = (h, refl)
  run-Kept (e ∷ events) cache h =
      let (middle, rest) = run-Kept events (perform sha256 e.disk e.now e.operation cache) h in
      let (before, first) = perform-Kept e.disk e.now e.operation cache middle in
      (before, rest ∙ first)

module _ (to_vec : CacheStore → Option Bytes) (from_slice : Bytes → Option CacheStore) where
  -- The store is written, and what was written is read back.
  abbrev pub ReadsBack : CacheStore → Type 0
  ReadsBack store =
      (b : ℕ) × (bytes : Bytes) × (to_vec store ≡ some (b ∷ bytes))
      × (from_slice (b ∷ bytes) ≡ some store)

  abbrev after_rename : Bool → Cache → Option Bytes → Option CacheStore
  after_rename renamed cache saved =
      if renamed then some (store_of cache) else parsed to_vec from_slice saved

  flush_dirty :
      (renamed : Bool) (cache : Cache) (saved : Option Bytes)
      → ReadsBack (store_of cache)
      → cache.dirty ≡ true
      → (new to_vec from_slice true (flush to_vec from_slice true renamed cache saved).1
          ≡ ok (of_store (after_rename renamed cache saved)))
        × ((flush to_vec from_slice true renamed cache saved).2 ≡ ok tt)
        × ((flush to_vec from_slice true renamed cache saved).0.dirty ≡ false)
  unfolding flush new
  flush_dirty renamed cache saved back h =
      let (b, bytes, written, read) = back in
      elim (Bool-cases renamed) [
        | inl yes_renamed ↦ rw (h, written, yes_renamed, read) (refl, refl, refl)
        | inr not_renamed ↦ rw (h, written, not_renamed) (refl, refl, refl)
      ]

  flush_clean :
      (wrote renamed : Bool) (cache : Cache) (saved : Option Bytes)
      → cache.dirty ≡ false
      → flush to_vec from_slice wrote renamed cache saved ≡ (cache, saved, ok tt)
  unfolding flush
  flush_clean wrote renamed cache saved h = rw h refl

  of_store_same :
      (o : Option CacheStore) (store : CacheStore)
      → store ≡ store_of (of_store o)
      → of_store o ≡ of_store (some store)
  of_store_same none store e = ap (λ (s : CacheStore). of_store (some s)) (sym e)
  of_store_same (some s) store e = ap (λ (s : CacheStore). of_store (some s)) (sym e)

  new_same :
      (b : Bool) (saved : Option Bytes) (store : CacheStore)
      → store ≡ store_of (of_store (parsed to_vec from_slice saved))
      → new to_vec from_slice true saved
        ≡ ok (of_store (if b then some store else parsed to_vec from_slice saved))
  unfolding new
  new_same true saved store e = ap ok (of_store_same (parsed to_vec from_slice saved) store e)
  new_same false saved store e = refl

-- After any operations on a cache that was loaded, a flush whose temporary file is written reports
-- success, and a later flush changes nothing. If the rename worked, or nothing was marked as
-- changed, the cache that is loaded next has the blocks and the files of this one; if the rename
-- failed it has what the cache file held before. The store of this cache is read back as written.
pub new-flush :
    (sha256 : Bytes → Bytes) (to_vec : CacheStore → Option Bytes)
    (from_slice : Bytes → Option CacheStore) (events : List Event) (saved : Option Bytes)
    (renamed : Bool) (cache : Cache)
    → ReadsBack to_vec from_slice (store_of cache)
    → cache ≡ run sha256 events (of_store (parsed to_vec from_slice saved))
    → (new to_vec from_slice true (flush to_vec from_slice true renamed cache saved).1
        ≡ ok (
            of_store (
              if renamed || not cache.dirty
              then some (store_of cache)
              else parsed to_vec from_slice saved)))
      × ((flush to_vec from_slice true renamed cache saved).2 ≡ ok tt)
      × ((wrote' renamed' : Bool)
          → flush to_vec from_slice wrote' renamed'
              (flush to_vec from_slice true renamed cache saved).0
              (flush to_vec from_slice true renamed cache saved).1
            ≡ (
              (flush to_vec from_slice true renamed cache saved).0,
              (flush to_vec from_slice true renamed cache saved).1,
              ok tt,
            ))
new-flush sha256 to_vec from_slice events saved renamed cache back e =
    elim (Bool-cases cache.dirty) [
      | inl changed ↦
          let (loaded, fine, cleared) =
            flush_dirty to_vec from_slice renamed cache saved back changed in
          (
            loaded ∙ elim (Bool-cases renamed) [
              | inl moved ↦ rw moved refl
              | inr stayed ↦ rw (stayed, changed) refl
            ],
            fine,
            λ w r. flush_clean to_vec from_slice w r _ _ cleared,
          )
      | inr same ↦
          let start : Cache = of_store (parsed to_vec from_slice saved) in
          let (_, kept) =
            run-Kept sha256 events start (subst (λ (c : Cache). c.dirty ≡ false) e same) in
          let here : store_of cache ≡ store_of start = ap store_of e ∙ kept in
          let flushed = flush_clean to_vec from_slice true renamed cache saved same in
          (
            ap (λ (p : Cache × Option Bytes × Result (Unit {0})). new to_vec from_slice true p.1)
                  flushed
                ∙ new_same to_vec from_slice (renamed || not cache.dirty) saved (store_of cache)
                    here,
            ap (λ (p : Cache × Option Bytes × Result (Unit {0})). p.2) flushed,
            λ w r.
                flush_clean to_vec from_slice w r _ _
                  (ap (λ (p : Cache × Option Bytes × Result (Unit {0})). p.0.dirty) flushed ∙ same),
          )
    ]
