-- ===== src/BlockCache/Honest/Run.antt =====
-- What the block cache answers after any sequence of operations.
use mathlib.Core.Path.{subst}
use rsh.Prelude.{
  ℕ, ◌≡◌, refl, sym, ap, ◌∙◌, ◌&&◌, Option, none, some, List, [], ◌∷◌, map, arith, ◌==◌, Bool-cases,
  inl, inr,
}
use rsh.Prelude.Bytes.{Bytes}
use rsh.Error.{Result, ok, err}
use rsh.Text.{Text}
use rsh.Text.Table.{Table, Each, get, Each-get, Each-remove, Each-remove_all, Each-retain}
use rsh.Chunking.{Chunk, chunk_data, hash_sha256}
use rsh.Chunking.Cover.{IsChunking, chunk_data-IsChunking}
use rsh.BlockCache.{
  FileRecord, FileInfo, Cache, Disk, unchanged, record_of, index_known, index_stat, index_file,
  gone_paths, find_by_content_hash, find_block_sources, remove_file, block_fresh, file_fresh,
  cleanup, empty_cache,
}
use rsh.BlockCache.History.{
  Operation, index, by_content, block_sources, forget, clean, Event, perform, run, Regular,
  AllRegular,
}
use rsh.BlockCache.Honest.{
  AllHonest, BlockHonest, FileHonest, Honest, add_blocks-Honest, put_file-Honest, see_files-Honest,
  sources_of-Honest,
}

module _ (sha256 : Bytes → Bytes) (content : Text → ℕ → ℕ → Bytes) where
  -- `info` says of the file what its bytes are.
  abbrev pub Says : Option Bytes → FileInfo → Type 0
  Says none info = Unit
  Says (some bytes) info =
      (info.content_hash ≡ hash_sha256 sha256 bytes)
      × (info.block_hashes ≡ map (λ (c : Chunk). c.hash) (chunk_data sha256 bytes))

  abbrev pub ResultSays : Option Bytes → Result FileInfo → Type 0
  ResultSays bytes (err e) = Unit
  ResultSays bytes (ok info) = Says bytes info

  Known : Text → ℕ → ℕ → Option FileRecord → Type 0
  Known path size mtime none = Unit
  Known path size mtime (some e) =
      (e.size ≡ size) × (e.mod_time ≡ mtime) × FileHonest sha256 content path e

  unchanged-Known :
      (path : Text) (size mtime : ℕ) (o : Option FileRecord) (files : Table FileRecord)
      → get path files ≡ o
      → Each (FileHonest sha256 content) files
      → Known path size mtime (unchanged size mtime o)
  unfolding Known
  unchanged-Known path size mtime none files e h = tt
  unchanged-Known path size mtime (some r) files e h =
      elim (Bool-cases (r.size == size && r.mod_time == mtime)) [
        | inl same ↦
            let both : (r.size ≡ size) × (r.mod_time ≡ mtime) = ground arith in
            rw same (both.0, both.1, Each-get (FileHonest sha256 content) path files h e)
        | inr other ↦ rw other tt
      ]

  index_known-Honest :
      (disk : Disk) (path : Text) (size mtime now : ℕ) (o : Option FileRecord)
      (bytes : Option Bytes) (cache : Cache)
      → disk.read path ≡ bytes
      → ((b : Bytes) → bytes ≡ some b → b ≡ content path size mtime)
      → Known path size mtime o
      → Honest sha256 content cache
      → Honest sha256 content (index_known sha256 disk path size mtime now o cache).0
        × ResultSays bytes (index_known sha256 disk path size mtime now o cache).1
  unfolding Known
  index_known-Honest disk path size mtime now none none cache e regular k h = rw e (h, tt)
  index_known-Honest disk path size mtime now none (some b) cache e regular k h =
      let same = regular b refl in
      rw e (
        put_file-Honest sha256 content path (record_of sha256 size mtime now b) _
            (
              ap (hash_sha256 sha256) same,
              ap (λ (x : Bytes). map (λ (c : Chunk). c.hash) (chunk_data sha256 x)) same,
            )
            (add_blocks-Honest sha256 content path size mtime now 0 (chunk_data sha256 b) cache
              (subst (λ (x : Bytes). IsChunking sha256 x 0 (chunk_data sha256 b)) same
                (chunk_data-IsChunking sha256 b))
              h),
        (refl, refl),
      )
  index_known-Honest disk path size mtime now (some r) none cache e regular (sz, mt, f) h =
      (put_file-Honest sha256 content path (record r { last_seen = now }) cache f h, tt)
  index_known-Honest disk path size mtime now (some r) (some b) cache e regular (sz, mt, f) h =
      let now_content : content path r.size r.mod_time ≡ b =
        ap (λ (n : ℕ). content path n r.mod_time) sz
        ∙ ap (content path size) mt
        ∙ sym (regular b refl) in
      (
        put_file-Honest sha256 content path (record r { last_seen = now }) cache f h,
        (
          f.0 ∙ ap (hash_sha256 sha256) now_content,
          f.1 ∙ ap (λ (x : Bytes). map (λ (c : Chunk). c.hash) (chunk_data sha256 x)) now_content,
        ),
      )

  index_stat-Honest :
      (disk : Disk) (path : Text) (now : ℕ) (o : Option (ℕ × ℕ)) (cache : Cache)
      → disk.stat path ≡ o
      → Regular content disk
      → Honest sha256 content cache
      → Honest sha256 content (index_stat sha256 disk path now o cache).0
        × ResultSays (disk.read path) (index_stat sha256 disk path now o cache).1
  index_stat-Honest disk path now none cache e regular h = (h, tt)
  index_stat-Honest disk path now (some (size, mtime)) cache e regular h =
      index_known-Honest disk path size mtime now (unchanged size mtime (get path cache.files))
        (disk.read path) cache refl (λ b r. regular path size mtime b e r)
        (unchanged-Known path size mtime (get path cache.files) cache.files refl h.files) h

  index_file-Honest :
      (disk : Disk) (now : ℕ) (path : Text) (cache : Cache)
      → Regular content disk
      → Honest sha256 content cache
      → Honest sha256 content (index_file sha256 disk now path cache).0
        × ResultSays (disk.read path) (index_file sha256 disk now path cache).1
  unfolding index_file
  index_file-Honest disk now path cache =
      index_stat-Honest disk path now (disk.stat path) cache refl

  find_block_sources-Honest :
      (disk : Disk) (now : ℕ) (hash : Text) (cache : Cache)
      → Honest sha256 content cache
      → Honest sha256 content (find_block_sources disk now hash cache).0
        × AllHonest sha256 content hash (find_block_sources disk now hash cache).1
  unfolding find_block_sources
  find_block_sources-Honest disk now hash cache h =
      sources_of-Honest sha256 content disk now hash (get hash cache.blocks) cache refl h

  perform-Honest :
      (disk : Disk) (now : ℕ) (operation : Operation) (cache : Cache)
      → Regular content disk
      → Honest sha256 content cache
      → Honest sha256 content (perform sha256 disk now operation cache)
  unfolding perform find_by_content_hash remove_file cleanup
  perform-Honest disk now (index path) cache regular h =
      (index_file-Honest disk now path cache regular h).0
  perform-Honest disk now (by_content hash) cache regular h = record {
    blocks = h.blocks;
    files =
        Each-remove_all (FileHonest sha256 content) (gone_paths disk hash cache.files) _
          (see_files-Honest sha256 content disk now hash cache.files h.files);
  }
  perform-Honest disk now (block_sources hash) cache regular h =
      (find_block_sources-Honest disk now hash cache h).0
  perform-Honest disk now (forget path) cache regular h = record {
    blocks = h.blocks;
    files = Each-remove (FileHonest sha256 content) path cache.files h.files;
  }
  perform-Honest disk now clean cache regular h = record {
    blocks = Each-retain (BlockHonest sha256 content) (block_fresh now cache) cache.blocks h.blocks;
    files = Each-retain (FileHonest sha256 content) (file_fresh now cache) cache.files h.files;
  }

  run-Honest :
      (events : List Event) (cache : Cache)
      → AllRegular content events
      → Honest sha256 content cache
      → Honest sha256 content (run sha256 events cache)
  unfolding run
  run-Honest [] cache regular h = h
  run-Honest (e ∷ events) cache regular h =
      run-Honest events (perform sha256 e.disk e.now e.operation cache) regular.1
        (perform-Honest e.disk e.now e.operation cache regular.0 h)

  empty_cache-Honest : Honest sha256 content empty_cache
  empty_cache-Honest = record { blocks = tt; files = tt }

  -- Whatever was indexed, looked up, forgotten or cleaned before, from an empty cache on and while
  -- files changed: where `index_file` answers for a file that can be read, the answer has the
  -- hashes of the whole content and of the chunks of the bytes that the file has now, also where
  -- the shortcut for an unchanged size and time of change is taken. A change of the content is
  -- taken to change the size or the time.
  pub index_file-run :
      (events : List Event) (disk : Disk) (now : ℕ) (path : Text)
      → AllRegular content events
      → Regular content disk
      → ResultSays
          (disk.read path)
          (index_file sha256 disk now path (run sha256 events empty_cache)).1
  index_file-run events disk now path past regular =
      (index_file-Honest disk now path (run sha256 events empty_cache) regular
        (run-Honest events empty_cache past empty_cache-Honest)).1

  -- Each place that `find_block_sources` gives for a hash, after any such sequence, had a block
  -- with that hash in some version of the file.
  pub find_block_sources-run :
      (events : List Event) (disk : Disk) (now : ℕ) (hash : Text)
      → AllRegular content events
      → AllHonest sha256 content hash
          (find_block_sources disk now hash (run sha256 events empty_cache)).1
  find_block_sources-run events disk now hash past =
      (find_block_sources-Honest disk now hash (run sha256 events empty_cache)
        (run-Honest events empty_cache past empty_cache-Honest)).1
