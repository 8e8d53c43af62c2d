-- ===== src/BlockCache/Honest.antt =====
-- The sources and the file records of the block cache are true of a version of the file.
pub mod Run
use mathlib.Core.Path.{subst}
use rsh.Prelude.{
  ℕ, ◌+◌, ◌≡◌, refl, sym, ap, ◌∙◌, Bool, true, false, ◌&&◌, Option, none, some, List, [], ◌∷◌, ◌++◌,
  map, arith, ◌==◌, if◌then◌else◌, slice, Bool-cases, Option-cases, inl, inr, ==_iff,
}
use rsh.Prelude.Bytes.{Bytes}
use rsh.Error.{Result, ok, err}
use rsh.Text.{Text, text_eq}
use rsh.Text.Table.{
  Table, Each, get, Each-get, Each-insert, Each-remove, Each-remove_all, Each-retain,
}
use rsh.Chunking.{Chunk, chunk_data, hash_sha256}
use rsh.Chunking.Cover.{IsChunking, chunk_data-IsChunking}
use rsh.BlockCache.{
  BlockSource, BlockRecord, FileRecord, FileInfo, Cache, Disk, exists, has_source, or_new,
  with_source, add_block_source, add_blocks, unchanged, record_of, put_file, index_data,
  index_known, index_stat, index_file, found_paths, gone_paths, see_files, find_by_content_hash,
  existing, use_block, sources_of, find_block_sources, remove_file, block_fresh, file_fresh,
  cleanup, empty_cache, info_of,
}

module _ (sha256 : Bytes → Bytes) (content : Text → ℕ → ℕ → Bytes) where
  -- Some version of the file has the block at the offset.
  abbrev pub SourceHonest : Text → BlockSource → Type 0
  SourceHonest hash s =
      (size : ℕ) × (mtime : ℕ) × (hash_sha256 sha256
          (slice (content s.path size mtime) s.offset (s.offset + s.size))
        ≡ hash)

  abbrev pub AllHonest : Text → List BlockSource → Type 0
  AllHonest hash [] = Unit
  AllHonest hash (s ∷ sources) = SourceHonest hash s × AllHonest hash sources

  abbrev pub BlockHonest : Text → BlockRecord → Type 0
  BlockHonest hash r = AllHonest hash r.sources

  -- The record of a file has the hashes of the version it names.
  abbrev pub FileHonest : Text → FileRecord → Type 0
  FileHonest path e =
      (e.content_hash ≡ hash_sha256 sha256 (content path e.size e.mod_time))
      × (e.block_hashes
          ≡ map (λ (c : Chunk). c.hash) (chunk_data sha256 (content path e.size e.mod_time)))

  pub record Honest (cache : Cache) : Type 0 where
    pub blocks : Each BlockHonest cache.blocks
    pub files : Each FileHonest cache.files

  AllHonest-append :
      (hash : Text) (sources : List BlockSource) (s : BlockSource)
      → AllHonest hash sources
      → SourceHonest hash s
      → AllHonest hash (sources ++ (s ∷ []))
  AllHonest-append hash [] s a h = (h, tt)
  AllHonest-append hash (t ∷ sources) s a h = (a.0, AllHonest-append hash sources s a.1 h)

  or_new-BlockHonest :
      (hash : Text) (now : ℕ) (table : Table BlockRecord) (o : Option BlockRecord)
      → get hash table ≡ o
      → Each BlockHonest table
      → BlockHonest hash (or_new now o)
  or_new-BlockHonest hash now table none e h = tt
  or_new-BlockHonest hash now table (some r) e h = Each-get BlockHonest hash table h e

  with_source-BlockHonest :
      (hash path : Text) (offset size now : ℕ) (r : BlockRecord)
      → SourceHonest hash (record { path = path; offset = offset; size = size })
      → BlockHonest hash r
      → BlockHonest hash (with_source path offset size now r)
  with_source-BlockHonest hash path offset size now r s h =
      elim (Bool-cases (has_source path offset r.sources)) [
        | inl known ↦ rw known h
        | inr new ↦ rw new (AllHonest-append hash r.sources _ h s)
      ]

  add_block_source-Honest :
      (hash path : Text) (offset size now : ℕ) (cache : Cache)
      → SourceHonest hash (record { path = path; offset = offset; size = size })
      → Honest cache
      → Honest (add_block_source hash path offset size now cache)
  unfolding add_block_source
  add_block_source-Honest hash path offset size now cache s h = record {
    blocks =
        Each-insert BlockHonest hash
          (with_source path offset size now (or_new now (get hash cache.blocks))) cache.blocks
          (with_source-BlockHonest hash path offset size now (or_new now (get hash cache.blocks)) s
            (or_new-BlockHonest hash now cache.blocks (get hash cache.blocks) refl h.blocks))
          h.blocks;
    files = h.files;
  }

  pub add_blocks-Honest :
      (path : Text) (size mtime now pos : ℕ) (chunks : List Chunk) (cache : Cache)
      → IsChunking sha256 (content path size mtime) pos chunks
      → Honest cache
      → Honest (add_blocks path now chunks cache)
  unfolding add_blocks
  add_blocks-Honest path size mtime now pos [] cache cut h = h
  add_blocks-Honest path size mtime now pos (c ∷ chunks) cache (at, _, _, _, hash, rest) h =
      add_blocks-Honest path size mtime now (pos + c.length) chunks _ rest (
        add_block_source-Honest c.hash path c.offset c.length now cache
          (
            size,
            mtime,
            ap (λ (p : ℕ). hash_sha256 sha256 (slice (content path size mtime) p (p + c.length))) at
                ∙ sym hash,
          )
          h)

  pub put_file-Honest :
      (path : Text) (e : FileRecord) (cache : Cache)
      → FileHonest path e
      → Honest cache
      → Honest (put_file path e cache)
  put_file-Honest path e cache f h = record {
    blocks = h.blocks;
    files = Each-insert FileHonest path e cache.files f h.files;
  }

  pub see_files-Honest :
      (disk : Disk) (now : ℕ) (hash : Text) (files : Table FileRecord)
      → Each FileHonest files
      → Each FileHonest (see_files disk now hash files)
  unfolding see_files
  see_files-Honest disk now hash [] h = tt
  see_files-Honest disk now hash ((path, e) ∷ files) h =
      let later = see_files-Honest disk now hash files h.1 in
      elim (Bool-cases (text_eq e.content_hash hash && exists disk path)) [
        | inl seen ↦ rw seen (h.0, later)
        | inr other ↦ rw other (h.0, later)
      ]

  pub existing-AllHonest :
      (disk : Disk) (hash : Text) (sources : List BlockSource)
      → AllHonest hash sources
      → AllHonest hash (existing disk sources)
  unfolding existing
  existing-AllHonest disk hash [] a = tt
  existing-AllHonest disk hash (s ∷ sources) a = elim (Bool-cases (exists disk s.path)) [
    | inl there ↦ rw there (a.0, existing-AllHonest disk hash sources a.1)
    | inr gone ↦ rw gone (existing-AllHonest disk hash sources a.1)
  ]

  use_block-Honest :
      (now : ℕ) (hash : Text) (r : BlockRecord) (valid : List BlockSource) (cache : Cache)
      → AllHonest hash valid
      → Honest cache
      → Honest (use_block now hash r valid cache).0
        × AllHonest hash (use_block now hash r valid cache).1
  use_block-Honest now hash r [] cache a h =
      (record { blocks = Each-remove BlockHonest hash cache.blocks h.blocks; files = h.files }, tt)
  use_block-Honest now hash r (s ∷ valid) cache a h = (
    record {
      blocks =
          Each-insert BlockHonest hash
            (record { sources = s ∷ valid; last_used = now; created = r.created }) cache.blocks a
            h.blocks;
      files = h.files;
    },
    a,
  )

  pub sources_of-Honest :
      (disk : Disk) (now : ℕ) (hash : Text) (o : Option BlockRecord) (cache : Cache)
      → get hash cache.blocks ≡ o
      → Honest cache
      → Honest (sources_of disk now hash o cache).0
        × AllHonest hash (sources_of disk now hash o cache).1
  sources_of-Honest disk now hash none cache e h = (h, tt)
  sources_of-Honest disk now hash (some r) cache e h =
      use_block-Honest now hash r (existing disk r.sources) cache
        (existing-AllHonest disk hash r.sources (Each-get BlockHonest hash cache.blocks h.blocks e))
        h
