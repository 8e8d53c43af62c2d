-- ===== src/BlockCache/Places.antt =====
-- Where the blocks of an indexed file are found, and what a clean-up leaves.
use mathlib.Core.Path.{subst}
use rsh.Prelude.{
  ℕ, ◌≡◌, refl, sym, ap, ◌∙◌, Bool, true, false, ◌&&◌, Option, none, some, List, [], ◌∷◌, ◌++◌,
  arith, ◌==◌, Bool-cases, inl, inr, ==_iff,
}
use rsh.Prelude.Bytes.{Bytes}
use rsh.Text.{Text, text_eq, text_eq_iff}
use rsh.Text.Table.{Table, get, insert, get-insert, get-insert_ne}
use rsh.Chunking.{Chunk, chunk_data}
use rsh.BlockCache.{
  BlockSource, BlockRecord, Cache, Disk, is_some, exists, has_source, or_new, with_source,
  add_block_source, add_blocks, unchanged, index_file, existing, use_block, sources_of,
  find_block_sources,
}

-- The table has the place for the hash.
abbrev in_record : Text → ℕ → Option BlockRecord → Bool
in_record path offset none = false
in_record path offset (some r) = has_source path offset r.sources

abbrev Has : Table BlockRecord → Text → Text → ℕ → Type 0
Has blocks hash path offset = in_record path offset (get hash blocks) ≡ true

has_source-append :
    (path : Text) (offset : ℕ) (sources more : List BlockSource)
    → has_source path offset sources ≡ true
    → has_source path offset (sources ++ more) ≡ true
has_source-append path offset [] more h = cc
has_source-append path offset (s ∷ sources) more h =
    elim (Bool-cases (text_eq s.path path && s.offset == offset)) [
      | inl here ↦ rw here refl
      | inr other ↦ rw other (has_source-append path offset sources more (rw other at h))
    ]

has_source-snoc :
    (path : Text) (offset size : ℕ) (sources : List BlockSource)
    → has_source path offset
        (sources ++ (record { path = path; offset = offset; size = size } ∷ []))
      ≡ true
has_source-snoc path offset size [] =
    rw ((text_eq_iff path path).1 refl, (==_iff offset offset).1 refl) refl
has_source-snoc path offset size (s ∷ sources) =
    let later = has_source-snoc path offset size sources in ground arith

has_source-with_source :
    (path : Text) (offset size now : ℕ) (r : BlockRecord)
    → has_source path offset (with_source path offset size now r).sources ≡ true
has_source-with_source path offset size now r =
    elim (Bool-cases (has_source path offset r.sources)) [
      | inl known ↦ rw known known
      | inr missing ↦ rw missing (has_source-snoc path offset size r.sources)
    ]

-- A place that is known stays known.
with_source_keeps :
    (path path' : Text) (offset offset' size now : ℕ) (o : Option BlockRecord)
    → in_record path' offset' o ≡ true
    → has_source path' offset' (with_source path offset size now (or_new now o)).sources ≡ true
with_source_keeps path path' offset offset' size now none h = cc
with_source_keeps path path' offset offset' size now (some r) h =
    elim (Bool-cases (has_source path offset r.sources)) [
      | inl known ↦ rw known h
      | inr missing ↦ rw missing (has_source-append path' offset' r.sources _ h)
    ]

add_block_source_keeps :
    (hash path : Text) (offset size now : ℕ) (cache : Cache) (hash' path' : Text) (offset' : ℕ)
    → Has cache.blocks hash' path' offset'
    → Has (add_block_source hash path offset size now cache).blocks hash' path' offset'
unfolding add_block_source
add_block_source_keeps hash path offset size now cache hash' path' offset' h =
    let r : BlockRecord = with_source path offset size now (or_new now (get hash cache.blocks)) in
    elim (Bool-cases (text_eq hash hash')) [
      | inl same ↦
          let e = (text_eq_iff hash hash').0 same in
          ap (in_record path' offset') (
            subst (λ (t : Text). get t (insert hash r cache.blocks) ≡ some r) e
              (get-insert hash r cache.blocks))
          ∙ with_source_keeps path path' offset offset' size now (get hash cache.blocks)
              (subst (λ (t : Text). Has cache.blocks t path' offset') (sym e) h)
      | inr other ↦ ap (in_record path' offset') (get-insert_ne hash' hash r cache.blocks other) ∙ h
    ]

add_block_source-Has :
    (hash path : Text) (offset size now : ℕ) (cache : Cache)
    → Has (add_block_source hash path offset size now cache).blocks hash path offset
unfolding add_block_source
add_block_source-Has hash path offset size now cache =
    let r : BlockRecord = or_new now (get hash cache.blocks) in
    ap (in_record path offset) (get-insert hash (with_source path offset size now r) cache.blocks)
    ∙ has_source-with_source path offset size now r

add_blocks_keeps :
    (path : Text) (now : ℕ) (chunks : List Chunk) (cache : Cache) (hash' path' : Text) (offset' : ℕ)
    → Has cache.blocks hash' path' offset'
    → Has (add_blocks path now chunks cache).blocks hash' path' offset'
unfolding add_blocks
add_blocks_keeps path now [] cache hash' path' offset' h = h
add_blocks_keeps path now (c ∷ chunks) cache hash' path' offset' h =
    add_blocks_keeps path now chunks _ hash' path' offset'
      (add_block_source_keeps c.hash path c.offset c.length now cache hash' path' offset' h)

existing-has_source :
    (disk : Disk) (path : Text) (offset : ℕ) (sources : List BlockSource)
    → exists disk path ≡ true
    → has_source path offset sources ≡ true
    → has_source path offset (existing disk sources) ≡ true
unfolding existing
existing-has_source disk path offset [] there h = cc
existing-has_source disk path offset (s ∷ sources) there h =
    elim (Bool-cases (text_eq s.path path && s.offset == offset)) [
      | inl here ↦
          let named : text_eq s.path path ≡ true = ground arith in
          let shown : exists disk s.path ≡ true =
            ap (exists disk) ((text_eq_iff s.path path).0 named) ∙ there in
          rw (shown, here) refl
      | inr other ↦
          let later = existing-has_source disk path offset sources there (rw other at h) in
          elim (Bool-cases (exists disk s.path)) [
            | inl shown ↦ rw (shown, other) later
            | inr gone ↦ rw gone later
          ]
    ]

use_block_valid :
    (now : ℕ) (hash : Text) (r : BlockRecord) (valid : List BlockSource) (cache : Cache)
    → (use_block now hash r valid cache).1 ≡ valid
use_block_valid now hash r [] cache = refl
use_block_valid now hash r (s ∷ valid) cache = refl

sources_of_has :
    (disk : Disk) (now : ℕ) (hash path : Text) (offset : ℕ) (o : Option BlockRecord) (cache : Cache)
    → exists disk path ≡ true
    → in_record path offset o ≡ true
    → has_source path offset (sources_of disk now hash o cache).1 ≡ true
sources_of_has disk now hash path offset none cache there h = cc
sources_of_has disk now hash path offset (some r) cache there h =
    ap (has_source path offset) (use_block_valid now hash r (existing disk r.sources) cache)
    ∙ existing-has_source disk path offset r.sources there h

-- Each chunk is found at its place in the file.
abbrev pub AllFound : Disk → ℕ → Text → List Chunk → Cache → Type 0
AllFound disk now path [] cache = Unit
AllFound disk now path (c ∷ chunks) cache =
    (has_source path c.offset (find_block_sources disk now c.hash cache).1 ≡ true)
    × AllFound disk now path chunks cache

find_block_sources-Has :
    (disk : Disk) (now : ℕ) (hash path : Text) (offset : ℕ) (cache : Cache)
    → exists disk path ≡ true
    → Has cache.blocks hash path offset
    → has_source path offset (find_block_sources disk now hash cache).1 ≡ true
unfolding find_block_sources
find_block_sources-Has disk now hash path offset cache there h =
    sources_of_has disk now hash path offset (get hash cache.blocks) cache there h

add_blocks-AllFound :
    (disk : Disk) (now now' : ℕ) (path : Text) (chunks : List Chunk) (cache final : Cache)
    → exists disk path ≡ true
    → ((hash path' : Text) (offset : ℕ)
        → Has (add_blocks path now chunks cache).blocks hash path' offset
        → Has final.blocks hash path' offset)
    → AllFound disk now' path chunks final
unfolding add_blocks
add_blocks-AllFound disk now now' path [] cache final there kept = tt
add_blocks-AllFound disk now now' path (c ∷ chunks) cache final there kept =
    let added : Cache = add_block_source c.hash path c.offset c.length now cache in
    (
      find_block_sources-Has disk now' c.hash path c.offset final there (
          kept c.hash path c.offset (
            add_blocks_keeps path now chunks added c.hash path c.offset
              (add_block_source-Has c.hash path c.offset c.length now cache))),
      add_blocks-AllFound disk now now' path chunks added final there kept,
    )

-- When a file that is new, or has a new size or time of change, is indexed, `find_block_sources`
-- gives for the hash of each of its chunks the place of the chunk in this file, at any later time
-- with the files as they are.
pub find_block_sources-index_file :
    (sha256 : Bytes → Bytes) (disk : Disk) (now now' : ℕ) (path : Text) (cache : Cache)
    (size mtime : ℕ) (bytes : Bytes)
    → disk.stat path ≡ some (size, mtime)
    → unchanged size mtime (get path cache.files) ≡ none
    → disk.read path ≡ some bytes
    → AllFound disk now' path (chunk_data sha256 bytes) (index_file sha256 disk now path cache).0
unfolding index_file
find_block_sources-index_file sha256 disk now now' path cache size mtime bytes stat new_file read =
    rw (stat, new_file, read)
      (add_blocks-AllFound disk now now' path (chunk_data sha256 bytes) cache _ (ap is_some stat)
        (λ hash path' offset h. h))
