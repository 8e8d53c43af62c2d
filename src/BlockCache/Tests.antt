-- ===== src/BlockCache/Tests.antt =====
-- blockcache.rs on a small file, with a digest that tells lengths.
use rsh.Prelude.{
  ℕ, ◌%◌, ◌≡◌, refl, sym, ap, ◌∙◌, Bool, true, Option, none, some, List, [], ◌∷◌, length,
  if◌then◌else◌, ◌==◌,
}
use rsh.Prelude.Bytes.{Bytes}
use rsh.Error.{ok}
use rsh.Text.{Text, chars}
use rsh.Text.Table.{get, insert, remove}
use rsh.Chunking.{chunk_data, new_tables, hash_sha256, roll}
use rsh.BlockCache.{
  BlockSource, Disk, Cache, unchanged, existing, add_blocks, add_block_source, CacheStore,
  empty_cache, store_of, of_store, parsed, new, flush, index_file, find_block_sources,
}
use rsh.BlockCache.History.{index, block_sources, Event, perform, run, Regular, AllRegular}
use rsh.BlockCache.Honest.{AllHonest}
use rsh.BlockCache.Honest.Run.{ResultSays, index_file-run, find_block_sources-run}
use rsh.BlockCache.Saved.{new-flush}
use rsh.BlockCache.Places.{AllFound, find_block_sources-index_file}

abbrev digest : Bytes → Bytes
digest bs = length bs % 256 ∷ []

abbrev small : Bytes
small = 1 ∷ 2 ∷ 3 ∷ []

abbrev larger : Bytes
larger = 1 ∷ 2 ∷ 3 ∷ 4 ∷ []

-- Two versions of one file.
abbrev content : Text → ℕ → ℕ → Bytes
content path size mtime = if size == 3 then small else larger

-- The file under every name.
abbrev disk_of : Bytes → ℕ → Disk
disk_of bytes mtime = record {
  stat = λ path. some (length bytes, mtime);
  read = λ path. some bytes;
}

version :
    (bytes : Bytes) (time : ℕ)
    → (if length bytes == 3 then small else larger) ≡ bytes
    → Regular content (disk_of bytes time)
version bytes time right path size mtime read stat_is read_is =
    let size_is : length bytes ≡ size = cc in
    let bytes_is : bytes ≡ read = cc in
    sym bytes_is ∙ sym right ∙ ap (λ (n : ℕ). if n == 3 then small else larger) size_is

abbrev history : List Event
history =
    record { disk = disk_of small 10; now = 100; operation = index (chars "a") }
    ∷ record { disk = disk_of small 10; now = 101; operation = index (chars "a") }
    ∷ record { disk = disk_of larger 20; now = 200; operation = index (chars "a") }
    ∷ record { disk = disk_of larger 20; now = 300; operation = block_sources (chars "03") }
    ∷ []

history-AllRegular : AllRegular content history
history-AllRegular = (
  version small 10 refl,
  (version small 10 refl, (version larger 20 refl, (version larger 20 refl, tt))),
)

index_file-run_example :
    ResultSays digest content
      (some larger)
      (index_file digest (disk_of larger 20) 400 (chars "a") (run digest history empty_cache)).1
index_file-run_example =
    index_file-run digest content history (disk_of larger 20) 400 (chars "a") history-AllRegular
      (version larger 20 refl)

find_block_sources-run_example :
    AllHonest digest content
      (chars "03")
      (find_block_sources (disk_of larger 20) 400 (chars "03") (run digest history empty_cache)).1
find_block_sources-run_example =
    find_block_sources-run digest content history (disk_of larger 20) 400 (chars "03")
      history-AllRegular

abbrev first_place : List BlockSource → Option (ℕ × ℕ)
first_place [] = none
first_place (s ∷ sources) = some (s.offset, s.size)

-- The place of the only block of the first version is still given after the change.
stale_source :
    first_place
      (find_block_sources (disk_of larger 20) 400 (chars "03") (run digest history empty_cache)).1
    ≡ some (0, 3)
unfolding find_block_sources run perform index_file add_blocks add_block_source get insert remove
    existing chunk_data roll new_tables hash_sha256
stale_source = refl

abbrev written : CacheStore → Option Bytes
written store = some (7 ∷ [])

abbrev read_back : Bytes → Option CacheStore
read_back bytes = some (store_of (run digest history empty_cache))

abbrev full : Cache
full = run digest history (of_store (parsed written read_back none))

new-flush_example :
    (new written read_back true (flush written read_back true true full none).1
      ≡ ok (of_store (some (store_of full))))
    × ((flush written read_back true true full none).2 ≡ ok tt)
    × ((wrote' renamed' : Bool)
        → flush written read_back wrote' renamed'
            (flush written read_back true true full none).0
            (flush written read_back true true full none).1
          ≡ (
            (flush written read_back true true full none).0,
            (flush written read_back true true full none).1,
            ok tt,
          ))
new-flush_example =
    new-flush digest written read_back history none true full (7, [], refl, refl) refl

find_block_sources-index_file_example :
    AllFound
      (disk_of small 10)
      6
      (chars "a")
      (chunk_data digest small)
      (index_file digest (disk_of small 10) 5 (chars "a") empty_cache).0
find_block_sources-index_file_example =
    find_block_sources-index_file digest (disk_of small 10) 5 6 (chars "a") empty_cache 3 10 small
      refl none_known refl
  where
    none_known : unchanged 3 10 (get (chars "a") empty_cache.files) ≡ none
    none_known = unfold get in refl

abbrev old : Cache
old = run digest history empty_cache
