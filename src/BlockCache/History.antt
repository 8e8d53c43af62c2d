-- ===== src/BlockCache/History.antt =====
-- What the block cache knows after any sequence of operations, over a file system that changes
-- between them.
use rsh.Prelude.{ℕ, ◌≡◌, some, List, [], ◌∷◌}
use rsh.Prelude.Bytes.{Bytes}
use rsh.Text.{Text}
use rsh.BlockCache.{
  Cache, Disk, index_file, find_by_content_hash, find_block_sources, remove_file, cleanup,
}

-- One call of a method of the cache.
pub data Operation : Type 0 where
  index by_content block_sources forget : Text → Operation
  clean : Operation

-- A call at a time, with the files as they are then.
pub record Event : Type 0 where
  pub disk : Disk
  pub now : ℕ
  pub operation : Operation

module _ (sha256 : Bytes → Bytes) where
  unfoldable pub perform : Disk → ℕ → Operation → Cache → Cache
  perform disk now (index path) cache = (index_file sha256 disk now path cache).0
  perform disk now (by_content hash) cache = (find_by_content_hash disk now hash cache).0
  perform disk now (block_sources hash) cache = (find_block_sources disk now hash cache).0
  perform disk now (forget path) cache = remove_file path cache
  perform disk now clean cache = (cleanup now cache).0

  unfoldable pub run : List Event → Cache → Cache
  unfolding perform
  run [] cache = cache
  run (e ∷ events) cache = run events (perform e.disk e.now e.operation cache)

-- The content of each version of each file: a path, a size and a time of change. The file system
-- shows a file as one of its versions, so a change of the content changes the size or the time.
abbrev pub Regular : (Text → ℕ → ℕ → Bytes) → Disk → Type 0
Regular content disk =
    (path : Text) (size mtime : ℕ) (bytes : Bytes)
    → disk.stat path ≡ some (size, mtime)
    → disk.read path ≡ some bytes
    → bytes ≡ content path size mtime

abbrev pub AllRegular : (Text → ℕ → ℕ → Bytes) → List Event → Type 0
AllRegular content [] = Unit
AllRegular content (e ∷ events) = Regular content e.disk × AllRegular content events
