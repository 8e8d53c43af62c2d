-- ===== src/BlockCache.antt =====
-- crates/mrsh-transfer/src/blockcache.rs: the cache of where the blocks of files are on disk. The
-- hash maps are association lists; the clock, in seconds, is the argument `now`. The file system is
-- a record of what it answers, and the text of the cache file is written and read by parameters
-- (rmp_serde).
pub mod History
pub mod Honest
pub mod Saved
pub mod Places
pub mod Expiry
mod Tests
use rsh.Prelude.{
  ℕ, zero, suc, ◌+◌, ◌*◌, Bool, true, false, ◌&&◌, ◌||◌, not, Option, none, some, List, [], ◌∷◌,
  ◌++◌, map, ltb, ◌==◌, if◌then◌else◌, length,
}
use rsh.Prelude.Bytes.{Bytes}
use rsh.Error.{
  Result, ok, err, stat_file, read_file, create_cache_dir, serialize_cache, write_cache_tmp,
}
use rsh.Text.{Text, text_eq}
use rsh.Text.Table.{Table, get, insert, remove, remove_all, retain}
use rsh.Chunking.{Chunk, chunk_data, hash_sha256}

abbrev pub default_max_age_secs : ℕ
default_max_age_secs = 48 * 3600

pub record BlockSource : Type 0 where
  pub path : Text
  pub offset : ℕ
  pub size : ℕ

pub record FileInfo : Type 0 where
  pub path : Text
  pub size : ℕ
  pub mod_time : ℕ
  pub block_hashes : List Bytes
  pub content_hash : Bytes

pub record BlockRecord : Type 0 where
  pub sources : List BlockSource
  pub last_used : ℕ
  pub created : ℕ

pub record FileRecord : Type 0 where
  pub size : ℕ
  pub mod_time : ℕ
  pub block_hashes : List Bytes
  pub content_hash : Bytes
  pub last_seen : ℕ

pub record CacheStore : Type 0 where
  pub blocks : Table BlockRecord
  pub files : Table FileRecord

pub record Cache : Type 0 where
  pub blocks : Table BlockRecord
  pub files : Table FileRecord
  pub max_age_secs : ℕ
  pub dirty : Bool

-- What the file system answers: the size and the time of the last change, and the bytes.
pub record Disk : Type 0 where
  pub stat : Text → Option (ℕ × ℕ)
  pub read : Text → Option Bytes

abbrev pub is_some {ℓ} : {A : Type ℓ} → Option A → Bool
is_some none = false
is_some (some a) = true

-- `Path::exists`
abbrev pub exists : Disk → Text → Bool
exists disk path = is_some (disk.stat path)

abbrev pub has_source : Text → ℕ → List BlockSource → Bool
has_source path offset [] = false
has_source path offset (s ∷ sources) =
    text_eq s.path path && s.offset == offset || has_source path offset sources

abbrev pub or_new : ℕ → Option BlockRecord → BlockRecord
or_new now none = record { sources = []; last_used = now; created = now }
or_new now (some r) = r

abbrev pub with_source : Text → ℕ → ℕ → ℕ → BlockRecord → BlockRecord
with_source path offset size now r = record {
  sources =
      if has_source path offset r.sources
      then r.sources
      else r.sources ++ (record { path = path; offset = offset; size = size } ∷ []);
  last_used = now;
  created = r.created;
}

unfoldable pub add_block_source : Text → Text → ℕ → ℕ → ℕ → Cache → Cache
unfolding get insert
add_block_source hash path offset size now cache = record {
  blocks =
      insert hash (with_source path offset size now (or_new now (get hash cache.blocks)))
        cache.blocks;
  files = cache.files;
  max_age_secs = cache.max_age_secs;
  dirty = true;
}

unfoldable pub add_blocks : Text → ℕ → List Chunk → Cache → Cache
unfolding add_block_source
add_blocks path now [] cache = cache
add_blocks path now (c ∷ chunks) cache =
    add_blocks path now chunks (add_block_source c.hash path c.offset c.length now cache)

abbrev pub info_of : Text → FileRecord → FileInfo
info_of path e = record {
  path = path;
  size = e.size;
  mod_time = e.mod_time;
  block_hashes = e.block_hashes;
  content_hash = e.content_hash;
}

abbrev pub unchanged : ℕ → ℕ → Option FileRecord → Option FileRecord
unchanged size mtime none = none
unchanged size mtime (some e) = if e.size == size && e.mod_time == mtime then some e else none

abbrev pub put_file : Text → FileRecord → Cache → Cache
put_file path e cache = record {
  blocks = cache.blocks;
  files = insert path e cache.files;
  max_age_secs = cache.max_age_secs;
  dirty = true;
}

module _ (sha256 : Bytes → Bytes) where
  abbrev pub record_of : ℕ → ℕ → ℕ → Bytes → FileRecord
  record_of size mtime now data_read = record {
    size = size;
    mod_time = mtime;
    block_hashes = map (λ (c : Chunk). c.hash) (chunk_data sha256 data_read);
    content_hash = hash_sha256 sha256 data_read;
    last_seen = now;
  }

  -- The part of `index_file` behind the shortcut.
  abbrev pub index_data : Text → ℕ → ℕ → ℕ → Option Bytes → Cache → Cache × Result FileInfo
  index_data path size mtime now none cache = (cache, err read_file)
  index_data path size mtime now (some bytes) cache = (
    put_file path (record_of size mtime now bytes)
        (add_blocks path now (chunk_data sha256 bytes) cache),
    ok (info_of path (record_of size mtime now bytes)),
  )

  abbrev pub index_known :
      Disk → Text → ℕ → ℕ → ℕ → Option FileRecord → Cache → Cache × Result FileInfo
  index_known disk path size mtime now none cache =
      index_data path size mtime now (disk.read path) cache
  index_known disk path size mtime now (some e) cache =
      (put_file path (record e { last_seen = now }) cache, ok (info_of path e))

  abbrev pub index_stat : Disk → Text → ℕ → Option (ℕ × ℕ) → Cache → Cache × Result FileInfo
  index_stat disk path now none cache = (cache, err stat_file)
  index_stat disk path now (some (size, mtime)) cache =
      index_known disk path size mtime now (unchanged size mtime (get path cache.files)) cache

  unfoldable pub index_file : Disk → ℕ → Text → Cache → Cache × Result FileInfo
  index_file disk now path cache = index_stat disk path now (disk.stat path) cache

-- The loop of `find_by_content_hash`.
unfoldable pub found_paths : Disk → Text → Table FileRecord → List Text
found_paths disk hash [] = []
found_paths disk hash ((path, e) ∷ files) =
    let later = found_paths disk hash files in
    if text_eq e.content_hash hash && exists disk path then path ∷ later else later

unfoldable pub gone_paths : Disk → Text → Table FileRecord → List Text
gone_paths disk hash [] = []
gone_paths disk hash ((path, e) ∷ files) =
    let later = gone_paths disk hash files in
    if text_eq e.content_hash hash && not (exists disk path) then path ∷ later else later

unfoldable pub see_files : Disk → ℕ → Text → Table FileRecord → Table FileRecord
see_files disk now hash [] = []
see_files disk now hash ((path, e) ∷ files) =
    let later = see_files disk now hash files in
    if text_eq e.content_hash hash && exists disk path
    then (path, record e { last_seen = now }) ∷ later
    else (path, e) ∷ later

abbrev pub is_empty {ℓ} : {A : Type ℓ} → List A → Bool
is_empty [] = true
is_empty (x ∷ xs) = false

unfoldable pub find_by_content_hash : Disk → ℕ → Text → Cache → Cache × List Text
unfolding found_paths gone_paths see_files remove_all
find_by_content_hash disk now hash cache =
    let paths = found_paths disk hash cache.files in
    let to_remove = gone_paths disk hash cache.files in
    (
      record {
        blocks = cache.blocks;
        files = remove_all to_remove (see_files disk now hash cache.files);
        max_age_secs = cache.max_age_secs;
        dirty = cache.dirty || not (is_empty paths) || not (is_empty to_remove);
      },
      paths,
    )

unfoldable pub existing : Disk → List BlockSource → List BlockSource
existing disk [] = []
existing disk (s ∷ sources) =
    let later = existing disk sources in if exists disk s.path then s ∷ later else later

abbrev pub with_blocks : Table BlockRecord → Cache → Cache
with_blocks blocks cache = record {
  blocks = blocks;
  files = cache.files;
  max_age_secs = cache.max_age_secs;
  dirty = true;
}

-- `find_block_sources` on the sources of the record that exist.
abbrev pub use_block : ℕ → Text → BlockRecord → List BlockSource → Cache → Cache × List BlockSource
use_block now hash r [] cache = (with_blocks (remove hash cache.blocks) cache, [])
use_block now hash r (s ∷ valid) cache = (
  with_blocks
      (insert hash (record { sources = s ∷ valid; last_used = now; created = r.created })
        cache.blocks)
      cache,
  s ∷ valid,
)

abbrev pub sources_of : Disk → ℕ → Text → Option BlockRecord → Cache → Cache × List BlockSource
sources_of disk now hash none cache = (cache, [])
sources_of disk now hash (some r) cache = use_block now hash r (existing disk r.sources) cache

unfoldable pub find_block_sources : Disk → ℕ → Text → Cache → Cache × List BlockSource
find_block_sources disk now hash cache = sources_of disk now hash (get hash cache.blocks) cache

abbrev pub info_of_option : Text → Option FileRecord → Option FileInfo
info_of_option path none = none
info_of_option path (some e) = some (info_of path e)

unfoldable pub get_file_info : Text → Cache → Option FileInfo
get_file_info path cache = info_of_option path (get path cache.files)

unfoldable pub remove_file : Text → Cache → Cache
remove_file path cache = record {
  blocks = cache.blocks;
  files = remove path cache.files;
  max_age_secs = cache.max_age_secs;
  dirty = cache.dirty || is_some (get path cache.files);
}

-- `!(last < now - max_age)`, in the integers
abbrev pub is_fresh : ℕ → ℕ → ℕ → Bool
is_fresh now max_age last = not (ltb (last + max_age) now)

-- How many entries a `retain` drops.
unfoldable pub count_dropped {ℓ} : {V : Type ℓ} → (V → Bool) → Table V → ℕ
count_dropped keep [] = 0
count_dropped keep ((k, v) ∷ rest) =
    let later = count_dropped keep rest in if keep v then later else suc later

abbrev pub block_fresh : ℕ → Cache → BlockRecord → Bool
block_fresh now cache r = is_fresh now cache.max_age_secs r.last_used

abbrev pub file_fresh : ℕ → Cache → FileRecord → Bool
file_fresh now cache e = is_fresh now cache.max_age_secs e.last_seen

unfoldable pub cleanup : ℕ → Cache → Cache × ℕ
unfolding retain count_dropped
cleanup now cache =
    let removed =
      count_dropped (block_fresh now cache) cache.blocks
      + count_dropped (file_fresh now cache) cache.files in
    (
      record {
        blocks = retain (block_fresh now cache) cache.blocks;
        files = retain (file_fresh now cache) cache.files;
        max_age_secs = cache.max_age_secs;
        dirty = cache.dirty || ltb 0 removed;
      },
      removed,
    )

unfoldable pub stats : Cache → ℕ × ℕ
stats cache = (length cache.blocks, length cache.files)

abbrev pub empty_cache : Cache
empty_cache = record { blocks = []; files = []; max_age_secs = default_max_age_secs; dirty = false }

abbrev pub of_store : Option CacheStore → Cache
of_store none = empty_cache
of_store (some store) = record {
  blocks = store.blocks;
  files = store.files;
  max_age_secs = default_max_age_secs;
  dirty = false;
}

abbrev pub store_of : Cache → CacheStore
store_of cache = record { blocks = cache.blocks; files = cache.files }

module _ (to_vec : CacheStore → Option Bytes) (from_slice : Bytes → Option CacheStore) where
  abbrev pub parsed : Option Bytes → Option CacheStore
  parsed none = none
  parsed (some []) = none
  parsed (some (b ∷ bytes)) = from_slice (b ∷ bytes)

  -- `Cache::new`, given whether the folder could be made and what the cache file holds.
  unfoldable pub new : Bool → Option Bytes → Result Cache
  new made saved = if made then ok (of_store (parsed saved)) else err create_cache_dir

  abbrev pub write_out :
      Bool → Bool → Option Bytes → Cache → Option Bytes → Cache × Option Bytes × Result (Unit {0})
  write_out wrote renamed none cache saved = (cache, saved, err serialize_cache)
  write_out wrote renamed (some bytes) cache saved =
      if wrote
      then (record cache { dirty = false }, if renamed then some bytes else saved, ok tt)
      else (cache, saved, err write_cache_tmp)

  -- `flush`: the cache, what the cache file then holds, and the result. The file system says
  -- whether the temporary file was written and whether it could be renamed.
  unfoldable pub flush :
      Bool → Bool → Cache → Option Bytes → Cache × Option Bytes × Result (Unit {0})
  flush wrote renamed cache saved =
      if cache.dirty
      then write_out wrote renamed (to_vec (store_of cache)) cache saved
      else (cache, saved, ok tt)
