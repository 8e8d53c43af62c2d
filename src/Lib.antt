-- ===== src/Lib.antt =====
-- A model of mrsh, a remote shell and file transfer tool, with proofs of what its core promises.
--
-- The program's parts, and the files that model them:
-- - Error, Io: the error values (anyhow's contexts) and the byte streams (tokio's AsyncRead and
--   AsyncWrite) as interfaces with their documented behaviour. Io/Memory gives streams that meet
--   them.
-- - Wire: crates/mrsh-core/src/wire.rs. A message is its length in four bytes and its bytes; JSON
--   values go over it raw, or behind a flag byte and perhaps compressed. serde_json (Json) and zstd
--   (Zstd) are records of operations with their laws.
-- - Codec: crates/mrsh-relay/src/codec.rs, the relay's frames with one to four header bytes.
-- - Binproto: crates/mrsh-core/src/binproto.rs, the fields and messages that travel in Wire's
--   messages. Binproto/Messages has a builder and a parser for each message; Utf8 is
--   std::str::from_utf8, as strings are modelled by their bytes.
-- - Delta: crates/mrsh-transfer/src/delta.rs, block signatures, deltas and reconstruction. The
--   checksums and base64 are the parameter Digests.
-- - Chunking: crates/mrsh-transfer/src/chunking.rs, the rolling hash and the chunks; SHA-256 is a
--   parameter, its hexadecimal text is modelled.
-- - BlockCache: crates/mrsh-transfer/src/blockcache.rs, the cache of where the blocks of files are on
--   disk, built on Chunking. The file system is what it answers to stat and read; rmp_serde is a
--   parameter. BlockCache/History has the sequences of calls over files that change, Honest what
--   the cache knows after them, Saved the flush and the load, Places the blocks of a file.
-- - Config: crates/mrsh-core/src/config.rs, the records of the configuration and their lookups;
--   Config/Parse the parser and Config/Print the printer, with `push_str` of a line as a list of
--   lines. Regular expressions, Unicode lower case and the home directory are parameters.
-- - PathTranslate: src/path_translate.rs, the remote path of a push or pull that a shell has rewritten;
--   the home directory of the receiver, its system and the name of the sender are arguments.
--   WindowsPath: crates/mrsh-core/src/path.rs, Git Bash and WSL paths as Windows paths; the loop
--   over double slashes has the length of the path as fuel.
-- - Stun: crates/mrsh-relay/src/stun.rs, the check of a STUN response and the classification of the
--   answers. The loop over the attributes moves on by four bytes at least, so it has the length of
--   the packet as fuel.
-- - RateLimit: crates/mrsh-server/src/ratelimit.rs, the bans after failed authentications. The
--   clock is an argument, and the lock makes each method one step.
-- - Text: the operations of str that the parts use, on code points; Text/Table is the hash map with
--   texts as keys, Text/Number the decimal form of u16, u32 and i64.
-- - UpdateStatus: crates/mrsh-server/src/update_status.rs, the record of the last self-update, its
--   hand-written JSON (UpdateStatus), and its file with the watchdog (UpdateStatus/Store). The
--   clock and the fate of each write are arguments.
-- - Session: crates/mrsh-server/src/session.rs, the sessions that outlive a connection, and the
--   calendar of their timestamps.
-- - Sync: crates/mrsh-client/src/sync, the exclusion of paths (dir.rs) and the plan of a two-way
--   sync (diff.rs). A path is its bytes. Sync/Matches is the meaning of a pattern,
--   without the tests of the code.
-- - Auth: crates/mrsh-core/src/auth.rs. A line of authorized_keys and the permissions in its options;
--   Auth/Secrets has the files of keys, TOTP secrets and recovery codes. A panic is a result.
-- - Handler: crates/mrsh-server/src/handler.rs, the permission that a request needs; Handler/Native
--   is the native commands of dispatch.rs, Handler/Handshake is authenticate, over Auth and
--   Binproto, with Handler/Ed25519 and Handler/Caps; Handler/Connection puts
--   RateLimit around it, and Handler/Binary is what each binary message sets going. The libraries
--   for JSON, base64, SHA-256, ed25519 and TOTP, and cfg!(windows), are the record Libraries, and
--   the peer is what it sends.
-- - FsTransport: crates/mrsh-core/src/fs_transport.rs, one direction of a stream over a shared
--   directory. Polls, futures and the arrival of files are events of one state, so that a list of
--   events is an interleaving.
--
-- A function of the source has a function of the same name here. Machine integers are natural
-- numbers with their wrap-around written out; usize has 64 bits. A loop is a recursion on a list,
-- on the rounds left, or on fuel: the loops of Delta and Chunking take the length of the data as
-- fuel, since each round goes at least one byte on, and their theorems speak of the finished
-- result; glob_match takes fuel for every place of the star and every byte of the pattern after it,
-- and its theorem shows that this is enough.
--
-- Not modelled: logging, the operating system, the user interface, TLS, QUIC and SSH, which are
-- other libraries' code, the serde attributes of the structs, and the parts of the program that
-- the files above do not name.
pub mod Prelude
pub mod PathTranslate
pub mod WindowsPath
pub mod Stun
pub mod Error
pub mod Io
pub mod Utf8
pub mod Wire
pub mod Codec
pub mod Binproto
pub mod BlockCache
pub mod Delta
pub mod Chunking
pub mod Config
pub mod RateLimit
pub mod Text
pub mod UpdateStatus
pub mod Session
pub mod Sync
pub mod Auth
pub mod Handler
pub mod FsTransport
