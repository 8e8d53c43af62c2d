-- ===== src/Delta.antt =====
-- crates/mrsh-transfer/src/delta.rs: block signatures, the delta of a new file against them, and
-- the reconstruction. The checksums and base64 are parameters; `usize` has 64 bits.
pub mod Blocks
pub mod Reconstruct
pub mod Identical
pub mod Size
mod Tests
use Prim.Native.String.{String}
use text.Mathlib.Text.{◌==◌ as str_eq}
use rsh.Prelude.{
  ℕ, zero, suc, ◌+◌, ◌-◌, ◌*◌, ◌/◌, ◌%◌, ◌^◌, ◌≡◌, ◌||◌, Option, none, some, List, [], ◌∷◌, ◌++◌,
  min, ltb, leb, ◌==◌, if◌then◌else◌, length, slice,
}
use rsh.Prelude.Bytes.{Bytes, byte_at}

abbrev pub block_size : ℕ
block_size = 4096

-- The crates `adler32`, `md5` and `base64`: what is encoded is decoded again.
pub record Digests : Type 0 where
  pub adler32 : Bytes → Option ℕ
  pub md5 : Bytes → Bytes
  pub encode : Bytes → String
  pub decode : String → Option Bytes
  pub decode-encode : (bytes : Bytes) → decode (encode bytes) ≡ some bytes

pub record BlockSig : Type 0 where
  pub index : ℕ
  pub weak : ℕ
  pub strong : String

pub record DeltaOp : Type 0 where
  pub op_type : String
  pub index : ℕ
  pub text : String

abbrev pub WeakMap : Type 0
WeakMap = List (ℕ × List BlockSig)

-- `weak_map.entry(sig.weak).or_default().push(sig)`
pub push_sig : BlockSig → WeakMap → WeakMap
push_sig sig [] = (sig.weak, sig ∷ []) ∷ []
push_sig sig ((weak, sigs) ∷ rest) =
    if weak == sig.weak then (weak, sigs ++ (sig ∷ [])) ∷ rest else (weak, sigs) ∷ push_sig sig rest

pub weak_map_onto : WeakMap → List BlockSig → WeakMap
weak_map_onto weak_map [] = weak_map
weak_map_onto weak_map (sig ∷ sigs) = weak_map_onto (push_sig sig weak_map) sigs

-- `weak_map.get(&weak)`
pub candidates : ℕ → WeakMap → Option (List BlockSig)
candidates weak [] = none
candidates weak ((w, sigs) ∷ rest) = if w == weak then some sigs else candidates weak rest

-- The first candidate with the strong checksum.
pub find_strong : String → List BlockSig → Option BlockSig
find_strong strong [] = none
find_strong strong (sig ∷ sigs) =
    if str_eq sig.strong strong then some sig else find_strong strong sigs

abbrev pub match_op : BlockSig → DeltaOp
match_op sig = record { op_type = "match"; index = sig.index; text = "" }

module _ (digests : Digests) where
  open digests use {adler32, md5, encode, decode}

  abbrev pub weak_sum : Bytes → ℕ
  weak_sum block = elim (adler32 block) [ none ↦ 0 | some sum ↦ sum ]

  abbrev pub strong_sum : Bytes → String
  strong_sum block = encode (md5 block)

  -- The loop of `compute_signatures`, from offset i on.
  pub signatures_from : ℕ → Bytes → ℕ → List BlockSig
  signatures_from zero bytes i = []
  signatures_from (suc fuel) bytes i =
      let block = slice bytes i (min (i + block_size) (length bytes)) in
      let sig : BlockSig = record {
        index = i / block_size;
        weak = weak_sum block;
        strong = strong_sum block;
      } in
      let rest = signatures_from fuel bytes (i + block_size) in
      if ltb i (length bytes) then sig ∷ rest else []

  unfoldable pub compute_signatures : Bytes → List BlockSig
  unfolding signatures_from
  compute_signatures bytes = signatures_from (length bytes) bytes 0

  abbrev pub data_op : Bytes → DeltaOp
  data_op bytes = record { op_type = "data"; index = 0; text = encode bytes }

  -- `if !unmatched.is_empty() { ops.push(..) }`
  pub flush : List DeltaOp → Bytes → List DeltaOp
  flush ops [] = ops
  flush ops (b ∷ bs) = ops ++ (data_op (b ∷ bs) ∷ [])

  -- The block at offset i, if the signatures have it.
  pub match_block : Bytes → WeakMap → ℕ → Option BlockSig
  unfolding candidates find_strong
  match_block new_data weak_map i =
      let len = length new_data in
      let block = slice new_data i (min (i + block_size) len) in
      let found : Option BlockSig = elim (candidates (weak_sum block) weak_map) [
        | none ↦ none
        | some sigs ↦ find_strong (strong_sum block) sigs
      ] in
      if leb (i + block_size) len || i == len - len % block_size then found else none

  -- The loop of `compute_delta` and the last flush. Each round moves i on, so the length of the
  -- data is fuel enough.
  pub delta_from : ℕ → Bytes → WeakMap → ℕ → Bytes → List DeltaOp → List DeltaOp
  unfolding flush match_block
  delta_from zero new_data weak_map i unmatched ops = flush ops unmatched
  delta_from (suc fuel) new_data weak_map i unmatched ops =
      let len = length new_data in
      let end = min (i + block_size) len in
      let next : List DeltaOp = elim (match_block new_data weak_map i) [
        | some sig ↦
            delta_from fuel new_data weak_map end [] (flush ops unmatched ++ (match_op sig ∷ []))
        | none ↦
            delta_from fuel new_data weak_map (i + 1) (unmatched ++ (byte_at new_data i ∷ [])) ops
      ] in
      if ltb i len then next else flush ops unmatched

  unfoldable pub compute_delta : Bytes → List BlockSig → List DeltaOp
  unfolding weak_map_onto push_sig delta_from
  compute_delta new_data [] = data_op new_data ∷ []
  compute_delta new_data (sig ∷ sigs) =
      delta_from (length new_data) new_data (weak_map_onto [] (sig ∷ sigs)) 0 [] []

  -- What one operation appends. The offsets of a match wrap at 64 bits.
  pub apply_op : Bytes → DeltaOp → Bytes
  apply_op existing op =
      let start = op.index * block_size % 2 ^ 64 in
      let end = min ((start + block_size) % 2 ^ 64) (length existing) in
      if str_eq op.op_type "match"
      then (if ltb start (length existing) then slice existing start end else [])
      else if str_eq op.op_type "data"
      then (elim (decode op.text) [ some bytes ↦ bytes | none ↦ [] ])
      else []

  pub apply_onto : Bytes → Bytes → List DeltaOp → Bytes
  apply_onto existing result [] = result
  apply_onto existing result (op ∷ ops) = apply_onto existing (result ++ apply_op existing op) ops

  unfoldable pub apply_delta : Bytes → List DeltaOp → Bytes
  unfolding apply_op apply_onto
  apply_delta existing delta = apply_onto existing [] delta

  pub stats_onto : ℕ × ℕ → List DeltaOp → ℕ × ℕ
  stats_onto stats [] = stats
  stats_onto (match_blocks, data_bytes) (op ∷ ops) =
      stats_onto
        (if str_eq op.op_type "match"
          then (match_blocks + 1, data_bytes)
          else if str_eq op.op_type "data"
          then (elim (decode op.text) [
            | some bytes ↦ (match_blocks, data_bytes + length bytes)
            | none ↦ (match_blocks, data_bytes)
          ])
          else (match_blocks, data_bytes))
        ops

  unfoldable pub delta_stats : List DeltaOp → ℕ × ℕ
  unfolding stats_onto
  delta_stats delta = stats_onto (0, 0) delta
