-- ===== src/Delta/Size.antt =====
-- Bounds for deltas from any sender.
use text.Mathlib.Text.{◌==◌ as str_eq}
use rsh.Prelude.{
  ℕ, ◌+◌, ◌-◌, ◌*◌, ◌%◌, ◌^◌, ◌≤◌, ◌≡◌, List, [], ◌∷◌, ◌++◌, arith, min, ltb, length, drop,
  length-append, length-take, true, inl, inr, Bool-cases, Option-cases,
}
use rsh.Prelude.Bytes.{Bytes}
use rsh.Delta.{
  block_size, Digests, DeltaOp, apply_op, apply_onto, apply_delta, stats_onto, delta_stats,
}

module _ (digests : Digests) (existing : Bytes) where
  open digests use {decode}

  match_size :
      (op : DeltaOp)
      → str_eq op.op_type "match" ≡ true
      → length (apply_op digests existing op) ≤ block_size
  unfolding apply_op
  match_size op is_match =
      let start : ℕ = op.index * block_size % 2 ^ 64 in
      let end : ℕ = min ((start + block_size) % 2 ^ 64) (length existing) in
      elim (Bool-cases (ltb start (length existing))) [
        | inl inside ↦
            rw (is_match, inside) (omega (arith, length-take (end - start) (drop start existing)))
        | inr outside ↦ rw (is_match, outside) (omega arith)
      ]

  -- One operation adds at most what it adds to the statistics, a match counted as a block.
  op_size :
      (op : DeltaOp) (n b : ℕ)
      → (n' : ℕ) × (b' : ℕ) × ((rest : List DeltaOp)
          → stats_onto digests (n, b) (op ∷ rest) ≡ stats_onto digests (n', b') rest)
        × (length (apply_op digests existing op) + n * block_size + b ≤ n' * block_size + b')
  unfolding stats_onto apply_op
  op_size op n b = elim (Bool-cases (str_eq op.op_type "match")) [
    | inl is_match ↦ (n + 1, b, λ rest. rw is_match, omega (arith, match_size op is_match))
    | inr other ↦ elim (Bool-cases (str_eq op.op_type "data")) [
      | inl is_data ↦ elim (Option-cases (decode op.text)) [
        | inl bad ↦ (n, b, λ rest. rw (other, is_data, bad), rw (other, is_data, bad) (omega arith))
        | inr (bytes, good) ↦ (
          n,
          b + length bytes,
          λ rest. rw (other, is_data, good),
          rw (other, is_data, good) (omega arith),
        )
      ]
      | inr unknown ↦ (n, b, λ rest. rw (other, unknown), rw (other, unknown) (omega arith))
    ]
  ]

  built_size :
      (ops : List DeltaOp) (result : Bytes) (n b : ℕ)
      → length result ≤ n * block_size + b
      → length (apply_onto digests existing result ops)
        ≤ (stats_onto digests (n, b) ops).0 * block_size + (stats_onto digests (n, b) ops).1
  unfolding apply_onto
  built_size [] result n b h = unfold stats_onto in h
  built_size (op ∷ ops) result n b h =
      let (n', b', same, size) = op_size op n b in
      rw (same ops) (
        built_size ops (result ++ apply_op digests existing op) n' b'
          (omega (arith, length-append result (apply_op digests existing op))))

-- Whatever the delta, from a trusted sender or not, the file that `apply_delta` builds is at most
-- as long as `delta_stats` says: 4096 bytes for each match, and the bytes of data.
length-apply_delta-le :
    (digests : Digests) (existing : Bytes) (delta : List DeltaOp)
    → length (apply_delta digests existing delta)
      ≤ (delta_stats digests delta).0 * block_size + (delta_stats digests delta).1
unfolding apply_delta delta_stats
length-apply_delta-le digests existing delta =
    built_size digests existing delta [] 0 0 (omega arith)
