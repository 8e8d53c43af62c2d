-- ===== src/Delta/Reconstruct.antt =====
-- `apply_delta` rebuilds the new file from the old one and the delta.
use rsh.Prelude.{
  ℕ, zero, suc, ◌+◌, ◌*◌, ◌%◌, ◌^◌, ◌<◌, ◌≤◌, ◌≡◌, refl, sym, ap, ◌∙◌, List, [], ◌∷◌, ◌++◌, arith,
  min, ltb, length, take, append-nil, append_assoc, take-slice, take_next, take_all, Option-cases,
  Bool-cases, inl, inr, ltb→lt, lt→ltb,
}
use rsh.Prelude.Bytes.{Bytes, byte_at}
use rsh.Delta.{
  block_size, Digests, BlockSig, DeltaOp, WeakMap, match_op, strong_sum, compute_signatures,
  data_op, flush, match_block, delta_from, compute_delta, apply_op, apply_onto, apply_delta,
}
use rsh.Delta.Blocks.{
  block_at, AllIn, IsSigOf, All, weak_map_onto-AllIn, compute_signatures-IsSigOf, match_block_sound,
}

module _ (digests : Digests) where
  open digests use {encode, decode, decode-encode}

  -- No block of the new file has the strong checksum of a different block of the old file.
  abbrev pub NoCollision : Bytes → Bytes → Type 0
  NoCollision old_data new_data =
      (i k : ℕ)
      → strong_sum digests (block_at old_data (k * block_size))
        ≡ strong_sum digests (block_at new_data i)
      → block_at old_data (k * block_size) ≡ block_at new_data i

  module _ (old_data : Bytes) where
    abbrev built : List DeltaOp → Bytes
    built = apply_onto digests old_data []

    apply_onto-push :
        (ops : List DeltaOp) (op : DeltaOp) (result : Bytes)
        → apply_onto digests old_data result (ops ++ (op ∷ []))
          ≡ apply_onto digests old_data result ops ++ apply_op digests old_data op
    unfolding apply_onto
    apply_onto-push [] op result = refl
    apply_onto-push (x ∷ ops) op result =
        apply_onto-push ops op (result ++ apply_op digests old_data x)

    apply_op-data_op : (bytes : Bytes) → apply_op digests old_data (data_op digests bytes) ≡ bytes
    unfolding apply_op
    apply_op-data_op bytes = rw (decode-encode bytes)

    apply_op-match_op :
        (sig : BlockSig)
        → length old_data < 2 ^ 63
        → IsSigOf digests old_data sig
        → apply_op digests old_data (match_op sig) ≡ block_at old_data (sig.index * block_size)
    unfolding apply_op
    apply_op-match_op sig small is =
        let start : sig.index * block_size % 2 ^ 64 ≡ sig.index * block_size = omega arith in
        let end : (sig.index * block_size + block_size) % 2 ^ 64
            ≡ sig.index * block_size + block_size =
          omega arith in
        rw (start, end, lt→ltb _ _ is.1)

    built-flush :
        (ops : List DeltaOp) (unmatched : Bytes)
        → built (flush digests ops unmatched) ≡ built ops ++ unmatched
    unfolding flush
    built-flush ops [] = sym (append-nil (built ops))
    built-flush ops (b ∷ bs) =
        apply_onto-push ops (data_op digests (b ∷ bs)) []
        ∙ ap (λ s. built ops ++ s) (apply_op-data_op (b ∷ bs))

    module _ (new_data : Bytes) (small : length old_data < 2 ^ 63)
        (apart : NoCollision old_data new_data) where
      built-delta_from :
          (fuel : ℕ) (m : WeakMap) (i : ℕ) (unmatched : Bytes) (ops : List DeltaOp)
          → AllIn (IsSigOf digests old_data) m
          → length new_data ≤ i + fuel
          → i ≤ length new_data
          → built ops ++ unmatched ≡ take i new_data
          → built (delta_from digests fuel new_data m i unmatched ops) ≡ new_data
      unfolding delta_from
      built-delta_from zero m i unmatched ops all enough within e =
          built-flush ops unmatched ∙ e ∙ take_all i new_data (omega arith)
      built-delta_from (suc fuel) m i unmatched ops all enough within e =
          elim (Bool-cases (ltb i (length new_data))) [
            | inr done ↦
                rw done (built-flush ops unmatched ∙ e ∙ take_all i new_data (ground arith))
            | inl more ↦ elim (Option-cases (match_block digests new_data m i)) [
              | inl missed ↦
                  rw (more, missed)
                    (built-delta_from fuel m (i + 1) (unmatched ++ (byte_at new_data i ∷ [])) ops
                      all (omega arith) (ground arith)
                      (sym (append_assoc (built ops) unmatched _)
                        ∙ ap (λ s. s ++ (byte_at new_data i ∷ [])) e
                        ∙ take_next new_data i (i + 1) 0 (ltb→lt _ _ more) (omega arith)))
              | inr (sig, hit) ↦
                  let end : ℕ = min (i + block_size) (length new_data) in
                  let (is, same) =
                    match_block_sound digests (IsSigOf digests old_data) new_data m i sig all hit in
                  let block = apart i sig.index (sym is.0 ∙ same) in
                  rw (more, hit)
                    (built-delta_from fuel m end []
                      (flush digests ops unmatched ++ (match_op sig ∷ [])) all (ground arith)
                      (omega arith)
                      (append-nil _
                        ∙ apply_onto-push (flush digests ops unmatched) (match_op sig) []
                        ∙ ap (λ s. s ++ apply_op digests old_data (match_op sig))
                            (built-flush ops unmatched ∙ e)
                        ∙ ap (λ s. take i new_data ++ s) (apply_op-match_op sig small is ∙ block)
                        ∙ take-slice new_data i end (ground arith)))
            ]
          ]

-- The file that `apply_delta` builds from the old file and the delta of the new file against the
-- old file's signatures is the new file, byte for byte, where no two different blocks of the two
-- files share a strong checksum.
pub apply_delta-compute_delta :
    (digests : Digests) (old_data new_data : Bytes)
    → length old_data < 2 ^ 63
    → NoCollision digests old_data new_data
    → apply_delta digests old_data
        (compute_delta digests new_data (compute_signatures digests old_data))
      ≡ new_data
unfolding apply_delta compute_delta
apply_delta-compute_delta digests old_data new_data small apart =
    applied (compute_signatures digests old_data) (compute_signatures-IsSigOf digests old_data)
  where
    applied :
        (sigs : List BlockSig)
        → All (IsSigOf digests old_data) sigs
        → apply_onto digests old_data [] (compute_delta digests new_data sigs) ≡ new_data
    applied [] all =
        apply_onto-push digests old_data [] (data_op digests new_data) []
        ∙ apply_op-data_op digests old_data new_data
    applied (sig ∷ sigs) all =
        built-delta_from digests old_data new_data small apart (length new_data) _ 0 [] []
          (weak_map_onto-AllIn (IsSigOf digests old_data) (sig ∷ sigs) [] all tt) (omega arith)
          (omega arith) refl
