-- ===== src/Delta/Identical.antt =====
-- The delta of a file against its own signatures holds no data, only one match for each block.
use Prim.Native.String.{String}
use text.Mathlib.Text.{◌==◌ as str_eq}
use text.Mathlib.TextEquality.{eq_iff}
use rsh.Prelude.{
  ℕ, zero, suc, ◌+◌, ◌-◌, ◌/◌, ◌%◌, ◌<◌, ◌≤◌, ◌≡◌, refl, sym, ap, ◌∙◌, ◌⊎◌, List, [], ◌∷◌, ◌++◌,
  none, some, arith, min, ltb, leb, length, append-nil, append_assoc, Option, Option-cases, true,
  ◌&&◌, ◌||◌, Bool-cases, inl, inr, ltb→lt, lt→ltb, ◌==◌, ==_iff, if◌then◌else◌, length-append,
}
use rsh.Prelude.Bytes.{Bytes}
use rsh.Delta.{
  block_size, Digests, BlockSig, DeltaOp, WeakMap, push_sig, weak_map_onto, candidates, find_strong,
  match_op, weak_sum, strong_sum, signatures_from, compute_signatures, flush, match_block,
  delta_from, compute_delta, stats_onto, delta_stats,
}
use rsh.Delta.Blocks.{block_at, All}

-- What `weak_map.get` finds, a missing key read as no candidates.
abbrev or_nil : Option (List BlockSig) → List BlockSig
or_nil none = []
or_nil (some sigs) = sigs

found : ℕ → WeakMap → List BlockSig
found weak m = or_nil (candidates weak m)

found_eq :
    (weak : ℕ) (m : WeakMap) (o : Option (List BlockSig))
    → candidates weak m ≡ o
    → found weak m ≡ or_nil o
unfolding found
found_eq weak m o e = rw e

with_weak : ℕ → List BlockSig → List BlockSig
with_weak weak [] = []
with_weak weak (sig ∷ sigs) =
    if sig.weak == weak then sig ∷ with_weak weak sigs else with_weak weak sigs

found-push_sig :
    (weak : ℕ) (sig : BlockSig) (m : WeakMap)
    → found weak (push_sig sig m) ≡ found weak m ++ with_weak weak (sig ∷ [])
unfolding found push_sig candidates with_weak
found-push_sig weak sig [] = ground arith
found-push_sig weak sig ((w, sigs) ∷ rest) =
    ground (arith, found-push_sig weak sig rest, append-nil sigs, append-nil (found weak rest))

found-weak_map_onto :
    (weak : ℕ) (sigs : List BlockSig) (m : WeakMap)
    → found weak (weak_map_onto m sigs) ≡ found weak m ++ with_weak weak sigs
unfolding weak_map_onto with_weak
found-weak_map_onto weak [] m = sym (append-nil (found weak m))
found-weak_map_onto weak (sig ∷ sigs) m =
    found-weak_map_onto weak sigs (push_sig sig m)
    ∙ ap (λ s. s ++ with_weak weak sigs) (found-push_sig weak sig m)
    ∙ append_assoc (found weak m) (with_weak weak (sig ∷ [])) (with_weak weak sigs)
    ∙ ap (λ s. found weak m ++ s) with_weak-cons
  where
    with_weak-cons : with_weak weak (sig ∷ []) ++ with_weak weak sigs ≡ with_weak weak (sig ∷ sigs)
    with_weak-cons = ground arith

-- Some signature has both checksums.
abbrev Has : ℕ → String → List BlockSig → Type 0
Has weak strong [] = ⊥
Has weak strong (sig ∷ sigs) = (sig.weak ≡ weak) × (sig.strong ≡ strong) ⊎ Has weak strong sigs

find_strong-Has :
    (weak : ℕ) (strong : String) (sigs : List BlockSig)
    → Has weak strong sigs
    → (sig : BlockSig) × (find_strong strong (with_weak weak sigs) ≡ some sig)
unfolding find_strong with_weak
find_strong-Has weak strong [] h = absurd h
find_strong-Has weak strong (sig ∷ sigs) (inl (w, s)) =
    (sig, rw ((==_iff sig.weak weak).1 w, (eq_iff sig.strong strong).1 s))
find_strong-Has weak strong (sig ∷ sigs) (inr h) =
    let (later, e) = find_strong-Has weak strong sigs h in
    elim (Bool-cases (str_eq sig.strong strong && sig.weak == weak)) [
      | inl here ↦ (sig, ground arith)
      | inr not_here ↦ (later, ground (arith, e))
    ]

module _ (digests : Digests) where
  signatures_from-Has :
      (fuel : ℕ) (bytes : Bytes) (j i : ℕ)
      → j % block_size ≡ 0
      → i % block_size ≡ 0
      → j ≤ i
      → i < length bytes
      → length bytes ≤ j + fuel
      → Has
          (weak_sum digests (block_at bytes i))
          (strong_sum digests (block_at bytes i))
          (signatures_from digests fuel bytes j)
  unfolding signatures_from
  signatures_from-Has zero bytes j i a b le lt enough = absurd (omega arith)
  signatures_from-Has (suc fuel) bytes j i a b le lt enough =
      rw (lt→ltb j (length bytes) (omega arith)) (elim (Bool-cases (j == i)) [
        | inl same ↦ let e : j ≡ i = (==_iff j i).0 same in inl (rw e (refl, refl))
        | inr other ↦ inr (
            signatures_from-Has fuel bytes (j + block_size) i (omega arith) b (ground arith) lt
              (omega arith))
      ])

  compute_signatures-Has :
      (bytes : Bytes) (i : ℕ)
      → i % block_size ≡ 0
      → i < length bytes
      → Has
          (weak_sum digests (block_at bytes i))
          (strong_sum digests (block_at bytes i))
          (compute_signatures digests bytes)
  unfolding compute_signatures
  compute_signatures-Has bytes i at lt =
      signatures_from-Has (length bytes) bytes 0 i refl at (omega arith) lt (omega arith)

  nothing : (weak : ℕ) → candidates weak [] ≡ none
  unfolding candidates
  nothing weak = refl

  none_found : (strong : String) (sig : BlockSig) → find_strong strong [] ≡ some sig → ⊥
  unfolding find_strong
  none_found strong sig h = cc

  match_block_complete :
      (bytes : Bytes) (sigs : List BlockSig) (i : ℕ)
      → i % block_size ≡ 0
      → i < length bytes
      → Has (weak_sum digests (block_at bytes i)) (strong_sum digests (block_at bytes i)) sigs
      → (sig : BlockSig) × (match_block digests bytes (weak_map_onto [] sigs) i ≡ some sig)
  unfolding match_block
  match_block_complete bytes sigs i a lt has =
      let weak : ℕ = weak_sum digests (block_at bytes i) in
      let m : WeakMap = weak_map_onto [] sigs in
      let strong : String = strong_sum digests (block_at bytes i) in
      let (sig, e) = find_strong-Has weak strong sigs has in
      let tried : (leb (i + block_size) (length bytes)
            || i == length bytes - length bytes % block_size)
          ≡ true =
        ground arith in
      let all : found weak m ≡ with_weak weak sigs =
        found-weak_map_onto weak sigs []
        ∙ ap (λ s. s ++ with_weak weak sigs) (found_eq weak [] none (nothing weak)) in
      elim (Option-cases (candidates weak m)) [
        | inl missing ↦ (
          sig,
          absurd (
              none_found strong sig
                (ap (find_strong strong) (sym (found_eq weak m none missing) ∙ all) ∙ e)),
        )
        | inr (known, some_known) ↦ (
          sig,
          rw (tried, some_known)
              (ap (find_strong strong) (sym (found_eq weak m (some known) some_known) ∙ all) ∙ e),
        )
      ]

  abbrev IsMatch : DeltaOp → Type 0
  IsMatch op = op.op_type ≡ "match"

  All-IsMatch_push :
      (ops : List DeltaOp) (sig : BlockSig)
      → All IsMatch ops
      → All IsMatch (ops ++ (match_op sig ∷ []))
  All-IsMatch_push [] sig all = (refl, tt)
  All-IsMatch_push (op ∷ ops) sig all = (all.0, All-IsMatch_push ops sig all.1)

  stats_onto-All :
      (ops : List DeltaOp) (n bytes : ℕ)
      → All IsMatch ops
      → stats_onto digests (n, bytes) ops ≡ (n + length ops, bytes)
  unfolding stats_onto
  stats_onto-All [] n bytes all = ground arith
  stats_onto-All (op ∷ ops) n bytes all =
      let is_match = (eq_iff op.op_type "match").1 all.0 in
      rw is_match (stats_onto-All ops (n + 1) bytes all.1 ∙ ground arith)

  abbrev blocks : ℕ → ℕ
  blocks n = (n + (block_size - 1)) / block_size

  module _ (bytes : Bytes) (fuel_sigs : List BlockSig)
      (is_sigs : fuel_sigs ≡ compute_signatures digests bytes) where
    delta_from-IsMatch :
        (fuel i : ℕ) (ops : List DeltaOp)
        → (i % block_size ≡ 0) ⊎ (i ≡ length bytes)
        → i ≤ length bytes
        → length bytes ≤ i + fuel
        → All IsMatch ops
        → All IsMatch (delta_from digests fuel bytes (weak_map_onto [] fuel_sigs) i [] ops)
          × (length (delta_from digests fuel bytes (weak_map_onto [] fuel_sigs) i [] ops)
              ≡ length ops + blocks (length bytes - i))
    unfolding delta_from flush
    delta_from-IsMatch zero i ops at within enough all = (all, omega arith)
    delta_from-IsMatch (suc fuel) i ops at within enough all =
        elim (Bool-cases (ltb i (length bytes))) [
          | inr done ↦ rw done (all, ground arith)
          | inl more ↦
              let lt : i < length bytes = ltb→lt i (length bytes) more in
              let at' : i % block_size ≡ 0 = ground arith in
              let has = compute_signatures-Has bytes i at' lt in
              let (sig, hit) = match_block_complete bytes fuel_sigs i at' lt (rw is_sigs has) in
              let end : ℕ = min (i + block_size) (length bytes) in
              let (all', count) =
                delta_from-IsMatch fuel end (ops ++ (match_op sig ∷ [])) (ground arith)
                  (omega arith) (omega arith) (All-IsMatch_push ops sig all) in
              rw (more, hit) (all', omega (arith, count, length-append ops (match_op sig ∷ [])))
        ]

-- The delta of a file of n > 0 bytes against its own signatures is one match for each of its
-- blocks, the last of which may be short, and not one byte of data.
pub delta_stats_identical :
    (digests : Digests) (bytes : Bytes)
    → 0 < length bytes
    → delta_stats digests (compute_delta digests bytes (compute_signatures digests bytes))
      ≡ ((length bytes + (block_size - 1)) / block_size, 0)
unfolding delta_stats compute_delta
delta_stats_identical digests bytes pos = stated (compute_signatures digests bytes) refl
  where
    stated :
        (sigs : List BlockSig)
        → sigs ≡ compute_signatures digests bytes
        → stats_onto digests (0, 0) (compute_delta digests bytes sigs)
          ≡ ((length bytes + (block_size - 1)) / block_size, 0)
    stated [] e = absurd (rw (← e) at (compute_signatures-Has digests bytes 0 refl pos))
    stated (sig ∷ sigs) e =
        let (all, count) =
          delta_from-IsMatch digests bytes (sig ∷ sigs) e (length bytes) 0 [] (inl refl)
            (omega arith) (omega arith) tt in
        stats_onto-All digests _ 0 0 all ∙ ap (λ (k : ℕ). (k, 0)) (omega (arith, count))
