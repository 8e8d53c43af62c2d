-- ===== src/Delta/Blocks.antt =====
-- What the lookup by checksums can find: entries of the list that the map was built from.
use Prim.Native.String.{String}
use text.Mathlib.Text.{◌==◌ as str_eq}
use text.Mathlib.TextEquality.{eq_iff}
use rsh.Prelude.{
  ℕ, zero, suc, ◌+◌, ◌*◌, ◌/◌, ◌%◌, ◌<◌, ◌≡◌, refl, List, [], ◌∷◌, ◌++◌, some, arith, min, ltb,
  length, slice, Option-cases, Bool-cases, inl, inr, ltb→lt, leb, ◌==◌, ◌||◌, ◌-◌,
}
use rsh.Prelude.Bytes.{Bytes}
use rsh.Delta.{
  block_size, Digests, BlockSig, WeakMap, push_sig, weak_map_onto, candidates, find_strong,
  weak_sum, strong_sum, signatures_from, compute_signatures, match_block,
}

-- The block at an offset; the last one may be shorter.
abbrev pub block_at : Bytes → ℕ → Bytes
block_at bytes i = slice bytes i (min (i + block_size) (length bytes))

abbrev pub All {ℓ κ} : {A : Type ℓ} → (A → Type κ) → List A → Type κ
All P [] = Unit
All P (x ∷ xs) = P x × All P xs

abbrev pub AllIn : (BlockSig → Type 0) → WeakMap → Type 0
AllIn P [] = Unit
AllIn P ((weak, sigs) ∷ rest) = All P sigs × AllIn P rest

All-push {ℓ κ} :
    {A : Type ℓ} (P : A → Type κ) (xs : List A) (x : A) → All P xs → P x → All P (xs ++ (x ∷ []))
All-push P [] x all h = (h, tt)
All-push P (y ∷ ys) x all h = (all.0, All-push P ys x all.1 h)

module _ (P : BlockSig → Type 0) where
  push_sig-AllIn : (sig : BlockSig) (m : WeakMap) → P sig → AllIn P m → AllIn P (push_sig sig m)
  unfolding push_sig
  push_sig-AllIn sig [] h all = ((h, tt), tt)
  push_sig-AllIn sig ((weak, sigs) ∷ rest) h all = elim (Bool-cases (weak == sig.weak)) [
    | inl e ↦ rw e (All-push P sigs sig all.0 h, all.1)
    | inr e ↦ rw e (all.0, push_sig-AllIn sig rest h all.1)
  ]

  pub weak_map_onto-AllIn :
      (sigs : List BlockSig) (m : WeakMap) → All P sigs → AllIn P m → AllIn P (weak_map_onto m sigs)
  unfolding weak_map_onto
  weak_map_onto-AllIn [] m all h = h
  weak_map_onto-AllIn (sig ∷ sigs) m all h =
      weak_map_onto-AllIn sigs (push_sig sig m) all.1 (push_sig-AllIn sig m all.0 h)

  candidates-All :
      (weak : ℕ) (m : WeakMap) (sigs : List BlockSig)
      → AllIn P m
      → candidates weak m ≡ some sigs
      → All P sigs
  unfolding candidates
  candidates-All weak [] sigs all e = cc
  candidates-All weak ((w, ss) ∷ rest) sigs all e = elim (Bool-cases (w == weak)) [
    | inl same ↦
        let e' : some ss ≡ some sigs = rw same at e in let e'' : ss ≡ sigs = cc in rw (← e'') all.0
    | inr other ↦ candidates-All weak rest sigs all.1 (rw other at e)
  ]

  find_strong-All :
      (strong : String) (sigs : List BlockSig) (sig : BlockSig)
      → All P sigs
      → find_strong strong sigs ≡ some sig
      → P sig × (sig.strong ≡ strong)
  unfolding find_strong
  find_strong-All strong [] sig all e = cc
  find_strong-All strong (s ∷ ss) sig all e = elim (Bool-cases (str_eq s.strong strong)) [
    | inl same ↦
        let e' : some s ≡ some sig = rw same at e in
        let e'' : s ≡ sig = cc in rw (← e'') (all.0, (eq_iff s.strong strong).0 same)
    | inr other ↦ find_strong-All strong ss sig all.1 (rw other at e)
  ]

module _ (digests : Digests) where
  -- The signature is that of a block of the file.
  abbrev pub IsSigOf : Bytes → BlockSig → Type 0
  IsSigOf bytes sig =
      (sig.strong ≡ strong_sum digests (block_at bytes (sig.index * block_size)))
      × (sig.index * block_size < length bytes)

  signatures_from-IsSigOf :
      (fuel : ℕ) (bytes : Bytes) (i : ℕ)
      → i % block_size ≡ 0
      → All (IsSigOf bytes) (signatures_from digests fuel bytes i)
  unfolding signatures_from
  signatures_from-IsSigOf zero bytes i h = tt
  signatures_from-IsSigOf (suc fuel) bytes i h = elim (Bool-cases (ltb i (length bytes))) [
    | inl more ↦
        let e : i / block_size * block_size ≡ i = omega arith in
        rw more (
          (rw e, rw e (ltb→lt i (length bytes) more)),
          signatures_from-IsSigOf fuel bytes (i + block_size) (omega arith),
        )
    | inr done ↦ rw done tt
  ]

  pub compute_signatures-IsSigOf :
      (bytes : Bytes) → All (IsSigOf bytes) (compute_signatures digests bytes)
  unfolding compute_signatures
  compute_signatures-IsSigOf bytes = signatures_from-IsSigOf (length bytes) bytes 0 refl

  -- A block that is matched has the strong checksum of a block that the map knows.
  pub match_block_sound :
      (P : BlockSig → Type 0) (new_data : Bytes) (m : WeakMap) (i : ℕ) (sig : BlockSig)
      → AllIn P m
      → match_block digests new_data m i ≡ some sig
      → P sig × (sig.strong ≡ strong_sum digests (block_at new_data i))
  unfolding match_block
  match_block_sound P new_data m i sig all e =
      elim (Bool-cases (
        leb (i + block_size) (length new_data)
        || i == length new_data - length new_data % block_size)) [
          | inl tried ↦
              elim (Option-cases (candidates (weak_sum digests (block_at new_data i)) m)) [
                | inl missing ↦ cc (rw (tried, missing) at e)
                | inr (sigs, found) ↦
                    find_strong-All P _ sigs sig (candidates-All P _ m sigs all found)
                      (rw (tried, found) at e)
              ]
          | inr skipped ↦ cc (rw skipped at e)
        ]
