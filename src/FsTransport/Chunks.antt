-- ===== src/FsTransport/Chunks.antt =====
-- The chunks of a direction: which of them each part of the state holds.
use mathlib.Core.Option.{some-injective}
use mathlib.Core.Path.{subst}
use rsh.Prelude.{
  ℕ, zero, suc, ◌≤◌, ◌<◌, ◌≡◌, refl, sym, ap, ◌∙◌, ◌⊎◌, inl, inr, true, false, Option, none, some,
  List, [], ◌∷◌, ◌++◌, ◌==◌, ==_iff, length, take, append_assoc, append-nil, length-append,
  Bool-cases, arith,
}
use rsh.Prelude.Bytes.{Bytes}
use rsh.FsTransport.{Chunk, Phase, looking, checked, Direction, pick, take_file, Log}

abbrev pub concat : List Bytes → Bytes
concat [] = []
concat (c ∷ cs) = c ++ concat cs

abbrev pub nth : List Bytes → ℕ → Option Bytes
nth [] i = none
nth (c ∷ cs) zero = some c
nth (c ∷ cs) (suc i) = nth cs i

abbrev pub contents : Option (Option ℕ) → Option ℕ
contents none = none
contents (some n) = n

abbrev pub said : Phase → Option ℕ
said looking = none
said (checked n) = n

abbrev pub Open : Direction → Type 0
Open s =
    (s.sentinel_on_way ≡ none)
    × (contents s.sentinel ≡ none)
    × (said s.phase ≡ none)
    × (s.read_eof ≡ false)

-- `all` are the chunks that were accepted so far, in order.
module _ (all : List Bytes) where
  abbrev pub IsChunk : Chunk → Type 0
  IsChunk (q, bytes) = (i : ℕ) × (q ≡ suc i) × (nth all i ≡ some bytes)

  abbrev pub AllChunks : List Chunk → Type 0
  AllChunks [] = Unit
  AllChunks (c ∷ cs) = IsChunk c × AllChunks cs

  abbrev pub OptionChunk : Option Chunk → Type 0
  OptionChunk none = Unit
  OptionChunk (some c) = IsChunk c

  -- A number that the sentinel carries.
  abbrev pub IsFinal : Log → ℕ → Type 0
  IsFinal log n = (n ≤ length all) × (log.closed ≡ some (concat (take n all)))

  abbrev pub OptionFinal : Log → Option ℕ → Type 0
  OptionFinal log none = Unit
  OptionFinal log (some n) = IsFinal log n

  abbrev pub AtEnd : Direction → Log → ℕ → Type 0
  AtEnd s log k = (s.read_eof ≡ false) ⊎ ((n : ℕ) × IsFinal log n × (n ≤ k) × (s.read_buffer ≡ []))

  pub record Inv (s : Direction) (log : Log) (k : ℕ) : Type 0 where
    pub accepted : log.sent ≡ concat all
    pub write_next : s.write_seq ≡ suc (length all)
    pub read_next : s.read_seq ≡ suc k
    pub given : log.received ++ s.read_buffer ≡ concat (take k all)
    pub within : k ≤ length all
    pub pending : OptionChunk s.write_fut
    pub travelling : AllChunks s.on_way
    pub visible : AllChunks s.files
    pub final_on_way : OptionFinal log s.sentinel_on_way
    pub final_visible : OptionFinal log (contents s.sentinel)
    pub final_read : OptionFinal log (said s.phase)
    pub at_end : AtEnd s log k
    pub still_open : (s.shutdown_done ≡ true) ⊎ Open s

-- Some history of chunks explains the state and the log.
abbrev pub Explained : Direction × Log → Type 0
Explained (s, log) = (all : List Bytes) × (k : ℕ) × Inv all s log k

pub take-suc :
    (all : List Bytes) (k : ℕ) (bytes : Bytes)
    → nth all k ≡ some bytes
    → (concat (take (suc k) all) ≡ concat (take k all) ++ bytes) × (k < length all)
take-suc [] k bytes h = cc
take-suc (c ∷ cs) zero bytes h = (append-nil c ∙ some-injective c bytes h, omega arith)
take-suc (c ∷ cs) (suc k) bytes h =
    let (e, less) = take-suc cs k bytes h in
    (ap (λ (b : Bytes). c ++ b) e ∙ sym (append_assoc c (concat (take k cs)) bytes), omega arith)

module _ (all : List Bytes) where
  abbrev pub Picked : Option (Chunk × List Chunk) → Type 0
  Picked none = Unit
  Picked (some (c, cs)) = IsChunk all c × AllChunks all cs

  pub pick-Picked : (i : ℕ) (cs : List Chunk) → AllChunks all cs → Picked (pick i cs)
  pick-Picked i [] chunks = tt
  pick-Picked zero (c ∷ cs) chunks = chunks
  pick-Picked (suc i) (c ∷ cs) chunks = later (pick i cs) (pick-Picked i cs chunks.1)
    where
      later :
          (r : Option (Chunk × List Chunk))
          → Picked r
          → Picked (elim r [ none ↦ none | some (d, ds) ↦ some (d, c ∷ ds) ])
      later none p = tt
      later (some (d, ds)) p = (p.0, (chunks.0, p.1))

  abbrev pub Taken : ℕ → Option (Bytes × List Chunk) → Type 0
  Taken seq none = Unit
  Taken seq (some (bytes, cs)) = IsChunk all (seq, bytes) × AllChunks all cs

  pub take_file-Taken :
      (seq : ℕ) (cs : List Chunk) → AllChunks all cs → Taken seq (take_file seq cs)
  take_file-Taken seq [] chunks = tt
  take_file-Taken seq ((q, bytes) ∷ cs) chunks = elim (Bool-cases (q == seq)) [
    | inl same ↦
        let e = (==_iff q seq).0 same in
        rw same (subst (λ (n : ℕ). IsChunk all (n, bytes)) e chunks.0, chunks.1)
    | inr other ↦ rw other (later (take_file seq cs) (take_file-Taken seq cs chunks.1))
  ]
    where
      later :
          (r : Option (Bytes × List Chunk))
          → Taken seq r
          → Taken seq (elim r [ none ↦ none | some (d, ds) ↦ some (d, (q, bytes) ∷ ds) ])
      later none p = tt
      later (some (d, ds)) p = (p.0, (chunks.0, p.1))

-- One more chunk at the end.
nth-snoc :
    (all : List Bytes) (c : Bytes) (i : ℕ) (bytes : Bytes)
    → nth all i ≡ some bytes
    → nth (all ++ (c ∷ [])) i ≡ some bytes
nth-snoc [] c i bytes h = cc
nth-snoc (a ∷ all) c zero bytes h = h
nth-snoc (a ∷ all) c (suc i) bytes h = nth-snoc all c i bytes h

pub nth_last : (all : List Bytes) (c : Bytes) → nth (all ++ (c ∷ [])) (length all) ≡ some c
nth_last [] c = refl
nth_last (a ∷ all) c = nth_last all c

pub take-snoc :
    (n : ℕ) (all : List Bytes) (c : Bytes) → n ≤ length all → take n (all ++ (c ∷ [])) ≡ take n all
take-snoc zero all c h = refl
take-snoc (suc n) [] c h = absurd (omega arith)
take-snoc (suc n) (a ∷ all) c h = ap (λ (l : List Bytes). a ∷ l) (take-snoc n all c (omega arith))

pub concat-snoc : (all : List Bytes) (c : Bytes) → concat (all ++ (c ∷ [])) ≡ concat all ++ c
concat-snoc [] c = append-nil c
concat-snoc (a ∷ all) c =
    ap (λ (b : Bytes). a ++ b) (concat-snoc all c) ∙ sym (append_assoc a (concat all) c)

module _ (all : List Bytes) (c : Bytes) where
  pub IsChunk-snoc : (chunk : Chunk) → IsChunk all chunk → IsChunk (all ++ (c ∷ [])) chunk
  IsChunk-snoc (q, bytes) (i, e, h) = (i, e, nth-snoc all c i bytes h)

  pub AllChunks-snoc : (cs : List Chunk) → AllChunks all cs → AllChunks (all ++ (c ∷ [])) cs
  AllChunks-snoc [] chunks = tt
  AllChunks-snoc (x ∷ cs) chunks = (IsChunk-snoc x chunks.0, AllChunks-snoc cs chunks.1)

  module _ (log log' : Log) (kept : log'.closed ≡ log.closed) where
    pub IsFinal-snoc : (n : ℕ) → IsFinal all log n → IsFinal (all ++ (c ∷ [])) log' n
    IsFinal-snoc n (le, e) = (
      omega (arith, length-append all (c ∷ [])),
      kept ∙ e ∙ ap (λ (l : List Bytes). some (concat l)) (sym (take-snoc n all c le)),
    )

    pub OptionFinal-snoc :
        (o : Option ℕ) → OptionFinal all log o → OptionFinal (all ++ (c ∷ [])) log' o
    OptionFinal-snoc none f = tt
    OptionFinal-snoc (some n) f = IsFinal-snoc n f
