-- ===== src/BlockCache/Expiry.antt =====
-- What `cleanup` removes and counts.
use rsh.Prelude.{ℕ, ◌+◌, ◌≤◌, ◌≡◌, refl, Bool, true, [], ◌∷◌, arith, length, Bool-cases, inl, inr}
use rsh.Text.{Text}
use rsh.Text.Table.{Table, Each, retain}
use rsh.BlockCache.{Cache, block_fresh, file_fresh, count_dropped, cleanup, stats}

module _ {ℓ} {V : Type ℓ} (keep : V → Bool) where
  length-retain :
      (table : Table V) → length (retain keep table) + count_dropped keep table ≡ length table
  unfolding retain count_dropped
  length-retain [] = refl
  length-retain ((k, v) ∷ rest) = elim (Bool-cases (keep v)) [
    | inl kept ↦ rw kept (omega (arith, length-retain rest))
    | inr dropped ↦ rw dropped (omega (arith, length-retain rest))
  ]

  count_dropped-retain : (table : Table V) → count_dropped keep (retain keep table) ≡ 0
  unfolding retain count_dropped
  count_dropped-retain [] = refl
  count_dropped-retain ((k, v) ∷ rest) = elim (Bool-cases (keep v)) [
    | inl kept ↦ rw (kept, kept) (count_dropped-retain rest)
    | inr dropped ↦ rw dropped (count_dropped-retain rest)
  ]

  retain-Each :
      (P : Text → V → Type 0) (table : Table V)
      → ((key : Text) (v : V) → keep v ≡ true → P key v)
      → Each P (retain keep table)
  unfolding retain
  retain-Each P [] h = tt
  retain-Each P ((k, v) ∷ rest) h = elim (Bool-cases (keep v)) [
    | inl kept ↦ rw kept (h k v kept, retain-Each P rest h)
    | inr dropped ↦ rw dropped (retain-Each P rest h)
  ]

abbrev total : ℕ × ℕ → ℕ
total counts = counts.0 + counts.1

-- After `cleanup` no block was last used, and no file last seen, longer ago than the maximal age;
-- the count it returns is the number of entries that went; and a second one at the same time finds
-- nothing to remove.
cleanup-cleanup :
    (now : ℕ) (cache : Cache)
    → Each (λ key r. now ≤ r.last_used + cache.max_age_secs) (cleanup now cache).0.blocks
      × Each (λ key e. now ≤ e.last_seen + cache.max_age_secs) (cleanup now cache).0.files
      × (total (stats (cleanup now cache).0) + (cleanup now cache).1 ≡ total (stats cache))
      × ((cleanup now (cleanup now cache).0).1 ≡ 0)
unfolding cleanup stats
cleanup-cleanup now cache =
    let blocks = block_fresh now cache in
    let files = file_fresh now cache in
    (
      retain-Each blocks _ cache.blocks (λ key r h. ground arith),
      retain-Each files _ cache.files (λ key e h. ground arith),
      omega (arith, length-retain blocks cache.blocks, length-retain files cache.files),
      omega
          (arith, count_dropped-retain blocks cache.blocks, count_dropped-retain files cache.files),
    )
