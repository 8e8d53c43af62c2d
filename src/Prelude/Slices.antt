-- ===== src/Prelude/Slices.antt =====
-- `data[a..b]`, `data[i]` and the bytes from an offset on. The numbers that a lemma reaches by
-- addition are variables with an equation.
use Prim.Native.Nat.{ℕ, zero, suc, ◌+◌, ◌-◌, ◌≤◌, ◌<◌}
use mathlib.Core.Path.{◌≡◌, refl, sym, ap, ◌∙◌}
use mathlib.Core.List.{List, [], ◌∷◌, ◌++◌}
use native.Mathlib.Omega.{arith}
use rsh.Prelude.Lists.{
  length, get_or, take, drop, length-take, length-drop, length-append, take_all, take-append,
  drop-append,
}

module _ {ℓ} {A : Type ℓ} where
  -- `&xs[a..b]`, for a ≤ b ≤ xs.len()
  abbrev pub slice : List A → ℕ → ℕ → List A
  slice xs a b = take (b - a) (drop a xs)

  pub drop-drop : (m n k : ℕ) (xs : List A) → k ≡ m + n → drop n (drop m xs) ≡ drop k xs
  drop-drop zero n k xs e = ap (λ (j : ℕ). drop j xs) (omega arith)
  drop-drop (suc m) zero zero [] e = refl
  drop-drop (suc m) zero (suc k) [] e = refl
  drop-drop (suc m) (suc n) zero [] e = refl
  drop-drop (suc m) (suc n) (suc k) [] e = refl
  drop-drop (suc m) n zero (x ∷ xs) e = absurd (omega arith)
  drop-drop (suc m) n (suc k) (x ∷ xs) e = drop-drop m n k xs (omega arith)

  pub get_or-drop :
      (n i k : ℕ) (d : A) (xs : List A) → k ≡ n + i → get_or (drop n xs) i d ≡ get_or xs k d
  get_or-drop zero i k d xs e = ap (λ (j : ℕ). get_or xs j d) (omega arith)
  get_or-drop (suc n) i k d [] e = refl
  get_or-drop (suc n) i zero d (x ∷ xs) e = absurd (omega arith)
  get_or-drop (suc n) i (suc k) d (x ∷ xs) e = get_or-drop n i k d xs (omega arith)

  -- With `a ++ b` at offset `off`, `b` stands `length a` further on.
  pub drop_behind :
      (xs a b : List A) (off n : ℕ) → drop off xs ≡ a ++ b → n ≡ off + length a → drop n xs ≡ b
  drop_behind xs a b off n h e =
      sym (drop-drop off (length a) n xs e)
      ∙ ap (drop (length a)) h
      ∙ drop-append (length a) a b refl

  pub slice_at :
      (xs a b : List A) (off n : ℕ) → drop off xs ≡ a ++ b → n ≡ off + length a → slice xs off n ≡ a
  slice_at xs a b off n h e = ap (take (n - off)) h ∙ take-append (n - off) a b (omega arith)

  -- Where something is known to stand, the list reaches to its end.
  pub length_at :
      (xs a b : List A) (off : ℕ)
      → drop off xs ≡ a ++ b
      → 0 < length a
      → length xs ≡ off + length a + length b
  length_at xs a b off h pos = omega (arith, length-drop off xs, ap length h, length-append a b)

  pub take-slice : (xs : List A) (a b : ℕ) → a ≤ b → take a xs ++ slice xs a b ≡ take b xs
  take-slice xs zero b h = ap (λ (k : ℕ). take k xs) (omega arith)
  take-slice xs (suc a) zero h = absurd (omega arith)
  take-slice [] (suc a) (suc b) h = take_all (suc b - suc a) [] (omega arith)
  take-slice (x ∷ xs) (suc a) (suc b) h =
      ap (λ (k : ℕ). x ∷ (take a xs ++ take k (drop a xs))) (omega arith)
      ∙ ap (◌∷◌ x) (take-slice xs a b (omega arith))

  pub take_next :
      (xs : List A) (i j : ℕ) (d : A)
      → i < length xs
      → j ≡ suc i
      → take i xs ++ (get_or xs i d ∷ []) ≡ take j xs
  take_next [] i j d h e = absurd (omega arith)
  take_next (x ∷ xs) zero zero d h e = absurd (omega arith)
  take_next (x ∷ xs) zero (suc j) d h e =
      let none_left : zero ≡ j = omega arith in ap (λ (k : ℕ). x ∷ take k xs) none_left
  take_next (x ∷ xs) (suc i) zero d h e = absurd (omega arith)
  take_next (x ∷ xs) (suc i) (suc j) d h e =
      ap (◌∷◌ x) (take_next xs i j d (omega arith) (omega arith))

  pub length-slice : (xs : List A) (a b : ℕ) → b ≤ length xs → length (slice xs a b) ≡ b - a
  length-slice xs a b h = omega (arith, length-take (b - a) (drop a xs), length-drop a xs)
