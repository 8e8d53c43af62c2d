-- ===== src/Sync/Glob.antt =====
-- `glob_match` goes back to the last star only, and still decides what the pattern means.
use mathlib.Core.Path.{subst}
use native.Mathlib.Nat.{suc-mul, mul-le-mul_right}
use rsh.Prelude.{
  ℕ, zero, suc, ◌+◌, ◌*◌, ◌≤◌, ◌<◌, ◌≡◌, ◌≢◌, refl, sym, ap, ◌↔◌, ◌⊎◌, inl, inr, Bool, true, false,
  Option, none, some, [], ◌∷◌, ◌==◌, ==_iff, arith, length, drop, Bool-cases,
}
use rsh.Prelude.Bytes.{Bytes}
use rsh.Text.{AllNot}
use rsh.Sync.{takes, Star, round, glob_loop, rounds, glob_match}
use rsh.Sync.Matches.{
  Matches, one_byte, star_ends, star_takes, Suffix, whole, behind, Proper, Suffix-trans,
  Suffix-Proper, Suffix-cases, takes-StandsFor, StandsFor-takes, Proper-Suffix, star-Suffix,
  star_inv, not-Matches-nil, byte_inv, only_stars_iff,
}

abbrev pub is_star : ℕ → Bool
is_star c = c == b'*'

-- A byte that is no star, taken by a byte of the pattern: that byte is no star either.
takes-ne-star : (c d : ℕ) → takes c d ≡ true → is_star d ≡ false → c ≢ b'*'
takes-ne-star c d h n e = ground arith

-- From the star on, the pattern `bp` has taken some of `bt`, one byte each, down to `p` and `t`.
data Since : Bytes → Bytes → Bytes → Bytes → Type 0 where
  start : {p t : Bytes} → Since p t p t
  step : {bp bt p t : Bytes} {c d : ℕ} → c ≢ b'*' → Since bp bt (c ∷ p) (d ∷ t) → Since bp bt p t

-- A match from a later place of the star leaves for the rest a match behind `t`.
Since-later :
    {bp bt p t s : Bytes}
    → Since bp bt p t
    → Proper s bt
    → Matches (b'*' ∷ bp) s
    → (s' : Bytes) × Proper s' t × Matches (b'*' ∷ p) s'
Since-later start below m = (_, below, m)
Since-later (step n since) below m =
    let (s1, b1, m1) = Since-later since below m in
    let (r, br, mr) = star_inv m1 in
    let (d, t', is_r, _, m') = byte_inv n mr in
    (
      t',
      Suffix-Proper (Suffix-trans (subst (λ (x : Bytes). Suffix x s1) is_r br) b1),
      star_ends refl m',
    )

-- What the saved star still offers: a match in which it takes at least one byte more.
abbrev Retry : Star → Type 0
Retry none = ⊥
Retry (some (bp, bt)) = (s : Bytes) × Proper s bt × Matches (b'*' ∷ bp) s

-- The saved star belongs to what is left of the pattern and the text.
abbrev Saved : Star → Bytes → Bytes → Type 0
Saved none p t = Unit
Saved (some (bp, bt)) p t = Since bp bt p t × AllNot is_star bt

-- At the end of the text the saved star is of no use.
no-Retry : (p : Bytes) (star : Star) → Saved star p [] → ¬ Retry star
no-Retry p none saved h = h
no-Retry p (some (bp, bt)) saved (s, below, m) =
    let (_, never, _) = Since-later saved.0 below m in never

-- A star in front of any match: the earlier star has nothing to offer that the new one has not.
Retry-star :
    (p t : Bytes) (star : Star) → Saved star (b'*' ∷ p) t → Retry star → Matches (b'*' ∷ p) t
Retry-star p t none saved h = absurd h
Retry-star p [] (some (bp, bt)) saved (s, below, m) =
    let (_, never, _) = Since-later saved.0 below m in absurd never
Retry-star p (d ∷ ds) (some (bp, bt)) saved (s, below, m) =
    let (s', suffix, m') = Since-later saved.0 below m in
    let (r, br, mr) = star_inv m' in star-Suffix refl (Suffix-trans br (behind suffix)) mr

Since-length : {bp bt p t : Bytes} → Since bp bt p t → length t ≤ length bt × length p ≤ length bp
Since-length start = (omega arith, omega arith)
Since-length (step n since) = let (a, b) = Since-length since in (omega arith, omega arith)

-- The question that a state of the loop has to answer.
abbrev Asked : Bytes → Bytes → Star → Type 0
Asked p t star = Matches p t ⊎ Retry star

-- How often the star can still move on.
abbrev moves : Star → Bytes → ℕ
moves none t = suc (length t)
moves (some (bp, bt)) t = length bt

-- No pattern in play is longer than n.
abbrev Below : ℕ → Star → Type 0
Below n none = Unit
Below n (some (bp, bt)) = length bp ≤ n

-- A round that goes on keeps the question and counts down; one that stops has found no match.
abbrev Keeps : ℕ → Bytes → Bytes → Star → Option (Bytes × Bytes × Star) → Type 0
Keeps n p t star none = ¬ Asked p t star
Keeps n p t star (some (p', t', star')) =
    (Asked p t star ↔ Asked p' t' star')
    × Saved star' p' t'
    × AllNot is_star t'
    × Below n star'
    × (length p' ≤ n)
    × (moves star' t' * (n + 1) + length p' < moves star t * (n + 1) + length p)

mismatch :
    (c d : ℕ) (cs ds : Bytes)
    → takes c d ≡ false
    → (c == b'*') ≡ false
    → ¬ Matches (c ∷ cs) (d ∷ ds)
mismatch c d cs ds refused other (one_byte _ e m) = let h = StandsFor-takes c d e in cc
mismatch c d cs ds refused other (star_ends e m) = ground arith
mismatch c d cs ds refused other (star_takes e m) = ground arith

module _ (n : ℕ) where
  fewer : (m m' k k' : ℕ) → m' < m → k' ≤ n → m' * (n + 1) + k' < m * (n + 1) + k
  fewer zero m' k k' less below = absurd (omega arith)
  fewer (suc j) m' k k' less below =
      let h : m' ≤ j = omega arith in omega (arith, suc-mul j (n + 1), mul-le-mul_right (n + 1) h)

  -- The star takes one byte more.
  back-Keeps :
      (p : Bytes) (d : ℕ) (ds bp bt : Bytes)
      → ¬ Matches p (d ∷ ds)
      → Saved (some (bp, bt)) p (d ∷ ds)
      → length bp ≤ n
      → Keeps n p (d ∷ ds) (some (bp, bt)) (some (bp, drop 1 bt, some (bp, drop 1 bt)))
  back-Keeps p d ds bp [] never saved below = absurd (let l = Since-length saved.0 in omega arith)
  back-Keeps p d ds bp (x ∷ xs) never saved below = (
    (ask, answer),
    (start, saved.1.1),
    saved.1.1,
    below,
    below,
    fewer (suc (length xs)) (length xs) (length p) (length bp) (omega arith) below,
  )
    where
      ask : Asked p (d ∷ ds) (some (bp, x ∷ xs)) → Asked bp xs (some (bp, xs))
      ask (inl m) = absurd (never m)
      ask (inr (s, suffix, m)) =
          let (r, br, mr) = star_inv m in
          elim (Suffix-cases (Suffix-trans br suffix)) [
            | inl same ↦ inl (subst (λ (y : Bytes). Matches bp y) same mr)
            | inr later ↦ inr (r, later, star_ends refl mr)
          ]

      answer : Asked bp xs (some (bp, xs)) → Asked p (d ∷ ds) (some (bp, x ∷ xs))
      answer (inl m) = inr (xs, whole, star_ends refl m)
      answer (inr (s, suffix, m)) = inr (s, Proper-Suffix s xs suffix, m)

  -- A byte of the pattern takes the byte of the text.
  byte-Keeps :
      (c d : ℕ) (cs ds : Bytes) (star : Star)
      → takes c d ≡ true
      → AllNot is_star (d ∷ ds)
      → Saved star (c ∷ cs) (d ∷ ds)
      → Below n star
      → length (c ∷ cs) ≤ n
      → Keeps n (c ∷ cs) (d ∷ ds) star (some (cs, ds, star))
  byte-Keeps c d cs ds star taken plain saved below short =
      ((ask, answer), kept star saved, plain.1, below, omega arith, less star)
    where
      plain_byte : c ≢ b'*'
      plain_byte = takes-ne-star c d taken plain.0

      ask : Asked (c ∷ cs) (d ∷ ds) star → Asked cs ds star
      ask (inl m) =
          let (_, t, e, _, m') = byte_inv plain_byte m in
          inl (subst (λ (y : Bytes). Matches cs y) (sym (ap (drop 1) e)) m')
      ask (inr r) = inr r

      answer : Asked cs ds star → Asked (c ∷ cs) (d ∷ ds) star
      answer (inl m) = inl (one_byte plain_byte (takes-StandsFor c d taken) m)
      answer (inr r) = inr r

      kept : (star : Star) → Saved star (c ∷ cs) (d ∷ ds) → Saved star cs ds
      kept none saved = tt
      kept (some (bp, bt)) saved = (step plain_byte saved.0, saved.1)

      less :
          (star : Star)
          → moves star ds * (n + 1) + length cs < moves star (d ∷ ds) * (n + 1) + length (c ∷ cs)
      less none =
          fewer (suc (suc (length ds))) (suc (length ds)) (length (c ∷ cs)) (length cs)
            (omega arith) (omega arith)
      less (some (bp, bt)) = omega arith

  -- A star takes nothing for now.
  star-Keeps :
      (c d : ℕ) (cs ds : Bytes) (star : Star)
      → c ≡ b'*'
      → AllNot is_star (d ∷ ds)
      → Saved star (c ∷ cs) (d ∷ ds)
      → length (c ∷ cs) ≤ n
      → Keeps n (c ∷ cs) (d ∷ ds) star (some (cs, d ∷ ds, some (cs, d ∷ ds)))
  star-Keeps c d cs ds star e plain saved short =
      ((ask, answer), (start, plain), plain, omega arith, omega arith, less star saved)
    where
      from_star : Matches (c ∷ cs) (d ∷ ds) → Asked cs (d ∷ ds) (some (cs, d ∷ ds))
      from_star m =
          let (r, br, mr) = star_inv (subst (λ (x : ℕ). Matches (x ∷ cs) (d ∷ ds)) e m) in
          elim (Suffix-cases br) [
            | inl same ↦ inl (subst (λ (y : Bytes). Matches cs y) same mr)
            | inr later ↦ inr (r, later, star_ends refl mr)
          ]

      retried : Retry star → Matches (c ∷ cs) (d ∷ ds)
      retried r =
          subst (λ (x : ℕ). Matches (x ∷ cs) (d ∷ ds)) (sym e)
            (Retry-star cs (d ∷ ds) star (subst (λ (x : ℕ). Saved star (x ∷ cs) (d ∷ ds)) e saved)
              r)

      ask : Asked (c ∷ cs) (d ∷ ds) star → Asked cs (d ∷ ds) (some (cs, d ∷ ds))
      ask (inl m) = from_star m
      ask (inr r) = from_star (retried r)

      answer : Asked cs (d ∷ ds) (some (cs, d ∷ ds)) → Asked (c ∷ cs) (d ∷ ds) star
      answer (inl m) = inl (star_ends e m)
      answer (inr (s, later, m)) = inl (
          subst (λ (x : ℕ). Matches (x ∷ cs) (d ∷ ds)) (sym e)
            (star_takes refl (star-Suffix refl later m)))

      less :
          (star : Star)
          → Saved star (c ∷ cs) (d ∷ ds)
          → suc (length ds) * (n + 1) + length cs < moves star (d ∷ ds) * (n + 1) + length (c ∷ cs)
      less none saved =
          fewer (suc (suc (length ds))) (suc (length ds)) (length (c ∷ cs)) (length cs)
            (omega arith) (omega arith)
      less (some (bp, bt)) saved =
          let l = Since-length saved.0 in omega (arith, mul-le-mul_right (n + 1) l.0)

  round-Keeps :
      (p : Bytes) (d : ℕ) (ds : Bytes) (star : Star)
      → AllNot is_star (d ∷ ds)
      → Saved star p (d ∷ ds)
      → Below n star
      → length p ≤ n
      → Keeps n p (d ∷ ds) star (round p d ds star)
  unfolding round
  round-Keeps [] d ds none plain saved below short =
      λ asked. elim asked [ inl m ↦ not-Matches-nil m | inr r ↦ r ]
  round-Keeps [] d ds (some (bp, bt)) plain saved below short =
      back-Keeps [] d ds bp bt not-Matches-nil saved below
  round-Keeps (c ∷ cs) d ds none plain saved below short = elim (Bool-cases (takes c d)) [
    | inl taken ↦ rw taken (byte-Keeps c d cs ds none taken plain saved below short)
    | inr refused ↦ elim (Bool-cases (c == b'*')) [
      | inl star ↦
          rw (refused, star) (star-Keeps c d cs ds none ((==_iff c b'*').0 star) plain saved short)
      | inr other ↦
          rw (refused, other)
            (λ asked. elim asked [ inl m ↦ mismatch c d cs ds refused other m | inr r ↦ r ])
    ]
  ]
  round-Keeps (c ∷ cs) d ds (some (bp, bt)) plain saved below short =
      elim (Bool-cases (takes c d)) [
        | inl taken ↦ rw taken (byte-Keeps c d cs ds (some (bp, bt)) taken plain saved below short)
        | inr refused ↦ elim (Bool-cases (c == b'*')) [
          | inl star ↦
              rw (refused, star)
                (star-Keeps c d cs ds (some (bp, bt)) ((==_iff c b'*').0 star) plain saved short)
          | inr other ↦
              rw (refused, other)
                (back-Keeps (c ∷ cs) d ds bp bt (mismatch c d cs ds refused other) saved below)
        ]
      ]

  glob_loop_iff :
      (fuel : ℕ) (p t : Bytes) (star : Star)
      → AllNot is_star t
      → Saved star p t
      → Below n star
      → length p ≤ n
      → moves star t * (n + 1) + length p < fuel
      → (glob_loop fuel p t star ≡ true) ↔ Asked p t star
  unfolding glob_loop
  glob_loop_iff zero p t star plain saved below short enough = absurd (omega arith)
  glob_loop_iff (suc fuel) p [] star plain saved below short enough =
      let (sound, complete) = only_stars_iff p in
      (
        λ h. inl (sound h),
        λ asked. elim asked [ inl m ↦ complete m | inr r ↦ absurd (no-Retry p star saved r) ],
      )
  glob_loop_iff (suc fuel) p (d ∷ ds) star plain saved below short enough =
      after (glob_loop_iff fuel) (round p d ds star)
        (round-Keeps p d ds star plain saved below short)
    where
      after :
          ((p' t' : Bytes) (star' : Star)
            → AllNot is_star t'
            → Saved star' p' t'
            → Below n star'
            → length p' ≤ n
            → moves star' t' * (n + 1) + length p' < fuel
            → (glob_loop fuel p' t' star' ≡ true) ↔ Asked p' t' star')
          → (r : Option (Bytes × Bytes × Star)) → Keeps n p (d ∷ ds) star r
          → (elim r [ none ↦ false | some (p', t', star') ↦ glob_loop fuel p' t' star' ] ≡ true)
            ↔ Asked p (d ∷ ds) star
      after next none never = (λ h. absurd (cc), λ asked. absurd (never asked))
      after next (some (p', t', star')) keeps =
          let ih = next p' t' star' keeps.2 keeps.1 keeps.3 keeps.4 (omega arith) in
          (λ h. keeps.0.1 (ih.0 h), λ asked. ih.1 (keeps.0.0 asked))

-- `glob_match` answers true exactly if the pattern matches the text: `*` any bytes, `?` one byte
-- (not one char), any other byte itself, with an ASCII letter in both its cases. The text has no
-- `*` of its own, which the code would take for a star that matches itself only.
pub glob_match_iff : (p t : Bytes) → AllNot is_star t → (glob_match p t ≡ true) ↔ Matches p t
unfolding glob_match
glob_match_iff p t plain =
    let loop =
      glob_loop_iff (length p) (rounds p t) p t none plain tt tt (omega arith) (omega (arith)) in
    (λ h. elim (loop.0 h) [ inl m ↦ m | inr never ↦ absurd never ], λ m. loop.1 (inl m))
