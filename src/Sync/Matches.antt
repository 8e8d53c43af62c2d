-- ===== src/Sync/Matches.antt =====
-- What a glob pattern means, without the tests and the order of the code: `*` stands for any bytes,
-- `?` for one byte, and every other byte for itself, an ASCII letter for both its cases.
use rsh.Prelude.{
  ℕ, ◌+◌, ◌≤◌, ◌↔◌, ◌≡◌, refl, true, ◌==◌, ◌≢◌, [], ◌∷◌, inl, inr, ◌⊎◌, Bool-cases, ==_iff, arith,
}
use rsh.Prelude.Bytes.{Bytes}
use rsh.Sync.{takes, only_stars}

-- One ASCII letter, as a capital and as a small letter.
abbrev CasePair : ℕ → ℕ → Type 0
CasePair capital small = (b'A' ≤ capital) × (capital ≤ b'Z') × (small ≡ capital + 32)

-- The bytes that a byte of a pattern stands for, if it is no star.
abbrev StandsFor : ℕ → ℕ → Type 0
StandsFor c d = (c ≡ b'?') ⊎ (c ≡ d) ⊎ CasePair c d ⊎ CasePair d c

pub takes-StandsFor : (c d : ℕ) → takes c d ≡ true → StandsFor c d
takes-StandsFor c d h = ground arith

pub StandsFor-takes : (c d : ℕ) → StandsFor c d → takes c d ≡ true
StandsFor-takes c d h = ground arith

pub data Matches : Bytes → Bytes → Type 0 where
  ended : Matches [] []
  one_byte :
      {c d : ℕ} {p t : Bytes} → c ≢ b'*' → StandsFor c d → Matches p t → Matches (c ∷ p) (d ∷ t)
  star_ends : {c : ℕ} {p t : Bytes} → c ≡ b'*' → Matches p t → Matches (c ∷ p) t
  star_takes : {c d : ℕ} {p t : Bytes} → c ≡ b'*' → Matches (c ∷ p) t → Matches (c ∷ p) (d ∷ t)

-- One text ends another.
pub data Suffix (s : Bytes) : Bytes → Type 0 where
  whole : Suffix s s
  behind : {d : ℕ} {t : Bytes} → Suffix s t → Suffix s (d ∷ t)

-- And is not all of it.
abbrev pub Proper : Bytes → Bytes → Type 0
Proper s [] = ⊥
Proper s (d ∷ t) = Suffix s t

pub Suffix-trans : {r s t : Bytes} → Suffix r s → Suffix s t → Suffix r t
Suffix-trans a whole = a
Suffix-trans a (behind b) = behind (Suffix-trans a b)

Suffix-tail : {d : ℕ} {s t : Bytes} → Suffix (d ∷ s) t → Suffix s t
Suffix-tail whole = behind whole
Suffix-tail (behind b) = behind (Suffix-tail b)

pub Suffix-Proper : {d : ℕ} {s t : Bytes} → Suffix (d ∷ s) t → Proper s t
Suffix-Proper whole = whole
Suffix-Proper (behind b) = Suffix-tail b

pub Suffix-cases : {s t : Bytes} → Suffix s t → (s ≡ t) ⊎ Proper s t
Suffix-cases whole = inl refl
Suffix-cases (behind b) = inr b

pub Proper-Suffix : (s t : Bytes) → Proper s t → Suffix s t
Proper-Suffix s [] never = absurd never
Proper-Suffix s (d ∷ t) b = behind b

-- A star can take whatever stands in front of what it matches.
pub star-Suffix :
    {c : ℕ} {p s t : Bytes} → c ≡ b'*' → Suffix s t → Matches (c ∷ p) s → Matches (c ∷ p) t
star-Suffix e whole m = m
star-Suffix e (behind b) m = star_takes e (star-Suffix e b m)

-- A pattern that begins with a star matches where the rest matches some end of the text.
pub star_inv : {p s : Bytes} → Matches (b'*' ∷ p) s → (r : Bytes) × Suffix r s × Matches p r
star_inv (one_byte other e m) = absurd (other refl)
star_inv {s} (star_ends e m) = (s, whole, m)
star_inv {s = d ∷ t} (star_takes e m) = let (r, b, m') = star_inv m in (r, behind b, m')

pub not-Matches-nil : {d : ℕ} {t : Bytes} → ¬ Matches [] (d ∷ t)
not-Matches-nil h = elim h [ ]

-- A byte of the pattern that is no star takes one byte of the text.
pub byte_inv :
    {c : ℕ} {p s : Bytes}
    → c ≢ b'*'
    → Matches (c ∷ p) s
    → (d : ℕ) × (t : Bytes) × (s ≡ d ∷ t) × StandsFor c d × Matches p t
byte_inv {s = d ∷ t} h (one_byte other e m) = (d, t, refl, e, m)
byte_inv h (star_ends e m) = absurd (h e)
byte_inv h (star_takes e m) = absurd (h e)

pub only_stars_iff : (p : Bytes) → (only_stars p ≡ true) ↔ Matches p []
only_stars_iff p = (sound p, complete p)
  where
    sound : (p : Bytes) → only_stars p ≡ true → Matches p []
    sound [] h = ended
    sound (c ∷ cs) h = elim (Bool-cases (c == b'*')) [
      | inl star ↦ star_ends ((==_iff c b'*').0 star) (sound cs (rw star at h))
      | inr other ↦ let never = rw other at h in cc
    ]

    complete : (p : Bytes) → Matches p [] → only_stars p ≡ true
    complete [] m = refl
    complete (c ∷ cs) (star_ends e m) = rw (e, complete cs m) refl
