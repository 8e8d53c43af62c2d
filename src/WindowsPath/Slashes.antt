-- ===== src/WindowsPath/Slashes.antt =====
-- The loop that removes double slashes leaves one slash of each run.
use rsh.Prelude.{
  ℕ, zero, suc, ◌≤◌, ◌<◌, ◌≡◌, refl, sym, ap, ◌∙◌, Bool, true, false, ◌&&◌, [], ◌∷◌, ◌==◌, arith,
  if◌then◌else◌, Bool-cases, inl, inr, length, map, ◌++◌, and_false,
}
use rsh.Text.{Text, chars}
use rsh.Text.Split.{starts_with}
use rsh.WindowsPath.{
  halve, has_double, is_letter, upper, clean_slashes, squeeze, to_slash, from_mount, from_wsl,
  normalize,
}

abbrev is_pair : ℕ → ℕ → Bool
is_pair a b = a == b'/' && b == b'/'

-- One slash for each run of slashes.
unfoldable pub collapse : Text → Text
collapse [] = []
collapse (a ∷ []) = a ∷ []
collapse (a ∷ b ∷ rest) =
    let later = collapse (b ∷ rest) in if a == b'/' && b == b'/' then later else a ∷ later

abbrev before : ℕ → ℕ → Text → Text
before c a later = if is_pair c a then later else c ∷ later

pair_slashes : (a b : ℕ) → is_pair a b ≡ true → (a ≡ b'/') × (b ≡ b'/')
pair_slashes a b h = ground arith

halve_pair : (a b : ℕ) (rest : Text) → is_pair a b ≡ true → halve (a ∷ b ∷ rest) ≡ b'/' ∷ halve rest
unfolding halve
halve_pair a b rest pair = rw pair refl

halve_other :
    (a b : ℕ) (rest : Text) → is_pair a b ≡ false → halve (a ∷ b ∷ rest) ≡ a ∷ halve (b ∷ rest)
unfolding halve
halve_other a b rest other = rw other refl

collapse-before :
    (c a : ℕ) (rest : Text) → collapse (c ∷ a ∷ rest) ≡ before c a (collapse (a ∷ rest))
unfolding collapse
collapse-before c a rest = refl

collapse_pair :
    (a b : ℕ) (rest : Text) → is_pair a b ≡ true → collapse (a ∷ b ∷ rest) ≡ collapse (b ∷ rest)
unfolding collapse
collapse_pair a b rest pair = rw pair refl

collapse-halve : (c : ℕ) (rest : Text) → collapse (c ∷ halve rest) ≡ collapse (c ∷ rest)
collapse-halve c [] = unfold halve in refl
collapse-halve c (a ∷ []) = unfold halve in refl
collapse-halve c (a ∷ b ∷ rest) = elim (Bool-cases (is_pair a b)) [
  | inl pair ↦
      let (first, second) = pair_slashes a b pair in
      ap (λ (t : Text). collapse (c ∷ t)) (halve_pair a b rest pair)
      ∙ collapse-before c b'/' (halve rest)
      ∙ ap (before c b'/') (collapse-halve b'/' rest)
      ∙ ap (λ (x : ℕ). before c b'/' (collapse (x ∷ rest))) (sym second)
      ∙ ap (λ (x : ℕ). before c x (collapse (b ∷ rest))) (sym first)
      ∙ ap (before c a) (sym (collapse_pair a b rest pair))
      ∙ sym (collapse-before c a (b ∷ rest))
  | inr other ↦
      ap (λ (t : Text). collapse (c ∷ t)) (halve_other a b rest other)
      ∙ collapse-before c a (halve (b ∷ rest))
      ∙ ap (before c a) (collapse-halve a (b ∷ rest))
      ∙ sym (collapse-before c a (b ∷ rest))
]

collapse-halve_whole : (path : Text) → collapse (halve path) ≡ collapse path
collapse-halve_whole [] = unfold halve in refl
collapse-halve_whole (a ∷ []) = unfold halve in refl
collapse-halve_whole (a ∷ b ∷ rest) = elim (Bool-cases (is_pair a b)) [
  | inl pair ↦
      let (first, second) = pair_slashes a b pair in
      ap collapse (halve_pair a b rest pair)
      ∙ collapse-halve b'/' rest
      ∙ ap (λ (x : ℕ). collapse (x ∷ rest)) (sym second)
      ∙ sym (collapse_pair a b rest pair)
  | inr other ↦ ap collapse (halve_other a b rest other) ∙ collapse-halve a (b ∷ rest)
]

length-halve : (path : Text) → length (halve path) ≤ length path
length-halve [] = unfold halve in omega arith
length-halve (a ∷ []) = unfold halve in omega arith
length-halve (a ∷ b ∷ rest) = elim (Bool-cases (is_pair a b)) [
  | inl pair ↦ omega (arith, ap length (halve_pair a b rest pair), length-halve rest)
  | inr other ↦ omega (arith, ap length (halve_other a b rest other), length-halve (b ∷ rest))
]

double_later :
    (a b : ℕ) (rest : Text)
    → is_pair a b ≡ false
    → has_double (a ∷ b ∷ rest) ≡ true
    → has_double (b ∷ rest) ≡ true
unfolding has_double
double_later a b rest other h = rw other at h

length-halve-lt : (path : Text) → has_double path ≡ true → length (halve path) < length path
length-halve-lt [] h = unfold has_double in cc
length-halve-lt (a ∷ []) h = unfold has_double in cc
length-halve-lt (a ∷ b ∷ rest) h = elim (Bool-cases (is_pair a b)) [
  | inl pair ↦ omega (arith, ap length (halve_pair a b rest pair), length-halve rest)
  | inr other ↦ omega (
    arith,
    ap length (halve_other a b rest other),
    length-halve-lt (b ∷ rest) (double_later a b rest other h),
  )
]

collapse_id : (path : Text) → has_double path ≡ false → collapse path ≡ path
unfolding collapse has_double
collapse_id [] h = refl
collapse_id (a ∷ []) h = refl
collapse_id (a ∷ b ∷ rest) h = elim (Bool-cases (is_pair a b)) [
  | inl pair ↦ let never : true ≡ false = rw pair at h in cc
  | inr other ↦ rw other (ap (◌∷◌ a) (collapse_id (b ∷ rest) (rw other at h)))
]

-- The rounds that the path has characters are enough.
squeeze-collapse : (fuel : ℕ) (path : Text) → length path ≤ fuel → squeeze fuel path ≡ collapse path
unfolding squeeze
squeeze-collapse zero [] h = unfold collapse in refl
squeeze-collapse zero (c ∷ path) h = absurd (omega arith)
squeeze-collapse (suc fuel) path h = elim (Bool-cases (has_double path)) [
  | inl double ↦ rw double (
      squeeze-collapse fuel (halve path) (omega (arith, length-halve-lt path double))
      ∙ collapse-halve_whole path)
  | inr single ↦ rw single (sym (collapse_id path single))
]

-- The path with its drive rewritten and its slashes turned.
abbrev pub turned : Text → Text
turned path = map to_slash (from_mount (from_wsl path))

letter_not_slash : (d : ℕ) → is_letter d ≡ true → upper d == b'/' ≡ false
letter_not_slash d h = ground arith

no_mount :
    (d : ℕ) (rest : Text)
    → is_letter d ≡ true
    → from_mount (upper d ∷ b':' ∷ rest) ≡ upper d ∷ b':' ∷ rest
unfolding from_mount
no_mount d rest h = rw (letter_not_slash d h) refl

-- What does not begin with `/mnt/` is left by the first rule.
no_wsl :
    (a b c : ℕ) (rest : Text)
    → a == b'/' && (b == b'm' && c == b'n') ≡ false
    → from_wsl (a ∷ b ∷ c ∷ rest) ≡ a ∷ b ∷ c ∷ rest
unfolding from_wsl
no_wsl a b c [] h = refl
no_wsl a b c (d ∷ []) h = refl
no_wsl a b c (d ∷ e ∷ []) h = refl
no_wsl a b c (d ∷ e ∷ f ∷ rest) h = ground arith

module _ (d : ℕ) (rest : Text) (letter : is_letter d ≡ true) where
  abbrev on_drive : Text
  on_drive = upper d ∷ b':' ∷ b'/' ∷ rest

  wsl_step : from_wsl (chars "/mnt/" ++ (d ∷ b'/' ∷ rest)) ≡ on_drive
  unfolding from_wsl
  wsl_step = rw letter refl

  wsl_turned : from_mount (from_wsl (chars "/mnt/" ++ (d ∷ b'/' ∷ rest))) ≡ on_drive
  wsl_turned = ap from_mount wsl_step ∙ no_mount d (b'/' ∷ rest) letter

  mount_turned : from_mount (from_wsl (b'/' ∷ d ∷ b'/' ∷ rest)) ≡ on_drive
  mount_turned =
      ap from_mount (no_wsl b'/' d b'/' rest (and_false (d == b'm')))
      ∙ unfold from_mount in rw letter refl

  drive_turned : from_mount (from_wsl on_drive) ≡ on_drive
  drive_turned =
      ap from_mount (no_wsl (upper d) b':' b'/' rest (and_false (upper d == b'/')))
      ∙ no_mount d (b'/' ∷ rest) letter

-- The three spellings of a path on a drive, `/mnt/c/…` of WSL, `/c/…` of Git Bash and `C:/…`, come
-- to the same path. A path that does not begin with two slashes once its backslashes are turned
-- keeps one slash of each run; the loop that removes them ends after no more rounds than the path
-- has characters.
pub normalize-collapse :
    (path : Text) (d : ℕ) (rest : Text)
    → is_letter d ≡ true
    → (normalize (chars "/mnt/" ++ (d ∷ b'/' ∷ rest)) ≡ normalize (upper d ∷ b':' ∷ b'/' ∷ rest))
      × (normalize (b'/' ∷ d ∷ b'/' ∷ rest) ≡ normalize (upper d ∷ b':' ∷ b'/' ∷ rest))
      × (normalize path ≡ (
          if starts_with (turned path) (chars "//") then turned path else collapse (turned path)))
unfolding normalize
normalize-collapse path d rest letter = (
  ap (λ (p : Text). clean_slashes (map to_slash p))
      (wsl_turned d rest letter ∙ sym (drive_turned d rest letter)),
  ap (λ (p : Text). clean_slashes (map to_slash p))
      (mount_turned d rest letter ∙ sym (drive_turned d rest letter)),
  ap (λ (p : Text). if starts_with (turned path) (chars "//") then turned path else p)
      (squeeze-collapse (length (turned path)) (turned path) (omega arith)),
)
