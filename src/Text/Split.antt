-- ===== src/Text/Split.antt =====
-- `str` operations that search and cut a text, and a `match` on string literals.
use rsh.Prelude.{
  ◌++◌, refl, ℕ, zero, suc, ◌≡◌, Bool, true, false, ◌&&◌, Option, none, some, List, [], ◌∷◌,
  reverse, Bool-cases, inl, inr, ◌==◌, arith, if◌then◌else◌,
}
use rsh.Text.{AllNot, Text, text_eq, text_eq_iff, is_whitespace}

abbrev pub starts_with : Text → Text → Bool
starts_with text [] = true
starts_with [] (p ∷ ps) = false
starts_with (c ∷ cs) (p ∷ ps) = c == p && starts_with cs ps

abbrev pub ends_with : Text → Text → Bool
ends_with text pattern = starts_with (reverse text) (reverse pattern)

abbrev prepend : ℕ → Option (Text × Text) → Option (Text × Text)
prepend c none = none
prepend c (some (before, from)) = some (c ∷ before, from)

-- `find`, with the text cut where the pattern starts.
unfoldable pub find : Text → Text → Option (Text × Text)
find [] pattern = if starts_with [] pattern then some ([], []) else none
find (c ∷ cs) pattern =
    let later = find cs pattern in
    if starts_with (c ∷ cs) pattern then some ([], c ∷ cs) else prepend c later

-- The text around its first whitespace.
unfoldable pub cut_space : Text → Option (Text × Text)
cut_space [] = none
cut_space (c ∷ cs) =
    let later = cut_space cs in if is_whitespace c then some ([], cs) else prepend c later

-- `split_once`, at the first character that matches
unfoldable pub split_once : (ℕ → Bool) → Text → Option (Text × Text)
split_once p [] = none
split_once p (c ∷ cs) =
    let later = split_once p cs in if p c then some ([], cs) else prepend c later

pub split_once-AllNot :
    (p : ℕ → Bool) (t w : Text) (c : ℕ)
    → AllNot p t
    → p c ≡ true
    → split_once p (t ++ (c ∷ w)) ≡ some (t, w)
unfolding split_once
split_once-AllNot p [] w c a h = rw h refl
split_once-AllNot p (x ∷ xs) w c a h = rw (a.0, split_once-AllNot p xs w c a.1 h) refl

-- `splitn(suc n, char::is_whitespace)`
unfoldable pub splitn : ℕ → Text → List Text
unfolding cut_space
splitn zero text = text ∷ []
splitn (suc n) text = elim (cut_space text) [
  | none ↦ text ∷ []
  | some (before, behind) ↦ before ∷ splitn n behind
]

-- `split_whitespace`, from the word read so far on.
abbrev pub word_then : Text → List Text → List Text
word_then [] words = words
word_then (c ∷ cs) words = (c ∷ cs) ∷ words

unfoldable pub words_from : Text → Text → List Text
words_from word [] = word_then (reverse word) []
words_from word (c ∷ cs) =
    let next = words_from [] cs in
    let longer = words_from (c ∷ word) cs in
    if is_whitespace c then word_then (reverse word) next else longer

unfoldable pub split_whitespace : Text → List Text
unfolding words_from
split_whitespace = words_from []

abbrev pub without_return : Text → Text
without_return [] = []
without_return (c ∷ cs) = if c == 0x0D then cs else c ∷ cs

-- `lines`, from the line read so far on, its last character first.
unfoldable pub lines_from : Text → Text → List Text
lines_from [] [] = []
lines_from (c ∷ line) [] = reverse (c ∷ line) ∷ []
lines_from line (c ∷ cs) =
    let next = lines_from [] cs in
    let longer = lines_from (c ∷ line) cs in
    if c == 0x0A then reverse (without_return line) ∷ next else longer

unfoldable pub lines : Text → List Text
unfolding lines_from
lines = lines_from []

module _ {ℓ} {A : Type ℓ} where
  -- The arm of a `match` on string literals that a text takes.
  abbrev pub arm : List (Text × A) → Text → Option A
  arm [] text = none
  arm ((literal, a) ∷ arms) text = if text_eq text literal then some a else arm arms text

  -- Each literal is the spelling of its arm.
  abbrev pub spells : (A → Text) → List (Text × A) → Bool
  spells spelling [] = true
  spells spelling ((literal, a) ∷ arms) = text_eq literal (spelling a) && spells spelling arms

  pub arm-spells :
      (spelling : A → Text) (arms : List (Text × A)) (text : Text) (a : A)
      → spells spelling arms ≡ true
      → arm arms text ≡ some a
      → text ≡ spelling a
  arm-spells spelling [] text a spelled h = cc
  arm-spells spelling ((literal, b) ∷ arms) text a spelled h =
      let both : (text_eq literal (spelling b) ≡ true) × (spells spelling arms ≡ true) =
        ground arith in
      elim (Bool-cases (text_eq text literal)) [
        | inl same ↦
            let e = (text_eq_iff text literal).0 same in
            let f : some b ≡ some a = rw same at h in
            cc (e, (text_eq_iff literal (spelling b)).0 both.0, f)
        | inr other ↦ arm-spells spelling arms text a both.1 (rw other at h)
      ]
