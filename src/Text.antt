-- ===== src/Text.antt =====
-- `str` operations of the standard library on the text's characters: a text is the list of its
-- code points.
pub mod Number
pub mod Split
pub mod Table
use Prim.Native.Char.{code}
use Prim.Native.String.{String, [] as no_chars, ◌∷◌ as ◌then◌}
use mathlib.Core.List.{reverse-append, reverse-reverse}
use mathlib.Core.Path.{subst}
use rsh.Prelude.{
  ℕ, ◌≡◌, refl, ap, ◌∙◌, Bool, true, false, ◌&&◌, ◌||◌, Option, none, some, List, [], ◌∷◌, ◌++◌,
  reverse, sym, ◌↔◌, ==_iff, Bool-cases, inl, inr, get_or, drop, leb, ◌==◌, if◌then◌else◌,
}

abbrev pub Text : Type 0
Text = List ℕ

-- The characters of a literal.
abbrev pub chars : String → Text
chars no_chars = []
chars (c then cs) = code c ∷ chars cs

-- `==`
abbrev pub text_eq : Text → Text → Bool
text_eq [] [] = true
text_eq [] (y ∷ ys) = false
text_eq (x ∷ xs) [] = false
text_eq (x ∷ xs) (y ∷ ys) = x == y && text_eq xs ys

-- `char::is_whitespace`: the property White_Space.
abbrev pub is_whitespace : ℕ → Bool
is_whitespace c =
    leb 0x09 c && leb c 0x0D
    || c == 0x20
    || c == 0x85
    || c == 0xA0
    || c == 0x1680
    || leb 0x2000 c && leb c 0x200A
    || c == 0x2028
    || c == 0x2029
    || c == 0x202F
    || c == 0x205F
    || c == 0x3000

-- `trim_matches`, and with `is_whitespace` `trim`
abbrev pub trim_start : (ℕ → Bool) → Text → Text
trim_start p [] = []
trim_start p (c ∷ cs) = if p c then trim_start p cs else c ∷ cs

abbrev pub trim_end : (ℕ → Bool) → Text → Text
trim_end p cs = reverse (trim_start p (reverse cs))

abbrev pub trim_matches : (ℕ → Bool) → Text → Text
trim_matches p cs = trim_end p (trim_start p cs)

abbrev pub trim : Text → Text
trim = trim_matches is_whitespace

abbrev pub AllNot : (ℕ → Bool) → Text → Type 0
AllNot p [] = Unit
AllNot p (c ∷ cs) = (p c ≡ false) × AllNot p cs

pub reverse-snoc : (xs : Text) (c : ℕ) → reverse (xs ++ (c ∷ [])) ≡ c ∷ reverse xs
reverse-snoc xs c = reverse-append xs (c ∷ [])

-- A text whose last character is no match keeps its end.
pub trim_end-snoc :
    (p : ℕ → Bool) (xs : Text) (c : ℕ) → p c ≡ false → trim_end p (xs ++ (c ∷ [])) ≡ xs ++ (c ∷ [])
trim_end-snoc p xs c h =
    ap (λ (r : Text). reverse (trim_start p r)) (reverse-snoc xs c)
    ∙ rw h (ap reverse (sym (reverse-snoc xs c)) ∙ reverse-reverse (xs ++ (c ∷ [])))

pub AllNot-append : (p : ℕ → Bool) (xs ys : Text) → AllNot p xs → AllNot p ys → AllNot p (xs ++ ys)
AllNot-append p [] ys a b = b
AllNot-append p (x ∷ xs) ys a b = (a.0, AllNot-append p xs ys a.1 b)

AllNot-reverse : (p : ℕ → Bool) (xs : Text) → AllNot p xs → AllNot p (reverse xs)
AllNot-reverse p [] a = tt
AllNot-reverse p (x ∷ xs) a =
    subst (AllNot p) (sym (reverse-append (x ∷ []) xs))
      (AllNot-append p (reverse xs) (x ∷ []) (AllNot-reverse p xs a.1) (a.0, tt))

pub trim_start-AllNot : (p : ℕ → Bool) (xs : Text) → AllNot p xs → trim_start p xs ≡ xs
trim_start-AllNot p [] a = refl
trim_start-AllNot p (x ∷ xs) a = rw a.0 refl

pub trim_end-AllNot : (p : ℕ → Bool) (xs : Text) → AllNot p xs → trim_end p xs ≡ xs
trim_end-AllNot p xs a =
    ap reverse (trim_start-AllNot p (reverse xs) (AllNot-reverse p xs a)) ∙ reverse-reverse xs

cons-injective : {x y : ℕ} {xs ys : Text} → x ∷ xs ≡ y ∷ ys → (x ≡ y) × (xs ≡ ys)
cons-injective e = (ap (λ (t : Text). get_or t 0 0) e, ap (drop 1) e)

pub text_eq_iff : (xs ys : Text) → (text_eq xs ys ≡ true) ↔ (xs ≡ ys)
text_eq_iff [] [] = (λ h. refl, λ e. refl)
text_eq_iff [] (y ∷ ys) = (λ h. cc, λ e. cc)
text_eq_iff (x ∷ xs) [] = (λ h. cc, λ e. cc)
text_eq_iff (x ∷ xs) (y ∷ ys) =
    let ih = text_eq_iff xs ys in
    let head = ==_iff x y in
    (
      λ h. elim (Bool-cases (x == y)) [
        | inl same ↦ cc (head.0 same, ih.0 (rw same at h))
        | inr other ↦ let never = rw other at h in cc
      ],
      λ e. rw (head.1 (cons-injective e).0, ih.1 (cons-injective e).1) refl,
    )
