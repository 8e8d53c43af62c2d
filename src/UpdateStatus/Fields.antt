-- ===== src/UpdateStatus/Fields.antt =====
-- Texts of values: what `trim` and the split leave of them.
use rsh.Prelude.{
  ℕ, ◌≡◌, refl, sym, ap, ◌∙◌, Bool, true, false, ◌||◌, [], ◌∷◌, ◌++◌, reverse, append_assoc,
  append-nil, ◌+◌, ◌==◌, arith, Bool-cases, inl, inr,
}
use rsh.Text.{
  Text, chars, trim, trim_matches, trim_start, trim_end, is_whitespace, AllNot, trim_end-snoc,
  trim_start-AllNot, trim_end-AllNot, reverse-snoc,
}
use rsh.Text.Number.{ℤ, pos, negsuc, AllDigits, show_nat, show_int, show_nat-IsNumeral}
use rsh.UpdateStatus.{is_quote, show_bool, split_from}

-- A value without quotes around it: a number or a Boolean.
pub record IsPlain (v : Text) : Type 0 where
  pub front : Text
  pub last : ℕ
  pub is_text : v ≡ front ++ (last ∷ [])
  pub last_kept : is_whitespace last ≡ false
  pub no_space : AllNot is_whitespace v
  pub no_mark : AllNot (λ c. is_quote c || c == b',') v

AllDigits-no_space : (v : Text) → AllDigits v → AllNot is_whitespace v
AllDigits-no_space [] all = tt
AllDigits-no_space (c ∷ cs) all = let d = all.0 in (ground arith, AllDigits-no_space cs all.1)

AllDigits-no_mark : (v : Text) → AllDigits v → AllNot (λ c. is_quote c || c == b',') v
AllDigits-no_mark [] all = tt
AllDigits-no_mark (c ∷ cs) all = let d = all.0 in (ground arith, AllDigits-no_mark cs all.1)

pub show_nat-IsPlain : (n : ℕ) → IsPlain (show_nat n)
show_nat-IsPlain n =
    let numeral = show_nat-IsNumeral n in
    let d = numeral.last_digit in
    record {
      front = numeral.front;
      last = numeral.last;
      is_text = numeral.is_text;
      last_kept = ground arith;
      no_space = AllDigits-no_space (show_nat n) numeral.digits;
      no_mark = AllDigits-no_mark (show_nat n) numeral.digits;
    }

pub show_int-IsPlain : (i : ℤ) → IsPlain (show_int i)
unfolding show_int
show_int-IsPlain (pos n) = show_nat-IsPlain n
show_int-IsPlain (negsuc n) =
    let plain = show_nat-IsPlain (n + 1) in
    record {
      front = b'-' ∷ plain.front;
      last = plain.last;
      is_text = ap (◌∷◌ b'-') plain.is_text;
      last_kept = plain.last_kept;
      no_space = (refl, plain.no_space);
      no_mark = (refl, plain.no_mark);
    }

pub show_bool-IsPlain : (b : Bool) → IsPlain (show_bool b)
show_bool-IsPlain true = record {
  front = chars "tru";
  last = b'e';
  is_text = refl;
  last_kept = refl;
  no_space = (refl, (refl, (refl, (refl, tt))));
  no_mark = (refl, (refl, (refl, (refl, tt))));
}
show_bool-IsPlain false = record {
  front = chars "fals";
  last = b'e';
  is_text = refl;
  last_kept = refl;
  no_space = (refl, (refl, (refl, (refl, (refl, tt)))));
  no_mark = (refl, (refl, (refl, (refl, (refl, tt)))));
}

-- Behind any text, a plain value keeps its end.
pub trim_end-plain : (k v : Text) → IsPlain v → trim_end is_whitespace (k ++ v) ≡ k ++ v
trim_end-plain k v plain =
    let e : k ++ v ≡ (k ++ plain.front) ++ (plain.last ∷ []) =
      ap (λ (t : Text). k ++ t) plain.is_text
      ∙ sym (append_assoc k plain.front (plain.last ∷ [])) in
    ap (trim_end is_whitespace) e
    ∙ trim_end-snoc is_whitespace (k ++ plain.front) plain.last plain.last_kept
    ∙ sym e

pub trim-plain : (v : Text) → IsPlain v → trim (b' ' ∷ v) ≡ v
trim-plain v plain =
    ap (trim_end is_whitespace) (trim_start-AllNot is_whitespace v plain.no_space)
    ∙ trim_end-AllNot is_whitespace v plain.no_space

-- A closing quote is kept as well.
pub trim_end-quoted :
    (k v : Text) → trim_end is_whitespace (k ++ (v ++ (b'"' ∷ []))) ≡ k ++ (v ++ (b'"' ∷ []))
trim_end-quoted k v =
    let e = append_assoc k v (b'"' ∷ []) in
    ap (trim_end is_whitespace) (sym e) ∙ trim_end-snoc is_whitespace (k ++ v) b'"' refl ∙ e

-- The quotes around a text without quotes go.
pub trim_matches-quoted :
    (v : Text) → AllNot is_quote v → trim_matches is_quote (b'"' ∷ (v ++ (b'"' ∷ []))) ≡ v
trim_matches-quoted [] clean = refl
trim_matches-quoted (c ∷ cs) clean = rw clean.0 (
    ap (λ (t : Text). reverse (trim_start is_quote t)) (reverse-snoc (c ∷ cs) b'"')
    ∙ trim_end-AllNot is_quote (c ∷ cs) clean)

-- The split goes through a text in quotes,
pub split_from-quoted :
    (v rest part : Text)
    → AllNot is_quote v
    → split_from (v ++ rest) part true ≡ split_from rest (part ++ v) true
unfolding split_from
split_from-quoted [] rest part clean =
    ap (λ (t : Text). split_from rest t true) (sym (append-nil part))
split_from-quoted (c ∷ cs) rest part clean = elim (Bool-cases (c == b',')) [
  | inl comma ↦
      rw (comma, clean.0)
        (split_from-quoted cs rest (part ++ (c ∷ [])) clean.1
          ∙ ap (λ (t : Text). split_from rest t true) (append_assoc part (c ∷ []) cs))
  | inr other ↦
      rw (other, clean.0)
        (split_from-quoted cs rest (part ++ (c ∷ [])) clean.1
          ∙ ap (λ (t : Text). split_from rest t true) (append_assoc part (c ∷ []) cs))
]

-- and through a plain one.
pub split_from-plain :
    (v rest part : Text)
    → AllNot (λ c. is_quote c || c == b',') v
    → split_from (v ++ rest) part false ≡ split_from rest (part ++ v) false
unfolding split_from
split_from-plain [] rest part clean =
    ap (λ (t : Text). split_from rest t false) (sym (append-nil part))
split_from-plain (c ∷ cs) rest part clean =
    let quote : is_quote c ≡ false = (let m = clean.0 in ground arith) in
    let comma : (c == b',') ≡ false = (let m = clean.0 in ground arith) in
    rw (comma, quote)
      (split_from-plain cs rest (part ++ (c ∷ [])) clean.1
        ∙ ap (λ (t : Text). split_from rest t false) (append_assoc part (c ∷ []) cs))
