-- ===== src/Text/Number.antt =====
-- Decimal numbers as texts: `Display` and `from_str` of u16, u32 and i64.
use rsh.Prelude.{
  ℕ, zero, suc, ◌+◌, ◌-◌, ◌*◌, ◌/◌, ◌%◌, ◌^◌, ◌≤◌, ◌<◌, ◌≡◌, refl, ap, ◌∙◌, Bool, true, ◌&&◌,
  Option, none, some, [], ◌∷◌, ◌++◌, arith, ltb, leb, ◌==◌, if◌then◌else◌, Bool-cases, inl, inr,
  length, length-append,
}
use rsh.Text.{Text}

pub data ℤ : Type 0 where
  pos : ℕ → ℤ
  negsuc : ℕ → ℤ

abbrev pub InI64 : ℤ → Type 0
InI64 (pos n) = n < 2 ^ 63
InI64 (negsuc n) = n < 2 ^ 63

abbrev pub is_digit : ℕ → Bool
is_digit c = leb b'0' c && leb c b'9'

abbrev pub AllDigits : Text → Type 0
AllDigits [] = Unit
AllDigits (c ∷ cs) = (is_digit c ≡ true) × AllDigits cs

-- The digits of n; n itself is fuel enough.
pub show_digits : ℕ → ℕ → Text
show_digits zero n = (b'0' + n % 10) ∷ []
show_digits (suc fuel) n =
    let rest = show_digits fuel (n / 10) in
    if ltb n 10 then (b'0' + n % 10) ∷ [] else rest ++ ((b'0' + n % 10) ∷ [])

unfoldable pub show_nat : ℕ → Text
unfolding show_digits
show_nat n = show_digits n n

unfoldable pub show_int : ℤ → Text
show_int (pos n) = show_nat n
show_int (negsuc n) = b'-' ∷ show_nat (n + 1)

-- The loop of `from_str`: an overflow is refused where it happens.
pub accumulate : ℕ → ℕ → Text → Option ℕ
accumulate max acc [] = some acc
accumulate max acc (c ∷ cs) =
    let next = acc * 10 + (c - b'0') in
    let rest = accumulate max next cs in if is_digit c && leb next max then rest else none

unfoldable pub parse_digits : ℕ → Text → Option ℕ
unfolding accumulate
parse_digits max [] = none
parse_digits max (c ∷ cs) = accumulate max 0 (c ∷ cs)

unfoldable pub parse_u32 : Text → Option ℕ
parse_u32 [] = none
parse_u32 (c ∷ cs) =
    if c == b'+' then parse_digits (2 ^ 32 - 1) cs else parse_digits (2 ^ 32 - 1) (c ∷ cs)

unfoldable pub parse_u16 : Text → Option ℕ
parse_u16 [] = none
parse_u16 (c ∷ cs) =
    if c == b'+' then parse_digits (2 ^ 16 - 1) cs else parse_digits (2 ^ 16 - 1) (c ∷ cs)

abbrev negated : Option ℕ → Option ℤ
negated none = none
negated (some zero) = some (pos 0)
negated (some (suc n)) = some (negsuc n)

abbrev positive : Option ℕ → Option ℤ
positive none = none
positive (some n) = some (pos n)

unfoldable pub parse_i64 : Text → Option ℤ
parse_i64 [] = none
parse_i64 (c ∷ cs) =
    if c == b'-'
    then negated (parse_digits (2 ^ 63) cs)
    else if c == b'+'
    then positive (parse_digits (2 ^ 63 - 1) cs)
    else positive (parse_digits (2 ^ 63 - 1) (c ∷ cs))

-- Digits followed by one more.
accumulate-snoc :
    (max acc n c : ℕ) (cs : Text)
    → accumulate max acc cs ≡ some n
    → is_digit c ≡ true
    → n * 10 + (c - b'0') ≤ max
    → accumulate max acc (cs ++ (c ∷ [])) ≡ some (n * 10 + (c - b'0'))
unfolding accumulate
accumulate-snoc max acc n c [] h d le = ground arith
accumulate-snoc max acc n c (x ∷ xs) h d le =
    let next = acc * 10 + (x - b'0') in ground (arith, accumulate-snoc max next n c xs)

accumulate-show_digits :
    (max fuel n : ℕ) → n ≤ fuel → n ≤ max → accumulate max 0 (show_digits fuel n) ≡ some n
unfolding accumulate show_digits
accumulate-show_digits max zero zero f le = ground arith
accumulate-show_digits max zero (suc n) f le = absurd (omega arith)
accumulate-show_digits max (suc fuel) n f le =
    let d = b'0' + n % 10 in
    let front = accumulate-show_digits max fuel (n / 10) (omega arith) (omega arith) in
    let all : n / 10 * 10 + (d - b'0') ≡ n = omega arith in
    let whole : accumulate max 0 (show_digits fuel (n / 10) ++ (d ∷ [])) ≡ some n =
      accumulate-snoc max 0 (n / 10) d (show_digits fuel (n / 10)) front (ground arith)
        (omega arith)
      ∙ ap some all in
    ground arith

AllDigits-snoc : (cs : Text) (c : ℕ) → AllDigits cs → is_digit c ≡ true → AllDigits (cs ++ (c ∷ []))
AllDigits-snoc [] c all d = (d, tt)
AllDigits-snoc (x ∷ xs) c all d = (all.0, AllDigits-snoc xs c all.1 d)

-- A text of one digit or more, as it is printed.
pub record IsNumeral (text : Text) : Type 0 where
  pub front : Text
  pub last : ℕ
  pub last_digit : is_digit last ≡ true
  pub is_text : text ≡ front ++ (last ∷ [])
  pub digits : AllDigits text

show_digits-IsNumeral : (fuel n : ℕ) → n ≤ fuel → IsNumeral (show_digits fuel n)
unfolding show_digits
show_digits-IsNumeral zero n h = record {
  front = [];
  last = b'0' + n % 10;
  last_digit = ground arith;
  is_text = refl;
  digits = (ground arith, tt);
}
show_digits-IsNumeral (suc fuel) n h =
    let rest = show_digits-IsNumeral fuel (n / 10) (omega arith) in
    elim (Bool-cases (ltb n 10)) [
      | inl small ↦ rw small (record {
        front = [];
        last = b'0' + n % 10;
        last_digit = ground arith;
        is_text = refl;
        digits = (ground arith, tt);
      })
      | inr large ↦ rw large (record {
        front = show_digits fuel (n / 10);
        last = b'0' + n % 10;
        last_digit = ground arith;
        is_text = refl;
        digits =
            AllDigits-snoc (show_digits fuel (n / 10)) (b'0' + n % 10) rest.digits (ground arith);
      })
    ]

pub show_nat-IsNumeral : (n : ℕ) → IsNumeral (show_nat n)
unfolding show_nat
show_nat-IsNumeral n = show_digits-IsNumeral n n (omega arith)

parse_digits-show_nat : (max n : ℕ) → n ≤ max → parse_digits max (show_nat n) ≡ some n
unfolding parse_digits show_nat
parse_digits-show_nat max n h =
    nonempty (show_digits n n) (show_digits-IsNumeral n n (omega arith))
      (accumulate-show_digits max n n (omega arith) h)
  where
    nonempty : (t : Text) → IsNumeral t → accumulate max 0 t ≡ some n → parse_digits max t ≡ some n
    nonempty [] numeral e =
        absurd (
          omega (arith, ap length numeral.is_text, length-append numeral.front (numeral.last ∷ [])))
    nonempty (c ∷ cs) numeral e = e

-- A numeral has no sign.
unsigned_u32 : (t : Text) → AllDigits t → parse_u32 t ≡ parse_digits (2 ^ 32 - 1) t
unfolding parse_u32 parse_digits
unsigned_u32 [] all = refl
unsigned_u32 (c ∷ cs) all = let first = all.0 in ground arith

unsigned_i64 : (t : Text) → AllDigits t → parse_i64 t ≡ positive (parse_digits (2 ^ 63 - 1) t)
unfolding parse_i64 parse_digits
unsigned_i64 [] all = refl
unsigned_i64 (c ∷ cs) all = let first = all.0 in ground arith

unsigned_u16 : (t : Text) → AllDigits t → parse_u16 t ≡ parse_digits (2 ^ 16 - 1) t
unfolding parse_u16 parse_digits
unsigned_u16 [] all = refl
unsigned_u16 (c ∷ cs) all = let first = all.0 in ground arith

pub parse_u16-show_nat : (n : ℕ) → n < 2 ^ 16 → parse_u16 (show_nat n) ≡ some n
parse_u16-show_nat n h =
    unsigned_u16 (show_nat n) (show_nat-IsNumeral n).digits
    ∙ parse_digits-show_nat (2 ^ 16 - 1) n (omega arith)

pub parse_u32-show_nat : (n : ℕ) → n < 2 ^ 32 → parse_u32 (show_nat n) ≡ some n
parse_u32-show_nat n h =
    unsigned_u32 (show_nat n) (show_nat-IsNumeral n).digits
    ∙ parse_digits-show_nat (2 ^ 32 - 1) n (omega arith)

pub parse_i64-show_int : (i : ℤ) → InI64 i → parse_i64 (show_int i) ≡ some i
unfolding show_int parse_i64
parse_i64-show_int (pos n) h =
    unsigned_i64 (show_nat n) (show_nat-IsNumeral n).digits
    ∙ ap positive (parse_digits-show_nat (2 ^ 63 - 1) n (omega arith))
parse_i64-show_int (negsuc n) h =
    let next : n + 1 ≡ suc n = omega arith in
    ap negated (parse_digits-show_nat (2 ^ 63) (n + 1) (omega arith))
    ∙ ap (λ (k : ℕ). negated (some k)) next

accumulate-le : (max acc n : ℕ) (cs : Text) → acc ≤ max → accumulate max acc cs ≡ some n → n ≤ max
unfolding accumulate
accumulate-le max acc n [] le h = ground arith
accumulate-le max acc n (c ∷ cs) le h =
    let next = acc * 10 + (c - b'0') in ground (arith, accumulate-le max next n cs)

parse_digits-le : (max n : ℕ) (cs : Text) → parse_digits max cs ≡ some n → n ≤ max
unfolding parse_digits
parse_digits-le max n [] h = cc
parse_digits-le max n (c ∷ cs) h = accumulate-le max 0 n (c ∷ cs) (omega arith) h

-- What `from_str` gives is a u32.
pub parse_u32-lt : (n : ℕ) (cs : Text) → parse_u32 cs ≡ some n → n < 2 ^ 32
unfolding parse_u32
parse_u32-lt n [] h = cc
parse_u32-lt n (c ∷ cs) h =
    ground (arith, parse_digits-le (2 ^ 32 - 1) n cs, parse_digits-le (2 ^ 32 - 1) n (c ∷ cs))
