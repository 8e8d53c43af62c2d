-- ===== src/Config/Labels.antt =====
-- The labels of the lines that `to_string` writes, and the numbers and server lists behind them.
use mathlib.Core.List.{reverse-append, reverse-reverse}
use rsh.Prelude.{
  ℕ, zero, suc, ◌≡◌, refl, sym, ap, ◌∙◌, Bool, true, false, not, ◌&&◌, List, [], ◌∷◌, ◌++◌, ◌==◌,
  reverse, arith, append_assoc, append-nil, Bool-cases, inl, inr, replicate, map,
}
use rsh.Text.{
  Text, is_whitespace, trim, trim_start, trim_end, trim_matches, AllNot, trim_start-AllNot,
  trim_end-AllNot,
}
use rsh.Text.Split.{split_once-AllNot, split_whitespace, words_from, word_then}
use rsh.Text.Number.{show_nat, is_digit, AllDigits, show_nat-IsNumeral}
use rsh.Config.Parse.{is_quote, parse_server_list, comma_to_space}
use rsh.Config.Print.{join}
use rsh.Config.Values.{IsLabel, IsClean, is_newline}

abbrev no_space : Text → Bool
no_space [] = true
no_space (c ∷ cs) = not (is_whitespace c) && no_space cs

-- One character or more, no whitespace, and no `#` at the front.
abbrev pub is_plain : Text → Bool
is_plain [] = false
is_plain (c ∷ cs) = not (c == b'#') && no_space (c ∷ cs)

no_space-AllNot : (t : Text) → no_space t ≡ true → AllNot is_whitespace t
no_space-AllNot [] h = tt
no_space-AllNot (c ∷ cs) h =
    let both : (is_whitespace c ≡ false) × (no_space cs ≡ true) =
      split (is_whitespace c) (no_space cs) h in
    (both.0, no_space-AllNot cs both.1)
  where
    split : (a b : Bool) → not a && b ≡ true → (a ≡ false) × (b ≡ true)
    split true b e = cc
    split false b e = (refl, e)

trim_start_spaces :
    (n : ℕ) (t : Text)
    → trim_start is_whitespace (replicate n 0x20 ++ t) ≡ trim_start is_whitespace t
trim_start_spaces zero t = refl
trim_start_spaces (suc n) t = trim_start_spaces n t

-- An indented key with a space behind it.
pub label :
    (indent : ℕ) (key : Text)
    → is_plain key ≡ true
    → IsLabel (replicate indent 0x20 ++ (key ++ (0x20 ∷ []))) key
label indent [] h = cc
label indent (c ∷ cs) h =
    let both : (c == b'#' ≡ false) × (no_space (c ∷ cs) ≡ true) =
      split (c == b'#') (no_space (c ∷ cs)) h in
    let spaceless = no_space-AllNot (c ∷ cs) both.1 in
    record {
      starts = λ w.
          ap (trim_start is_whitespace)
            (append_assoc (replicate indent 0x20) ((c ∷ cs) ++ (0x20 ∷ [])) w)
          ∙ trim_start_spaces indent (((c ∷ cs) ++ (0x20 ∷ [])) ++ w)
          ∙ rw spaceless.0 (ap (◌∷◌ c) (append_assoc cs (0x20 ∷ []) w));
      splits = λ w. split_once-AllNot is_whitespace (c ∷ cs) w 0x20 spaceless refl;
      key_trimmed = trim_AllNot (c ∷ cs) spaceless;
      kept = λ w. both.0;
    }
  where
    split : (a b : Bool) → not a && b ≡ true → (a ≡ false) × (b ≡ true)
    split true b e = cc
    split false b e = (refl, e)

    trim_AllNot : (t : Text) → AllNot is_whitespace t → trim t ≡ t
    trim_AllNot t a =
        ap (trim_end is_whitespace) (trim_start-AllNot is_whitespace t a)
        ∙ trim_end-AllNot is_whitespace t a

digits-AllNot :
    (p : ℕ → Bool) (t : Text)
    → ((c : ℕ) → is_digit c ≡ true → p c ≡ false)
    → AllDigits t
    → AllNot p t
digits-AllNot p [] h a = tt
digits-AllNot p (c ∷ cs) h a = (h c a.0, digits-AllNot p cs h a.1)

trim_matches-AllNot : (p : ℕ → Bool) (t : Text) → AllNot p t → trim_matches p t ≡ t
trim_matches-AllNot p t a = ap (trim_end p) (trim_start-AllNot p t a) ∙ trim_end-AllNot p t a

digit_not_space : (c : ℕ) → is_digit c ≡ true → is_whitespace c ≡ false
digit_not_space c h = ground arith

digit_not_quote : (c : ℕ) → is_digit c ≡ true → is_quote c ≡ false
digit_not_quote c h = ground arith

digit_not_newline : (c : ℕ) → is_digit c ≡ true → is_newline c ≡ false
digit_not_newline c h = ground arith

pub show_nat-IsClean : (n : ℕ) → IsClean (show_nat n)
show_nat-IsClean n =
    let numeral = show_nat-IsNumeral n in
    record {
      trimmed =
          trim_matches-AllNot is_whitespace _
            (digits-AllNot is_whitespace _ digit_not_space numeral.digits);
      unquoted =
          trim_matches-AllNot is_quote _ (digits-AllNot is_quote _ digit_not_quote numeral.digits);
      front = numeral.front;
      last = numeral.last;
      is_text = numeral.is_text;
      last_kept = digit_not_space numeral.last numeral.last_digit;
      one_line = digits-AllNot is_newline _ digit_not_newline numeral.digits;
    }

-- A server name: not empty, without whitespace and commas.
abbrev is_separator : ℕ → Bool
is_separator c = is_whitespace (comma_to_space c)

abbrev pub IsServer : Text → Type 0
IsServer [] = ⊥
IsServer (c ∷ cs) = AllNot is_separator (c ∷ cs)

comma_to_space_id : (c : ℕ) → is_separator c ≡ false → comma_to_space c ≡ c
comma_to_space_id c h = elim (Bool-cases (c == b',')) [
  | inl comma ↦ let never : true ≡ false = rw comma at h in cc
  | inr other ↦ rw other refl
]

words_from-word :
    (s word rest : Text)
    → AllNot is_separator s
    → words_from word (map comma_to_space (s ++ rest))
      ≡ words_from (reverse s ++ word) (map comma_to_space rest)
unfolding words_from
words_from-word [] word rest a = refl
words_from-word (c ∷ cs) word rest a =
    let word_of : reverse (c ∷ cs) ++ word ≡ reverse cs ++ (c ∷ word) =
      ap (λ (t : Text). t ++ word) (reverse-append (c ∷ []) cs)
      ∙ append_assoc (reverse cs) (c ∷ []) word in
    rw (a.0, comma_to_space_id c a.0)
      (words_from-word cs (c ∷ word) rest a.1
        ∙ ap (λ (t : Text). words_from t (map comma_to_space rest)) (sym word_of))

abbrev pub AllServers : List Text → Type 0
AllServers [] = Unit
AllServers (s ∷ servers) = IsServer s × AllServers servers

server-AllNot : (s : Text) → IsServer s → AllNot is_separator s
server-AllNot [] h = absurd h
server-AllNot (c ∷ cs) h = h

word_then-server :
    (s : Text) (words : List Text)
    → IsServer s
    → word_then (reverse (reverse s ++ [])) words ≡ s ∷ words
word_then-server s words h =
    ap (λ (t : Text). word_then (reverse t) words) (append-nil (reverse s))
    ∙ ap (λ (t : Text). word_then t words) (reverse-reverse s)
    ∙ nonempty s h
  where
    nonempty : (t : Text) → IsServer t → word_then t words ≡ t ∷ words
    nonempty [] e = absurd e
    nonempty (c ∷ cs) e = refl

-- The server list is read back from the text that it is joined to.
pub parse_server_list-join :
    (servers : List Text) → AllServers servers → parse_server_list (join servers) ≡ servers
unfolding split_whitespace words_from
parse_server_list-join [] h = refl
parse_server_list-join (s ∷ []) h =
    ap (λ (t : Text). words_from [] (map comma_to_space t)) (sym (append-nil s))
    ∙ words_from-word s [] [] (server-AllNot s h.0)
    ∙ word_then-server s [] h.0
parse_server_list-join (s ∷ t ∷ servers) h =
    words_from-word s [] (b',' ∷ 0x20 ∷ join (t ∷ servers)) (server-AllNot s h.0)
    ∙ word_then-server s _ h.0
    ∙ ap (◌∷◌ s) (parse_server_list-join (t ∷ servers) h.1)
