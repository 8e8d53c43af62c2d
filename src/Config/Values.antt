-- ===== src/Config/Values.antt =====
-- The values that a line of the configuration keeps, and how a line with such a value is read.
use rsh.Prelude.{
  ◌==◌, ℕ, ◌≡◌, refl, sym, ap, ◌∙◌, Bool, false, Option, some, List, [], ◌∷◌, ◌++◌, append_assoc,
}
use rsh.Text.{Text, is_whitespace, trim, trim_start, trim_end, trim_matches, trim_end-snoc, AllNot}
use rsh.Text.Split.{split_once, arm}
use rsh.Config.Parse.{
  Parsing, Key, keys, is_quote, is_skipped, key_value, set_key, parse_line, parse_lines,
}

abbrev pub is_newline : ℕ → Bool
is_newline c = c == 0x0A

-- A value without a line feed, that neither begins nor ends with whitespace or a quote.
pub record IsClean (value : Text) : Type 0 where
  pub trimmed : trim value ≡ value
  pub unquoted : trim_matches is_quote value ≡ value
  pub front : Text
  pub last : ℕ
  pub is_text : value ≡ front ++ (last ∷ [])
  pub last_kept : is_whitespace last ≡ false
  pub one_line : AllNot is_newline value

-- How a label with its key is read in front of any value.
pub record IsLabel (label key : Text) : Type 0 where
  pub starts : (w : Text) → trim_start is_whitespace (label ++ w) ≡ key ++ (0x20 ∷ w)
  pub splits : (w : Text) → split_once is_whitespace (key ++ (0x20 ∷ w)) ≡ some (key, w)
  pub key_trimmed : trim key ≡ key
  pub kept : (w : Text) → is_skipped (key ++ (0x20 ∷ w)) ≡ false

module _ (to_lowercase : Text → Text) (home_join : Text → Option Text) where
  trim_line :
      (label key value : Text)
      → IsLabel label key
      → IsClean value
      → trim (label ++ value) ≡ key ++ (0x20 ∷ value)
  trim_line label key value l c =
      let whole : key ++ (0x20 ∷ value) ≡ (key ++ (0x20 ∷ c.front)) ++ (c.last ∷ []) =
        ap (λ (t : Text). key ++ (0x20 ∷ t)) c.is_text
        ∙ sym (append_assoc key (0x20 ∷ c.front) (c.last ∷ [])) in
      ap (trim_end is_whitespace) (l.starts value ∙ whole)
      ∙ trim_end-snoc is_whitespace (key ++ (0x20 ∷ c.front)) c.last c.last_kept
      ∙ sym whole

  -- A line of a label and a clean value sets the key of the label.
  pub parse_line-label :
      (label key value : Text) (k : Key) (s : Parsing)
      → IsLabel label key
      → arm keys (to_lowercase key) ≡ some k
      → IsClean value
      → parse_line to_lowercase home_join (label ++ value) s
        ≡ set_key to_lowercase home_join k value s
  unfolding parse_line key_value
  parse_line-label label key value k s l known c =
      rw
        (
          trim_line label key value l c,
          l.kept value,
          l.splits value,
          l.key_trimmed,
          c.trimmed,
          known,
          c.unquoted,
        )
        refl

  pub parse_lines-append :
      (xs ys : List Text) (s : Parsing)
      → parse_lines to_lowercase home_join (xs ++ ys) s
        ≡ parse_lines to_lowercase home_join ys (parse_lines to_lowercase home_join xs s)
  unfolding parse_lines
  parse_lines-append [] ys s = refl
  parse_lines-append (x ∷ xs) ys s =
      parse_lines-append xs ys (parse_line to_lowercase home_join x s)
