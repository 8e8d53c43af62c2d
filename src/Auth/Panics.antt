-- ===== src/Auth/Panics.antt =====
-- Where the parser of authorized_keys panics.
use rsh.Prelude.{
  ◌≤◌, ◌≡◌, refl, sym, Bool, true, false, ◌||◌, Option, none, some, List, [], ◌∷◌, ◌++◌, ◌==◌,
  ==_iff, leb, length, Bool-cases, Option-cases, inl, inr, arith,
}
use rsh.Prelude.Bytes.{Bytes}
use rsh.Text.{Text, chars, text_eq, text_eq_iff, trim}
use rsh.Text.Split.{starts_with, arm, cut_space, splitn, find}
use rsh.Auth.{
  KeyPermissions, default, words, command_is, is_forced, apply_option, options_from, split_options,
  apply_options, parse_key_options, split_line, parse_parts, parse_authorized_key_line,
}

abbrev pub is_none : Option KeyPermissions → Bool
is_none none = true
is_none (some _) = false

-- Some option is `command="` and nothing else.
abbrev pub cut_off : List Text → Bool
cut_off [] = false
cut_off (opt ∷ opts) = text_eq (trim opt) command_is || cut_off opts

starts_with-short :
    (text pattern : Text)
    → starts_with text pattern ≡ true
    → length text ≤ length pattern
    → text ≡ pattern
starts_with-short [] [] h short = refl
starts_with-short (c ∷ cs) [] h short = absurd (omega arith)
starts_with-short [] (p ∷ ps) h short = cc
starts_with-short (c ∷ cs) (p ∷ ps) h short =
    let both : ((c == p) ≡ true) × (starts_with cs ps ≡ true) = ground arith in
    let tail = starts_with-short cs ps both.1 (omega arith) in
    let head = (==_iff c p).0 both.0 in cc

forced-ne-short :
    (opt : Text)
    → text_eq opt command_is ≡ false
    → is_forced opt ≡ true
    → leb 10 (length opt) ≡ true
forced-ne-short opt other forced = elim (Bool-cases (leb 10 (length opt))) [
  | inl long ↦ long
  | inr short ↦
      let h : starts_with opt command_is ≡ true = ground arith in
      let e = starts_with-short opt command_is h (ground arith) in
      let same = (text_eq_iff opt command_is).1 e in cc
]

is_none-apply_option :
    (opt : Text) (perms : KeyPermissions)
    → is_none (apply_option opt perms) ≡ text_eq opt command_is
unfolding apply_option
is_none-apply_option opt perms = elim (Bool-cases (text_eq opt command_is)) [
  | inl same ↦ rw (same, (text_eq_iff opt command_is).0 same) refl
  | inr other ↦ elim (Option-cases (arm words opt)) [
    | inl unread ↦ elim (Bool-cases (is_forced opt)) [
      | inl forced ↦ rw (unread, forced, forced-ne-short opt other forced, other) refl
      | inr plain ↦ rw (unread, plain, other) refl
    ]
    | inr (w, found) ↦ rw (found, other) refl
  ]
]

is_none-apply_options :
    (opts : List Text) (perms : KeyPermissions) → is_none (apply_options opts perms) ≡ cut_off opts
unfolding apply_options
is_none-apply_options [] perms = refl
is_none-apply_options (opt ∷ opts) perms =
    let first = is_none-apply_option (trim opt) perms in
    elim (Option-cases (apply_option (trim opt) perms)) [
      | inl failed ↦
          let same : true ≡ text_eq (trim opt) command_is = rw failed at first in
          rw (apply_options, failed, sym same) refl
      | inr (next, found) ↦
          let other : false ≡ text_eq (trim opt) command_is = rw found at first in
          rw (apply_options, found, sym other) (is_none-apply_options opts next)
    ]

-- The options of a key are parsed, or the parser panics; it panics exactly if one of the options is
-- `command="` with nothing behind the quote.
pub is_none-parse_key_options :
    (opts : Text) → is_none (parse_key_options (some opts)) ≡ cut_off (split_options opts)
unfolding parse_key_options split_options options_from
is_none-parse_key_options [] = refl
is_none-parse_key_options (c ∷ cs) = is_none-apply_options (split_options (c ∷ cs)) default

panics-cut_off :
    (base64 : Text → Option Bytes) (rest before behind : Text)
    → cut_space rest ≡ some (before, behind)
    → parse_parts base64 (some command_is) (splitn 2 rest) ≡ none
unfolding splitn parse_key_options split_options options_from apply_options apply_option
panics-cut_off base64 rest before behind cut = elim (Option-cases (cut_space behind)) [
  | inl last ↦ rw (splitn, cut, last) refl
  | inr (_, more) ↦ rw (splitn, cut, more) refl
]

-- A line whose forced command begins with `ssh-` and holds a space makes the parser panic: it takes
-- the command for the type of the key.
pub parse_authorized_key_line-ssh_command :
    (base64 : Text → Option Bytes) (text before behind : Text)
    → cut_space (chars "ssh-" ++ text) ≡ some (before, behind)
    → parse_authorized_key_line base64 (chars "command=\"ssh-" ++ text) ≡ none
unfolding parse_authorized_key_line split_line splitn find
parse_authorized_key_line-ssh_command base64 text before behind cut =
    panics-cut_off base64 (chars "ssh-" ++ text) before behind cut
