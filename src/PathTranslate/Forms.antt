-- ===== src/PathTranslate/Forms.antt =====
-- The forms that a shell of the sender gives to a path below its home directory.
use rsh.Prelude.{
  ℕ, ◌≡◌, ◌≢◌, refl, sym, ap, ◌∙◌, true, false, Option, none, some, [], ◌∷◌, ◌++◌, ◌==◌, arith,
  and_false,
}
use rsh.Text.{Text, chars, trim_end, AllNot}
use rsh.Text.Split.{split_once-AllNot}
use rsh.PathTranslate.{
  TranslatedPath, ReceiverOs, linux, windows, unknown, is_letter, is_slash, is_line_end,
  is_expected, join_home, strip_gitbash_user_prefix, strip_windows_user_prefix,
  translate_remote_path, to,
}

-- Git Bash writes `/c/Users/u/x`, MSYS `C:/Users/u/x` or `C:\Users\u\x`.
pub data Form : Type 0 where
  mount drive_slash drive_backslash : Form

abbrev pub mangled : Form → ℕ → Text → Text → Text
mangled mount d user rest = b'/' ∷ d ∷ b'/' ∷ (chars "Users/" ++ (user ++ (b'/' ∷ rest)))
mangled drive_slash d user rest = d ∷ b':' ∷ b'/' ∷ (chars "Users/" ++ (user ++ (b'/' ∷ rest)))
mangled drive_backslash d user rest = d ∷ b':' ∷ 0x5C ∷ (chars "Users\\" ++ (user ++ (0x5C ∷ rest)))

letter_not_tilde : (d : ℕ) → is_letter d ≡ true → d == b'~' ≡ false
letter_not_tilde d h = ground arith

letter_not_slash : (d : ℕ) → is_letter d ≡ true → d == b'/' ≡ false
letter_not_slash d h = ground arith

no_slash : (user : Text) → AllNot is_slash user → AllNot (λ x. x == b'/') user
no_slash [] a = tt
no_slash (c ∷ user) a = (slash c a.0, no_slash user a.1)
  where
    slash : (c : ℕ) → is_slash c ≡ false → c == b'/' ≡ false
    slash c h = ground arith

module _ (d : ℕ) (user rest : Text) (sender : Option Text) (letter : is_letter d ≡ true)
    (whole : AllNot is_slash user) (expected : is_expected sender user ≡ true) where
  strip_mount : strip_gitbash_user_prefix (mangled mount d user rest) sender ≡ some rest
  unfolding strip_gitbash_user_prefix
  strip_mount =
      rw
        (
          letter,
          split_once-AllNot (λ x. x == b'/') user rest b'/' (no_slash user whole) refl,
          expected,
        )
        refl

  no_mount : (s : ℕ) (t : Text) → strip_gitbash_user_prefix (d ∷ b':' ∷ s ∷ t) sender ≡ none
  unfolding strip_gitbash_user_prefix
  no_mount s t = rw (letter_not_slash d letter) refl

  strip_drive_slash : strip_windows_user_prefix (mangled drive_slash d user rest) sender ≡ some rest
  unfolding strip_windows_user_prefix
  strip_drive_slash =
      rw (letter, split_once-AllNot is_slash user rest b'/' whole refl, expected) refl

  strip_drive_backslash :
      strip_windows_user_prefix (mangled drive_backslash d user rest) sender ≡ some rest
  unfolding strip_windows_user_prefix
  strip_drive_backslash =
      rw (letter, split_once-AllNot is_slash user rest 0x5C whole refl, expected) refl

  form_to_home :
      (form : Form) (home : Text) (os : ReceiverOs)
      → os ≢ windows
      → trim_end is_line_end (mangled form d user rest) ≡ mangled form d user rest
      → translate_remote_path (mangled form d user rest) home os sender
        ≡ to (mangled form d user rest) true (join_home home rest)
  unfolding translate_remote_path
  form_to_home form home windows other ends = absurd (other refl)
  form_to_home mount home linux other ends = rw (ends, strip_mount) refl
  form_to_home mount home unknown other ends = rw (ends, strip_mount) refl
  form_to_home drive_slash home linux other ends =
      rw (ends, letter_not_tilde d letter, no_mount _ _, strip_drive_slash, and_false (d == b'~'))
        refl
  form_to_home drive_slash home unknown other ends =
      rw (ends, letter_not_tilde d letter, no_mount _ _, strip_drive_slash, and_false (d == b'~'))
        refl
  form_to_home drive_backslash home linux other ends =
      rw
        (
          ends,
          letter_not_tilde d letter,
          no_mount _ _,
          strip_drive_backslash,
          and_false (d == b'~'),
        )
        refl
  form_to_home drive_backslash home unknown other ends =
      rw
        (
          ends,
          letter_not_tilde d letter,
          no_mount _ _,
          strip_drive_backslash,
          and_false (d == b'~'),
        )
        refl

-- Each form that a shell of the sender gives to `~/rest` is sent to the same path as `~/rest`
-- itself, to any receiver that is not taken for Windows, whatever the drive letter. The name of the
-- user has no slash and is, in either case, that of the sender where that is known; and the paths
-- do not end with a line end.
pub translate_remote_path-mangled :
    (form : Form) (d : ℕ) (user rest home : Text) (os : ReceiverOs) (sender : Option Text)
    → is_letter d ≡ true
    → AllNot is_slash user
    → is_expected sender user ≡ true
    → os ≢ windows
    → trim_end is_line_end (mangled form d user rest) ≡ mangled form d user rest
    → trim_end is_line_end (chars "~/" ++ rest) ≡ chars "~/" ++ rest
    → ((translate_remote_path (mangled form d user rest) home os sender).remote
        ≡ (translate_remote_path (chars "~/" ++ rest) home os sender).remote)
      × ((translate_remote_path (mangled form d user rest) home os sender).rewritten ≡ true)
translate_remote_path-mangled form d user rest home os sender letter whole expected other ends
      tilde_ends =
    let sent = form_to_home d user rest sender letter whole expected form home os other ends in
    (
      ap (λ (p : TranslatedPath). p.remote) sent ∙ sym tilde,
      ap (λ (p : TranslatedPath). p.rewritten) sent,
    )
  where
    tilde : (translate_remote_path (chars "~/" ++ rest) home os sender).remote ≡ join_home home rest
    tilde = unfold translate_remote_path in rw tilde_ends refl
