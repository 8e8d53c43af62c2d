-- ===== src/PathTranslate/Plain.antt =====
-- The paths that are sent as they are.
use rsh.Prelude.{
  ℕ, ◌≡◌, refl, Bool, true, false, ◌&&◌, ◌||◌, Option, none, [], ◌∷◌, ◌==◌, arith, if◌then◌else◌,
  Bool-cases, inl, inr,
}
use rsh.Text.{Text, text_eq, chars, trim_end}
use rsh.Text.Split.{starts_with}
use rsh.PathTranslate.{
  ReceiverOs, linux, windows, unknown, is_letter, is_slash, is_line_end, has_drive,
  strip_gitbash_user_prefix, strip_windows_user_prefix, strip_msys_temp_prefix,
  translate_remote_path, to, other_rules, rule_2,
}

-- `/c/Users/…`
abbrev pub is_users : Text → Bool
is_users (a ∷ b ∷ c ∷ rest) =
    if a == b'/' && is_letter b && c == b'/' then starts_with rest (chars "Users/") else false
is_users (a ∷ b ∷ []) = false
is_users (a ∷ []) = false
is_users [] = false

abbrev pub looks_foreign : ReceiverOs → Text → Bool
looks_foreign windows path = false
looks_foreign linux path = has_drive path || is_users path
looks_foreign unknown path = has_drive path || is_users path

abbrev pub looks_mangled : ReceiverOs → Text → Bool
looks_mangled os path =
    starts_with path (chars "~/") || text_eq path (chars "~") || looks_foreign os path

no_gitbash :
    (path : Text) (sender : Option Text)
    → is_users path ≡ false
    → strip_gitbash_user_prefix path sender ≡ none
unfolding strip_gitbash_user_prefix
no_gitbash (a ∷ b ∷ c ∷ rest) sender h = elim (Bool-cases (a == b'/' && is_letter b && c == b'/')) [
  | inl drive ↦
      let other : starts_with rest (chars "Users/") ≡ false = rw drive at h in
      rw (drive, other) refl
  | inr none_there ↦ rw none_there refl
]
no_gitbash (a ∷ b ∷ []) sender h = refl
no_gitbash (a ∷ []) sender h = refl
no_gitbash [] sender h = refl

no_drive :
    (a b : ℕ) (c : Bool) → is_letter a && b == b':' ≡ false → is_letter a && b == b':' && c ≡ false
no_drive a b c h = ground arith

no_windows :
    (path : Text) (sender : Option Text)
    → has_drive path ≡ false
    → strip_windows_user_prefix path sender ≡ none
unfolding strip_windows_user_prefix
no_windows (a ∷ b ∷ c ∷ rest) sender h = rw (no_drive a b (is_slash c) h) refl
no_windows (a ∷ b ∷ []) sender h = refl
no_windows (a ∷ []) sender h = refl
no_windows [] sender h = refl

no_temp : (path : Text) → has_drive path ≡ false → strip_msys_temp_prefix path ≡ none
unfolding strip_msys_temp_prefix
no_temp (a ∷ b ∷ c ∷ rest) h = rw (no_drive a b (is_slash c) h) refl
no_temp (a ∷ b ∷ []) h = refl
no_temp (a ∷ []) h = refl
no_temp [] h = refl

neither : (a b : Bool) → a || b ≡ false → (a ≡ false) × (b ≡ false)
neither true b h = cc
neither false b h = (refl, h)

plain_rules :
    (input path home : Text) (sender : Option Text)
    → has_drive path || is_users path ≡ false
    → rule_2 input path home sender (strip_gitbash_user_prefix path sender) ≡ to input false path
plain_rules input path home sender h =
    let (drive, users) = neither (has_drive path) (is_users path) h in
    rw (no_gitbash path sender users, no_windows path sender drive, no_temp path drive) refl

plain_other :
    (input path home : Text) (os : ReceiverOs) (sender : Option Text)
    → looks_foreign os path ≡ false
    → other_rules input path home os sender ≡ to input false path
plain_other input path home windows sender h = refl
plain_other input path home linux sender h = plain_rules input path home sender h
plain_other input path home unknown sender h = plain_rules input path home sender h

-- A path that does not begin with `~`, and, unless the receiver is taken for Windows, neither names
-- a drive nor a folder of users below a mounted drive, is sent as it is but for line ends behind
-- it, and is not reported as rewritten.
translate_remote_path-looks_mangled :
    (input home : Text) (os : ReceiverOs) (sender : Option Text)
    → looks_mangled os (trim_end is_line_end input) ≡ false
    → translate_remote_path input home os sender ≡ to input false (trim_end is_line_end input)
unfolding translate_remote_path
translate_remote_path-looks_mangled input home os sender h =
    let path = trim_end is_line_end input in
    let (tilde, foreign) =
      neither (starts_with path (chars "~/") || text_eq path (chars "~")) (looks_foreign os path)
        h in
    let (folder, bare) = neither (starts_with path (chars "~/")) (text_eq path (chars "~")) tilde in
    rw (folder, bare) (plain_other input path home os sender foreign)
