-- ===== src/PathTranslate.antt =====
-- src/path_translate.rs: the remote path of a push or a pull, where the shell of the sender has
-- rewritten it. Texts are lists of characters: the bytes that the source tests are ASCII, and where
-- the first three bytes are ASCII they are the first three characters.
pub mod Forms
pub mod Plain
mod Tests
use rsh.Prelude.{
  ◌+◌, ℕ, ◌≡◌, Bool, true, false, ◌&&◌, ◌||◌, not, Option, none, some, List, [], ◌∷◌, ◌++◌, leb,
  ◌==◌, if◌then◌else◌, drop, map, length,
}
use rsh.Text.{Text, text_eq, chars, trim_start, trim_end}
use rsh.Text.Split.{starts_with, split_once}

pub record TranslatedPath : Type 0 where
  pub remote : Text
  pub rewritten : Bool
  pub original : Text

pub data ReceiverOs : Type 0 where
  linux windows unknown : ReceiverOs

-- `is_ascii_alphabetic`, `to_ascii_lowercase` and `eq_ignore_ascii_case`
abbrev pub is_letter : ℕ → Bool
is_letter c = leb b'A' c && leb c b'Z' || leb b'a' c && leb c b'z'

abbrev pub lower_char : ℕ → ℕ
lower_char c = if leb b'A' c && leb c b'Z' then c + 32 else c

abbrev pub lower : Text → Text
lower = map lower_char

abbrev pub is_slash : ℕ → Bool
is_slash c = c == b'/' || c == 0x5C

abbrev pub is_line_end : ℕ → Bool
is_line_end c = c == 0x0D || c == 0x0A

abbrev pub contains : ℕ → Text → Bool
contains c [] = false
contains c (x ∷ xs) = x == c || contains c xs

-- `replace` of a character
abbrev pub replace : ℕ → ℕ → Text → Text
replace old new = map (λ c. if c == old then new else c)

abbrev pub has_drive : Text → Bool
has_drive (a ∷ b ∷ rest) = is_letter a && b == b':'
has_drive (a ∷ []) = false
has_drive [] = false

unfoldable pub classify_os : Text → ReceiverOs
classify_os home =
    if has_drive home
    then windows
    else if starts_with home (chars "/")
    then linux
    else if contains 0x5C home
    then windows
    else unknown

abbrev pub joined : Text → Text → Text
joined base [] = base
joined base (c ∷ suffix) =
    if contains 0x5C base && not (contains b'/' base)
    then base ++ (0x5C ∷ replace b'/' 0x5C (c ∷ suffix))
    else base ++ (b'/' ∷ replace 0x5C b'/' (c ∷ suffix))

unfoldable pub join_home : Text → Text → Text
join_home home rest = joined (trim_end is_slash home) (trim_start is_slash rest)

-- The user in front of a separator, if it is the expected one, and what follows.
abbrev pub is_expected : Option Text → Text → Bool
is_expected none user = true
is_expected (some expected) user = text_eq (lower user) (lower expected)

abbrev pub after_user : Option Text → Text → Option (Text × Text) → Option Text
after_user sender rest none = if is_expected sender rest then some [] else none
after_user sender rest (some (user, after)) = if is_expected sender user then some after else none

abbrev pub strip_prefix : Text → Text → Option Text
strip_prefix text prefix =
    if starts_with text prefix then some (drop (length prefix) text) else none

abbrev pub user_prefix : (ℕ → Bool) → Option Text → Option Text → Option Text
user_prefix separator sender none = none
user_prefix separator sender (some rest) = after_user sender rest (split_once separator rest)

unfoldable pub strip_gitbash_user_prefix : Text → Option Text → Option Text
unfolding split_once
strip_gitbash_user_prefix (a ∷ b ∷ c ∷ rest) sender =
    if a == b'/' && is_letter b && c == b'/'
    then user_prefix (λ x. x == b'/') sender (strip_prefix rest (chars "Users/"))
    else none
strip_gitbash_user_prefix (a ∷ b ∷ []) sender = none
strip_gitbash_user_prefix (a ∷ []) sender = none
strip_gitbash_user_prefix [] sender = none

abbrev pub or_prefix : Option Text → Option Text → Option Text
or_prefix none other = other
or_prefix (some rest) other = some rest

unfoldable pub strip_windows_user_prefix : Text → Option Text → Option Text
unfolding split_once
strip_windows_user_prefix (a ∷ b ∷ c ∷ rest) sender =
    if is_letter a && b == b':' && is_slash c
    then user_prefix is_slash sender
        (or_prefix (strip_prefix rest (chars "Users/")) (strip_prefix rest (chars "Users\\")))
    else none
strip_windows_user_prefix (a ∷ b ∷ []) sender = none
strip_windows_user_prefix (a ∷ []) sender = none
strip_windows_user_prefix [] sender = none

abbrev pub after_temp : Text → Option Text
after_temp rest =
    let low = lower rest in
    if starts_with low (chars "temp/")
    then some (drop 5 rest)
    else if starts_with low (chars "temp\\")
    then some (drop 5 rest)
    else if text_eq low (chars "temp")
    then some []
    else none

unfoldable pub strip_msys_temp_prefix : Text → Option Text
strip_msys_temp_prefix (a ∷ b ∷ c ∷ rest) =
    if is_letter a && b == b':' && is_slash c then after_temp rest else none
strip_msys_temp_prefix (a ∷ b ∷ []) = none
strip_msys_temp_prefix (a ∷ []) = none
strip_msys_temp_prefix [] = none

abbrev pub temp_path : Text → Text
temp_path [] = chars "/tmp"
temp_path (c ∷ rest) = chars "/tmp/" ++ replace 0x5C b'/' (c ∷ rest)

abbrev pub to : Text → Bool → Text → TranslatedPath
to original rewritten remote = record {
  remote = remote;
  rewritten = rewritten;
  original = original;
}

abbrev pub rule_4 : Text → Text → Option Text → TranslatedPath
rule_4 input trimmed (some rest) = to input true (temp_path rest)
rule_4 input trimmed none = to input false trimmed

abbrev pub rule_3 : Text → Text → Text → Option Text → TranslatedPath
rule_3 input trimmed home (some rest) = to input true (join_home home rest)
rule_3 input trimmed home none = rule_4 input trimmed (strip_msys_temp_prefix trimmed)

abbrev pub rule_2 : Text → Text → Text → Option Text → Option Text → TranslatedPath
rule_2 input trimmed home sender (some rest) = to input true (join_home home rest)
rule_2 input trimmed home sender none =
    rule_3 input trimmed home (strip_windows_user_prefix trimmed sender)

abbrev pub other_rules : Text → Text → Text → ReceiverOs → Option Text → TranslatedPath
other_rules input trimmed home windows sender = to input false trimmed
other_rules input trimmed home linux sender =
    rule_2 input trimmed home sender (strip_gitbash_user_prefix trimmed sender)
other_rules input trimmed home unknown sender =
    rule_2 input trimmed home sender (strip_gitbash_user_prefix trimmed sender)

abbrev pub rule_1 : Text → Text → Text → ReceiverOs → Option Text → Option Text → TranslatedPath
rule_1 input trimmed home os sender (some rest) = to input true (join_home home rest)
rule_1 input trimmed home os sender none =
    if text_eq trimmed (chars "~")
    then to input true home
    else other_rules input trimmed home os sender

-- `sender` is the name in the environment, if it is set and not empty.
unfoldable pub translate_remote_path : Text → Text → ReceiverOs → Option Text → TranslatedPath
translate_remote_path input home os sender =
    let trimmed = trim_end is_line_end input in
    rule_1 input trimmed home os sender (strip_prefix trimmed (chars "~/"))
