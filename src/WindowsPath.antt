-- ===== src/WindowsPath.antt =====
-- crates/mrsh-core/src/path.rs: paths of Git Bash and WSL as Windows paths. Where the first bytes
-- are ASCII they are the first characters.
pub mod Slashes
mod Tests
use rsh.Prelude.{
  ℕ, zero, suc, ◌-◌, Bool, true, false, ◌&&◌, ◌||◌, not, Option, none, some, List, [], ◌∷◌, ◌++◌,
  leb, ◌==◌, if◌then◌else◌, map, length,
}
use rsh.Text.{Text, text_eq, chars}
use rsh.Text.Split.{starts_with}

abbrev pub is_letter : ℕ → Bool
is_letter c = leb b'A' c && leb c b'Z' || leb b'a' c && leb c b'z'

-- `to_ascii_uppercase`
abbrev pub upper : ℕ → ℕ
upper c = if leb b'a' c && leb c b'z' then c - 32 else c

-- The drive and its colon in front of the rest, or of a slash where there is none.
abbrev pub drive_path : ℕ → Text → Text
drive_path drive [] = upper drive ∷ b':' ∷ b'/' ∷ []
drive_path drive (c ∷ rest) = upper drive ∷ b':' ∷ c ∷ rest

abbrev pub slash_or_end : Text → Bool
slash_or_end [] = true
slash_or_end (c ∷ rest) = c == b'/'

-- The first rule: `/mnt/c`, with the text behind `/mnt/`.
unfoldable pub from_wsl : Text → Text
from_wsl (a ∷ b ∷ c ∷ d ∷ e ∷ drive ∷ rest) =
    if starts_with (a ∷ b ∷ c ∷ d ∷ e ∷ []) (chars "/mnt/") && is_letter drive && slash_or_end rest
    then drive_path drive rest
    else a ∷ b ∷ c ∷ d ∷ e ∷ drive ∷ rest
from_wsl path = path

-- The second and the third rule: `/c/Users` and `/c`.
unfoldable pub from_mount : Text → Text
from_mount [] = []
from_mount (a ∷ []) = a ∷ []
from_mount (a ∷ drive ∷ rest) =
    if a == b'/' && is_letter drive && slash_or_end rest
    then drive_path drive rest
    else a ∷ drive ∷ rest

-- `replace("//", "/")`
unfoldable pub halve : Text → Text
halve [] = []
halve (a ∷ []) = a ∷ []
halve (a ∷ b ∷ rest) =
    let pair = halve rest in
    let later = halve (b ∷ rest) in if a == b'/' && b == b'/' then b'/' ∷ pair else a ∷ later

-- `contains("//")`
unfoldable pub has_double : Text → Bool
has_double [] = false
has_double (a ∷ []) = false
has_double (a ∷ b ∷ rest) = a == b'/' && b == b'/' || has_double (b ∷ rest)

-- The `while` loop; each round shortens the path.
unfoldable pub squeeze : ℕ → Text → Text
unfolding halve has_double
squeeze zero path = path
squeeze (suc fuel) path =
    let rest = squeeze fuel (halve path) in if has_double path then rest else path

abbrev pub to_slash : ℕ → ℕ
to_slash c = if c == 0x5C then b'/' else c

abbrev pub clean_slashes : Text → Text
clean_slashes path = if starts_with path (chars "//") then path else squeeze (length path) path

unfoldable pub normalize : Text → Text
unfolding squeeze
normalize path = clean_slashes (map to_slash (from_mount (from_wsl path)))
