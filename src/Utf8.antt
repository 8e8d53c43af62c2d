-- ===== src/Utf8.antt =====
-- `std::str::from_utf8`: which byte strings are UTF-8. A `str` of the program is modelled by its
-- bytes. The walk keeps how many continuation bytes are due, and the range of the next one.
use rsh.Prelude.{
  ℕ, ◌≡◌, Bool, true, false, ◌&&◌, Option, none, some, List, [], ◌∷◌, leb, ◌==◌, if◌then◌else◌, ◌-◌,
}
use rsh.Prelude.Bytes.{Bytes}

record Due : Type 0 where
  count : ℕ
  low : ℕ
  high : ℕ

abbrev due : ℕ → ℕ → ℕ → Option Due
due n lo hi = some (record { count = n; low = lo; high = hi })

abbrev within : ℕ → ℕ → ℕ → Bool
within lo hi b = leb lo b && leb b hi

first_byte : ℕ → Option Due
first_byte b =
    if leb b 0x7F
    then due 0 0 0
    else if within 0xC2 0xDF b
    then due 1 0x80 0xBF
    else if b == 0xE0
    then due 2 0xA0 0xBF
    else if b == 0xED
    then due 2 0x80 0x9F
    else if within 0xE1 0xEF b
    then due 2 0x80 0xBF
    else if b == 0xF0
    then due 3 0x90 0xBF
    else if within 0xF1 0xF3 b
    then due 3 0x80 0xBF
    else if b == 0xF4
    then due 3 0x80 0x8F
    else none

next_byte : Due → ℕ → Option Due
unfolding first_byte
next_byte d b =
    if d.count == 0
    then first_byte b
    else if within d.low d.high b
    then due (d.count - 1) 0x80 0xBF
    else none

walk : Due → Bytes → Bool
walk d [] = d.count == 0
walk d (b ∷ bs) = elim (next_byte d b) [ none ↦ false | some d' ↦ walk d' bs ]

unfoldable pub from_utf8 : Bytes → Bool
unfolding walk next_byte
from_utf8 = walk (record { count = 0; low = 0; high = 0 })

-- The bytes of a `str`.
abbrev pub IsUtf8 : Bytes → Type 0
IsUtf8 s = from_utf8 s ≡ true

abbrev pub AllUtf8 : List Bytes → Type 0
AllUtf8 [] = Unit
AllUtf8 (s ∷ ss) = IsUtf8 s × AllUtf8 ss
