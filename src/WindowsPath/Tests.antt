-- ===== src/WindowsPath/Tests.antt =====
-- path.rs on the paths of its own tests.
use rsh.Prelude.{◌≡◌, refl, if◌then◌else◌}
use rsh.Text.{chars}
use rsh.Text.Split.{starts_with}
use rsh.WindowsPath.{normalize, from_wsl, from_mount, squeeze, halve, has_double}
use rsh.WindowsPath.Slashes.{collapse, turned, normalize-collapse}

documented :
    (normalize (chars "/mnt/c/Users") ≡ chars "C:/Users")
    × (normalize (chars "/c") ≡ chars "C:/")
    × (normalize (chars "C:\\Users\\\\x") ≡ chars "C:/Users/x")
    × (normalize (chars "\\\\server\\share") ≡ chars "//server/share")
unfolding normalize from_wsl from_mount squeeze halve has_double
documented = (refl, refl, refl, refl)

-- With backslashes a mounted drive is turned only by a second pass.
second_pass :
    (normalize (chars "\\c\\Users") ≡ chars "/c/Users")
    × (normalize (chars "/c/Users") ≡ chars "C:/Users")
unfolding normalize from_wsl from_mount squeeze halve has_double
second_pass = (refl, refl)

normalize-collapse_example :
    (normalize (chars "/mnt/c/a") ≡ normalize (chars "C:/a"))
    × (normalize (chars "/c/a") ≡ normalize (chars "C:/a"))
    × (normalize (chars "a//b///c") ≡ (
        if starts_with (turned (chars "a//b///c")) (chars "//")
        then turned (chars "a//b///c")
        else collapse (turned (chars "a//b///c"))))
normalize-collapse_example = normalize-collapse (chars "a//b///c") b'c' (chars "a") refl
