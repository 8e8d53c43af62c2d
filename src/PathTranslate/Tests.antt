-- ===== src/PathTranslate/Tests.antt =====
-- path_translate.rs on the paths of its own tests.
use rsh.Prelude.{◌≡◌, refl, true, none, some, []}
use rsh.Text.{chars}
use rsh.PathTranslate.{
  linux, windows, unknown, classify_os, translate_remote_path, join_home, to,
  strip_gitbash_user_prefix, strip_windows_user_prefix, strip_msys_temp_prefix,
}
use rsh.PathTranslate.Forms.{drive_slash, translate_remote_path-mangled}

families :
    (classify_os (chars "/root") ≡ linux)
    × (classify_os (chars "C:/Users/user") ≡ windows)
    × (classify_os (chars "relative/path") ≡ unknown)
unfolding classify_os
families = (refl, refl, refl)

documents :
    translate_remote_path (chars "~/Documents/x.txt") (chars "C:\\Users\\admin") windows none
    ≡ to (chars "~/Documents/x.txt") true (chars "C:\\Users\\admin\\Documents\\x.txt")
unfolding translate_remote_path join_home
documents = refl

temp :
    (translate_remote_path (chars "C:\\Temp\\gyro.apk") (chars "/home/user") linux none).remote
    ≡ chars "/tmp/gyro.apk"
unfolding translate_remote_path strip_gitbash_user_prefix strip_windows_user_prefix
    strip_msys_temp_prefix
temp = refl

-- Where the home directory is `/`, the path of `~/` is empty.
root_home : (translate_remote_path (chars "~/") (chars "/") linux none).remote ≡ []
unfolding translate_remote_path join_home
root_home = refl

translate_remote_path-mangled_example :
    ((translate_remote_path
        (chars "C:/Users/User/a")
        (chars "/root")
        linux
        (some (chars "user"))).remote
      ≡ (translate_remote_path (chars "~/a") (chars "/root") linux (some (chars "user"))).remote)
    × ((translate_remote_path
          (chars "C:/Users/User/a")
          (chars "/root")
          linux
          (some (chars "user"))).rewritten
        ≡ true)
translate_remote_path-mangled_example =
    translate_remote_path-mangled drive_slash b'C' (chars "User") (chars "a") (chars "/root") linux
      (some (chars "user")) refl (refl, (refl, (refl, (refl, tt)))) refl (λ e. cc) refl refl
