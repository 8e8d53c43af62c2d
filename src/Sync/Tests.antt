-- ===== src/Sync/Tests.antt =====
-- dir.rs and diff.rs on concrete names and files.
use rsh.Prelude.{◌≡◌, refl, true, false, ◌↔◌, [], ◌∷◌, none}
use rsh.Prelude.Bytes.{Bytes}
use rsh.Text.{chars}
use rsh.Text.Number.{pos}
use rsh.Sync.{Tree, contains, find, plan_sync, glob_match, is_excluded}
use rsh.Sync.Matches.{Matches}
use rsh.Sync.Glob.{glob_match_iff}
use rsh.Sync.Newer.{pulls, pushes, plan_sync_lem}

abbrev pattern : Bytes
pattern = chars "*.t?P"

abbrev file_name : Bytes
file_name = chars "a.t.tmp"

found : glob_match pattern file_name ≡ true
unfolding glob_match
found = refl

-- A literal star in the text takes the star of the pattern.
star_lost : glob_match (chars "*") (chars "*a") ≡ false
unfolding glob_match
star_lost = refl

-- The two bytes of `é`: a `?` takes one of them only.
one_char_of_two_bytes : glob_match (chars "?") (0xC3 ∷ 0xA9 ∷ []) ≡ false
unfolding glob_match
one_char_of_two_bytes = refl

one_char_of_two_places : glob_match (chars "??") (0xC3 ∷ 0xA9 ∷ []) ≡ true
unfolding glob_match
one_char_of_two_places = refl

component_excluded : is_excluded (chars "a\\target\\b.rs") (chars "target" ∷ []) [] ≡ true
unfolding is_excluded
component_excluded = refl

name_excluded : is_excluded (chars "a\\b.TMP") [] (chars "*.tmp" ∷ []) ≡ true
unfolding is_excluded
name_excluded = refl

other_kept :
    is_excluded (chars "a\\targets\\b.rs") (chars "target" ∷ []) (chars "*.tmp" ∷ []) ≡ false
unfolding is_excluded
other_kept = refl

glob_match_iff_example : (glob_match pattern file_name ≡ true) ↔ Matches pattern file_name
glob_match_iff_example =
    glob_match_iff pattern file_name (refl, (refl, (refl, (refl, (refl, (refl, (refl, tt)))))))

abbrev remote_files : Tree
remote_files =
    (chars "a", record { size = pos 3; mtime = pos 10 })
    ∷ (chars "b", record { size = pos 4; mtime = pos 20 })
    ∷ []

abbrev local_files : Tree
local_files =
    (chars "b", record { size = pos 5; mtime = pos 30 })
    ∷ (chars "c", record { size = pos 6; mtime = pos 30 })
    ∷ []

a_is_once : find (chars "a") ((chars "b", record { size = pos 4; mtime = pos 20 }) ∷ []) ≡ none
unfolding find
a_is_once = refl

b_is_once : find (chars "b") [] ≡ none
unfolding find
b_is_once = refl

plan_sync_lem_example :
    (contains (plan_sync remote_files local_files).to_pull (chars "b")
      ≡ pulls (find (chars "b") remote_files) (find (chars "b") local_files))
    × (contains (plan_sync remote_files local_files).to_push (chars "b")
        ≡ pushes (find (chars "b") remote_files) (find (chars "b") local_files))
plan_sync_lem_example =
    plan_sync_lem remote_files local_files (chars "b") (a_is_once, (b_is_once, tt))
