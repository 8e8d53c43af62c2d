-- ===== src/Sync.antt =====
-- crates/mrsh-client/src/sync: which files a directory sync leaves out (dir.rs), and what it does
-- with each of the others (diff.rs). A path is its bytes; a hash map is an association list.
pub mod Matches
pub mod Glob
pub mod Newer
mod Tests
use rsh.Prelude.{
  ℕ, zero, suc, ◌+◌, ◌*◌, Bool, true, false, not, ◌&&◌, ◌||◌, Option, none, some, List, [], ◌∷◌,
  ◌++◌, ltb, leb, ◌==◌, if◌then◌else◌, length, drop,
}
use rsh.Prelude.Bytes.{Bytes}
use rsh.Text.{text_eq}
use rsh.Text.Number.{ℤ, pos, negsuc}

abbrev pub ascii_lower : ℕ → ℕ
ascii_lower c = if leb b'A' c && leb c b'Z' then c + 32 else c

-- `u8::eq_ignore_ascii_case`
abbrev pub eq_ignore_ascii_case : ℕ → ℕ → Bool
eq_ignore_ascii_case a b = ascii_lower a == ascii_lower b

-- The first test of the loop, on a byte of the pattern and one of the text.
abbrev pub takes : ℕ → ℕ → Bool
takes c d = c == b'?' || eq_ignore_ascii_case c d

abbrev pub only_stars : Bytes → Bool
only_stars [] = true
only_stars (c ∷ cs) = c == b'*' && only_stars cs

-- The place behind the last `*`, and what of the text was left there.
abbrev pub Star : Type 0
Star = Option (Bytes × Bytes)

-- One round at a byte of the text: the pattern, the text and the star for the next round. `none`
-- is `return false`.
unfoldable pub round : Bytes → ℕ → Bytes → Star → Option (Bytes × Bytes × Star)
round [] d ds none = none
round [] d ds (some (bp, bt)) = some (bp, drop 1 bt, some (bp, drop 1 bt))
round (c ∷ cs) d ds none =
    if takes c d
    then some (cs, ds, none)
    else if c == b'*'
    then some (cs, d ∷ ds, some (cs, d ∷ ds))
    else none
round (c ∷ cs) d ds (some (bp, bt)) =
    if takes c d
    then some (cs, ds, some (bp, bt))
    else if c == b'*'
    then some (cs, d ∷ ds, some (cs, d ∷ ds))
    else some (bp, drop 1 bt, some (bp, drop 1 bt))

-- The loops of `glob_match`. What is left of the pattern and the text stands for the indices.
pub glob_loop : ℕ → Bytes → Bytes → Star → Bool
unfolding round
glob_loop zero p t star = false
glob_loop (suc fuel) p [] star = only_stars p
glob_loop (suc fuel) p (d ∷ ds) star = elim (round p d ds star) [
  | none ↦ false
  | some (p', t', star') ↦ glob_loop fuel p' t' star'
]

abbrev pub rounds : Bytes → Bytes → ℕ
rounds p t = (length t + 1) * (length p + 1) + length p + 1

unfoldable pub glob_match : Bytes → Bytes → Bool
unfolding glob_loop
glob_match p t = glob_loop (rounds p t) p t none

-- `rel.split('\\')`, from the component read so far on
pub components : Bytes → Bytes → List Bytes
components part [] = part ∷ []
components part (c ∷ cs) =
    let rest = components (if c == 0x5C then [] else part ++ (c ∷ [])) cs in
    if c == 0x5C then part ∷ rest else rest

-- `rel.rsplit('\\').next()`: the last component
pub last_of : Bytes → List Bytes → Bytes
last_of part [] = part
last_of part (x ∷ xs) = last_of x xs

pub contains : List Bytes → Bytes → Bool
contains [] x = false
contains (y ∷ ys) x = text_eq y x || contains ys x

pub any_component : List Bytes → List Bytes → Bool
unfolding contains
any_component dirs [] = false
any_component dirs (x ∷ xs) = contains dirs x || any_component dirs xs

pub any_glob : Bytes → Bytes → List Bytes → Bool
unfolding glob_match
any_glob filename rel [] = false
any_glob filename rel (pat ∷ pats) =
    glob_match pat filename || glob_match pat rel || any_glob filename rel pats

unfoldable pub is_excluded : Bytes → List Bytes → List Bytes → Bool
unfolding components last_of any_component any_glob
is_excluded rel dirs globs =
    any_component dirs (components [] rel) || any_glob (last_of rel (components [] rel)) rel globs

-- `<` and `==` of i64
abbrev pub int_ltb : ℤ → ℤ → Bool
int_ltb (pos m) (pos n) = ltb m n
int_ltb (pos m) (negsuc n) = false
int_ltb (negsuc m) (pos n) = true
int_ltb (negsuc m) (negsuc n) = ltb n m

abbrev pub int_eq : ℤ → ℤ → Bool
int_eq (pos m) (pos n) = m == n
int_eq (pos m) (negsuc n) = false
int_eq (negsuc m) (pos n) = false
int_eq (negsuc m) (negsuc n) = m == n

-- Size and time of modification, as `(i64, i64)`; a time of 0 is unknown.
pub record Entry : Type 0 where
  pub size : ℤ
  pub mtime : ℤ

pub data Decision : Type 0 where
  unchanged pull push : Decision

-- The branches for a path on both sides: `remote` and `local`.
unfoldable pub decide : Entry → Entry → Decision
decide remote local =
    let zero_int : ℤ = pos 0 in
    let same_size = int_eq remote.size local.size in
    let no_time = int_eq remote.mtime zero_int || int_eq local.mtime zero_int in
    let both_times = int_ltb zero_int remote.mtime && int_ltb zero_int local.mtime in
    if same_size && (no_time || int_eq remote.mtime local.mtime)
    then unchanged
    else if same_size && int_eq remote.mtime local.mtime
    then unchanged
    else if both_times && int_ltb local.mtime remote.mtime
    then pull
    else if both_times && int_ltb remote.mtime local.mtime
    then push
    else if not same_size && no_time
    then pull
    else pull

abbrev pub Tree : Type 0
Tree = List (Bytes × Entry)

pub find : Bytes → Tree → Option Entry
find rel [] = none
find rel ((key, e) ∷ rest) = if text_eq key rel then some e else find rel rest

pub record Plan : Type 0 where
  pub to_pull : List Bytes
  pub to_push : List Bytes
  pub unchanged_count : ℕ

abbrev pub empty : Plan
empty = record { to_pull = []; to_push = []; unchanged_count = 0 }

abbrev pub add : Bytes → Decision → Plan → Plan
add rel unchanged plan = record plan { unchanged_count = plan.unchanged_count + 1 }
add rel pull plan = record plan { to_pull = rel ∷ plan.to_pull }
add rel push plan = record plan { to_push = rel ∷ plan.to_push }

-- `match local_map.get(rel)`
abbrev pub decide_for : Entry → Option Entry → Decision
decide_for remote none = pull
decide_for remote (some local) = decide remote local

-- The loop over the remote files, and the loop over those that are only local.
pub plan_remote : Tree → Tree → Plan
unfolding find decide
plan_remote local [] = empty
plan_remote local ((rel, e) ∷ rest) =
    let plan = plan_remote local rest in add rel (decide_for e (find rel local)) plan

-- `if !remote_map.contains_key(rel)`
abbrev pub if_absent : Option Entry → Bytes → List Bytes → List Bytes
if_absent none rel others = rel ∷ others
if_absent (some _) rel others = others

pub only_local : Tree → Tree → List Bytes
unfolding find
only_local remote [] = []
only_local remote ((rel, e) ∷ rest) = if_absent (find rel remote) rel (only_local remote rest)

unfoldable pub plan_sync : Tree → Tree → Plan
unfolding plan_remote only_local
plan_sync remote local =
    let plan = plan_remote local remote in
    record plan { to_push = plan.to_push ++ only_local remote local }
