-- ===== src/RateLimit.antt =====
-- crates/mrsh-server/src/ratelimit.rs: bans after failed authentications. An address is a number,
-- the clock is the argument `now`, in seconds (`Instant::now()`, read once by each method), and the
-- hash map is an association list.
pub mod Records
pub mod Bans
pub mod Sliding
pub mod Cleanup
mod Tests
use rsh.Prelude.{
  ℕ, ◌+◌, ◌-◌, ◌%◌, ◌^◌, Bool, true, false, Option, none, some, List, [], ◌∷◌, ◌++◌, ltb, leb, ◌==◌,
  not, if◌then◌else◌, length,
}

abbrev pub max_failures : ℕ
max_failures = 5

abbrev pub window : ℕ
window = 60

abbrev pub ban_duration : ℕ
ban_duration = 300

pub record IpRecord : Type 0 where
  pub failures : List ℕ
  pub banned_until : Option ℕ

abbrev pub Records : Type 0
Records = List (ℕ × IpRecord)

-- `HashMap::get`, `insert` and `remove`
unfoldable pub get : ℕ → Records → Option IpRecord
get ip [] = none
get ip ((key, r) ∷ rest) = if key == ip then some r else get ip rest

pub remove : ℕ → Records → Records
remove ip [] = []
remove ip ((key, r) ∷ rest) =
    let others = remove ip rest in if key == ip then others else (key, r) ∷ others

pub insert : ℕ → IpRecord → Records → Records
unfolding remove
insert ip r records = (ip, r) ∷ remove ip records

-- Whether a ban holds at `now`.
abbrev pub holds : ℕ → Option ℕ → Bool
holds now none = false
holds now (some until) = ltb now until

unfoldable pub is_banned : ℕ → ℕ → Records → Bool
unfolding get
is_banned now ip records = elim (get ip records) [
  | none ↦ false
  | some r ↦ holds now r.banned_until
]

-- `failures.retain(|t| now.duration_since(*t) < WINDOW)`; `duration_since` stops at 0
pub retain : ℕ → List ℕ → List ℕ
retain now [] = []
retain now (t ∷ ts) = let rest = retain now ts in if ltb (now - t) window then t ∷ rest else rest

-- `entry(ip).or_insert_with(..)`
abbrev pub entry : Option IpRecord → IpRecord
entry none = record { failures = []; banned_until = none }
entry (some r) = r

-- What `record_failure` does to a record that is not banned at `now`: an expired ban is lifted
-- with its failures, the old failures go, and this one is added.
unfoldable pub add_failure : ℕ → IpRecord → IpRecord × Bool
unfolding retain
add_failure now r =
    let lifted : List ℕ = elim r.banned_until [ none ↦ r.failures | some _ ↦ [] ] in
    let failures = retain now lifted ++ (now ∷ []) in
    if leb max_failures (length failures % 2 ^ 32)
    then (record { failures = failures; banned_until = some (now + ban_duration) }, true)
    else (record { failures = failures; banned_until = none }, false)

-- `record_failure` on the record: one that is banned at `now` stays as it is.
unfoldable pub fail_record : ℕ → IpRecord → IpRecord × Bool
unfolding add_failure
fail_record now r = if holds now r.banned_until then (r, true) else add_failure now r

unfoldable pub record_failure : ℕ → ℕ → Records → Records × Bool
unfolding get insert fail_record
record_failure now ip records =
    let (r, banned) = fail_record now (entry (get ip records)) in (insert ip r records, banned)

unfoldable pub record_success : ℕ → Records → Records
unfolding remove
record_success ip records = remove ip records

abbrev pub is_empty : List ℕ → Bool
is_empty [] = true
is_empty (t ∷ ts) = false

-- One record under the closure of `cleanup`: kept (some) or dropped (none). A record under a ban
-- is kept as it is; any other keeps its recent failures.
unfoldable pub cleaned : ℕ → IpRecord → Option IpRecord
unfolding retain
cleaned now r =
    if holds now r.banned_until
    then some r
    else if is_empty (retain now r.failures)
    then none
    else some (record r { failures = retain now r.failures })

unfoldable pub cleanup : ℕ → Records → Records
unfolding cleaned
cleanup now [] = []
cleanup now ((ip, r) ∷ rest) =
    let others = cleanup now rest in
    elim (cleaned now r) [ none ↦ others | some r' ↦ (ip, r') ∷ others ]
