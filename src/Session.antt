-- ===== src/Session.antt =====
-- crates/mrsh-server/src/session.rs: the sessions that outlive a connection. The hash map is an
-- association list, an id of 128 random bits is a number that `create` is given, and the clock is
-- the argument `now`, in seconds.
pub mod Clients
mod Tests
use rsh.Prelude.{
  ℕ, zero, suc, ◌+◌, ◌-◌, ◌*◌, ◌/◌, ◌%◌, ◌^◌, Bool, true, false, ◌&&◌, Option, none, some, List, [],
  ◌∷◌, ◌++◌, ltb, leb, ◌==◌, if◌then◌else◌, length, map,
}
use rsh.Text.{Text, chars}
use rsh.Text.Number.{show_nat}

pub data SessionState : Type 0 where
  attached detached exited : SessionState

pub record SessionInfo : Type 0 where
  pub id : ℕ
  pub command : Text
  pub user : Text
  pub state : SessionState
  pub clients : ℕ
  pub created : Text
  pub idle_secs : ℕ
  pub cols : ℕ
  pub rows : ℕ

pub record SessionEntry : Type 0 where
  pub id : ℕ
  pub command : Text
  pub cols : ℕ
  pub rows : ℕ
  pub created_at : ℕ
  pub last_activity : ℕ
  pub client_count : ℕ
  pub has_exited : Bool

abbrev pub Sessions : Type 0
Sessions = List (ℕ × SessionEntry)

-- `HashMap::get` and `remove`, and `get_mut` with an assignment
unfoldable pub find : ℕ → Sessions → Option SessionEntry
find id [] = none
find id ((key, s) ∷ rest) = if key == id then some s else find id rest

unfoldable pub remove : ℕ → Sessions → Sessions
remove id [] = []
remove id ((key, s) ∷ rest) =
    let others = remove id rest in if key == id then others else (key, s) ∷ others

unfoldable pub modify : ℕ → (SessionEntry → SessionEntry) → Sessions → Sessions
modify id change [] = []
modify id change ((key, s) ∷ rest) =
    let others = modify id change rest in
    if key == id then (key, change s) ∷ others else (key, s) ∷ others

-- Days since 1970 as year, month and day, for days that are not negative.
unfoldable pub days_to_date : ℕ → ℕ × ℕ × ℕ
days_to_date days =
    let z = days + 719468 in
    let era = z / 146097 in
    let doe = z - era * 146097 in
    let yoe = (doe - doe / 1460 + doe / 36524 - doe / 146096) / 365 in
    let y = yoe + era * 400 in
    let doy = doe - (365 * yoe + yoe / 4 - yoe / 100) in
    let mp = (5 * doy + 2) / 153 in
    let d = doy - (153 * mp + 2) / 5 + 1 in
    let m = if ltb mp 10 then mp + 3 else mp - 9 in (if leb m 2 then y + 1 else y, m, d)

-- `{:04}` and `{:02}`
padded : ℕ → Text → Text
padded width text = zeros (width - length text) text
  where
    zeros : ℕ → Text → Text
    zeros zero text = text
    zeros (suc n) text = b'0' ∷ zeros n text

unfoldable pub format_unix_ts : ℕ → Text
unfolding days_to_date padded
format_unix_ts ts =
    let day_secs = ts % 86400 in
    let (y, m, d) = days_to_date (ts / 86400) in
    padded 4 (show_nat y)
    ++ (chars "-"
        ++ (padded 2 (show_nat m)
            ++ (chars "-"
                ++ (padded 2 (show_nat d)
                    ++ (chars "T"
                        ++ (padded 2 (show_nat (day_secs / 3600))
                            ++ (chars ":"
                                ++ (padded 2 (show_nat (day_secs % 3600 / 60))
                                    ++ (chars ":"
                                        ++ (padded 2 (show_nat (day_secs % 60))
                                            ++ chars "Z"))))))))))

unfoldable pub create : ℕ → ℕ → Text → ℕ → ℕ → Sessions → Sessions × ℕ
unfolding remove
create now id command cols rows sessions = (
  (
    id,
    record {
      id = id;
      command = command;
      cols = cols;
      rows = rows;
      created_at = now;
      last_activity = now;
      client_count = 1;
      has_exited = false;
    },
  )
      ∷ remove id sessions,
  id,
)

abbrev pub state_of : SessionEntry → SessionState
state_of s = if s.has_exited then exited else if ltb 0 s.client_count then attached else detached

unfoldable pub info : ℕ → SessionEntry → SessionInfo
unfolding format_unix_ts
info now s = record {
  id = s.id;
  command = s.command;
  user = [];
  state = state_of s;
  clients = s.client_count;
  created = format_unix_ts s.created_at;
  idle_secs = now - s.last_activity;
  cols = s.cols;
  rows = s.rows;
}

unfoldable pub list : ℕ → Sessions → List SessionInfo
unfolding info
list now sessions = map (λ (e : ℕ × SessionEntry). info now e.1) sessions

unfoldable pub kill : ℕ → Sessions → Sessions × Bool
unfolding find remove
kill id sessions = (remove id sessions, elim (find id sessions) [ none ↦ false | some _ ↦ true ])

unfoldable pub get_info : ℕ → ℕ → Sessions → Option SessionInfo
unfolding find info
get_info now id sessions = elim (find id sessions) [ none ↦ none | some s ↦ some (info now s) ]

abbrev pub one_more : ℕ → SessionEntry → SessionEntry
one_more now s = record s { client_count = (s.client_count + 1) % 2 ^ 64; last_activity = now }

abbrev pub one_fewer : SessionEntry → SessionEntry
one_fewer s = record s { client_count = s.client_count - 1 }

unfoldable pub attach : ℕ → ℕ → Sessions → Sessions × Bool
unfolding find modify
attach now id sessions =
    (modify id (one_more now) sessions, elim (find id sessions) [ none ↦ false | some _ ↦ true ])

unfoldable pub detach : ℕ → Sessions → Sessions
unfolding modify
detach id sessions = modify id one_fewer sessions

abbrev pub is_idle : ℕ → ℕ → SessionEntry → Bool
is_idle now max_idle_secs s = s.client_count == 0 && ltb max_idle_secs (now - s.last_activity)

pub to_remove : ℕ → ℕ → Sessions → List ℕ
to_remove now max_idle_secs [] = []
to_remove now max_idle_secs ((id, s) ∷ rest) =
    let others = to_remove now max_idle_secs rest in
    if is_idle now max_idle_secs s then id ∷ others else others

pub remove_all : List ℕ → Sessions → Sessions
unfolding remove
remove_all [] sessions = sessions
remove_all (id ∷ ids) sessions = remove_all ids (remove id sessions)

unfoldable pub cleanup : ℕ → ℕ → Sessions → Sessions × ℕ
unfolding to_remove remove_all
cleanup now max_idle_secs sessions =
    let ids = to_remove now max_idle_secs sessions in (remove_all ids sessions, length ids)
