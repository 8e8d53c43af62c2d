-- ===== src/Session/Tests.antt =====
-- session.rs on concrete sessions.
use rsh.Prelude.{◌≡◌, refl, [], ◌∷◌, false, some}
use rsh.Text.{chars}
use rsh.Text.Number.{show_nat}
use rsh.Session.{Sessions, SessionEntry, days_to_date, format_unix_ts, find}

dates :
    (days_to_date 0 ≡ (1970, 1, 1))
    × (days_to_date 11016 ≡ (2000, 2, 29))
    × (days_to_date 20000 ≡ (2024, 10, 4))
unfolding days_to_date
dates = (refl, refl, refl)

timestamp : format_unix_ts 951827696 ≡ chars "2000-02-29T12:34:56Z"
unfolding format_unix_ts days_to_date show_nat
timestamp = refl

abbrev shell : SessionEntry
shell = record {
  id = 7;
  command = chars "bash";
  cols = 80;
  rows = 24;
  created_at = 100;
  last_activity = 100;
  client_count = 0;
  has_exited = false;
}

abbrev one_session : Sessions
one_session = (7, shell) ∷ []

shell_found : find 7 one_session ≡ some shell
unfolding find
shell_found = refl
