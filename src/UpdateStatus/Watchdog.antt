-- ===== src/UpdateStatus/Watchdog.antt =====
-- What the watchdog does over a run of heartbeats.
use mathlib.Core.Path.{subst}
use rsh.Prelude.{
  ℕ, ◌+◌, ◌-◌, ◌^◌, ◌<◌, ◌≡◌, refl, sym, ap, ◌∙◌, Bool, true, false, List, [], ◌∷◌, arith, min, leb,
  if◌then◌else◌, Bool-cases, inl, inr,
}
use rsh.UpdateStatus.{UpdateStatus, sanitize_reason}
use rsh.UpdateStatus.RoundTrip.{IsValid, parse-encode}
use rsh.UpdateStatus.Store.{
  or_never, Files, read, written, write, WatchdogAction, continue, clear_watchdog,
  rollback_triggered, record_heartbeat_outcome, after_heartbeat,
}

-- A record that is written is read back, its path sanitized.
pub read-write :
    (s : UpdateStatus) (files : Files)
    → IsValid s
    → read (write written s files)
      ≡ record s { previous_binary_path = sanitize_reason s.previous_binary_path }
unfolding read write
read-write s files valid = ap or_never (parse-encode s valid)

-- The heartbeats of a run, whose writes all go through, with their actions.
pub run : List Bool → Files → Files × List WatchdogAction
run [] files = (files, [])
run (success ∷ rest) files =
    let (files', action) = record_heartbeat_outcome written success files in
    let (last, actions) = run rest files' in (last, action ∷ actions)

-- The watchdog without files: armed or not, and the failures so far.
unfoldable pub expected : Bool → ℕ → List Bool → List WatchdogAction
expected armed failures [] = []
expected false failures (success ∷ rest) = continue ∷ expected false failures rest
expected true failures (true ∷ rest) = clear_watchdog ∷ expected false 0 rest
expected true failures (false ∷ rest) =
    let disarmed = expected false 0 rest in
    let armed = expected true (failures + 1) rest in
    if leb 3 (failures + 1) then rollback_triggered ∷ disarmed else continue ∷ armed

after_heartbeat-IsValid :
    (success : Bool) (s : UpdateStatus) → IsValid s → IsValid (after_heartbeat success s).0
after_heartbeat-IsValid success s valid = record {
  status_clean = ground (arith, valid.status_clean);
  ts_fits = ground (arith, valid.ts_fits);
  started_fits = ground (arith, valid.started_fits);
  failures_fit = ground (arith, valid.failures_fit);
}

idle-run :
    (os : List Bool) (files : Files) (n : ℕ)
    → (read files).watchdog_active ≡ false
    → (run os files).1 ≡ expected false n os
unfolding run expected record_heartbeat_outcome
idle-run [] files n idle = refl
idle-run (o ∷ os) files n idle = rw idle (ap (◌∷◌ continue) (idle-run os files n idle))

armed-record_heartbeat_outcome :
    (o : Bool) (files : Files)
    → (read files).watchdog_active ≡ true
    → record_heartbeat_outcome written o files
      ≡ (write written (after_heartbeat o (read files)).0 files, (after_heartbeat o (read files)).1)
unfolding record_heartbeat_outcome
armed-record_heartbeat_outcome o files armed =
    let (s, action) = after_heartbeat o (read files) in
    ap (λ (b : Bool). if b then (write written s files, action) else (files, continue)) armed

-- One heartbeat of an armed watchdog, with the two counts.
expected-after_heartbeat :
    (o : Bool) (os : List Bool) (s : UpdateStatus)
    → s.consecutive_heartbeat_failures < 2 ^ 32
    → s.watchdog_active ≡ true
    → (after_heartbeat o s).1
        ∷ expected
            (after_heartbeat o s).0.watchdog_active
            (after_heartbeat o s).0.consecutive_heartbeat_failures
            os
      ≡ expected true s.consecutive_heartbeat_failures (o ∷ os)
unfolding expected
expected-after_heartbeat true os s h armed = refl
expected-after_heartbeat false os s h armed =
    let n = s.consecutive_heartbeat_failures in
    elim (Bool-cases (leb 3 (n + 1))) [
      | inl third ↦
          let capped : leb 3 (min (n + 1) (2 ^ 32 - 1)) ≡ true = ground arith in
          rw (third, capped) refl
      | inr early ↦
          let capped : leb 3 (min (n + 1) (2 ^ 32 - 1)) ≡ false = ground arith in
          let count : min (n + 1) (2 ^ 32 - 1) ≡ n + 1 = ground arith in
          rw (early, capped, count, armed) refl
    ]

-- The actions of a run are those of the watchdog without files: the state that each heartbeat
-- leaves in `last_update.json` is the state that the next one finds. The numbers in the record
-- that the run begins with fit their types, its status has no quotes, and every write succeeds.
pub run-expected :
    (os : List Bool) (files : Files)
    → IsValid (read files)
    → (run os files).1
      ≡ expected (read files).watchdog_active (read files).consecutive_heartbeat_failures os
unfolding run expected
run-expected [] files valid = refl
run-expected (o ∷ os) files valid =
    let n = (read files).consecutive_heartbeat_failures in
    let s = (after_heartbeat o (read files)).0 in
    let valid' = after_heartbeat-IsValid o (read files) valid in
    let stored = read-write s files valid' in
    let valid'' : IsValid (read (write written s files)) = subst IsValid (sym stored) (record {
      status_clean = valid'.status_clean;
      ts_fits = valid'.ts_fits;
      started_fits = valid'.started_fits;
      failures_fit = valid'.failures_fit;
    }) in
    let rest = run-expected os (write written s files) valid'' in
    elim (Bool-cases (read files).watchdog_active) [
      | inr idle ↦
          idle-run (o ∷ os) files n idle ∙ sym (ap (λ (b : Bool). expected b n (o ∷ os)) idle)
      | inl armed ↦
          ap (λ (r : Files × WatchdogAction). r.1 ∷ (run os r.0).1)
            (armed-record_heartbeat_outcome o files armed)
          ∙ ap (◌∷◌ (after_heartbeat o (read files)).1) (
              rest
              ∙ ap
                  (λ (t : UpdateStatus).
                    expected t.watchdog_active t.consecutive_heartbeat_failures os)
                  stored)
          ∙ expected-after_heartbeat o os (read files) valid.failures_fit armed
          ∙ sym (ap (λ (b : Bool). expected b n (o ∷ os)) armed)
    ]
