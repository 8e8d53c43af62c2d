-- ===== src/RateLimit/Tests.antt =====
-- ratelimit.rs on concrete addresses and times.
use rsh.Prelude.{ℕ, ◌≡◌, ◌≢◌, refl, true, false, List, [], ◌∷◌, arith, none, leb}
use rsh.RateLimit.{Records, get, is_banned, record_failure, record_success, cleanup}
use rsh.RateLimit.Sliding.{count_within, fail_all, NoneBans, record_failure_window}
use rsh.RateLimit.Cleanup.{Op, failure, success, query, sweep, run, unswept, run-unswept}

abbrev four_times : List ℕ
four_times = 100 ∷ 110 ∷ 120 ∷ 130 ∷ []

abbrev after_four : Records
after_four = fail_all 7 four_times []

fifth_bans : (record_failure 159 7 after_four).1 ≡ true
unfolding record_failure
fifth_bans = refl

late_fifth_passes : (record_failure 160 7 after_four).1 ≡ false
unfolding record_failure
late_fifth_passes = refl

seven_ne_eight : ◌≢◌ {A = ℕ} 7 8
seven_ne_eight e = absurd (omega arith)

none_bans : NoneBans 7 four_times []
unfolding record_failure
none_bans = (refl, (refl, (refl, (refl, tt))))

no_record : get 7 [] ≡ none
unfolding get
no_record = refl

record_failure_window_example :
    (record_failure 159 7 after_four).1 ≡ leb 4 (count_within 159 four_times)
record_failure_window_example =
    record_failure_window 7 100 159 four_times [] no_record (omega arith) none_bans

abbrev busy_day : List Op
busy_day =
    failure 100 7
    ∷ failure 101 7
    ∷ sweep 102
    ∷ failure 103 7
    ∷ failure 104 7
    ∷ failure 105 7
    ∷ query 106 7
    ∷ sweep 405
    ∷ query 406 7
    ∷ success 407 7
    ∷ []

busy_day_answers : run busy_day [] ≡ false ∷ false ∷ false ∷ false ∷ true ∷ true ∷ false ∷ []
unfolding record_failure record_success is_banned cleanup
busy_day_answers = refl

run-unswept_example : run busy_day [] ≡ run (unswept busy_day) []
run-unswept_example = run-unswept 100 busy_day (omega arith)
