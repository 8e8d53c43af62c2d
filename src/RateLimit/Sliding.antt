-- ===== src/RateLimit/Sliding.antt =====
-- The pruned list of a record against the whole history of an address: a sliding window.
use rsh.Prelude.{
  ℕ, ◌+◌, ◌≤◌, ◌<◌, ◌≡◌, refl, sym, ap, ◌∙◌, false, none, List, [], ◌∷◌, ◌++◌, arith, ltb, leb,
  if◌then◌else◌, length, length-append, append_assoc, append-nil,
}
use rsh.RateLimit.{
  Records, IpRecord, max_failures, window, get, retain, entry, fail_record, record_failure,
}
use rsh.RateLimit.Records.{get-insert, retain-retain, retain-append}

-- How many of the times are less than a window before `now`.
abbrev pub count_within : ℕ → List ℕ → ℕ
count_within now [] = 0
count_within now (t ∷ ts) = (if ltb now (t + window) then 1 else 0) + count_within now ts

length-retain : (now : ℕ) (ts : List ℕ) → length (retain now ts) ≡ count_within now ts
unfolding retain
length-retain now [] = refl
length-retain now (t ∷ ts) = ground (arith, length-retain now ts)

length-retain-le : (now : ℕ) (ts : List ℕ) → length (retain now ts) ≤ length ts
unfolding retain
length-retain-le now [] = omega arith
length-retain-le now (t ∷ ts) = ground (arith, length-retain-le now ts)

-- One failure after the other, at the times given.
abbrev pub fail_all : ℕ → List ℕ → Records → Records
fail_all ip [] m = m
fail_all ip (t ∷ ts) m = fail_all ip ts (record_failure t ip m).0

-- None of them brings a ban.
abbrev pub NoneBans : ℕ → List ℕ → Records → Type 0
NoneBans ip [] m = Unit
NoneBans ip (t ∷ ts) m =
    ((record_failure t ip m).1 ≡ false) × NoneBans ip ts (record_failure t ip m).0

-- The times do not go back, from `start` to `end`.
abbrev pub Ascending : ℕ → List ℕ → ℕ → Type 0
Ascending start [] end = start ≤ end
Ascending start (t ∷ ts) end = (start ≤ t) × Ascending t ts end

record Tracks (ip last : ℕ) (history : List ℕ) (m : Records) : Type 0 where
  free : (entry (get ip m)).banned_until ≡ none
  few : length (entry (get ip m)).failures < max_failures
  same : (t : ℕ) → last ≤ t → retain t (entry (get ip m)).failures ≡ retain t history

module _ (ip last now : ℕ) (history : List ℕ) (m : Records) (tr : Tracks ip last history m)
    (later : last ≤ now) where
  abbrev kept : List ℕ
  kept = retain now (entry (get ip m)).failures

  short : length kept < max_failures
  short = omega (arith, length-retain-le now (entry (get ip m)).failures, tr.few)

  answer : (record_failure now ip m).1 ≡ leb max_failures (count_within now history + 1)
  unfolding record_failure
  answer = rw (tr.free) (
      ground (
        arith,
        length-append kept (now ∷ []),
        ap length (tr.same now later),
        length-retain now history,
        short,
      ))

  entry-record_failure :
      (record_failure now ip m).1 ≡ false
      → entry (get ip (record_failure now ip m).0)
        ≡ record { failures = kept ++ (now ∷ []); banned_until = none }
  unfolding record_failure
  entry-record_failure h =
      ground (arith, tr.free, get-insert ip ip (fail_record now (entry (get ip m))).0 m)

  Tracks-record_failure :
      (record_failure now ip m).1 ≡ false
      → Tracks ip now (history ++ (now ∷ [])) (record_failure now ip m).0
  Tracks-record_failure h =
      let e = entry-record_failure h in
      record {
        free = ap (λ (r : IpRecord). r.banned_until) e;
        few = rw e (
            ground (
              arith,
              answer,
              length-append kept (now ∷ []),
              ap length (tr.same now later),
              length-retain now history,
            ));
        same = λ t le.
            ap (λ (r : IpRecord). retain t r.failures) e
            ∙ retain-append t kept (now ∷ [])
            ∙ ap (λ s. s ++ retain t (now ∷ []))
                (retain-retain now t _ le ∙ tr.same t (omega arith))
            ∙ sym (retain-append t history (now ∷ []));
      }

Tracks-fail_all :
    (ip last now : ℕ) (history ts : List ℕ) (m : Records)
    → Tracks ip last history m
    → Ascending last ts now
    → NoneBans ip ts m
    → Tracks ip now (history ++ ts) (fail_all ip ts m)
Tracks-fail_all ip last now history [] m tr asc none_bans = record {
  free = tr.free;
  few = tr.few;
  same = λ t le. tr.same t (omega arith) ∙ ap (retain t) (sym (append-nil history));
}
Tracks-fail_all ip last now history (t ∷ ts) m tr asc none_bans =
    rw (← append_assoc history (t ∷ []) ts) (
      Tracks-fail_all ip t now (history ++ (t ∷ [])) ts (record_failure t ip m).0
        (Tracks-record_failure ip last t history m tr asc.0 none_bans.0) asc.1 none_bans.1)

-- For an address with no record, after failures at the times `ts` in order, none of which brought
-- a ban, one more failure at `now` brings the ban exactly if at least four of them are less than
-- 60 seconds old.
pub record_failure_window :
    (ip start now : ℕ) (ts : List ℕ) (m : Records)
    → get ip m ≡ none
    → Ascending start ts now
    → NoneBans ip ts m
    → (record_failure now ip (fail_all ip ts m)).1 ≡ leb 4 (count_within now ts)
record_failure_window ip start now ts m fresh asc none_bans =
    answer ip now now ts (fail_all ip ts m) tracked (omega arith) ∙ ground arith
  where
    tracked : Tracks ip now ts (fail_all ip ts m)
    tracked =
        Tracks-fail_all ip start now [] ts m
          (record { free = rw fresh; few = rw fresh (omega arith); same = λ t le. rw fresh }) asc
          none_bans
