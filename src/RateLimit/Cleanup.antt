-- ===== src/RateLimit/Cleanup.antt =====
-- The periodic `cleanup` cannot be noticed: it changes no later answer.
use rsh.Prelude.{
  ℕ, ◌≤◌, ◌≡◌, refl, sym, ap, ◌∙◌, Bool, false, Option, none, some, List, [], ◌∷◌, arith, ◌==◌,
  Bool-cases, inl, inr,
}
use rsh.RateLimit.{
  Records, IpRecord, get, holds, is_banned, retain, entry, add_failure, fail_record, record_failure,
  record_success, cleaned, cleanup,
}
use rsh.RateLimit.Records.{
  get-insert, get-remove, Distinct, Distinct-insert, Distinct-remove, Distinct-cleanup,
  cleaned_option, get-cleanup, retain-retain,
}

Distinct-record_failure : (t ip : ℕ) (m : Records) → Distinct m → Distinct (record_failure t ip m).0
unfolding record_failure
Distinct-record_failure t ip m d = Distinct-insert ip (fail_record t (entry (get ip m))).0 m d

Distinct-record_success : (ip : ℕ) (m : Records) → Distinct m → Distinct (record_success ip m)
unfolding record_success
Distinct-record_success ip m d = Distinct-remove ip m d

-- What the methods can see of a record at time t: whether a ban holds, and which failures count.
abbrev countable : IpRecord → List ℕ
countable r = elim r.banned_until [ none ↦ r.failures | some _ ↦ [] ]

-- From `now` on the two records cannot be told apart.
record SameRecord (now : ℕ) (a b : IpRecord) : Type 0 where
  held : (t : ℕ) → now ≤ t → holds t a.banned_until ≡ holds t b.banned_until
  counted :
      (t : ℕ)
      → now ≤ t
      → holds t a.banned_until ≡ false
      → retain t (countable a) ≡ retain t (countable b)

record Same (now : ℕ) (a b : Records) : Type 0 where
  at : (ip : ℕ) → SameRecord now (entry (get ip a)) (entry (get ip b))

SameRecord-refl : (now : ℕ) (r : IpRecord) → SameRecord now r r
SameRecord-refl now r = record { held = λ t h. refl; counted = λ t h e. refl }

retain_nothing : (now t : ℕ) (ts : List ℕ) → now ≤ t → retain now ts ≡ [] → retain t ts ≡ []
retain_nothing now t ts h e =
    sym (retain-retain now t ts h) ∙ ap (retain t) e ∙ (unfold retain in refl)

SameRecord-cleaned :
    (now : ℕ) (r : IpRecord) → SameRecord now (entry (cleaned_option now (some r))) r
unfolding cleaned
SameRecord-cleaned now r = record {
  held = λ t h. ground arith;
  counted =
      λ t h e. ground (arith, retain-retain now t r.failures h, retain_nothing now t r.failures h);
}

SameRecord-cleaned_option :
    (now : ℕ) (o : Option IpRecord) → SameRecord now (entry (cleaned_option now o)) (entry o)
SameRecord-cleaned_option now none = SameRecord-refl now _
SameRecord-cleaned_option now (some r) = SameRecord-cleaned now r

SameRecord-trans :
    (now : ℕ) (a b c : IpRecord) → SameRecord now a b → SameRecord now b c → SameRecord now a c
SameRecord-trans now a b c s u = record {
  held = λ t h. s.held t h ∙ u.held t h;
  counted = λ t h e. s.counted t h e ∙ u.counted t h (sym (s.held t h) ∙ e);
}

SameRecord-later : (now t : ℕ) (a b : IpRecord) → now ≤ t → SameRecord now a b → SameRecord t a b
SameRecord-later now t a b le s = record {
  held = λ u h. s.held u (omega arith);
  counted = λ u h. s.counted u (omega arith);
}

module _ (now t : ℕ) (le : now ≤ t) (a b : IpRecord) (s : SameRecord now a b) where
  add_failure-Same : holds t a.banned_until ≡ false → add_failure t a ≡ add_failure t b
  unfolding add_failure
  add_failure-Same free = ground (arith, s.counted t le free)

  fail_record-Same :
      ((fail_record t a).1 ≡ (fail_record t b).1)
      × SameRecord t (fail_record t a).0 (fail_record t b).0
  unfolding fail_record
  fail_record-Same = elim (Bool-cases (holds t a.banned_until)) [
    | inl banned ↦
        let banned' = sym (s.held t le) ∙ banned in
        rw (banned, banned') (refl, SameRecord-later now t a b le s)
    | inr free ↦
        let free' = sym (s.held t le) ∙ free in
        rw (free, free', add_failure-Same free) (refl, SameRecord-refl t (add_failure t b).0)
  ]

module _ (now t : ℕ) (le : now ≤ t) (a b : Records) (s : Same now a b) where
  record_failure-Same :
      (ip : ℕ)
      → ((record_failure t ip a).1 ≡ (record_failure t ip b).1)
        × Same t (record_failure t ip a).0 (record_failure t ip b).0
  unfolding record_failure
  record_failure-Same ip =
      let (answer, same) = fail_record-Same now t le _ _ (s.at ip) in
      (
        answer,
        record {
          at = λ j. rw (get-insert ip j (fail_record t (entry (get ip a))).0 a) (
              rw (get-insert ip j (fail_record t (entry (get ip b))).0 b)
                (elim (Bool-cases (ip == j)) [
                  | inl e ↦ rw e same
                  | inr e ↦ rw e (SameRecord-later now t _ _ le (s.at j))
                ]));
        },
      )

  record_success-Same : (ip : ℕ) → Same t (record_success ip a) (record_success ip b)
  unfolding record_success
  record_success-Same ip = record {
    at = λ j. rw (get-remove ip j a) (
        rw (get-remove ip j b) (elim (Bool-cases (ip == j)) [
          | inl e ↦ rw e (SameRecord-refl t _)
          | inr e ↦ rw e (SameRecord-later now t _ _ le (s.at j))
        ]));
  }

  is_banned-Same : (ip : ℕ) → is_banned t ip a ≡ is_banned t ip b
  unfolding is_banned
  is_banned-Same ip = ground (arith, (s.at ip).held t le)

  cleanup-Same : Distinct a → Same t (cleanup t a) b
  cleanup-Same d = record {
    at = λ ip. rw (get-cleanup t ip a d) (
        SameRecord-trans t _ (entry (get ip a)) _ (SameRecord-cleaned_option t (get ip a))
          (SameRecord-later now t _ _ le (s.at ip)));
  }

-- What a server does with the limiter, each at its time.
pub data Op : Type 0 where
  failure : ℕ → ℕ → Op
  success : ℕ → ℕ → Op
  query : ℕ → ℕ → Op
  sweep : ℕ → Op

abbrev pub time : Op → ℕ
time (failure t ip) = t
time (success t ip) = t
time (query t ip) = t
time (sweep t) = t

-- The answers of `record_failure` and `is_banned`, in order.
abbrev pub run : List Op → Records → List Bool
run [] m = []
run (failure t ip ∷ ops) m = (record_failure t ip m).1 ∷ run ops (record_failure t ip m).0
run (success t ip ∷ ops) m = run ops (record_success ip m)
run (query t ip ∷ ops) m = is_banned t ip m ∷ run ops m
run (sweep t ∷ ops) m = run ops (cleanup t m)

-- The same calls without the cleanups.
abbrev pub unswept : List Op → List Op
unswept [] = []
unswept (sweep t ∷ ops) = unswept ops
unswept (failure t ip ∷ ops) = failure t ip ∷ unswept ops
unswept (success t ip ∷ ops) = success t ip ∷ unswept ops
unswept (query t ip ∷ ops) = query t ip ∷ unswept ops

-- The clock does not go back.
abbrev pub Ordered : ℕ → List Op → Type 0
Ordered now [] = Unit
Ordered now (op ∷ ops) = (now ≤ time op) × Ordered (time op) ops

run-Same :
    (ops : List Op) (now : ℕ) (a b : Records)
    → Distinct a
    → Same now a b
    → Ordered now ops
    → run ops a ≡ run (unswept ops) b
run-Same [] now a b d s o = refl
run-Same (failure t ip ∷ ops) now a b d s o =
    let (answer, same) = record_failure-Same now t o.0 a b s ip in
    let rest = run-Same ops t _ _ (Distinct-record_failure t ip a d) same o.1 in cc
run-Same (success t ip ∷ ops) now a b d s o =
    run-Same ops t _ _ (Distinct-record_success ip a d) (record_success-Same now t o.0 a b s ip) o.1
run-Same (query t ip ∷ ops) now a b d s o =
    let rest =
      run-Same ops t a b d (record { at = λ j. SameRecord-later now t _ _ o.0 (s.at j) }) o.1 in
    cc (is_banned-Same now t o.0 a b s ip)
run-Same (sweep t ∷ ops) now a b d s o =
    run-Same ops t (cleanup t a) b (Distinct-cleanup t a d) (cleanup-Same now t o.0 a b s d) o.1

-- Calls of the limiter, from the empty one on and at times that do not go back, are answered the
-- same whether or not `cleanup` is called in between.
pub run-unswept :
    (start : ℕ) (ops : List Op) → Ordered start ops → run ops [] ≡ run (unswept ops) []
run-unswept start ops o =
    run-Same ops start [] [] tt (record { at = λ ip. SameRecord-refl start _ }) o
