-- ===== src/Session/Clients.antt =====
-- Attached clients, and the sessions that go.
use rsh.Prelude.{
  ℕ, ◌+◌, ◌-◌, ◌≡◌, refl, ap, ◌∙◌, Bool, true, false, ◌||◌, ◌<◌, ◌%◌, ◌^◌, ==_iff, Option, none,
  some, List, [], ◌∷◌, ◌==◌, arith, Bool-cases, inl, inr,
}
use rsh.Session.{
  Sessions, SessionEntry, find, remove, modify, attach, detach, cleanup, to_remove, remove_all,
  one_more, one_fewer, is_idle,
}

abbrev pub changed : (SessionEntry → SessionEntry) → Option SessionEntry → Option SessionEntry
changed change none = none
changed change (some s) = some (change s)

find-modify :
    (id : ℕ) (change : SessionEntry → SessionEntry) (sessions : Sessions)
    → find id (modify id change sessions) ≡ changed change (find id sessions)
unfolding find modify
find-modify id change [] = refl
find-modify id change ((key, s) ∷ rest) = elim (Bool-cases (key == id)) [
  | inl same ↦ rw (same, same) refl
  | inr other ↦ rw (other, other) (find-modify id change rest)
]

-- A client that attaches to a session and detaches again leaves it as it was, its time of last
-- activity aside. The count of clients has room for one more.
find-detach-attach :
    (now id : ℕ) (sessions : Sessions) (s : SessionEntry)
    → find id sessions ≡ some s
    → s.client_count + 1 < 2 ^ 64
    → find id (detach id (attach now id sessions).0) ≡ some (record s { last_activity = now })
unfolding attach detach
find-detach-attach now id sessions s there room =
    find-modify id one_fewer (modify id (one_more now) sessions)
    ∙ ap (changed one_fewer)
        (find-modify id (one_more now) sessions ∙ ap (changed (one_more now)) there)
    ∙ ap (λ (n : ℕ). some (record s { client_count = n; last_activity = now })) back
  where
    back : (s.client_count + 1) % 2 ^ 64 - 1 ≡ s.client_count
    back = omega arith

contains : ℕ → List ℕ → Bool
contains id [] = false
contains id (x ∷ xs) = x == id || contains id xs

find-remove_same : (id : ℕ) (sessions : Sessions) → find id (remove id sessions) ≡ none
unfolding find remove
find-remove_same id [] = refl
find-remove_same id ((key, s) ∷ rest) = let gone = find-remove_same id rest in ground arith

find-remove-none :
    (id other : ℕ) (sessions : Sessions)
    → find id sessions ≡ none
    → find id (remove other sessions) ≡ none
unfolding find remove
find-remove-none id other [] h = refl
find-remove-none id other ((key, s) ∷ rest) h = ground (arith, find-remove-none id other rest)

find-remove_all-none :
    (id : ℕ) (ids : List ℕ) (sessions : Sessions)
    → find id sessions ≡ none
    → find id (remove_all ids sessions) ≡ none
unfolding remove_all
find-remove_all-none id [] sessions h = h
find-remove_all-none id (x ∷ xs) sessions h =
    find-remove_all-none id xs (remove x sessions) (find-remove-none id x sessions h)

find-remove_all :
    (id : ℕ) (ids : List ℕ) (sessions : Sessions)
    → contains id ids ≡ true
    → find id (remove_all ids sessions) ≡ none
unfolding remove_all contains
find-remove_all id [] sessions h = cc
find-remove_all id (x ∷ xs) sessions h = elim (Bool-cases (x == id)) [
  | inl same ↦ find-remove_all-none id xs (remove x sessions) (
      ap (λ (y : ℕ). find id (remove y sessions)) ((==_iff x id).0 same)
      ∙ find-remove_same id sessions)
  | inr other ↦ find-remove_all id xs (remove x sessions) (rw other at h)
]

contains-to_remove :
    (now max_idle_secs id : ℕ) (sessions : Sessions) (s : SessionEntry)
    → find id sessions ≡ some s
    → is_idle now max_idle_secs s ≡ true
    → contains id (to_remove now max_idle_secs sessions) ≡ true
unfolding find contains to_remove
contains-to_remove now max_idle_secs id [] s there idle = cc
contains-to_remove now max_idle_secs id ((key, t) ∷ rest) s there idle =
    ground (arith, contains-to_remove now max_idle_secs id rest s)

-- After a cleanup no session is left that had no client and was idle for too long.
find-cleanup :
    (now max_idle_secs id : ℕ) (sessions : Sessions) (s : SessionEntry)
    → find id sessions ≡ some s
    → is_idle now max_idle_secs s ≡ true
    → find id (cleanup now max_idle_secs sessions).0 ≡ none
unfolding cleanup
find-cleanup now max_idle_secs id sessions s there idle =
    find-remove_all id (to_remove now max_idle_secs sessions) sessions
      (contains-to_remove now max_idle_secs id sessions s there idle)
