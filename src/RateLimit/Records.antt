-- ===== src/RateLimit/Records.antt =====
-- The laws of the map, and of pruning.
use rsh.Prelude.{
  ℕ, ◌≤◌, ◌≡◌, refl, ap, ◌∙◌, Option, none, some, List, [], ◌∷◌, ◌++◌, arith, ◌==◌, if◌then◌else◌,
  Bool-cases, inl, inr,
}
use rsh.RateLimit.{Records, IpRecord, get, remove, insert, retain, cleaned, cleanup}

pub get-remove : (k j : ℕ) (m : Records) → get j (remove k m) ≡ (if k == j then none else get j m)
unfolding get remove
get-remove k j [] = ground arith
get-remove k j ((i, r) ∷ m) = ground (arith, get-remove k j m)

pub get-insert :
    (k j : ℕ) (r : IpRecord) (m : Records)
    → get j (insert k r m) ≡ (if k == j then some r else get j m)
unfolding get insert
get-insert k j r m = ground (arith, get-remove k j m)

-- Every address has at most one record.
abbrev pub Distinct : Records → Type 0
Distinct [] = Unit
Distinct ((k, r) ∷ m) = (get k m ≡ none) × Distinct m

pub Distinct-remove : (k : ℕ) (m : Records) → Distinct m → Distinct (remove k m)
unfolding remove
Distinct-remove k [] d = tt
Distinct-remove k ((i, r) ∷ m) d = elim (Bool-cases (i == k)) [
  | inl e ↦ rw e (Distinct-remove k m d.1)
  | inr e ↦ rw e (ground (arith, get-remove k i m, d.0), Distinct-remove k m d.1)
]

pub Distinct-insert : (k : ℕ) (r : IpRecord) (m : Records) → Distinct m → Distinct (insert k r m)
unfolding insert
Distinct-insert k r m d = (ground (arith, get-remove k k m), Distinct-remove k m d)

abbrev pub cleaned_option : ℕ → Option IpRecord → Option IpRecord
cleaned_option now none = none
cleaned_option now (some r) = cleaned now r

pub get-cleanup :
    (now ip : ℕ) (m : Records) → Distinct m → get ip (cleanup now m) ≡ cleaned_option now (get ip m)
unfolding get cleanup
get-cleanup now ip [] d = refl
get-cleanup now ip ((k, r) ∷ m) d = elim (Bool-cases (k == ip)) [
  | inl e ↦ ground (arith, get-cleanup now ip m d.1, d.0)
  | inr e ↦ ground (arith, get-cleanup now ip m d.1)
]

pub get-cleanup-none :
    (now ip : ℕ) (m : Records) → Distinct m → get ip m ≡ none → get ip (cleanup now m) ≡ none
get-cleanup-none now ip m d e = get-cleanup now ip m d ∙ ap (cleaned_option now) e

pub Distinct-cleanup : (now : ℕ) (m : Records) → Distinct m → Distinct (cleanup now m)
unfolding cleanup
Distinct-cleanup now [] d = tt
Distinct-cleanup now ((k, r) ∷ m) d =
    ground (arith, Distinct-cleanup now m d.1, get-cleanup-none now k m d.1 d.0)

-- Pruning again later is pruning later.
pub retain-retain : (now t : ℕ) (ts : List ℕ) → now ≤ t → retain t (retain now ts) ≡ retain t ts
unfolding retain
retain-retain now t [] h = refl
retain-retain now t (x ∷ ts) h = ground (arith, retain-retain now t ts h)

pub retain-append :
    (now : ℕ) (xs ys : List ℕ) → retain now (xs ++ ys) ≡ retain now xs ++ retain now ys
unfolding retain
retain-append now [] ys = refl
retain-append now (x ∷ xs) ys = ground (arith, retain-append now xs ys)
