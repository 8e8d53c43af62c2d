-- ===== src/Auth/Secrets/Recovery.antt =====
-- How often a recovery code is accepted.
use rsh.Prelude.{
  ℕ, suc, ◌≡◌, refl, true, false, Option, none, some, List, [], ◌∷◌, Bool-cases, inl, inr,
  if◌then◌else◌, arith,
}
use rsh.Text.{Text, text_eq, text_eq_iff}
use rsh.Auth.Secrets.{RecoveryMap, remove_hash, remove_code, check_recovery_code}

abbrev pub count : Text → List Text → ℕ
count hash [] = 0
count hash (h ∷ hashes) = if text_eq h hash then suc (count hash hashes) else count hash hashes

-- The hashes of a key; a map has one entry for it.
abbrev pub codes : Text → RecoveryMap → List Text
codes fingerprint [] = []
codes fingerprint ((key, hashes) ∷ entries) =
    if text_eq key fingerprint then hashes else codes fingerprint entries

-- How often a code that has this hash will be accepted.
abbrev pub left : Text → Text → RecoveryMap → ℕ
left hash fingerprint entries = count hash (codes fingerprint entries)

abbrev CountsDown : Text → List Text → Option (List Text) → Type 0
CountsDown hash hashes none = count hash hashes ≡ 0
CountsDown hash hashes (some rest) =
    (count hash hashes ≡ suc (count hash rest))
    × ((other : Text) → text_eq hash other ≡ false → count other rest ≡ count other hashes)

abbrev with_first : Text → Option (List Text) → Option (List Text)
with_first h none = none
with_first h (some rest) = some (h ∷ rest)

with_first-CountsDown :
    (hash h : Text) (hashes : List Text) (rest : Option (List Text))
    → text_eq h hash ≡ false
    → CountsDown hash hashes rest
    → CountsDown hash (h ∷ hashes) (with_first h rest)
with_first-CountsDown hash h hashes none differs down = rw differs down
with_first-CountsDown hash h hashes (some rest) differs down =
    (rw differs down.0, λ other. λ apart. let same = down.1 other apart in ground arith)

remove_hash-CountsDown :
    (hash : Text) (hashes : List Text) → CountsDown hash hashes (remove_hash hash hashes)
unfolding remove_hash
remove_hash-CountsDown hash [] = refl
remove_hash-CountsDown hash (h ∷ hashes) = elim (Bool-cases (text_eq h hash)) [
  | inl same ↦
      let e = (text_eq_iff h hash).0 same in
      rw same (
        rw same refl,
        λ other. λ apart. let apart' : text_eq h other ≡ false = rw e apart in rw apart' refl,
      )
  | inr differs ↦ rw differs (
      with_first-CountsDown hash h hashes (remove_hash hash hashes) differs
        (remove_hash-CountsDown hash hashes))
]

-- After a code was accepted: what is left of each code of each key.
abbrev pub Used : Text → Text → RecoveryMap → Option RecoveryMap → Type 0
Used hash fingerprint entries none = left hash fingerprint entries ≡ 0
Used hash fingerprint entries (some rest) =
    (left hash fingerprint entries ≡ suc (left hash fingerprint rest))
    × ((other : Text)
        → text_eq hash other ≡ false
        → left other fingerprint rest ≡ left other fingerprint entries)
    × ((other : Text) → text_eq fingerprint other ≡ false → codes other rest ≡ codes other entries)

abbrev with_entry : Text × List Text → Option RecoveryMap → Option RecoveryMap
with_entry e none = none
with_entry e (some rest) = some (e ∷ rest)

with_entry-Used :
    (hash fingerprint key : Text) (hashes : List Text) (entries : RecoveryMap)
    (rest : Option RecoveryMap)
    → text_eq key fingerprint ≡ false
    → Used hash fingerprint entries rest
    → Used hash fingerprint ((key, hashes) ∷ entries) (with_entry (key, hashes) rest)
with_entry-Used hash fingerprint key hashes entries none differs used = rw differs used
with_entry-Used hash fingerprint key hashes entries (some rest) differs used = (
  rw differs used.0,
  (λ other. λ apart. rw differs (used.1 other apart)),
  λ other. λ apart. let same = used.2 other apart in ground arith,
)

abbrev in_entry : Text → RecoveryMap → Option (List Text) → Option RecoveryMap
in_entry key entries none = none
in_entry key entries (some rest) = some ((key, rest) ∷ entries)

in_entry-Used :
    (hash fingerprint key : Text) (hashes : List Text) (entries : RecoveryMap)
    (rest : Option (List Text))
    → text_eq key fingerprint ≡ true
    → CountsDown hash hashes rest
    → Used hash fingerprint ((key, hashes) ∷ entries) (in_entry key entries rest)
in_entry-Used hash fingerprint key hashes entries none same down = rw same down
in_entry-Used hash fingerprint key hashes entries (some rest) same down =
    let e = (text_eq_iff key fingerprint).0 same in
    (
      rw same down.0,
      (λ other. λ apart. rw same (down.1 other apart)),
      λ other. λ apart. let apart' : text_eq key other ≡ false = rw e apart in rw apart' refl,
    )

remove_code-Used :
    (hash fingerprint : Text) (entries : RecoveryMap)
    → Used hash fingerprint entries (remove_code hash fingerprint entries)
unfolding remove_code
remove_code-Used hash fingerprint [] = refl
remove_code-Used hash fingerprint ((key, hashes) ∷ entries) =
    elim (Bool-cases (text_eq key fingerprint)) [
      | inl same ↦ rw same (
          in_entry-Used hash fingerprint key hashes entries (remove_hash hash hashes) same
            (remove_hash-CountsDown hash hashes))
      | inr differs ↦ rw differs (
          with_entry-Used hash fingerprint key hashes entries (remove_code hash fingerprint entries)
            differs (remove_code-Used hash fingerprint entries))
    ]

-- A recovery code is accepted as often as its hash stands in the entry of the key, and no more:
-- each time takes one of them away, and leaves the other codes and the other keys' codes alone.
pub check_recovery_code-Used :
    (hex_sha256 : Text → Text) (code fingerprint : Text) (entries : RecoveryMap)
    → Used
        (hex_sha256 code)
        fingerprint
        entries
        (check_recovery_code hex_sha256 code fingerprint entries)
unfolding check_recovery_code
check_recovery_code-Used hex_sha256 code fingerprint entries =
    remove_code-Used (hex_sha256 code) fingerprint entries
