-- ===== src/Handler/Handshake/Keys.antt =====
-- The keys that the handshake may match, and the ones that it refuses.
use mathlib.Core.List.{Memᴰ}
use mathlib.Core.List.Memᴰ
use mathlib.Core.Option.{some-injective}
use rsh.Prelude.{
  ◌≡◌, sym, ◌∙◌, true, false, some, List, [], ◌∷◌, ◌++◌, Bool-cases, Option-cases, inl, inr,
}
use rsh.Prelude.Bytes.{Bytes}
use rsh.Text.{Text, text_eq, text_eq_iff}
use rsh.Auth.{AuthorizedKey}
use rsh.Auth.Secrets.{has_text, is_key_revoked}
use rsh.Handler.Handshake.{ServerContext, find_key, unseen, loaded, find_matched}

find_key-Memᴰ :
    (raw : Bytes) (keys : List AuthorizedKey) (k : AuthorizedKey)
    → find_key raw keys ≡ some k
    → Memᴰ k keys × (k.key_data ≡ raw)
find_key-Memᴰ raw [] k h = cc
find_key-Memᴰ raw (x ∷ keys) k h = elim (Bool-cases (text_eq x.key_data raw)) [
  | inl same ↦
      let e = some-injective x k (rw same at h) in
      (Memᴰ.head (sym e), rw (sym e) ((text_eq_iff x.key_data raw).0 same))
  | inr differs ↦
      let (among, e) = find_key-Memᴰ raw keys k (rw differs at h) in (Memᴰ.tail among, e)
]

unseen-Memᴰ :
    (seen : List Bytes) (keys : List AuthorizedKey) (k : AuthorizedKey)
    → Memᴰ k (unseen seen keys)
    → Memᴰ k keys
unseen-Memᴰ seen [] k m = m
unseen-Memᴰ seen (x ∷ keys) k m = elim (Bool-cases (has_text seen x.key_data)) [
  | inl known ↦ Memᴰ.tail (unseen-Memᴰ seen keys k (rw known at m))
  | inr fresh ↦ elim (Memᴰ.cases_cons (rw fresh at m)) [
    | inl e ↦ Memᴰ.head e
    | inr later ↦ Memᴰ.tail (unseen-Memᴰ (x.key_data ∷ seen) keys k later)
  ]
]

-- Every key that the handshake may match.
abbrev pub known_keys : ServerContext → List AuthorizedKey
known_keys ctx = ctx.authorized_keys ++ loaded ctx.key_files

pub find_matched-Memᴰ :
    (raw : Bytes) (ctx : ServerContext) (k : AuthorizedKey)
    → find_matched raw ctx ≡ some k
    → Memᴰ k (known_keys ctx) × (k.key_data ≡ raw)
find_matched-Memᴰ raw ctx k h = elim (Option-cases (find_key raw ctx.authorized_keys)) [
  | inl missing ↦
      let (m, e) =
        find_key-Memᴰ raw (unseen [] (loaded ctx.key_files)) k (rw (find_matched, missing) at h) in
      (Memᴰ.append_right ctx.authorized_keys (unseen-Memᴰ [] (loaded ctx.key_files) k m), e)
  | inr (x, found) ↦
      let same : some x ≡ some k = rw (find_matched, found) at h in
      let (m, e) = find_key-Memᴰ raw ctx.authorized_keys k (found ∙ same) in
      (Memᴰ.append_left (loaded ctx.key_files) m, e)
]

has_text-Memᴰ : (texts : List Text) (text : Text) → has_text texts text ≡ false → ¬ Memᴰ text texts
has_text-Memᴰ [] text h m = elim m [ ]
has_text-Memᴰ (t ∷ texts) text h m = elim (Bool-cases (text_eq t text)) [
  | inl same ↦ let never : true ≡ false = rw same at h in cc
  | inr differs ↦ elim (Memᴰ.cases_cons m) [
    | inl e ↦ let never = (text_eq_iff t text).1 (sym e) in cc
    | inr later ↦ has_text-Memᴰ texts text (rw differs at h) later
  ]
]

pub is_key_revoked-Memᴰ :
    (fingerprint_of : Bytes → Text) (raw : Bytes) (revoked : List Text)
    → is_key_revoked fingerprint_of raw revoked ≡ false
    → ¬ Memᴰ (fingerprint_of raw) revoked
is_key_revoked-Memᴰ fingerprint_of raw [] h m = elim m [ ]
is_key_revoked-Memᴰ fingerprint_of raw (r ∷ revoked) h m =
    has_text-Memᴰ (r ∷ revoked) (fingerprint_of raw) h m
