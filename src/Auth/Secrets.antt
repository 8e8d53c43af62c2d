-- ===== src/Auth/Secrets.antt =====
-- crates/mrsh-core/src/auth.rs: revoked keys, TOTP secrets and recovery codes, from the contents of
-- their files. A hash map is an association list.
pub mod Recovery
use rsh.Error.{
  Result, ok, err, ◌>>=◌, context, insecure_permissions, read_authorized_keys, read_revoked_keys,
}
use rsh.Prelude.{
  ℕ, bit_and, map, Bool, true, false, not, ◌&&◌, ◌||◌, Option, none, some, List, [], ◌∷◌, ◌++◌,
  ◌==◌, if◌then◌else◌,
}
use rsh.Prelude.Bytes.{Bytes}
use rsh.Text.{Text, chars, text_eq, trim}
use rsh.Text.Split.{starts_with, splitn, split_whitespace, lines}
use rsh.Auth.{AuthorizedKey, parse_authorized_key_line}

-- `line.is_empty() || line.starts_with('#')`
abbrev pub skipped : Text → Bool
skipped [] = true
skipped (c ∷ cs) = c == b'#'

abbrev keep : Option AuthorizedKey → List AuthorizedKey → List AuthorizedKey
keep none keys = keys
keep (some key) keys = key ∷ keys

-- `mode & 0o077 != 0`
abbrev pub is_insecure : Option ℕ → Bool
is_insecure none = false
is_insecure (some mode) = not (bit_and mode 0x3F == 0)

-- The loop of `load_authorized_keys`; `none` is a panic.
module _ (base64 : Text → Option Bytes) where
  pub keys_of : List Text → Option (List AuthorizedKey)
  unfolding parse_authorized_key_line
  keys_of [] = some []
  keys_of (line ∷ more) =
      let rest = keys_of more in
      if skipped (trim line) then rest else elim (parse_authorized_key_line base64 (trim line)) [
        | none ↦ none
        | some key ↦ elim rest [ none ↦ none | some keys ↦ some (keep key keys) ]
      ]

  unfoldable pub authorized_keys_of : Text → Option (List AuthorizedKey)
  unfolding keys_of lines
  authorized_keys_of content = keys_of (lines content)

  -- On Unix; `mode` is the file's, if its metadata can be read, and `content` the file's.
  unfoldable pub load_authorized_keys :
      Option ℕ → Bool → Option Text → Result (Option (List AuthorizedKey))
  unfolding authorized_keys_of
  load_authorized_keys mode strict content =
      if is_insecure mode && strict
      then err insecure_permissions
      else context read_authorized_keys content >>= (λ (text : Text). ok (authorized_keys_of text))

abbrev fingerprints : (Bytes → Text) → Option (List AuthorizedKey) → Option (List Text)
fingerprints fingerprint none = none
fingerprints fingerprint (some keys) =
    some (map (λ (key : AuthorizedKey). fingerprint key.key_data) keys)

-- The set of `load_revoked_keys`, whose loop reads the lines as that of `load_authorized_keys` does.
unfoldable pub load_revoked_keys :
    (Text → Option Bytes) → (Bytes → Text) → Option Text → Result (Option (List Text))
unfolding authorized_keys_of
load_revoked_keys base64 fingerprint content = do
  text ← context read_revoked_keys content
  ok (fingerprints fingerprint (authorized_keys_of base64 text))

-- `revoked.contains(..)`
abbrev pub has_text : List Text → Text → Bool
has_text [] text = false
has_text (t ∷ ts) text = text_eq t text || has_text ts text

-- `encode` is base64.
abbrev pub key_fingerprint : (Bytes → Bytes) → (Bytes → Text) → Bytes → Text
key_fingerprint sha256 encode raw_key = chars "SHA256:" ++ encode (sha256 raw_key)

-- `fingerprint` is `key_fingerprint` of the libraries.
abbrev pub is_key_revoked : (Bytes → Text) → Bytes → List Text → Bool
is_key_revoked fingerprint raw_key [] = false
is_key_revoked fingerprint raw_key (r ∷ revoked) = has_text (r ∷ revoked) (fingerprint raw_key)

pub record TotpSecret : Type 0 where
  pub fingerprint : Text
  pub secret_base32 : Text

abbrev pub secret_of : List Text → List TotpSecret → List TotpSecret
secret_of [] secrets = secrets
secret_of (fingerprint ∷ []) secrets = secrets
secret_of (fingerprint ∷ secret ∷ _) secrets =
    record { fingerprint = fingerprint; secret_base32 = trim secret } ∷ secrets

pub secrets_of : List Text → List TotpSecret
unfolding splitn
secrets_of [] = []
secrets_of (line ∷ more) =
    let rest = secrets_of more in
    if skipped (trim line) then rest else secret_of (splitn 1 (trim line)) rest

unfoldable pub load_totp_secrets : Text → List TotpSecret
unfolding secrets_of lines
load_totp_secrets content = secrets_of (lines content)

abbrev pub find_totp_secret : Text → List TotpSecret → Option TotpSecret
find_totp_secret fingerprint [] = none
find_totp_secret fingerprint (s ∷ secrets) =
    if text_eq s.fingerprint fingerprint then some s else find_totp_secret fingerprint secrets

abbrev pub RecoveryMap : Type 0
RecoveryMap = List (Text × List Text)

-- `insert`, which takes the place of an older entry.
pub insert : Text → List Text → RecoveryMap → RecoveryMap
insert fingerprint hashes [] = (fingerprint, hashes) ∷ []
insert fingerprint hashes ((key, old) ∷ entries) =
    let rest = insert fingerprint hashes entries in
    if text_eq key fingerprint then (key, hashes) ∷ entries else (key, old) ∷ rest

abbrev pub insert_words : List Text → RecoveryMap → RecoveryMap
insert_words [] entries = entries
insert_words (fingerprint ∷ []) entries = entries
insert_words (fingerprint ∷ hash ∷ hashes) entries = insert fingerprint (hash ∷ hashes) entries

-- The loop of `load_totp_recovery`.
pub recovery_of : List Text → RecoveryMap → RecoveryMap
unfolding insert split_whitespace
recovery_of [] entries = entries
recovery_of (line ∷ more) entries =
    recovery_of more
      (if skipped (trim line) then entries else insert_words (split_whitespace (trim line)) entries)

unfoldable pub load_totp_recovery : Text → RecoveryMap
unfolding recovery_of lines
load_totp_recovery content = recovery_of (lines content) []

-- `position` and `remove` of the first hash that is equal, if there is one.
pub remove_hash : Text → List Text → Option (List Text)
remove_hash hash [] = none
remove_hash hash (h ∷ hashes) =
    let rest = remove_hash hash hashes in
    if text_eq h hash then some hashes else elim rest [ none ↦ none | some left ↦ some (h ∷ left) ]

-- `code_hash` is the hexadecimal SHA-256 of the code. `none` is `false`, with the map as it was.
pub remove_code : Text → Text → RecoveryMap → Option RecoveryMap
unfolding remove_hash
remove_code code_hash fingerprint [] = none
remove_code code_hash fingerprint ((key, hashes) ∷ entries) =
    let rest = remove_code code_hash fingerprint entries in
    if text_eq key fingerprint
    then elim (remove_hash code_hash hashes) [
      | none ↦ none
      | some left ↦ some ((key, left) ∷ entries)
    ]
    else elim rest [ none ↦ none | some others ↦ some ((key, hashes) ∷ others) ]

unfoldable pub check_recovery_code : (Text → Text) → Text → Text → RecoveryMap → Option RecoveryMap
unfolding remove_code
check_recovery_code hex_sha256 code fingerprint entries =
    remove_code (hex_sha256 code) fingerprint entries

abbrev pub spaced : List Text → Text
spaced [] = []
spaced (hash ∷ hashes) = b' ' ∷ (hash ++ spaced hashes)

pub recovery_lines : RecoveryMap → Text
recovery_lines [] = []
recovery_lines ((fingerprint, []) ∷ entries) = recovery_lines entries
recovery_lines ((fingerprint, hash ∷ hashes) ∷ entries) =
    fingerprint ++ spaced (hash ∷ hashes) ++ (0x0A ∷ recovery_lines entries)

-- The content that is written; the order of the entries is the map's.
unfoldable pub save_totp_recovery : RecoveryMap → Text
unfolding recovery_lines
save_totp_recovery entries =
    chars "# TOTP recovery codes (SHA256 hashes)" ++ (0x0A ∷ recovery_lines entries)
