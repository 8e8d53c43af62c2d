-- ===== src/Error.antt =====
-- The errors that the modelled functions return (`anyhow::Error` with its context), and the
-- results that carry them. One constructor stands for one `bail!` or `context` of the source.
use rsh.Prelude.{◌≡◌, refl, Option, none, some}

pub data Error : Type 0 where
  -- crates/mrsh-core/src/wire.rs
  write_header write_body flush_failed read_header read_body too_large : Error
  serialize deserialize compress decompress empty_message : Error
  -- crates/mrsh-core/src/binproto.rs
  truncated_length truncated_data invalid_utf8 empty_binary_message payload_too_short : Error
  -- crates/mrsh-relay/src/codec.rs
  read_first_byte read_header_byte_2 read_header_bytes_2_3 read_header_bytes_2_4 : Error
  payload_too_large read_payload write_frame_failed unreachable : Error
  -- crates/mrsh-core/src/auth.rs and crates/mrsh-server/src/handler.rs
  insecure_permissions read_authorized_keys read_revoked_keys : Error
  public_key_length signature_length invalid_public_key : Error
  parse_request_json : Error
  recv_auth_message empty_auth_message parse_auth_json unsupported_auth_type : Error
  missing_public_key decode_base64 key_revoked key_not_authorized : Error
  recv_auth_response unexpected_response signature_refused : Error
  no_totp_secret recv_totp_response totp_refused : Error
  -- crates/mrsh-transfer/src/blockcache.rs
  create_cache_dir serialize_cache write_cache_tmp stat_file read_file : Error

pub data Result {ℓ} (A : Type ℓ) : Type ℓ where
  err : Error → Result A
  ok : A → Result A

infixl 5 ◌>>=◌
abbrev pub ◌>>=◌ {ℓ κ} : {A : Type ℓ} {B : Type κ} → Result A → (A → Result B) → Result B
err reason >>= next = err reason
ok value >>= next = next value

-- `.context(e)?`
abbrev pub context {ℓ} : {A : Type ℓ} → Error → Option A → Result A
context e none = err e
context e (some a) = ok a

-- A bind that succeeded had a first part that succeeded.
pub bind-eq-ok {ℓ κ} :
    {A : Type ℓ} {B : Type κ} {value : B} (first : Result A) (next : A → Result B)
    → (first >>= next) ≡ ok value
    → (middle : A) × (first ≡ ok middle) × (next middle ≡ ok value)
bind-eq-ok (err _) next h = cc
bind-eq-ok (ok middle) next h = (middle, refl, h)

pub context-eq-ok {ℓ} :
    {A : Type ℓ} (e : Error) (o : Option A) {a : A} → context e o ≡ ok a → o ≡ some a
context-eq-ok e none h = cc
context-eq-ok e (some x) h = cc
