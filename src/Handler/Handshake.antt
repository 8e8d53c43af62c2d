-- ===== src/Handler/Handshake.antt =====
-- crates/mrsh-server/src/handler.rs: `authenticate`. The peer's messages are arguments; what is sent
-- is not modelled, but for the challenge, on which the peer's answer depends.
pub mod Keys
pub mod Factor
pub mod Sound
pub mod Honest
use rsh.Prelude.{
  ℕ, ◌-◌, ◌≡◌, Bool, true, false, not, ◌&&◌, ◌||◌, Option, none, some, List, [], ◌∷◌, ◌++◌, ◌==◌,
  leb, if◌then◌else◌, length, take, drop, slice,
}
use rsh.Prelude.Bytes.{Bytes, from_be}
use rsh.Error.{
  Result, ok, err, ◌>>=◌, context, public_key_length, signature_length, invalid_public_key,
  recv_auth_message, empty_auth_message, parse_auth_json, unsupported_auth_type, missing_public_key,
  decode_base64, key_revoked, key_not_authorized, recv_auth_response, unexpected_response,
  signature_refused, no_totp_secret, recv_totp_response, totp_refused,
}
use rsh.Text.{Text, chars, text_eq}
use rsh.Auth.{AuthorizedKey, KeyPermissions}
use rsh.Auth.Secrets.{
  has_text, key_fingerprint, is_key_revoked, TotpSecret, find_totp_secret, load_totp_recovery,
  check_recovery_code, save_totp_recovery,
}
use rsh.Handler.Ed25519.{extract_ed25519_raw, extract_ed25519_sig}
use rsh.Handler.Caps.{negotiate}
use rsh.Binproto.{split_type}
use rsh.Binproto.TypeIds.{auth_request_id, auth_response_id}
use rsh.Binproto.Messages.{parse_auth_request}

-- `protocol::AuthRequest`
pub record AuthRequest : Type 0 where
  pub auth_type : Text
  pub public_key : Option Text
  pub version : Option Bytes
  pub caps : Option (List Bytes)
  pub want_mux : Option Bool

-- `serde_json`, `base64`, `sha2`, `ed25519_dalek` and `totp_rs` as this code calls them, and the target
-- it is built for.
pub record Libraries : Type 0 where
  pub auth_request : Bytes → Option AuthRequest
  pub auth_response : Bytes → Option Text
  pub totp_response : Bytes → Option Text
  pub base64 : Text → Option Bytes
  pub encode : Bytes → Text
  pub sha256 : Bytes → Bytes
  pub hex_sha256 : Text → Text
  -- `VerifyingKey::from_bytes`, then `verify_strict`
  pub verify_strict : Bytes → Bytes → Bytes → Option Bool
  -- `verify_totp` at the time of the call; an error is `false`
  pub verify_totp : Text → Text → Bool
  -- `cfg!(windows)`
  pub windows : Bool

-- The fields of `ServerContext` that the handshake reads. `key_files` are the files of
-- authorized_keys_paths as they load: `none` for one that is missing or is refused.
pub record ServerContext : Type 0 where
  pub authorized_keys : List AuthorizedKey
  pub revoked_keys : List Text
  pub caps : List Bytes
  pub totp_secrets : List TotpSecret
  pub key_files : List (Option (List AuthorizedKey))

-- What a peer sends: its first message, its answer to a challenge, and its code.
pub record Peer : Type 0 where
  pub hello : Option Bytes
  pub response : Bytes → Option Bytes
  pub code : Option Bytes

pub record ClientInfo : Type 0 where
  pub key_comment : Option Text
  pub client_version : Option Bytes
  pub caps : List Bytes
  pub permissions : KeyPermissions
  pub mux_enabled : Bool

abbrev pub find_key : Bytes → List AuthorizedKey → Option AuthorizedKey
find_key raw [] = none
find_key raw (k ∷ keys) = if text_eq k.key_data raw then some k else find_key raw keys

-- `for key in keys { if seen.insert(..) { fresh_keys.push(key) } }`
abbrev pub unseen : List Bytes → List AuthorizedKey → List AuthorizedKey
unseen seen [] = []
unseen seen (k ∷ keys) =
    if has_text seen k.key_data then unseen seen keys else k ∷ unseen (k.key_data ∷ seen) keys

abbrev pub loaded : List (Option (List AuthorizedKey)) → List AuthorizedKey
loaded [] = []
loaded (none ∷ files) = loaded files
loaded (some keys ∷ files) = keys ++ loaded files

-- In memory first, then on disk.
abbrev pub find_matched : Bytes → ServerContext → Option AuthorizedKey
find_matched raw ctx = elim (find_key raw ctx.authorized_keys) [
  | some k ↦ some k
  | none ↦ find_key raw (unseen [] (loaded ctx.key_files))
]

-- What the first message says of the peer.
pub record Claim : Type 0 where
  pub raw_key : Bytes
  pub client_version : Option Bytes
  pub client_caps : List Bytes
  pub mux : Bool

abbrev pub caps_or_none : Option (List Bytes) → List Bytes
caps_or_none none = []
caps_or_none (some caps) = caps

abbrev pub or_false : Option Bool → Bool
or_false none = false
or_false (some b) = b

abbrev pub fingerprint : Libraries → Bytes → Text
fingerprint libraries = key_fingerprint libraries.sha256 libraries.encode

module _ (libraries : Libraries) where
  open libraries use {
    auth_request, auth_response, totp_response, base64, hex_sha256, verify_strict, verify_totp,
    windows,
  }

  unfoldable pub verify_ed25519_signature : Bytes → Bytes → Bytes → Result Bool
  verify_ed25519_signature public_key challenge signature =
      if not (length public_key == 32)
      then err public_key_length
      else if not (length signature == 64)
      then err signature_length
      else context invalid_public_key (verify_strict public_key challenge signature)

  unfoldable pub binary_claim : Bytes → Result Claim
  unfolding extract_ed25519_raw
  binary_claim payload = do
    (pubkey, version, caps) ← parse_auth_request payload
    raw ← extract_ed25519_raw pubkey
    ok (record { raw_key = raw; client_version = some version; client_caps = caps; mux = false })

  unfoldable pub json_claim : Bytes → Result Claim
  unfolding extract_ed25519_raw
  json_claim message = do
    request ← context parse_auth_json (auth_request message)
    _ ←
        (if not (text_eq request.auth_type (chars "auth"))
            && not (text_eq request.auth_type (chars "pubkey"))
          then err unsupported_auth_type
          else ok request)
    key_b64 ← context missing_public_key request.public_key
    wire ← context decode_base64 (base64 key_b64)
    raw ← extract_ed25519_raw wire
    ok (record {
      raw_key = raw;
      client_version = request.version;
      client_caps = caps_or_none request.caps;
      mux = or_false request.want_mux;
    })

  abbrev pub claim_of : Bytes → Result (Bool × Claim)
  claim_of [] = err empty_auth_message
  claim_of (type_id ∷ payload) =
      if type_id == auth_request_id
      then binary_claim payload >>= (λ (c : Claim). ok (true, c))
      else json_claim (type_id ∷ payload) >>= (λ (c : Claim). ok (false, c))

  unfoldable pub binary_signature : Bytes → Result Bytes
  unfolding extract_ed25519_sig
  binary_signature message = do
    (type_id, sig) ← split_type message
    if type_id == auth_response_id then extract_ed25519_sig sig else err unexpected_response

  unfoldable pub json_signature : Bytes → Result Bytes
  unfolding extract_ed25519_sig
  json_signature message = do
    text ← context recv_auth_response (auth_response message)
    sig ← context decode_base64 (base64 text)
    extract_ed25519_sig sig

  abbrev pub signature_of : Bool → Bytes → Result Bytes
  signature_of true message = binary_signature message
  signature_of false message = json_signature message

  -- A recovery code, from the contents of the file (`none`: no file). `saved` says whether the write
  -- of the file succeeds.
  abbrev pub recover : Bool → Text → Text → Option Text → Result (Option Text)
  recover saved code key_fingerprint none = err totp_refused
  recover saved code key_fingerprint (some content) =
      elim (check_recovery_code hex_sha256 code key_fingerprint (load_totp_recovery content)) [
        | none ↦ err totp_refused
        | some entries ↦ ok (some (if saved then save_totp_recovery entries else content))
      ]

  -- Step 5b; the result is the recovery file.
  unfoldable pub second_factor :
      Bool → ServerContext → Peer → Text → AuthorizedKey → Option Text → Result (Option Text)
  second_factor saved ctx peer key_fingerprint key recovery =
      if key.permissions.require_totp
      then (do
        secret ← context no_totp_secret (find_totp_secret key_fingerprint ctx.totp_secrets)
        message ← context recv_totp_response peer.code
        code ← context recv_totp_response (totp_response message)
        (if verify_totp secret.secret_base32 code
            then ok recovery
            else recover saved code key_fingerprint recovery))
      else ok recovery

  -- The whole handshake for one peer; the second component is the recovery file.
  unfoldable pub authenticate :
      Bool → ServerContext → Bytes → Peer → Option Text → Result (ClientInfo × Option Text)
  unfolding verify_ed25519_signature second_factor negotiate
  authenticate saved ctx challenge peer recovery = do
    message ← context recv_auth_message peer.hello
    (use_binary, claim) ← claim_of message
    _ ←
        (if is_key_revoked (fingerprint libraries) claim.raw_key ctx.revoked_keys
          then err key_revoked
          else ok claim)
    key ← context key_not_authorized (find_matched claim.raw_key ctx)
    answer ← context recv_auth_response (peer.response challenge)
    sig ← signature_of use_binary answer
    valid ← verify_ed25519_signature claim.raw_key challenge sig
    _ ← (if valid then ok key else err signature_refused)
    recovery' ← second_factor saved ctx peer (fingerprint libraries claim.raw_key) key recovery
    ok (
      record {
        key_comment = key.comment;
        client_version = claim.client_version;
        caps = negotiate ctx.caps claim.client_caps;
        permissions = key.permissions;
        mux_enabled = windows && claim.mux;
      },
      recovery',
    )
