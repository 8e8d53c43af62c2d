-- ===== src/Handler/Handshake/Honest.antt =====
-- A client that holds a known key gets through the handshake.
use rsh.Prelude.{
  ◌<◌, ◌%◌, ◌^◌, ◌≡◌, refl, Bool, true, false, Option, none, some, List, ◌∷◌, length, take, arith,
  take_all, and_false,
}
use rsh.Prelude.Bytes.{Bytes}
use rsh.Error.{ok}
use rsh.Text.{Text}
use rsh.Auth.{AuthorizedKey}
use rsh.Auth.Secrets.{is_key_revoked}
use rsh.Binproto.{split_type}
use rsh.Binproto.TypeIds.{auth_request_id, auth_response_id}
use rsh.Binproto.Messages.{build_auth_request}
use rsh.Binproto.RoundTrip.{parse-build_auth_request}
use rsh.Binproto.Lists.{Fits, AllFit}
use rsh.Handler.Ed25519.{extract_ed25519_raw, extract_ed25519_sig}
use rsh.Handler.Caps.{negotiate}
use rsh.Handler.Handshake.{
  Libraries, fingerprint, ServerContext, Peer, find_matched, binary_claim, binary_signature,
  verify_ed25519_signature, second_factor, authenticate,
}

-- What a client with the key pair of `raw` sends in the binary protocol.
abbrev pub honest : Bytes → Bytes → List Bytes → (Bytes → Bytes) → Peer
honest raw version caps sign = record {
  hello = some (auth_request_id ∷ build_auth_request raw version caps);
  response = λ (challenge : Bytes). some (auth_response_id ∷ sign challenge);
  code = none;
}

extract_ed25519_raw_32 : (raw : Bytes) → length raw ≡ 32 → extract_ed25519_raw raw ≡ ok raw
unfolding extract_ed25519_raw
extract_ed25519_raw_32 raw e = rw e refl

extract_ed25519_sig_64 : (sig : Bytes) → length sig ≡ 64 → extract_ed25519_sig sig ≡ ok sig
unfolding extract_ed25519_sig
extract_ed25519_sig_64 sig e = rw e refl

module _ (libraries : Libraries) where
  open libraries use {verify_strict}

  binary_claim-build_auth_request :
      (raw version : Bytes) (caps : List Bytes)
      → length raw ≡ 32
      → Fits version
      → AllFit caps
      → length caps < 2 ^ 8
      → binary_claim libraries (build_auth_request raw version caps)
        ≡ ok (record {
          raw_key = raw;
          client_version = some version;
          client_caps = caps;
          mux = false;
        })
  unfolding binary_claim
  binary_claim-build_auth_request raw version caps e fits all few =
      let count : length caps % 2 ^ 8 ≡ length caps = omega arith in
      let all_caps : take (length caps % 2 ^ 8) caps ≡ caps = take_all _ caps (omega arith) in
      rw
        (
          parse-build_auth_request raw version caps (omega arith) fits all,
          extract_ed25519_raw_32 raw e,
          all_caps,
        )
        refl

  -- A client whose key is known and not revoked, and asks for no TOTP code, is authenticated in the
  -- binary protocol, with the permissions of its key and the negotiated capabilities. Its key has 32
  -- bytes, its signature 64 bytes and is valid for the challenge, and its strings and their number
  -- fit into their length fields.
  pub authenticate-honest :
      (saved : Bool) (ctx : ServerContext) (challenge raw version : Bytes) (caps : List Bytes)
      (sign : Bytes → Bytes) (key : AuthorizedKey) (recovery : Option Text)
      → length raw ≡ 32
      → Fits version
      → AllFit caps
      → length caps < 2 ^ 8
      → is_key_revoked (fingerprint libraries) raw ctx.revoked_keys ≡ false
      → find_matched raw ctx ≡ some key
      → key.permissions.require_totp ≡ false
      → length (sign challenge) ≡ 64
      → verify_strict raw challenge (sign challenge) ≡ some true
      → authenticate libraries saved ctx challenge (honest raw version caps sign) recovery
        ≡ ok (
          record {
            key_comment = key.comment;
            client_version = some version;
            caps = negotiate ctx.caps caps;
            permissions = key.permissions;
            mux_enabled = false;
          },
          recovery,
        )
  unfolding authenticate binary_signature split_type verify_ed25519_signature second_factor
  authenticate-honest saved ctx challenge raw version caps sign key recovery e fits all few fresh
        found free long valid =
      rw
        (
          binary_claim-build_auth_request raw version caps e fits all few,
          fresh,
          found,
          extract_ed25519_sig_64 (sign challenge) long,
          e,
          long,
          valid,
          free,
          and_false libraries.windows,
        )
        refl
