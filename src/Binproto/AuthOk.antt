-- ===== src/Binproto/AuthOk.antt =====
-- The AUTH_OK message: its round trip, and what a client makes of the shorter forms that older
-- servers send.
use rsh.Prelude.{
  ℕ, ◌+◌, ◌%◌, ◌^◌, ◌<◌, ◌≡◌, refl, List, [], ◌∷◌, ◌++◌, arith, Option, none, length, lt→leb,
  append_assoc, append-nil, drop_behind,
}
use rsh.Prelude.Bytes.{Bytes}
use rsh.Error.{ok}
use rsh.Binproto.{encode_str}
use rsh.Binproto.Messages.{encode_strs, encode_optional, build_auth_ok_full, parse_auth_ok_full}
use rsh.Binproto.Fields.{str_field, encode_str-field, byte_at_here, decode_str_at}
use rsh.Binproto.Lists.{
  Fits, AllFit, OptionFits, strs_field, optional_field, encode_strs-field, encode_optional-field,
  decode_strs_at, decode_optional_at, decode_optional_end, behind_end,
}

module _ (version : Bytes) (caps : List Bytes) (fits : Fits version) (all : AllFit caps)
    (few : length caps < 256) where
  -- `parse_auth_ok_full` gives back the version, the capabilities and the three optional strings
  -- that `build_auth_ok_full` was given, for strings below 64 KB and at most 255 capabilities.
  pub parse-build_auth_ok_full :
      (banner device_id rendezvous_server : Option Bytes)
      → OptionFits banner
      → OptionFits device_id
      → OptionFits rendezvous_server
      → parse_auth_ok_full (build_auth_ok_full version caps banner device_id rendezvous_server)
        ≡ ok (record {
          version = version;
          caps = caps;
          banner = banner;
          device_id = device_id;
          rendezvous_server = rendezvous_server;
        })
  unfolding parse_auth_ok_full build_auth_ok_full
  parse-build_auth_ok_full banner device_id rendezvous_server fits1 fits2 fits3 =
      let n : ℕ = length caps % 2 ^ 8 in
      let bytes : Bytes = build_auth_ok_full version caps banner device_id rendezvous_server in
      let optionals : Bytes =
        optional_field banner
        ++ (optional_field device_id ++ (optional_field rendezvous_server ++ [])) in
      let built : bytes ≡ str_field version ++ (n ∷ (strs_field caps ++ optionals)) =
        simp
          (encode_optional-field, encode_strs-field, encode_str-field, append_assoc, append-nil) in
      let (off, e, h) = decode_str_at bytes version _ 0 fits.0 fits.1 built in
      let (off1, e1, h1) =
        decode_strs_at caps n bytes _ (off + 1) (omega arith) all
          (drop_behind bytes (n ∷ []) _ off (off + 1) h refl) in
      let (off2, e2, h2) = decode_optional_at banner bytes _ off1 fits1 h1 in
      let (off3, e3, h3) = decode_optional_at device_id bytes _ off2 fits2 h2 in
      let (off4, e4, _) = decode_optional_at rendezvous_server bytes [] off3 fits3 h3 in
      rw (
        e,
        lt→leb (length bytes) off (behind_end bytes _ n off h),
        byte_at_here bytes _ n off h,
        e1,
        e2,
        e3,
        e4,
      )

  -- A server that stops behind the banner (one older than 1.7.9) is understood: the banner is
  -- read, and the device id and the rendezvous server are absent.
  parse_auth_ok_full-old_server :
      (banner : Option Bytes)
      → OptionFits banner
      → parse_auth_ok_full (
          encode_optional
            (encode_strs (encode_str [] version ++ (length caps % 2 ^ 8 ∷ [])) caps)
            banner)
        ≡ ok (record {
          version = version;
          caps = caps;
          banner = banner;
          device_id = none;
          rendezvous_server = none;
        })
  unfolding parse_auth_ok_full
  parse_auth_ok_full-old_server banner fits1 =
      let n : ℕ = length caps % 2 ^ 8 in
      let bytes : Bytes =
        encode_optional (encode_strs (encode_str [] version ++ (n ∷ [])) caps) banner in
      let built : bytes
          ≡ str_field version ++ (n ∷ (strs_field caps ++ (optional_field banner ++ []))) =
        simp
          (encode_optional-field, encode_strs-field, encode_str-field, append_assoc, append-nil) in
      let (off, e, h) = decode_str_at bytes version _ 0 fits.0 fits.1 built in
      let (off1, e1, h1) =
        decode_strs_at caps n bytes _ (off + 1) (omega arith) all
          (drop_behind bytes (n ∷ []) _ off (off + 1) h refl) in
      let (off2, e2, h2) = decode_optional_at banner bytes [] off1 fits1 h1 in
      let e3 = decode_optional_end bytes off2 h2 in
      rw (
        e,
        lt→leb (length bytes) off (behind_end bytes _ n off h),
        byte_at_here bytes _ n off h,
        e1,
        e2,
        e3,
        e3,
      )
