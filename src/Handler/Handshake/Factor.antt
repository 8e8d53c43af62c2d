-- ===== src/Handler/Handshake/Factor.antt =====
-- Step 5b of the handshake: a TOTP code, or a recovery code in its place.
use rsh.Prelude.{
  ◌≡◌, refl, sym, ap, Bool, true, false, Option, none, some, Bool-cases, Option-cases, inl, inr,
  ◌⊎◌, if◌then◌else◌,
}
use rsh.Prelude.Bytes.{Bytes}
use rsh.Error.{Result, ok, err, bind-eq-ok, context-eq-ok, totp_refused}
use rsh.Text.{Text}
use rsh.Auth.{AuthorizedKey}
use rsh.Auth.Secrets.{
  TotpSecret, find_totp_secret, RecoveryMap, load_totp_recovery, check_recovery_code,
  save_totp_recovery,
}
use rsh.Auth.Secrets.Recovery.{Used, check_recovery_code-Used}
use rsh.Handler.Handshake.{Libraries, fingerprint, ServerContext, Peer, second_factor, recover}

ok-injective : {x y : Option Text} → ok x ≡ ok y → x ≡ y
ok-injective {x = x} h = ap (λ (r : Result (Option Text)). elim r [ err _ ↦ x | ok z ↦ z ]) h

-- The code was in the recovery file under the key's fingerprint, and is used up: it will be accepted
-- once less, every other code as before. `recovery'` is the file after the attempt to write it.
abbrev UsedRecovery : Libraries → Bool → Text → Text → Option Text → Option Text → Type 0
UsedRecovery libraries saved code key_fingerprint recovery recovery' =
    (content : Text) × (rest : RecoveryMap) × (recovery ≡ some content)
    × Used (libraries.hex_sha256 code) key_fingerprint (load_totp_recovery content) (some rest)
    × (recovery' ≡ some (if saved then save_totp_recovery rest else content))

recover-UsedRecovery :
    (libraries : Libraries) (saved : Bool) (code key_fingerprint : Text)
    (recovery recovery' : Option Text)
    → recover libraries saved code key_fingerprint recovery ≡ ok recovery'
    → UsedRecovery libraries saved code key_fingerprint recovery recovery'
recover-UsedRecovery libraries saved code key_fingerprint none recovery' h = cc
recover-UsedRecovery libraries saved code key_fingerprint (some content) recovery' h =
    let entries = load_totp_recovery content in
    let used = check_recovery_code-Used libraries.hex_sha256 code key_fingerprint entries in
    elim (Option-cases (check_recovery_code libraries.hex_sha256 code key_fingerprint entries)) [
      | inl refused ↦ let never : err totp_refused ≡ ok recovery' = rw (recover, refused) at h in cc
      | inr (rest, accepted) ↦ (
        content,
        rest,
        refl,
        rw accepted at used,
        sym (ok-injective (rw (recover, accepted) at h)),
      )
    ]

-- The TOTP code was not needed, or it was right, or it was a recovery code, which is used up.
abbrev pub SecondFactor :
    Libraries → Bool → ServerContext → Peer → AuthorizedKey → Option Text → Option Text → Type 0
SecondFactor libraries saved ctx peer key recovery recovery' =
    let key_fingerprint = fingerprint libraries key.key_data in
    (key.permissions.require_totp ≡ false) × (recovery' ≡ recovery)
    ⊎ ((secret : TotpSecret) × (message : Bytes) × (code : Text) × (find_totp_secret key_fingerprint
            ctx.totp_secrets
          ≡ some secret)
        × (peer.code ≡ some message)
        × (libraries.totp_response message ≡ some code)
        × ((libraries.verify_totp secret.secret_base32 code ≡ true) × (recovery' ≡ recovery)
            ⊎ (recover libraries saved code key_fingerprint recovery ≡ ok recovery')
              × UsedRecovery libraries saved code key_fingerprint recovery recovery'))

module _ (libraries : Libraries) where
  open libraries use {totp_response, verify_strict, verify_totp}

  pub second_factor-SecondFactor :
      (saved : Bool) (ctx : ServerContext) (peer : Peer) (key : AuthorizedKey)
      (recovery recovery' : Option Text)
      → second_factor libraries saved ctx peer (fingerprint libraries key.key_data) key recovery
        ≡ ok recovery'
      → SecondFactor libraries saved ctx peer key recovery recovery'
  unfolding second_factor
  second_factor-SecondFactor saved ctx peer key recovery recovery' h =
      elim (Bool-cases key.permissions.require_totp) [
        | inr free ↦
            let done : ok recovery ≡ ok recovery' = rw free at h in
            inl (free, sym (ok-injective done))
        | inl required ↦
            let (secret, e1, h1) = bind-eq-ok _ _ (rw required at h) in
            let (message, e2, h2) = bind-eq-ok _ _ h1 in
            let (code, e3, h3) = bind-eq-ok _ _ h2 in
            inr (
              secret,
              message,
              code,
              context-eq-ok _ _ e1,
              context-eq-ok _ _ e2,
              context-eq-ok _ _ e3,
              elim (Bool-cases (verify_totp secret.secret_base32 code)) [
                | inl right ↦
                    let done : ok recovery ≡ ok recovery' = rw right at h3 in
                    inl (right, sym (ok-injective done))
                | inr wrong ↦
                    let taken : recover libraries saved code (fingerprint libraries key.key_data)
                          recovery
                        ≡ ok recovery' =
                      rw wrong at h3 in
                    inr
                      (taken, recover-UsedRecovery libraries saved code _ recovery recovery' taken)
              ],
            )
      ]
