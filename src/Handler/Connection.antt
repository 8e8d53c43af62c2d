-- ===== src/Handler/Connection.antt =====
-- crates/mrsh-server/src/handler.rs: the first phase of `handle_connection`, the rate limiter around
-- the handshake. An address is a number, as in RateLimit.
use rsh.Prelude.{ℕ, ◌+◌, ◌≡◌, refl, Bool, true, false, Option, none, some, ltb, if◌then◌else◌}
use rsh.Prelude.Bytes.{Bytes}
use rsh.Error.{Error, Result, ok, err}
use rsh.Text.{Text}
use rsh.RateLimit.{Records, is_banned, record_failure, record_success}
use rsh.RateLimit.Bans.{ban_length}
use rsh.Handler.Handshake.{Libraries, ServerContext, Peer, ClientInfo, authenticate}

-- What of the state a connection leaves behind, and the client if it was let in.
abbrev pub Outcome : Type 0
Outcome = Option ClientInfo × Records × Option Text

-- Whether the handshake ended within 30 seconds; if not, the recovery file as it left it.
pub data Timing : Type 0 where
  in_time : Timing
  timed_out : Option Text → Timing

abbrev pub banned_peer : ℕ → Option ℕ → Records → Bool
banned_peer now none records = false
banned_peer now (some ip) records = is_banned now ip records

abbrev pub failed : ℕ → Option ℕ → Records → Records
failed now none records = records
failed now (some ip) records = (record_failure now ip records).0

abbrev pub succeeded : Option ℕ → Records → Records
succeeded none records = records
succeeded (some ip) records = record_success ip records

abbrev pub finish :
    ℕ → Option ℕ → Records → Option Text → Result (ClientInfo × Option Text) → Outcome
finish later addr records recovery (err _) = (none, failed later addr records, recovery)
finish later addr records recovery (ok (info, file)) = (some info, succeeded addr records, file)

module _ (libraries : Libraries) (saved : Bool) (ctx : ServerContext) where
  abbrev pub attempt : Timing → ℕ → Option ℕ → Bytes → Peer → Records → Option Text → Outcome
  attempt (timed_out file) later addr challenge peer records recovery =
      (none, failed later addr records, file)
  attempt in_time later addr challenge peer records recovery =
      finish later addr records recovery (authenticate libraries saved ctx challenge peer recovery)

  -- A connection at `now` whose handshake ends at `later`.
  unfoldable pub connect :
      Timing → ℕ → ℕ → Option ℕ → Bytes → Peer → Records → Option Text → Outcome
  connect timing now later addr challenge peer records recovery =
      if banned_peer now addr records
      then (none, records, recovery)
      else attempt timing later addr challenge peer records recovery

  -- After a refused handshake that brings a ban, every connection from that address within 300
  -- seconds is turned away before the handshake, whatever it would send, and changes nothing; later
  -- ones are served again.
  pub connect-connect :
      (timing : Timing) (now later t t' ip : ℕ) (challenge challenge' : Bytes) (peer peer' : Peer)
      (records : Records) (recovery : Option Text) (e : Error)
      → is_banned now ip records ≡ false
      → is_banned later ip records ≡ false
      → authenticate libraries saved ctx challenge peer recovery ≡ err e
      → (record_failure later ip records).1 ≡ true
      → (let (_, records', recovery') =
            connect in_time now later (some ip) challenge peer records recovery in
          connect timing t t' (some ip) challenge' peer' records' recovery')
        ≡ (if ltb t (later + 300)
            then (none, (record_failure later ip records).0, recovery)
            else attempt timing t'
                (some ip)
                challenge'
                peer'
                (record_failure later ip records).0
                recovery)
  unfolding connect
  connect-connect timing now later t t' ip challenge challenge' peer peer' records recovery e free
        free' refused bans =
      rw (free, refused, ban_length later t ip records bans, free') refl
