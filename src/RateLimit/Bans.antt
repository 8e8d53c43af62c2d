-- ===== src/RateLimit/Bans.antt =====
-- When an address is banned, for how long, and that no other address is affected.
use rsh.Prelude.{ℕ, ◌+◌, ◌≡◌, ◌≢◌, true, arith, ltb, if◌then◌else◌}
use rsh.RateLimit.{
  Records, ban_duration, get, is_banned, entry, fail_record, record_failure, record_success,
}
use rsh.RateLimit.Records.{get-insert, get-remove}

-- `record_failure` answers that the address is banned exactly if it is banned from then on.
is_banned-record_failure :
    (now ip : ℕ) (m : Records)
    → is_banned now ip (record_failure now ip m).0 ≡ (record_failure now ip m).1
unfolding is_banned record_failure
is_banned-record_failure now ip m =
    ground (arith, get-insert ip ip (fail_record now (entry (get ip m))).0 m)

-- A failure that brings the ban bans the address for exactly 300 seconds, and one under a ban
-- does not change when that ends.
pub ban_length :
    (now t ip : ℕ) (m : Records)
    → (record_failure now ip m).1 ≡ true
    → is_banned t ip (record_failure now ip m).0
      ≡ (if is_banned now ip m then is_banned t ip m else ltb t (now + ban_duration))
unfolding is_banned record_failure
ban_length now t ip m h = ground (arith, get-insert ip ip (fail_record now (entry (get ip m))).0 m)

-- A failure or a success of one address leaves every other address as it was.
is_banned_other :
    (now t ip j : ℕ) (m : Records)
    → ip ≢ j
    → (is_banned t j (record_failure now ip m).0 ≡ is_banned t j m)
      × (is_banned t j (record_success ip m) ≡ is_banned t j m)
unfolding is_banned record_failure record_success
is_banned_other now t ip j m ne = (
  ground (arith, get-insert ip j (fail_record now (entry (get ip m))).0 m),
  ground (arith, get-remove ip j m),
)
