-- ===== src/Config/RelayInfo.antt =====
-- What `update_host_relay_info` changes, and when it says so.
use rsh.Prelude.{
  ◌⊎◌, ◌≡◌, refl, sym, ap, ◌∙◌, Bool, true, false, ◌||◌, Option, none, some, List, [], ◌∷◌,
  Bool-cases, inl, inr,
}
use rsh.Text.{Text, text_eq, text_eq_iff}
use rsh.Text.Table.{text_eq_refl}
use rsh.Config.{
  HostConfig, Config, default_host, or_else, differs, is_for, ascii_lower, relay_info, update_in,
  update_host_relay_info,
}

or_else-or_else : (given old : Option Text) → or_else given (or_else given old) ≡ or_else given old
or_else-or_else none old = refl
or_else-or_else (some t) old = refl

differs-or_else : (given old : Option Text) → differs given (or_else given old) ≡ false
differs-or_else none old = refl
differs-or_else (some t) old = rw (text_eq_refl t) refl

same_if_equal : (given old : Option Text) → differs given old ≡ false → or_else given old ≡ old
same_if_equal none old h = refl
same_if_equal (some t) none h = cc
same_if_equal (some t) (some o) h = elim (Bool-cases (text_eq o t)) [
  | inl same ↦ ap some (sym ((text_eq_iff o t).0 same))
  | inr other ↦ let never : true ≡ false = rw other at h in cc
]

both_false : (a b : Bool) → a || b ≡ false → (a ≡ false) × (b ≡ false)
both_false true b h = cc
both_false false b h = (refl, h)

abbrev Updated : Type 0
Updated = List HostConfig × Bool

abbrev unchanged : List HostConfig → Updated
unchanged hosts = (hosts, false)

abbrev touched : List HostConfig → Bool → Updated
touched hosts changed = (hosts, changed)

abbrev behind : HostConfig → Updated → Updated
behind h r = (h ∷ r.0, r.1)

module _ (name : Text) (device_id server : Option Text) where
  unchanged_host :
      (h : HostConfig)
      → differs device_id h.device_id || differs server h.rendezvous_server ≡ false
      → relay_info device_id server h ≡ h
  unchanged_host h e =
      let (a, b) =
        both_false (differs device_id h.device_id) (differs server h.rendezvous_server) e in
      ap
        (λ (d : Option Text). record h {
          device_id = d;
          rendezvous_server = or_else server h.rendezvous_server;
        })
        (same_if_equal device_id h.device_id a)
      ∙ ap (λ (s : Option Text). record h { rendezvous_server = s })
          (same_if_equal server h.rendezvous_server b)

  twice :
      (h : HostConfig)
      → relay_info device_id server (relay_info device_id server h) ≡ relay_info device_id server h
  twice h =
      ap
        (λ (d : Option Text). record h {
          device_id = d;
          rendezvous_server = or_else server (or_else server h.rendezvous_server);
        })
        (or_else-or_else device_id h.device_id)
      ∙ ap
          (λ (s : Option Text). record h {
            device_id = or_else device_id h.device_id;
            rendezvous_server = s;
          })
          (or_else-or_else server h.rendezvous_server)

  settled :
      (h : HostConfig)
      → differs device_id (relay_info device_id server h).device_id
          || differs server (relay_info device_id server h).rendezvous_server
        ≡ false
  settled h =
      rw (differs-or_else device_id h.device_id) (differs-or_else server h.rendezvous_server)

  here_again :
      (h : HostConfig) (hosts : List HostConfig)
      → is_for name (relay_info device_id server h) ≡ true
      → update_in name device_id server (relay_info device_id server h ∷ hosts)
        ≡ (relay_info device_id server h ∷ hosts, false)
  unfolding update_in
  here_again h hosts found = rw (found, settled h, twice h) refl

  update_in_kept :
      (hosts : List HostConfig)
      → (update_in name device_id server hosts).1 ≡ false
      → (update_in name device_id server hosts).0 ≡ hosts
  unfolding update_in
  update_in_kept [] e = cc
  update_in_kept (h ∷ hosts) e = elim (Bool-cases (is_for name h)) [
    | inl found ↦ rw found (ap (λ (x : HostConfig). x ∷ hosts) (unchanged_host h (rw found at e)))
    | inr other ↦ rw other (ap (◌∷◌ h) (update_in_kept hosts (rw other at e)))
  ]

  update_in_found :
      (h : HostConfig) (hosts : List HostConfig)
      → is_for name h ≡ true
      → update_in name device_id server (h ∷ hosts)
        ≡ touched
            (relay_info device_id server h ∷ hosts)
            (differs device_id h.device_id || differs server h.rendezvous_server)
  unfolding update_in
  update_in_found h hosts found = rw found refl

  update_in_other :
      (h : HostConfig) (hosts : List HostConfig)
      → is_for name h ≡ false
      → update_in name device_id server (h ∷ hosts)
        ≡ behind h (update_in name device_id server hosts)
  unfolding update_in
  update_in_other h hosts other = rw other refl

  update_in-update_in :
      (hosts : List HostConfig)
      → update_in name device_id server (update_in name device_id server hosts).0
        ≡ ((update_in name device_id server hosts).0, false)
  update_in-update_in [] =
      let named : is_for name (relay_info device_id server (record default_host { pattern = name }))
          ≡ true =
        rw (text_eq_refl (ascii_lower name)) refl in
      unfold update_in in here_again (record default_host { pattern = name }) [] named
  update_in-update_in (h ∷ hosts) = elim (Bool-cases (is_for name h)) [
    | inl found ↦
        let first = update_in_found h hosts found in
        ap (λ (r : Updated). update_in name device_id server r.0) first
        ∙ here_again h hosts found
        ∙ sym (ap (λ (r : Updated). unchanged r.0) first)
    | inr other ↦
        let first = update_in_other h hosts other in
        ap (λ (r : Updated). update_in name device_id server r.0) first
        ∙ update_in_other h (update_in name device_id server hosts).0 other
        ∙ ap (λ (r : Updated). behind h r) (update_in-update_in hosts)
        ∙ sym (ap (λ (r : Updated). unchanged r.0) first)
  ]

abbrev with_hosts : Config → Updated → Config × Bool
with_hosts cfg r = (record cfg { hosts = r.0 }, r.1)

said_changed :
    (cfg : Config) (name : Text) (device_id server : Option Text)
    → ((update_in name device_id server cfg.hosts).1 ≡ true)
      ⊎ ((with_hosts cfg (update_in name device_id server cfg.hosts)).0 ≡ cfg)
said_changed cfg name device_id server =
    elim (Bool-cases (update_in name device_id server cfg.hosts).1) [
      | inl changed ↦ inl changed
      | inr same ↦ inr (
          ap (λ (hs : List HostConfig). record cfg { hosts = hs })
            (update_in_kept name device_id server cfg.hosts same))
    ]

-- A second update with the same answer changes nothing and says so; and an update says that it
-- changed something, or leaves the configuration as it was.
pub update-update :
    (cfg : Config) (name : Text) (device_id server : Option Text)
    → (update_host_relay_info
          (update_host_relay_info cfg name device_id server).0
          name
          device_id
          server
        ≡ ((update_host_relay_info cfg name device_id server).0, false))
      × (((update_host_relay_info cfg name device_id server).1 ≡ true)
          ⊎ ((update_host_relay_info cfg name device_id server).0 ≡ cfg))
unfolding update_host_relay_info
update-update cfg name none none = (refl, inr refl)
update-update cfg name (some id) server = (
  ap (with_hosts cfg) (update_in-update_in name (some id) server cfg.hosts),
  said_changed cfg name (some id) server,
)
update-update cfg name none (some server) = (
  ap (with_hosts cfg) (update_in-update_in name none (some server) cfg.hosts),
  said_changed cfg name none (some server),
)
