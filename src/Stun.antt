-- ===== src/Stun.antt =====
-- crates/mrsh-relay/src/stun.rs: the response of a STUN server, and the kind of address translation
-- that the responses of two servers show. A packet is the bytes that were received.
pub mod Accepted
mod Tests
use rsh.Prelude.{
  ℕ, zero, suc, ◌+◌, ◌*◌, ◌/◌, Bool, true, false, Option, none, some, List, [], ◌∷◌, ◌&&◌, not, ltb,
  leb, ◌==◌, if◌then◌else◌, length, slice, bit_xor,
}
use rsh.Prelude.Bytes.{Bytes, byte_at}
use rsh.Text.{text_eq}

abbrev pub binding_response : ℕ
binding_response = 0x0101

abbrev pub attr_mapped_address : ℕ
attr_mapped_address = 0x0001

abbrev pub attr_xor_mapped_address : ℕ
attr_xor_mapped_address = 0x0020

pub record SocketAddr : Type 0 where
  pub ip : Bytes
  pub port : ℕ

-- `u16::from_be_bytes`
abbrev pub word : Bytes → ℕ → ℕ
word bytes i = byte_at bytes i * 256 + byte_at bytes (i + 1)

-- Any error is `none`.
unfoldable pub parse_mapped_address : Bytes → Option SocketAddr
parse_mapped_address bytes =
    if ltb (length bytes) 8
    then none
    else if byte_at bytes 1 == 1
    then some (record { ip = slice bytes 4 8; port = word bytes 2 })
    else none

-- The magic cookie is 0x2112A442.
unfoldable pub parse_xor_mapped_address : Bytes → Option SocketAddr
parse_xor_mapped_address bytes =
    if ltb (length bytes) 8
    then none
    else if byte_at bytes 1 == 1
    then some (record {
      ip =
          bit_xor (byte_at bytes 4) 0x21
          ∷ bit_xor (byte_at bytes 5) 0x12
          ∷ bit_xor (byte_at bytes 6) 0xA4
          ∷ bit_xor (byte_at bytes 7) 0x42
          ∷ [];
      port = bit_xor (word bytes 2) 0x2112;
    })
    else none

-- The loop over the attributes up to `end`. Each round moves on by four bytes at least, so as many
-- rounds as there are bytes are enough.
unfoldable pub attributes : ℕ → Bytes → ℕ → ℕ → Option SocketAddr
unfolding parse_mapped_address parse_xor_mapped_address
attributes zero packet end offset = none
attributes (suc fuel) packet end offset =
    let attr_type = word packet offset in
    let attr_len = word packet (offset + 2) in
    let body = offset + 4 in
    let rest = attributes fuel packet end (body + (attr_len + 3) / 4 * 4) in
    if ltb end (offset + 4)
    then none
    else if ltb end (body + attr_len)
    then none
    else if attr_type == attr_xor_mapped_address
    then parse_xor_mapped_address (slice packet body (body + attr_len))
    else if attr_type == attr_mapped_address
    then parse_mapped_address (slice packet body (body + attr_len))
    else rest

-- `stun_binding` on the packet that was received.
unfoldable pub parse_response : Bytes → Bytes → Option SocketAddr
unfolding attributes
parse_response txn_id packet =
    if ltb (length packet) 20
    then none
    else if not (word packet 0 == binding_response)
    then none
    else if not (text_eq (slice packet 8 20) txn_id)
    then none
    else if ltb (length packet) (20 + word packet 2)
    then none
    else attributes (length packet) packet (20 + word packet 2) 20

pub data NatType : Type 0 where
  open_nat cone symmetric unknown_nat : NatType

pub record NatInfo : Type 0 where
  pub nat_type : NatType
  pub external_addr : Option SocketAddr

-- The addresses of the servers that answered, of which the first two count.
unfoldable pub collect : List (Option SocketAddr) → List SocketAddr
collect [] = []
collect (none ∷ answers) = collect answers
collect (some a ∷ answers) = a ∷ collect answers

abbrev pub is_local : Option Bytes → Bytes → Bool
is_local none ip = false
is_local (some own) ip = text_eq own ip

abbrev pub same_addr : SocketAddr → SocketAddr → Bool
same_addr a b = text_eq a.ip b.ip && a.port == b.port

unfoldable pub classify : Option Bytes → List SocketAddr → NatInfo
classify own [] = record { nat_type = unknown_nat; external_addr = none }
classify own (a ∷ []) = record { nat_type = unknown_nat; external_addr = some a }
classify own (a ∷ b ∷ more) = record {
  nat_type = if same_addr a b then (if is_local own a.ip then open_nat else cone) else symmetric;
  external_addr = some a;
}

-- `detect_nat_type`, given the address that the socket is bound to and the answers.
unfoldable pub detect_nat_type : Option Bytes → List (Option SocketAddr) → NatInfo
unfolding collect classify
detect_nat_type own answers = classify own (collect answers)
