-- ===== src/Stun/Accepted.antt =====
-- Which packets an address is taken from.
use rsh.Prelude.{
  ℕ, zero, suc, ◌+◌, ◌*◌, ◌/◌, ◌≤◌, ◌≡◌, refl, true, false, none, some, arith, ◌⊎◌, inl, inr, ltb,
  ◌==◌, length, slice, Bool-cases, ==_iff,
}
use rsh.Prelude.Bytes.{Bytes}
use rsh.Text.{text_eq, text_eq_iff}
use rsh.Stun.{
  SocketAddr, word, binding_response, attr_mapped_address, attr_xor_mapped_address,
  parse_mapped_address, parse_xor_mapped_address, attributes, parse_response,
}

-- An attribute inside the packet that the address stands in.
pub record IsAttribute (packet : Bytes) (addr : SocketAddr) : Type 0 where
  pub start : ℕ
  pub end : ℕ
  pub behind_header : 20 ≤ start
  pub sized : end ≡ start + 4 + word packet (start + 2)
  pub inside : end ≤ length packet
  pub read :
      ((word packet start ≡ attr_xor_mapped_address)
        × (parse_xor_mapped_address (slice packet (start + 4) end) ≡ some addr))
      ⊎ ((word packet start ≡ attr_mapped_address)
          × (parse_mapped_address (slice packet (start + 4) end) ≡ some addr))

attributes-IsAttribute :
    (fuel : ℕ) (packet : Bytes) (end offset : ℕ) (addr : SocketAddr)
    → 20 ≤ offset
    → end ≤ length packet
    → attributes fuel packet end offset ≡ some addr
    → IsAttribute packet addr
unfolding attributes
attributes-IsAttribute zero packet end offset addr low high h = cc
attributes-IsAttribute (suc fuel) packet end offset addr low high h =
    elim (Bool-cases (ltb end (offset + 4))) [
      | inl short ↦ let never : none ≡ some addr = rw short at h in cc
      | inr more ↦ elim (Bool-cases (ltb end (offset + 4 + word packet (offset + 2)))) [
        | inl cut ↦ let never : none ≡ some addr = rw (more, cut) at h in cc
        | inr full ↦ elim (Bool-cases (word packet offset == attr_xor_mapped_address)) [
          | inl xor_form ↦ record {
            start = offset;
            end = offset + 4 + word packet (offset + 2);
            behind_header = low;
            sized = refl;
            inside = ground arith;
            read = inl (
              (==_iff (word packet offset) attr_xor_mapped_address).0 xor_form,
              rw (more, full, xor_form) at h,
            );
          }
          | inr other ↦ elim (Bool-cases (word packet offset == attr_mapped_address)) [
            | inl plain_form ↦ record {
              start = offset;
              end = offset + 4 + word packet (offset + 2);
              behind_header = low;
              sized = refl;
              inside = ground arith;
              read = inr (
                (==_iff (word packet offset) attr_mapped_address).0 plain_form,
                rw (more, full, other, plain_form) at h,
              );
            }
            | inr unknown_form ↦
                attributes-IsAttribute fuel packet end
                  (offset + 4 + (word packet (offset + 2) + 3) / 4 * 4) addr (omega arith) high
                  (rw (more, full, other, unknown_form) at h)
          ]
        ]
      ]
    ]

not_ltb : (a b : ℕ) → ltb a b ≡ false → b ≤ a
not_ltb a b h = ground arith

-- An address is taken only from a binding response of at least 20 bytes that carries the
-- transaction of the request, from an attribute that stands behind the header and within the bytes
-- that were received.
pub parse_response-IsAttribute :
    (txn_id packet : Bytes) (addr : SocketAddr)
    → parse_response txn_id packet ≡ some addr
    → (20 ≤ length packet)
      × (word packet 0 ≡ binding_response)
      × (slice packet 8 20 ≡ txn_id)
      × IsAttribute packet addr
unfolding parse_response
parse_response-IsAttribute txn_id packet addr h = elim (Bool-cases (ltb (length packet) 20)) [
  | inl short ↦ let never : none ≡ some addr = rw short at h in cc
  | inr long ↦ elim (Bool-cases (word packet 0 == binding_response)) [
    | inr other ↦ let never : none ≡ some addr = rw (long, other) at h in cc
    | inl response ↦ elim (Bool-cases (text_eq (slice packet 8 20) txn_id)) [
      | inr stray ↦ let never : none ≡ some addr = rw (long, response, stray) at h in cc
      | inl ours ↦ elim (Bool-cases (ltb (length packet) (20 + word packet 2))) [
        | inl cut ↦ let never : none ≡ some addr = rw (long, response, ours, cut) at h in cc
        | inr whole ↦ (
          not_ltb (length packet) 20 long,
          (==_iff (word packet 0) binding_response).0 response,
          (text_eq_iff (slice packet 8 20) txn_id).0 ours,
          attributes-IsAttribute (length packet) packet (20 + word packet 2) 20 addr (omega arith)
              (not_ltb (length packet) (20 + word packet 2) whole)
              (rw (long, response, ours, whole) at h),
        )
      ]
    ]
  ]
]

-- More rounds than there are bytes left change nothing.
attributes_enough :
    (fuel more : ℕ) (packet : Bytes) (end offset : ℕ)
    → end ≤ offset + fuel
    → fuel ≤ more
    → attributes more packet end offset ≡ attributes fuel packet end offset
unfolding attributes
attributes_enough zero zero packet end offset h e = refl
attributes_enough zero (suc more) packet end offset h e =
    let done : ltb end (offset + 4) ≡ true = ground arith in rw done refl
attributes_enough (suc fuel) zero packet end offset h e = absurd (omega arith)
attributes_enough (suc fuel) (suc more) packet end offset h e =
    rw
      (attributes_enough fuel more packet end (offset + 4 + (word packet (offset + 2) + 3) / 4 * 4)
        (omega arith) (omega arith))
      refl
