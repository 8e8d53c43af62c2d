-- ===== src/Stun/Tests.antt =====
-- stun.rs on the packets of its own tests.
use rsh.Prelude.{◌≡◌, ◌≤◌, refl, none, some, [], ◌∷◌, ◌++◌, length, slice, replicate}
use rsh.Prelude.Bytes.{Bytes}
use rsh.Stun.{
  SocketAddr, word, binding_response, parse_xor_mapped_address, attributes, parse_response, cone,
  symmetric, unknown_nat, collect, classify, detect_nat_type,
}
use rsh.Stun.Accepted.{IsAttribute, parse_response-IsAttribute}

abbrev home : SocketAddr
home = record { ip = 192 ∷ 168 ∷ 1 ∷ 100 ∷ []; port = 8822 }

abbrev transaction : Bytes
transaction = replicate 12 7

-- A response with an unknown attribute of one byte, padded, and the address under the cookie.
abbrev answer : Bytes
answer =
    (1 ∷ 1 ∷ 0 ∷ 20 ∷ 0x21 ∷ 0x12 ∷ 0xA4 ∷ 0x42 ∷ [])
    ++ (transaction
        ++ ((0x80 ∷ 0x22 ∷ 0 ∷ 1 ∷ 9 ∷ 0 ∷ 0 ∷ 0 ∷ [])
            ++ (0 ∷ 0x20 ∷ 0 ∷ 8 ∷ 0 ∷ 1 ∷ 0x03 ∷ 0x64 ∷ 0xE1 ∷ 0xBA ∷ 0xA5 ∷ 0x26 ∷ [])))

answered : parse_response transaction answer ≡ some home
unfolding parse_response attributes parse_xor_mapped_address
answered = refl

cut_off : parse_response transaction (slice answer 0 39) ≡ none
unfolding parse_response
cut_off = refl

parse_response-IsAttribute_example :
    (20 ≤ length answer)
    × (word answer 0 ≡ binding_response)
    × (slice answer 8 20 ≡ transaction)
    × IsAttribute answer home
parse_response-IsAttribute_example = parse_response-IsAttribute transaction answer home answered

two_answers :
    (detect_nat_type (some (0 ∷ 0 ∷ 0 ∷ 0 ∷ [])) (some home ∷ some home ∷ [])
      ≡ record { nat_type = cone; external_addr = some home })
    × (detect_nat_type none (none ∷ some home ∷ [])
        ≡ record { nat_type = unknown_nat; external_addr = some home })
    × (detect_nat_type none (some home ∷ some (record home { port = 9 }) ∷ [])
        ≡ record { nat_type = symmetric; external_addr = some home })
unfolding detect_nat_type collect classify
two_answers = (refl, refl, refl)
