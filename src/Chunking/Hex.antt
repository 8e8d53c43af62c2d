-- ===== src/Chunking/Hex.antt =====
-- Two digests have the same hexadecimal text only if they are the same.
use rsh.Prelude.{ℕ, ◌/◌, ◌%◌, ◌<◌, ◌≡◌, ◌↔◌, refl, ap, [], ◌∷◌, arith}
use rsh.Prelude.Bytes.{Bytes}
use rsh.Chunking.{hex_digit, hex_encode, hash_sha256}

abbrev pub AllBytes : Bytes → Type 0
AllBytes [] = Unit
AllBytes (b ∷ bs) = (b < 256) × AllBytes bs

hex_digit-injective : (a b : ℕ) → a < 16 → b < 16 → hex_digit a ≡ hex_digit b → a ≡ b
unfolding hex_digit
hex_digit-injective a b h k e = ground arith

hex_encode-injective :
    (xs ys : Bytes) → AllBytes xs → AllBytes ys → hex_encode xs ≡ hex_encode ys → xs ≡ ys
unfolding hex_encode
hex_encode-injective [] [] h k e = refl
hex_encode-injective [] (y ∷ ys) h k e = cc
hex_encode-injective (x ∷ xs) [] h k e = cc
hex_encode-injective (x ∷ xs) (y ∷ ys) h k e =
    let tails = hex_encode-injective xs ys h.1 k.1 (cc) in
    let high = hex_digit-injective (x / 16) (y / 16) (omega arith) (omega arith) (cc) in
    let low = hex_digit-injective (x % 16) (y % 16) (omega arith) (omega arith) (cc) in
    let heads : x ≡ y = omega arith in cc

-- Two texts of `hash_sha256` are equal exactly if the digests are, for digests that are bytes.
pub hash_sha256_iff :
    (sha256 : Bytes → Bytes) (a b : Bytes)
    → AllBytes (sha256 a)
    → AllBytes (sha256 b)
    → (hash_sha256 sha256 a ≡ hash_sha256 sha256 b) ↔ (sha256 a ≡ sha256 b)
unfolding hash_sha256
hash_sha256_iff sha256 a b h k = (hex_encode-injective (sha256 a) (sha256 b) h k, ap hex_encode)
