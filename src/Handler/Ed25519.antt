-- ===== src/Handler/Ed25519.antt =====
-- crates/mrsh-server/src/handler.rs: the raw key and the raw signature in what a peer sends.
use rsh.Prelude.{◌-◌, ◌&&◌, ◌==◌, leb, if◌then◌else◌, length, take, drop, slice}
use rsh.Prelude.Bytes.{Bytes, from_be}
use rsh.Error.{Result, ok, err, public_key_length, signature_length}
use rsh.Text.{chars, text_eq}

-- The 32 bytes of the key: alone, or at the end of the SSH format.
unfoldable pub extract_ed25519_raw : Bytes → Result Bytes
extract_ed25519_raw bytes =
    let len = length bytes in
    let last = drop (len - 32) bytes in
    if len == 32
    then ok bytes
    else if leb 33 len
    then (if leb 51 len
          && (from_be (take 4 bytes) == 11 && text_eq (slice bytes 4 15) (chars "ssh-ed25519"))
        then ok last
        else ok last)
    else err public_key_length

unfoldable pub extract_ed25519_sig : Bytes → Result Bytes
extract_ed25519_sig bytes =
    let len = length bytes in
    if len == 64
    then ok bytes
    else if leb 65 len
    then ok (drop (len - 64) bytes)
    else err signature_length
