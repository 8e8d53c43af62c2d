-- ===== src/Handler/Handshake/Sound.antt =====
-- Who gets through the handshake.
use rsh.Prelude.Bytes.{Bytes}
use rsh.Error.{Error}
use rsh.Text.{Text}
