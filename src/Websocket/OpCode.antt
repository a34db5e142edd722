-- ===== src/Websocket/OpCode.antt =====
-- OpCodeType of src/quic/src/websocket.hpp.
use beyond_protocol.Prelude.{ℕ}

abbrev pub continuation : ℕ
continuation = 0

abbrev pub text_frame : ℕ
text_frame = 1

abbrev pub binary_frame : ℕ
binary_frame = 2

abbrev pub close : ℕ
close = 8

abbrev pub ping : ℕ
ping = 9

abbrev pub pong : ℕ
pong = 10
