-- ===== src/Tests/WebsocketTests.antt =====
-- src/quic/src/websocket.hpp, its caller in src/quic/src/quic_peer.cpp, and src/protocol/websocket.cpp
-- at concrete inputs.
use beyond_protocol.Prelude.{ℕ, ◌≡◌, ◌≢◌, refl, arith, inl, true, List, [], ◌∷◌, ◌++◌, length}
use mathlib.Core.List.{flatten}
use beyond_protocol.Websocket.Header.{
  MaskKey, wrote, written_size, header_bytes, write_header, parse_header, ok,
}
use beyond_protocol.Websocket.Header.RoundTrip.{parse_header-write_header}
use beyond_protocol.Websocket.OpCode.{binary_frame, close}
use beyond_protocol.Websocket.Tcp.{mask_key, ws_prepare, ws_parse}
use beyond_protocol.Websocket.Tcp.Agree.{
  as_written, as_status, ws_prepare-eq-write_header, ws_parse-eq-parse_header,
}
use beyond_protocol.Websocket.Read.{drain, Reader, fresh, returned, receive_all}
use beyond_protocol.Websocket.Read.Fuel.{Drains, drain-Drains}
use beyond_protocol.Websocket.Read.Payload.{unmask}
use beyond_protocol.Websocket.Read.Split.{IsIdle, receive_all-write_header}

abbrev key : MaskKey
key = record { key_0 = 55; key_1 = 250; key_2 = 33; key_3 = 61 }

-- The header of a masked binary frame of five bytes, and those bytes masked.
abbrev header : List ℕ
header = 130 ∷ 133 ∷ 55 ∷ 250 ∷ 33 ∷ 61 ∷ []

abbrev hello : List ℕ
hello = 72 ∷ 101 ∷ 108 ∷ 108 ∷ 111 ∷ []

abbrev masked_hello : List ℕ
masked_hello = 127 ∷ 159 ∷ 77 ∷ 81 ∷ 88 ∷ []

fresh-IsIdle : IsIdle fresh
fresh-IsIdle = record { used = refl; clean = refl; none_left = refl; no_partial = refl }

not_close : binary_frame ≢ close
not_close = λ e. omega arith

parse_header-write_header_example :
    (bytes : List ℕ) × (write_header 2 true key 5 14 ≡ wrote bytes)
    × (parse_header (bytes ++ masked_hello)
        ≡ ok (record {
          fin = true;
          rsv = 0;
          mask = true;
          op_code = 2;
          payload_length = 5;
          masking_key = key;
          header_size = length bytes;
        }))
parse_header-write_header_example =
    parse_header-write_header 2 true key 5 14 masked_hello (inl (omega arith)) (omega arith)
      (omega arith)

ws_prepare-eq-write_header_example :
    as_written (ws_prepare 2 true 7 300 12) ≡ write_header 2 true (mask_key 7) 300 12
ws_prepare-eq-write_header_example = ws_prepare-eq-write_header 2 true 7 300 12 (omega arith)

ws_parse-eq-parse_header_example : as_status (ws_parse header) ≡ parse_header header
ws_parse-eq-parse_header_example = ws_parse-eq-parse_header header

-- A reader in the middle of a masked payload, three bytes from its start.
abbrev reading : Reader
reading = record fresh { payload_read = 3; payload_remaining = 8; masked = true; mask_key = key }

-- The reader with a buffer that ends the payload.
abbrev loaded : Reader
loaded = record reading { buffer = hello }

drain-Drains_example : Drains loaded [] (drain 6 loaded [])
drain-Drains_example = drain-Drains 6 loaded [] (omega arith)

-- The header cut after three bytes, and the payload after two.
receive_all-write_header_example :
    (r' : Reader) × IsIdle r'
    × (receive_all fresh
          ((130 ∷ 133 ∷ 55 ∷ []) ∷ (250 ∷ 33 ∷ 61 ∷ 127 ∷ 159 ∷ []) ∷ (77 ∷ 81 ∷ 88 ∷ []) ∷ [])
          []
        ≡ returned r' (unmask true key 0 masked_hello))
unfolding write_header written_size header_bytes flatten
receive_all-write_header_example =
    receive_all-write_header 2 true key fresh (130 ∷ 133 ∷ 55 ∷ []) (250 ∷ 33 ∷ 61 ∷ [])
      (127 ∷ 159 ∷ []) ((77 ∷ 81 ∷ 88 ∷ []) ∷ []) [] (inl (omega arith)) not_close (omega arith)
      refl (omega arith) fresh-IsIdle
