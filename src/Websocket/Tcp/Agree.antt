-- ===== src/Websocket/Tcp/Agree.antt =====
-- The two header codecs of the library agree: what one end writes over TCP is what the other end
-- writes and reads inside a QUIC stream.
use beyond_protocol.Prelude.{ℕ, ◌≤◌, ◌≡◌, ◌∙◌, refl, Bool, true, false, List, arith}
use beyond_protocol.Websocket.Header.{
  WebSocketHeader, Written, too_small, wrote, write_header, header_bytes, written_size, ParseStatus,
  ok, not_enough_data, invalid, parse_header, parsed_size, read_length, bad_op, key_at,
}
use beyond_protocol.Websocket.Tcp
use beyond_protocol.Websocket.Tcp.{
  Prepared, failed, prepared, ws_prepare, mask_key, WsHeader, Result, throw, ws_parse,
}

-- The answer of `ws_prepare` in the terms of the other writer.
abbrev pub as_written : Prepared → Written
as_written failed = too_small
as_written (prepared bytes) = wrote bytes

-- In a buffer of at least 12 bytes, the least that the QUIC writer accepts, both write the same
-- bytes, and both refuse a header that does not fit.
pub ws_prepare-eq-write_header :
    (op : ℕ) (use_mask : Bool) (m len max_len : ℕ)
    → 12 ≤ max_len
    → as_written (ws_prepare op use_mask m len max_len)
      ≡ write_header op use_mask (mask_key m) len max_len
unfolding ws_prepare write_header header_bytes written_size
ws_prepare-eq-write_header op true m len max_len h = ground arith
ws_prepare-eq-write_header op false m len max_len h = ground arith

-- The result of `ws_parse` in the terms of the other parser.
abbrev pub as_status : Result WsHeader → ParseStatus
as_status (Tcp.ok h) = ok (record {
  fin = h.fin;
  rsv = h.rsv;
  mask = h.mask;
  op_code = h.opcode;
  payload_length = h.n;
  masking_key = h.masking_key;
  header_size = h.header_size;
})
as_status (throw Tcp.too_small) = not_enough_data
as_status (throw Tcp.reserved_not_zero) = invalid
as_status (throw Tcp.opcode_invalid) = invalid
as_status (throw Tcp.masked_not_supported) = invalid

-- On every input both parsers read the same header or both refuse, one by an exception that says
-- whether data is missing.
pub ws_parse-eq-parse_header : (d : List ℕ) → as_status (ws_parse d) ≡ parse_header d
unfolding ws_parse parse_header parsed_size read_length bad_op key_at
ws_parse-eq-parse_header d = ground arith

-- What the QUIC parser reads, `ws_parse` reads.
pub ws_parse_of_parse_header :
    (d : List ℕ) (w : WebSocketHeader)
    → parse_header d ≡ ok w
    → (h : WsHeader) × (ws_parse d ≡ Tcp.ok h)
      × (h.n ≡ w.payload_length)
      × (h.header_size ≡ w.header_size)
      × (h.mask ≡ w.mask)
ws_parse_of_parse_header d w e = from_status (ws_parse d) (ws_parse-eq-parse_header d ∙ e)
  where
    from_status :
        (r : Result WsHeader)
        → as_status r ≡ ok w
        → (h : WsHeader) × (r ≡ Tcp.ok h)
          × (h.n ≡ w.payload_length)
          × (h.header_size ≡ w.header_size)
          × (h.mask ≡ w.mask)
    from_status (Tcp.ok h) q = (h, refl, ground arith, ground arith, ground arith)
    from_status (throw Tcp.too_small) q = cc
    from_status (throw Tcp.reserved_not_zero) q = cc
    from_status (throw Tcp.opcode_invalid) q = cc
    from_status (throw Tcp.masked_not_supported) q = cc
