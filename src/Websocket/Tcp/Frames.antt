-- ===== src/Websocket/Tcp/Frames.antt =====
-- Whole frames: which input the receiver of src/protocol/websocket.cpp accepts, and what its sender
-- puts on the wire.
use mathlib.Core.List.{flatten}
use beyond_protocol.Prelude.{
  ℕ, ◌+◌, ◌^◌, ◌<◌, ◌≤◌, ◌≡◌, ◌∙◌, refl, subst, true, false, List, [], ◌∷◌, ◌++◌, length,
  length-append, arith, some,
}
use beyond_protocol.Websocket.OpCode.{binary_frame}
use beyond_protocol.Websocket.Header.{
  MaskKey, no_key, WebSocketHeader, Written, wrote, write_header, ParseStatus, parse_header,
}
use beyond_protocol.Websocket.Header
use beyond_protocol.Websocket.Header.RoundTrip.{
  IsOpCode, parse_header-write_header, parse_header_of_wrote, length-write_header,
}
use beyond_protocol.Websocket.Masking.{mask, mask-mask, mask-append, length-mask}
use beyond_protocol.Websocket.Tcp.{
  Prepared, failed, prepared, ws_prepare, mask_key, ok, wait, ready, check_frame, prepare_next,
  mask_buffers, total_length, frame_buffers,
}
use beyond_protocol.Websocket.Tcp.Agree.{
  as_written, ws_prepare-eq-write_header, ws_parse_of_parse_header,
}

module _ (d : List ℕ) (w : WebSocketHeader) (reads : parse_header d ≡ Header.ok w) where
  pub prepare_next_ready :
      w.mask ≡ false
      → w.payload_length + w.header_size < 2 ^ 64
      → w.payload_length + w.header_size ≤ length d
      → 14 ≤ length d
      → prepare_next d ≡ ok (ready w.header_size)
  unfolding prepare_next check_frame
  prepare_next_ready plain fits whole long =
      let (h, e, en, es, em) = ws_parse_of_parse_header d w reads in ground arith

  pub prepare_next_wait :
      w.payload_length + w.header_size < 2 ^ 64
      → length d < w.payload_length + w.header_size
      → prepare_next d ≡ ok wait
  unfolding prepare_next check_frame
  prepare_next_wait fits short =
      let (h, e, en, es, em) = ws_parse_of_parse_header d w reads in ground arith

  -- The sum of the two sizes wraps around, and the receiver takes bytes that it does not have.
  wrapped_ready :
      w.mask ≡ false
      → w.payload_length < 2 ^ 64
      → 2 ^ 64 ≤ w.payload_length + w.header_size
      → w.header_size ≤ 14
      → 14 ≤ length d
      → prepare_next d ≡ ok (ready w.header_size)
  unfolding prepare_next check_frame
  wrapped_ready plain fits wraps small long =
      let (h, e, en, es, em) = ws_parse_of_parse_header d w reads in ground arith

-- An unmasked frame of any known opcode, as the writer of either end lays it out, with all of its
-- payload behind it: the receiver finds the payload just behind the header, provided that 14 bytes
-- have come and the sizes add up below 2^64.
pub prepare_next_whole :
    (op n max_length : ℕ) (header received : List ℕ)
    → IsOpCode op
    → n + 14 < 2 ^ 64
    → write_header op false no_key n max_length ≡ wrote header
    → n ≤ length received
    → 14 ≤ length (header ++ received)
    → prepare_next (header ++ received) ≡ ok (ready (length header))
prepare_next_whole op n max_length header received known fits e whole long =
    let reads =
      parse_header_of_wrote op false no_key n max_length header received known (omega arith) e in
    let small = (length-write_header op false no_key n max_length header e).2 in
    prepare_next_ready (header ++ received) _ reads refl (omega arith)
      (omega (arith, length-append header received)) long

-- While some of the payload of an unmasked frame of any known opcode is missing, and the sizes add up
-- below 2^64, the receiver waits.
pub prepare_next_part :
    (op n max_length : ℕ) (header received : List ℕ)
    → IsOpCode op
    → n + 14 < 2 ^ 64
    → write_header op false no_key n max_length ≡ wrote header
    → length received < n
    → prepare_next (header ++ received) ≡ ok wait
prepare_next_part op n max_length header received known fits e part =
    let reads =
      parse_header_of_wrote op false no_key n max_length header received known (omega arith) e in
    let small = (length-write_header op false no_key n max_length header e).2 in
    prepare_next_wait (header ++ received) _ reads (omega arith)
      (omega (arith, length-append header received))

-- A header that announces at least 2^64 - 10 bytes is taken for a whole frame as soon as four bytes
-- stand behind it: the sum of the sizes is computed modulo 2^64.
pub prepare_next_overflow :
    (op n max_length : ℕ) (header received : List ℕ)
    → IsOpCode op
    → n < 2 ^ 64
    → 2 ^ 64 ≤ n + 10
    → write_header op false no_key n max_length ≡ wrote header
    → 4 ≤ length received
    → prepare_next (header ++ received) ≡ ok (ready (length header))
unfolding Header.written_size
prepare_next_overflow op n max_length header received known bound huge e more =
    let reads = parse_header_of_wrote op false no_key n max_length header received known bound e in
    let (size, _, small) = length-write_header op false no_key n max_length header e in
    let ten : length header ≡ 10 = ground arith in
    let whole = length-append header received in
    wrapped_ready (header ++ received) _ reads refl bound (omega arith) small (omega arith)

flatten-mask_buffers :
    (k : MaskKey) (start : ℕ) (iov : List (List ℕ))
    → flatten (mask_buffers k start iov) ≡ mask k start (flatten iov)
unfolding mask_buffers mask flatten
flatten-mask_buffers k start [] = refl
flatten-mask_buffers k start (b ∷ bs) =
    rw (flatten-mask_buffers k (start + length b) bs, mask-append k start b (flatten bs))

length-flatten : (iov : List (List ℕ)) → length (flatten iov) ≡ total_length iov
unfolding flatten total_length
length-flatten [] = refl
length-flatten (b ∷ bs) = omega (arith, length-append b (flatten bs), length-flatten bs)

prepared_of_wrote :
    (r : Prepared) (bytes : List ℕ) → as_written r ≡ wrote bytes → r ≡ prepared bytes
prepared_of_wrote failed bytes e = cc
prepared_of_wrote (prepared b) bytes e = cc

header_of :
    (m n : ℕ) (rest : List ℕ)
    → n < 2 ^ 64
    → (header : List ℕ) × (ws_prepare binary_frame true m n 20 ≡ prepared header)
      × (parse_header (header ++ rest)
          ≡ Header.ok (record {
            fin = true;
            rsv = 0;
            mask = true;
            op_code = binary_frame;
            payload_length = n;
            masking_key = mask_key m;
            header_size = length header;
          }))
header_of m n rest fits =
    let (header, e, reads) =
      parse_header-write_header binary_frame true (mask_key m) n 20 rest (omega arith) fits
        (omega arith) in
    let same = ws_prepare-eq-write_header binary_frame true m n 20 (omega arith) ∙ e in
    (header, prepared_of_wrote _ header same, reads)

-- What writev hands to the socket, for a message below 2^64 bytes, is one binary frame, whatever the
-- message is cut into: its header
-- reads back with the message's length and the key drawn, and unmasking the rest with that key
-- gives the message.
pub frame_buffers_lem :
    (m : ℕ) (iov : List (List ℕ))
    → total_length iov < 2 ^ 64
    → (header : List ℕ) × (body : List (List ℕ)) × (frame_buffers m iov ≡ some (header ∷ body))
      × (parse_header (header ++ flatten body)
          ≡ Header.ok (record {
            fin = true;
            rsv = 0;
            mask = true;
            op_code = binary_frame;
            payload_length = length (flatten body);
            masking_key = mask_key m;
            header_size = length header;
          }))
      × (mask (mask_key m) 0 (flatten body) ≡ flatten iov)
unfolding frame_buffers
frame_buffers_lem m iov fits =
    let key = mask_key m in
    let body = mask_buffers key 0 iov in
    let masked = flatten-mask_buffers key 0 iov in
    let size : length (flatten body) ≡ total_length iov =
      rw (masked, length-mask key 0 (flatten iov)) (length-flatten iov) in
    let (header, e, reads) = header_of m (length (flatten body)) (flatten body) (omega arith) in
    let written = subst (λ t. ws_prepare binary_frame true m t 20 ≡ prepared header) size e in
    (header, body, rw (written, frame_buffers), reads, rw masked (mask-mask key 0 (flatten iov)))
