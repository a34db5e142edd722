-- ===== src/Websocket/Read/Faults.antt =====
-- Two classes of valid input that the incremental decoder aborts on.
use mathlib.Core.List.{append-nil, append_assoc}
use beyond_protocol.Prelude.{
  ℕ, suc, ◌+◌, ◌*◌, ◌-◌, ◌^◌, ◌≡◌, ◌≢◌, ◌≤◌, ◌<◌, ◌∙◌, refl, ap, Bool, true, false, if◌then◌else◌,
  List, [], ◌∷◌, ◌++◌, length, drop, min, arith, length-append,
}
use beyond_protocol.Websocket.OpCode.{close}
use beyond_protocol.Websocket.Masking.{mask}
use beyond_protocol.Websocket.Header.{
  MaskKey, no_key, WebSocketHeader, ok, not_enough_data, parse_header, wrote, write_header,
}
use beyond_protocol.Websocket.Header.RoundTrip.{
  IsOpCode, parse_header_of_wrote, length-write_header,
}
use beyond_protocol.Websocket.Read.{
  Reader, abort, returned, next, copy_partial_header, keep_partial, read_buffer, drain, receive,
  receive_all, start_payload, next_buffer,
}
use beyond_protocol.Websocket.Read.Payload.{take_all, next_empty}
use beyond_protocol.Websocket.Read.Split.{
  IsIdle, kept, parse_header_part, receive_first, drop-append,
}

-- The second of three parts of a header: its bytes are counted twice by the CHECK.
module _ (w : WebSocketHeader) (a b rest : List ℕ) (reads : parse_header (a ++ b ++ rest) ≡ ok w)
    (part : length a + length b < w.header_size) (short : w.header_size ≤ 14)
    (some_a : 0 < length a) (some_b : 0 < length b) where
  read_again :
      (r : Reader)
      → r.payload_remaining ≡ 0
      → r.partial_header ≡ a
      → r.buffer ≡ b
      → 14 ≤ length a + 2 * length b
      → read_buffer r ≡ abort
  unfolding read_buffer keep_partial
  read_again r none ep eb twice =
      let header = copy_partial_header r in
      let n : min (14 - length a) (length b) ≡ length b = omega arith in
      let copied : header ≡ a ++ b = unfold copy_partial_header in rw (ep, eb, n, take_all b) in
      let size = length-append a b in
      let whole : length header ≡ length a + length b = ap length copied ∙ size in
      let parsed : parse_header header ≡ not_enough_data =
        rw copied (parse_header_part (a ++ b) rest w reads (omega arith)) in
      let same : length r.partial_header ≡ length a = ap length ep in
      let same' : length r.buffer ≡ length b = ap length eb in
      rw (same, same', parsed, read_buffer, keep_partial) (ground arith)

  receive_again :
      (r : Reader)
      → r.error ≡ false
      → r.payload_remaining ≡ 0
      → 14 ≤ length a + 2 * length b
      → receive (kept r a) b ≡ abort
  unfolding receive drain
  receive_again r clean none twice =
      let input : Reader = record r { partial_header = a; buffer = b } in
      let fuel : length b + 1 ≡ suc (length b) = omega arith in
      rw
        (
          next_empty (kept r a) refl clean b,
          receive,
          fuel,
          read_again input none refl refl twice,
          drain,
        )
        refl

-- A valid header of a frame below 2^31 bytes, with any known opcode but close, that comes in three
-- parts, `a` and `b` and a rest, makes an idle decoder abort at `b` if `a` and twice `b` come to at
-- least 14 bytes.
pub receive_all_cut_twice :
    (op : ℕ) (m : Bool) (k : MaskKey) (n : ℕ) (r : Reader) (a b d out : List ℕ)
    → IsOpCode op
    → op ≢ close
    → n < 2 ^ 31
    → write_header op m k n 14 ≡ wrote (a ++ b ++ d)
    → 0 < length a
    → 0 < length b
    → 0 < length d
    → 14 ≤ length a + 2 * length b
    → IsIdle r
    → receive_all r (a ∷ b ∷ []) out ≡ abort
unfolding receive_all
receive_all_cut_twice op m k n r a b d out known open_frame fits written some_a some_b some_d twice
      idle =
    let (_, _, short) = length-write_header op m k n 14 (a ++ b ++ d) written in
    let size = length-append (a ++ b) d in
    let size' = length-append a b in
    let size'' = length-append b d in
    let reads = λ (rest : List ℕ).
      parse_header_of_wrote op m k n 14 (a ++ b ++ d) rest known (omega arith) written in
    let w : WebSocketHeader = record {
      fin = true;
      rsv = 0;
      mask = m;
      op_code = op;
      payload_length = n;
      masking_key = if m then k else no_key;
      header_size = length (a ++ b ++ d);
    } in
    let reads_all : parse_header (a ++ b ++ d) ≡ ok w = rw append-nil at (reads []) in
    let reads_first : (rest : List ℕ) → parse_header (a ++ (b ++ d) ++ rest) ≡ ok w =
      λ rest. rw (← append_assoc a b d) (reads rest) in
    let first =
      receive_first w open_frame fits a (b ++ d) (omega arith) (omega arith) reads_first r idle
        (omega arith) in
    let second =
      receive_again w a b d reads_all (omega arith) short some_a some_b r idle.clean idle.none_left
        twice in
    rw (first, receive_all, second) refl

next_full : (r : Reader) (bytes : List ℕ) → 0 < length r.buffer → next r bytes ≡ abort
unfolding next
next_full r bytes full = ground arith

receive_full : (r : Reader) (bytes : List ℕ) → 0 < length r.buffer → receive r bytes ≡ abort
unfolding receive
receive_full r bytes full = rw (next_full r bytes full, receive) refl

module _ (w : WebSocketHeader) (open_frame : w.op_code ≢ close) (none : w.payload_length ≡ 0)
    (header more : List ℕ) (reads : parse_header (header ++ more) ≡ ok w)
    (size : w.header_size ≡ length header) (some_more : 0 < length more) where
  abbrev stopped : Reader → Reader
  stopped r = record r {
    buffer = more;
    masked = w.mask;
    mask_key = w.masking_key;
    partial_header = [];
    payload_read = 0;
    payload_remaining = 0;
  }

  start_empty :
      (r : Reader) → r.buffer ≡ header ++ more → start_payload r 0 w ≡ returned (stopped r) []
  unfolding start_payload next_buffer mask
  start_empty r eb =
      let k : w.header_size - 0 ≡ length header = omega arith in
      let left : drop (w.header_size - 0) r.buffer ≡ more = rw (k, eb) (drop-append header more) in
      let zero_size : min (length more) 0 ≡ 0 = omega arith in
      rw (left, none, zero_size, start_payload) (ground arith)

  read_empty :
      (r : Reader)
      → r.buffer ≡ header ++ more
      → IsIdle (record r { buffer = [] })
      → read_buffer r ≡ returned (stopped r) []
  unfolding read_buffer
  read_empty r eb idle =
      let parsed : parse_header r.buffer ≡ ok w = rw eb reads in
      let some_input : 0 < length r.buffer = rw eb (omega (arith, length-append header more)) in
      let same : length r.partial_header ≡ 0 = ap length idle.no_partial in
      rw (same, read_buffer) (ground (arith, parsed, start_empty r eb, idle.none_left))

  receive_empty : (r : Reader) → IsIdle r → receive r (header ++ more) ≡ returned (stopped r) []
  unfolding receive drain
  receive_empty r idle =
      let input : Reader = record r { buffer = header ++ more } in
      let n = length (header ++ more) in
      let fuel : n + 1 ≡ suc n = omega arith in
      let idle' : IsIdle (record input { buffer = [] }) = record {
        used = refl;
        clean = idle.clean;
        none_left = idle.none_left;
        no_partial = idle.no_partial;
      } in
      rw
        (
          next_empty r idle.used idle.clean (header ++ more),
          receive,
          fuel,
          read_empty input refl idle',
          drain,
        )
        (ground arith)

-- A frame without payload, with any known opcode but close, that has more input behind it in its buffer
-- makes an idle decoder abort at the next buffer, whatever that holds.
pub receive_empty_frame :
    (op : ℕ) (m : Bool) (k : MaskKey) (r : Reader) (header more b out : List ℕ)
    → IsOpCode op
    → op ≢ close
    → write_header op m k 0 14 ≡ wrote header
    → 0 < length more
    → IsIdle r
    → receive_all r ((header ++ more) ∷ b ∷ []) out ≡ abort
unfolding receive_all
receive_empty_frame op m k r header more b out known open_frame written some_more idle =
    let w : WebSocketHeader = record {
      fin = true;
      rsv = 0;
      mask = m;
      op_code = op;
      payload_length = 0;
      masking_key = if m then k else no_key;
      header_size = length header;
    } in
    let reads = parse_header_of_wrote op m k 0 14 header more known (omega arith) written in
    let first = receive_empty w open_frame refl header more reads refl some_more r idle in
    let second : receive (stopped w open_frame refl header more reads refl some_more r) b ≡ abort =
      receive_full _ b some_more in
    rw (first, receive_all, second) refl
