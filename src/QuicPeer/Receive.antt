-- ===== src/QuicPeer/Receive.antt =====
-- OnData of src/quic/src/quic_peer.cpp: received buffers are unframed into the memory that msgpack reads from.
-- That memory is the parameter `reserve`: what room is there after reserve_buffer, from the room before and the size
-- asked for. The messages that msgpack makes of the bytes are not modelled.
pub mod Room
pub mod Taken
pub mod Agree
pub mod Whole
use beyond_protocol.Prelude.{
  ℕ, zero, suc, ◌+◌, ◌-◌, ◌*◌, max, Bool, true, false, not, ◌&&◌, ◌==◌, ltb, if◌then◌else◌, List,
  [], ◌∷◌, ◌++◌, length,
}
use beyond_protocol.Websocket.Read.{Reader, Outcome, abort, undefined, returned, receive}

-- recv_buffer_reserve_size_
abbrev pub recv_buffer_reserve_size : ℕ
recv_buffer_reserve_size = 1024 * 512

-- The receiving half of QuicPeerStream, with the locals of OnData. `parsed` has the bytes that msgpack was told of,
-- `copied` those that were written after them, size_consumed of them; `consumed` counts what the stream was told of. `has_stream` is whether stream_ is set: close() ends it, and returns once it is null.
pub record Receiver : Type 0 where
  pub reader : Reader
  pub ws_frame : Bool
  pub has_stream : Bool
  pub capacity : ℕ
  pub parsed : List ℕ
  pub copied : List ℕ
  pub size_total : ℕ
  pub consumed : ℕ

-- A failed CHECK, a write past the memory, a size below 0, a span out of range, and a call on a null stream_.
pub data Receipt : Type 0 where
  check_failed overrun wrapped undefined_span null_stream : Receipt
  received : Receiver → Receipt

-- recv_buffer_.buffer_consumed, of what was copied
unfoldable pub buffer_consumed : Receiver → Receiver
buffer_consumed s = record s {
  parsed = s.parsed ++ s.copied;
  copied = [];
  size_total = s.size_total + length s.copied;
  capacity = s.capacity - length s.copied;
}

unfoldable pub make_room : (ℕ → ℕ → ℕ) → ℕ → Receiver → Receiver
make_room reserve n s =
    let s1 = buffer_consumed s in
    if ltb s.capacity (n + length s.copied)
    then record s1 { capacity = reserve s1.capacity (max recv_buffer_reserve_size n) }
    else s

-- memcpy to the memory
unfoldable pub copy_in : List ℕ → Receiver → Receipt
copy_in bytes s =
    if ltb s.capacity (length s.copied + length bytes)
    then overrun
    else received (record s { copied = s.copied ++ bytes })

-- The branch for a stream of websocket frames.
unfoldable pub unframe : List ℕ → Receiver → Receipt
unframe b s = elim (receive s.reader b) [
  | abort ↦ check_failed
  | undefined ↦ undefined_span
  | returned r bytes ↦
      if ltb (length b) (length bytes)
      then wrapped
      else copy_in bytes (record s {
        reader = r;
        size_total = s.size_total + (length b - length bytes);
        has_stream = s.has_stream && not r.error;
      })
]

unfoldable pub receive_one : (ℕ → ℕ → ℕ) → List ℕ → Receiver → Receipt
receive_one reserve b s =
    let s1 = make_room reserve (length b) s in if s1.ws_frame then unframe b s1 else copy_in b s1

unfoldable pub receive_each : (ℕ → ℕ → ℕ) → List (List ℕ) → Receiver → Receipt
receive_each reserve [] s = received s
receive_each reserve (b ∷ bs) s = elim (receive_one reserve b s) [
  | check_failed ↦ check_failed
  | overrun ↦ overrun
  | wrapped ↦ wrapped
  | undefined_span ↦ undefined_span
  | null_stream ↦ null_stream
  | received s1 ↦ receive_each reserve bs s1
]

abbrev pub sizes : List (List ℕ) → ℕ
sizes [] = 0
sizes (b ∷ bs) = length b + sizes bs

-- The end of OnData; its locals are gone.
unfoldable pub finish : ℕ → Receiver → Receipt
finish size s =
    let s1 = record s { consumed = s.consumed + (length s.copied + s.size_total) } in
    if not s.has_stream
    then null_stream
    else (if length s.copied + s.size_total == size
        then received (record (buffer_consumed s1) { size_total = 0 })
        else check_failed)

-- OnData
unfoldable pub on_data : (ℕ → ℕ → ℕ) → List (List ℕ) → Receiver → Receipt
on_data reserve bs s = elim (receive_each reserve bs (record s { copied = []; size_total = 0 })) [
  | check_failed ↦ check_failed
  | overrun ↦ overrun
  | wrapped ↦ wrapped
  | undefined_span ↦ undefined_span
  | null_stream ↦ null_stream
  | received s1 ↦ finish (sizes bs) s1
]
