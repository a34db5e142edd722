-- ===== src/Websocket/Read.antt =====
-- WebsocketRead of src/quic/src/websocket.hpp: the incremental decoder of a received byte stream.
-- Sizes of input buffers fit an int32_t. `partial_header` holds the first ws_partial_header_read_
-- bytes of ws_header_.
pub mod Payload
pub mod Split
pub mod Faults
pub mod Fuel
pub mod Stays
use beyond_protocol.Prelude.{
  ℕ, zero, suc, ◌+◌, ◌-◌, ◌%◌, ◌^◌, Bool, true, false, ◌==◌, ltb, not, if◌then◌else◌, List, [], ◌∷◌,
  ◌++◌, ◌||◌, length, take, drop, min,
}
use beyond_protocol.Websocket.OpCode.{close}
use beyond_protocol.Websocket.Header.{
  MaskKey, no_key, WebSocketHeader, ParseStatus, ok, not_enough_data, invalid, parse_header,
}
use beyond_protocol.Websocket.Masking.{mask}

pub record Reader : Type 0 where
  pub payload_read : ℕ
  pub payload_remaining : ℕ
  pub partial_header : List ℕ
  pub masked : Bool
  pub mask_key : MaskKey
  pub buffer : List ℕ
  pub error : Bool

-- The constructor, and Reset (which leaves the mask key and the header buffer as they are).
abbrev pub fresh : Reader
fresh = record {
  payload_read = 0;
  payload_remaining = 0;
  partial_header = [];
  masked = false;
  mask_key = no_key;
  buffer = [];
  error = false;
}

unfoldable pub reset : Reader → Reader
reset r = record fresh { mask_key = r.mask_key }

-- `abort` is a failed CHECK. `undefined` is a negative payload size, with which the source builds a
-- span out of range. `returned` has the state and the span that the call returns.
pub data Outcome (A : Type 0) : Type 0 where
  abort undefined : Outcome A
  returned : Reader → A → Outcome A

-- Next(data)
unfoldable pub next : Reader → List ℕ → Outcome (Unit {0})
next r bytes = if length r.buffer == 0 then returned (record r { buffer = bytes }) tt else abort

unfoldable pub next_buffer : Reader → Reader × List ℕ
next_buffer r =
    let size = min (length r.buffer) r.payload_remaining in
    let bytes = take size r.buffer in
    (
      record r {
        buffer = drop size r.buffer;
        payload_read = r.payload_read + size;
        payload_remaining = r.payload_remaining - size;
      },
      if r.masked then mask r.mask_key r.payload_read bytes else bytes,
    )

-- The header buffer after CopyPartialHeader.
unfoldable pub copy_partial_header : Reader → List ℕ
copy_partial_header r =
    r.partial_header ++ take (min (14 - length r.partial_header) (length r.buffer)) r.buffer

abbrev return_next : Reader × List ℕ → Outcome (List ℕ)
return_next (r, bytes) = returned r bytes

-- After a complete header; `offset` bytes of it were read earlier. The 64-bit length is stored in an int.
unfoldable pub start_payload : Reader → ℕ → WebSocketHeader → Outcome (List ℕ)
start_payload r offset h =
    let rest = drop (h.header_size - offset) r.buffer in
    let length_int = h.payload_length % 2 ^ 32 in
    if h.op_code == close
    then returned (record r { buffer = rest; error = true }) []
    else (if ltb length_int (2 ^ 31)
        then return_next (
            next_buffer (record r {
              buffer = rest;
              masked = h.mask;
              mask_key = h.masking_key;
              partial_header = [];
              payload_read = 0;
              payload_remaining = length_int;
            }))
        else undefined)

-- NOT_ENOUGH_DATA: the rest of the input is kept in the header buffer.
unfoldable pub keep_partial : Reader → ℕ → Outcome (List ℕ)
keep_partial r offset =
    let header = if length r.partial_header == 0 then copy_partial_header r else r.partial_header in
    if not (ltb (length r.buffer + length r.partial_header) 14)
    then abort
    else (if not (length header == offset + length r.buffer)
        then abort
        else returned (record r { partial_header = header; buffer = [] }) [])

abbrev dispatch : Reader → ℕ → ParseStatus → Outcome (List ℕ)
dispatch r offset invalid = returned (record r { error = true }) []
dispatch r offset not_enough_data = keep_partial r offset
dispatch r offset (ok h) = start_payload r offset h

-- Buffer()
unfoldable pub read_buffer : Reader → Outcome (List ℕ)
read_buffer r =
    let offset = length r.partial_header in
    let header = copy_partial_header r in
    let from_partial =
      (if ltb offset 14
        then dispatch (record r { partial_header = header }) offset (parse_header header)
        else abort) in
    let from_input = dispatch r offset (parse_header r.buffer) in
    if length r.buffer == 0
    then returned r []
    else (if ltb 0 r.payload_remaining
        then return_next (next_buffer r)
        else (if ltb 0 offset then from_partial else from_input))

-- One received buffer, as src/quic/src/quic_peer.cpp passes it on: Next, then Buffer until it
-- returns an error or an empty span. The result is what is copied to the receive buffer. Each round
-- that goes on takes a byte, so the buffer's length and one round more are enough.
unfoldable pub drain : ℕ → Reader → List ℕ → Outcome (List ℕ)
drain zero r out = undefined
drain (suc fuel) r out = elim (read_buffer r) [
  | abort ↦ abort
  | undefined ↦ undefined
  | returned r' bytes ↦
      let rest = drain fuel r' (out ++ bytes) in
      if r'.error || (length bytes == 0) then returned r' out else rest
]

unfoldable pub receive : Reader → List ℕ → Outcome (List ℕ)
receive r bytes = elim (next r bytes) [
  | abort ↦ abort
  | undefined ↦ undefined
  | returned r' _ ↦ drain (length bytes + 1) r' []
]

-- Several buffers, one after the other.
unfoldable pub receive_all : Reader → List (List ℕ) → List ℕ → Outcome (List ℕ)
receive_all r [] out = returned r out
receive_all r (b ∷ bs) out = elim (receive r b) [
  | abort ↦ abort
  | undefined ↦ undefined
  | returned r' bytes ↦ receive_all r' bs (out ++ bytes)
]
