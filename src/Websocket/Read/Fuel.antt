-- ===== src/Websocket/Read/Fuel.antt =====
-- src/quic/src/quic_peer.cpp: the loop that reads a received buffer ends.
use beyond_protocol.Prelude.{
  ℕ, zero, suc, ◌+◌, ◌-◌, ◌%◌, ◌^◌, ◌<◌, ◌≤◌, ◌≡◌, refl, Bool, true, false, ◌==◌, ltb, ◌||◌,
  if◌then◌else◌, List, [], ◌++◌, length, take, drop, min, arith, length-drop, length-take,
  length-append, Bool-cases, inl, inr,
}
use beyond_protocol.Websocket.Header.{
  WebSocketHeader, ParseStatus, ok, not_enough_data, invalid, parse_header,
}
use beyond_protocol.Websocket.OpCode.{close}
use beyond_protocol.Websocket.Masking.{length-mask}
use beyond_protocol.Websocket.Read.{
  Reader, Outcome, abort, undefined, returned, next_buffer, return_next, start_payload,
  keep_partial, copy_partial_header, dispatch, read_buffer, drain, next, receive,
}

-- What a call of Buffer leaves of the input is no more than what it did not return.
abbrev pub Shrinks : ℕ → Outcome (List ℕ) → Type 0
Shrinks n abort = Unit {0}
Shrinks n undefined = Unit {0}
Shrinks n (returned r bytes) = length r.buffer + length bytes ≤ n

next_buffer-Shrinks : (r : Reader) → Shrinks (length r.buffer) (return_next (next_buffer r))
unfolding next_buffer
next_buffer-Shrinks r =
    let size = min (length r.buffer) r.payload_remaining in
    ground (
      arith,
      length-mask r.mask_key r.payload_read (take size r.buffer),
      length-take size r.buffer,
      length-drop size r.buffer,
    )

Shrinks-weaken : (m n : ℕ) (o : Outcome (List ℕ)) → m ≤ n → Shrinks m o → Shrinks n o
Shrinks-weaken m n abort h s = tt
Shrinks-weaken m n undefined h s = tt
Shrinks-weaken m n (returned r bytes) h s = omega arith

Shrinks-if :
    (n : ℕ) (b : Bool) (x y : Outcome (List ℕ))
    → Shrinks n x
    → Shrinks n y
    → Shrinks n (if b then x else y)
Shrinks-if n true x y hx hy = hx
Shrinks-if n false x y hx hy = hy

start_payload-Shrinks :
    (r : Reader) (offset : ℕ) (h : WebSocketHeader)
    → Shrinks (length r.buffer) (start_payload r offset h)
unfolding start_payload
start_payload-Shrinks r offset h =
    let rest = drop (h.header_size - offset) r.buffer in
    let fewer = length-drop (h.header_size - offset) r.buffer in
    let begun : Reader = record r {
      buffer = rest;
      masked = h.mask;
      mask_key = h.masking_key;
      partial_header = [];
      payload_read = 0;
      payload_remaining = h.payload_length % 2 ^ 32;
    } in
    Shrinks-if (length r.buffer) (h.op_code == close) _ _ (omega arith) (
      Shrinks-if (length r.buffer) (ltb (h.payload_length % 2 ^ 32) (2 ^ 31)) _ undefined
        (Shrinks-weaken (length rest) (length r.buffer) (return_next (next_buffer begun))
          (omega arith) (next_buffer-Shrinks begun))
        tt)

keep_partial-Shrinks : (r : Reader) (offset : ℕ) → Shrinks (length r.buffer) (keep_partial r offset)
unfolding keep_partial
keep_partial-Shrinks r offset = ground arith

dispatch-Shrinks :
    (r : Reader) (offset : ℕ) (p : ParseStatus) → Shrinks (length r.buffer) (dispatch r offset p)
dispatch-Shrinks r offset invalid = omega arith
dispatch-Shrinks r offset not_enough_data = keep_partial-Shrinks r offset
dispatch-Shrinks r offset (ok h) = start_payload-Shrinks r offset h

read_buffer-Shrinks : (r : Reader) → Shrinks (length r.buffer) (read_buffer r)
unfolding read_buffer
read_buffer-Shrinks r =
    let n = length r.buffer in
    let held : Reader = record r { partial_header = copy_partial_header r } in
    Shrinks-if n (length r.buffer == 0) _ _ (omega arith) (
      Shrinks-if n (ltb 0 r.payload_remaining) _ _ (next_buffer-Shrinks r) (
        Shrinks-if n (ltb 0 (length r.partial_header)) _ _
          (Shrinks-if n (ltb (length r.partial_header) 14) _ abort
            (dispatch-Shrinks held (length r.partial_header) (parse_header held.partial_header)) tt)
          (dispatch-Shrinks r (length r.partial_header) (parse_header r.buffer))))

-- The rounds of the loop, without a bound on their number, and what they end with.
pub data Drains : Reader → List ℕ → Outcome (List ℕ) → Type 0 where
  aborts : (r : Reader) (out : List ℕ) → read_buffer r ≡ abort → Drains r out abort
  goes_wrong : (r : Reader) (out : List ℕ) → read_buffer r ≡ undefined → Drains r out undefined
  stops :
      (r r' : Reader) (out bytes : List ℕ)
      → read_buffer r ≡ returned r' bytes
      → (r'.error || (length bytes == 0)) ≡ true
      → Drains r out (returned r' out)
  goes_on :
      (r r' : Reader) (out bytes : List ℕ) (o : Outcome (List ℕ))
      → read_buffer r ≡ returned r' bytes
      → (r'.error || (length bytes == 0)) ≡ false
      → Drains r' (out ++ bytes) o
      → Drains r out o

-- What the loop makes of what a call of Buffer gives.
abbrev round : ℕ → List ℕ → Outcome (List ℕ) → Outcome (List ℕ)
round fuel out o = elim o [
  | abort ↦ abort
  | undefined ↦ undefined
  | returned r' bytes ↦
      let rest = drain fuel r' (out ++ bytes) in
      if r'.error || (length bytes == 0) then returned r' out else rest
]

round-Drains :
    (fuel : ℕ) (r : Reader) (out : List ℕ)
    → length r.buffer < fuel + 1
    → ((r' : Reader) (more : List ℕ)
        → length r'.buffer < fuel
        → Drains r' more (drain fuel r' more))
    → (o : Outcome (List ℕ)) → Shrinks (length r.buffer) o
    → read_buffer r ≡ o
    → Drains r out (round fuel out o)
round-Drains fuel r out bound again abort s is = aborts r out is
round-Drains fuel r out bound again undefined s is = goes_wrong r out is
round-Drains fuel r out bound again (returned r' bytes) s is =
    elim (Bool-cases (r'.error || (length bytes == 0))) [
      | inl t ↦ rw t (stops r r' out bytes is t)
      | inr f ↦
          let some_bytes : 0 < length bytes = ground arith in
          rw f (
            goes_on r r' out bytes (drain fuel r' (out ++ bytes)) is f
              (again r' (out ++ bytes) (omega arith)))
    ]

-- The loop that reads a received buffer ends, after finitely many rounds of its body, and what it ends with is what
-- `drain` gives on any bound above the number of the buffer's bytes; `receive` takes one more than that number.
pub drain-Drains :
    (fuel : ℕ) (r : Reader) (out : List ℕ)
    → length r.buffer < fuel
    → Drains r out (drain fuel r out)
unfolding drain
drain-Drains zero r out h = ground arith
drain-Drains (suc fuel) r out h =
    round-Drains fuel r out (omega arith) (λ r' more h'. drain-Drains fuel r' more h')
      (read_buffer r) (read_buffer-Shrinks r) refl

drain_step-Shrinks :
    (fuel n : ℕ) (out : List ℕ)
    → ((r : Reader) (more : List ℕ) → Shrinks (length r.buffer + length more) (drain fuel r more))
    → (o : Outcome (List ℕ)) → Shrinks n o
    → Shrinks (n + length out) (elim o [
      | abort ↦ abort
      | undefined ↦ undefined
      | returned r' bytes ↦
          let rest = drain fuel r' (out ++ bytes) in
          if r'.error || (length bytes == 0) then returned r' out else rest
    ])
drain_step-Shrinks fuel n out again abort s = tt
drain_step-Shrinks fuel n out again undefined s = tt
drain_step-Shrinks fuel n out again (returned r bytes) s =
    let more = length-append out bytes in
    Shrinks-if (n + length out) (r.error || (length bytes == 0)) _ _ (omega arith) (
      Shrinks-weaken (length r.buffer + length (out ++ bytes)) (n + length out)
        (drain fuel r (out ++ bytes)) (omega arith) (again r (out ++ bytes)))

drain-Shrinks :
    (fuel : ℕ) (r : Reader) (out : List ℕ)
    → Shrinks (length r.buffer + length out) (drain fuel r out)
unfolding drain
drain-Shrinks zero r out = tt
drain-Shrinks (suc fuel) r out =
    drain_step-Shrinks fuel (length r.buffer) out (drain-Shrinks fuel) (read_buffer r)
      (read_buffer-Shrinks r)

pub receive-Shrinks : (r : Reader) (b : List ℕ) → Shrinks (length b) (receive r b)
unfolding receive next
receive-Shrinks r b = elim (Bool-cases (length r.buffer == 0)) [
  | inl used ↦
      rw (receive, next, used)
        (Shrinks-weaken (length b + 0) (length b)
          (drain (length b + 1) (record r { buffer = b }) []) (omega arith)
          (drain-Shrinks (length b + 1) (record r { buffer = b }) []))
  | inr unused ↦ rw (receive, next, unused) tt
]
