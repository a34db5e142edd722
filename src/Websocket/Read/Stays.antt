-- ===== src/Websocket/Read/Stays.antt =====
-- WebsocketRead of src/quic/src/websocket.hpp: an error of the decoder is not cleared by what it reads after.
use beyond_protocol.Prelude.{
  ℕ, zero, suc, ◌+◌, ◌%◌, ◌^◌, ◌≡◌, inl, inr, refl, Bool, true, false, ◌==◌, ltb, not, ◌||◌,
  if◌then◌else◌, List, [], ◌++◌, length, Bool-cases,
}
use beyond_protocol.Websocket.Header.{
  WebSocketHeader, ParseStatus, ok, not_enough_data, invalid, parse_header,
}
use beyond_protocol.Websocket.OpCode.{close}
use beyond_protocol.Websocket.Read.{
  Reader, Outcome, abort, undefined, returned, next, next_buffer, return_next, start_payload,
  keep_partial, copy_partial_header, dispatch, read_buffer, drain, receive,
}

-- A decoder that failed is one that failed.
abbrev pub StaysFailed : Bool → Outcome (List ℕ) → Type 0
StaysFailed e abort = Unit {0}
StaysFailed e undefined = Unit {0}
StaysFailed e (returned r bytes) = e ≡ true → r.error ≡ true

StaysFailed-if :
    (e b : Bool) (x y : Outcome (List ℕ))
    → StaysFailed e x
    → StaysFailed e y
    → StaysFailed e (if b then x else y)
StaysFailed-if e true x y hx hy = hx
StaysFailed-if e false x y hx hy = hy

next_buffer-StaysFailed : (r : Reader) → StaysFailed r.error (return_next (next_buffer r))
unfolding next_buffer
next_buffer-StaysFailed r = λ e. e

start_payload-StaysFailed :
    (r : Reader) (offset : ℕ) (h : WebSocketHeader) → StaysFailed r.error (start_payload r offset h)
unfolding start_payload next_buffer
start_payload-StaysFailed r offset h =
    StaysFailed-if r.error (h.op_code == close) _ _ (λ e. refl)
      (StaysFailed-if r.error (ltb (h.payload_length % 2 ^ 32) (2 ^ 31)) _ undefined (λ e. e) tt)

keep_partial-StaysFailed : (r : Reader) (offset : ℕ) → StaysFailed r.error (keep_partial r offset)
unfolding keep_partial
keep_partial-StaysFailed r offset =
    let header = if length r.partial_header == 0 then copy_partial_header r else r.partial_header in
    let kept : Outcome (List ℕ) = returned (record r { partial_header = header; buffer = [] }) [] in
    let kept_failed : StaysFailed r.error kept = λ e. e in
    let same_length = length header == offset + length r.buffer in
    StaysFailed-if r.error (not (ltb (length r.buffer + length r.partial_header) 14)) abort
      (if not same_length then abort else kept) tt
      (StaysFailed-if r.error (not same_length) abort kept tt kept_failed)

dispatch-StaysFailed :
    (r : Reader) (offset : ℕ) (p : ParseStatus) → StaysFailed r.error (dispatch r offset p)
dispatch-StaysFailed r offset invalid = λ e. refl
dispatch-StaysFailed r offset not_enough_data = keep_partial-StaysFailed r offset
dispatch-StaysFailed r offset (ok h) = start_payload-StaysFailed r offset h

read_buffer-StaysFailed : (r : Reader) → StaysFailed r.error (read_buffer r)
unfolding read_buffer
read_buffer-StaysFailed r =
    let held : Reader = record r { partial_header = copy_partial_header r } in
    StaysFailed-if r.error (length r.buffer == 0) _ _ (λ e. e)
      (StaysFailed-if r.error (ltb 0 r.payload_remaining) _ _ (next_buffer-StaysFailed r) (
        StaysFailed-if r.error (ltb 0 (length r.partial_header)) _ _
          (StaysFailed-if r.error (ltb (length r.partial_header) 14) _ abort
            (dispatch-StaysFailed held (length r.partial_header) (parse_header held.partial_header))
            tt)
          (dispatch-StaysFailed r (length r.partial_header) (parse_header r.buffer))))

StaysFailed-later :
    (d e : Bool) (o : Outcome (List ℕ)) → (d ≡ true → e ≡ true) → StaysFailed e o → StaysFailed d o
StaysFailed-later d e abort h s = tt
StaysFailed-later d e undefined h s = tt
StaysFailed-later d e (returned r bytes) h s = λ f. s (h f)

drain_step-StaysFailed :
    (fuel : ℕ) (e : Bool) (out : List ℕ)
    → ((r : Reader) (more : List ℕ) → StaysFailed r.error (drain fuel r more))
    → (o : Outcome (List ℕ)) → StaysFailed e o
    → StaysFailed e (elim o [
      | abort ↦ abort
      | undefined ↦ undefined
      | returned r' bytes ↦
          let rest = drain fuel r' (out ++ bytes) in
          if r'.error || (length bytes == 0) then returned r' out else rest
    ])
drain_step-StaysFailed fuel e out again abort s = tt
drain_step-StaysFailed fuel e out again undefined s = tt
drain_step-StaysFailed fuel e out again (returned r bytes) s =
    StaysFailed-if e (r.error || (length bytes == 0)) _ _ s
      (StaysFailed-later e r.error (drain fuel r (out ++ bytes)) s (again r (out ++ bytes)))

drain-StaysFailed : (fuel : ℕ) (r : Reader) (out : List ℕ) → StaysFailed r.error (drain fuel r out)
unfolding drain
drain-StaysFailed zero r out = tt
drain-StaysFailed (suc fuel) r out =
    drain_step-StaysFailed fuel r.error out (drain-StaysFailed fuel) (read_buffer r)
      (read_buffer-StaysFailed r)

pub receive-StaysFailed : (r : Reader) (b : List ℕ) → StaysFailed r.error (receive r b)
unfolding receive next
receive-StaysFailed r b = elim (Bool-cases (length r.buffer == 0)) [
  | inl used ↦
      rw (receive, next, used) (drain-StaysFailed (length b + 1) (record r { buffer = b }) [])
  | inr unused ↦ rw (receive, next, unused) tt
]
