-- ===== src/Websocket/Read/Payload.antt =====
-- The payload of one frame, however it is cut.
use mathlib.Core.List.{flatten, append-nil, append_assoc}
use beyond_protocol.Prelude.{
  ℕ, suc, ◌+◌, ◌-◌, ◌≡◌, ◌≤◌, ◌<◌, refl, ap, Bool, true, false, if◌then◌else◌, List, [], ◌∷◌, ◌++◌,
  length, take, drop, min, arith, length-append,
}
use beyond_protocol.Websocket.Masking.{mask, mask-append, length-mask}
use beyond_protocol.Websocket.Header.{MaskKey}
use beyond_protocol.Websocket.Read.{
  Reader, returned, next, next_buffer, read_buffer, drain, receive, receive_all,
}

pub take_all {ℓ} : {A : Type ℓ} (xs : List A) → take (length xs) xs ≡ xs
take_all [] = refl
take_all (x ∷ xs) = ap (◌∷◌ x) (take_all xs)

pub drop_all {ℓ} : {A : Type ℓ} (xs : List A) → drop (length xs) xs ≡ []
drop_all [] = refl
drop_all (x ∷ xs) = drop_all xs

-- What a payload byte string stands for, `offset` bytes into its frame.
abbrev pub unmask : Bool → MaskKey → ℕ → List ℕ → List ℕ
unmask masked k offset bytes = if masked then mask k offset bytes else bytes

-- The reader after `n` more payload bytes.
abbrev pub advance : Reader → ℕ → Reader
advance r n = record r {
  buffer = [];
  payload_read = r.payload_read + n;
  payload_remaining = r.payload_remaining - n;
}

pub next_buffer_whole :
    (r : Reader)
    → length r.buffer ≤ r.payload_remaining
    → next_buffer r
      ≡ (advance r (length r.buffer), unmask r.masked r.mask_key r.payload_read r.buffer)
unfolding next_buffer
next_buffer_whole r fits =
    let e : min (length r.buffer) r.payload_remaining ≡ length r.buffer = omega arith in
    rw (e, take_all r.buffer, drop_all r.buffer)

pub read_buffer_empty : (r : Reader) → r.buffer ≡ [] → read_buffer r ≡ returned r []
unfolding read_buffer
read_buffer_empty r e = rw (ap length e, read_buffer)

read_buffer_payload :
    (r : Reader)
    → 0 < length r.buffer
    → length r.buffer ≤ r.payload_remaining
    → read_buffer r
      ≡ returned (advance r (length r.buffer)) (unmask r.masked r.mask_key r.payload_read r.buffer)
unfolding read_buffer
read_buffer_payload r some_input fits = ground (arith, next_buffer_whole r fits)

length-unmask :
    (m : Bool) (k : MaskKey) (offset : ℕ) (bytes : List ℕ)
    → length (unmask m k offset bytes) ≡ length bytes
length-unmask true k offset bytes = length-mask k offset bytes
length-unmask false k offset bytes = refl

-- A read that leaves no input ends the loop, whether it returned bytes or not.
pub drain_last :
    (fuel : ℕ) (r r' : Reader) (bytes : List ℕ)
    → read_buffer r ≡ returned r' bytes
    → r'.buffer ≡ []
    → r'.error ≡ false
    → drain (suc (suc fuel)) r [] ≡ returned r' bytes
unfolding drain
drain_last fuel r r' [] e used clean = rw (e, drain) (ground arith)
drain_last fuel r r' (b ∷ bytes) e used clean =
    rw (e, drain) (ground (arith, read_buffer_empty r' used))

module _ (r : Reader) (used : r.buffer ≡ []) (clean : r.error ≡ false) where
  pub next_empty : (bytes : List ℕ) → next r bytes ≡ returned (record r { buffer = bytes }) tt
  unfolding next
  next_empty bytes = rw (ap length used, next)

  pub receive_by :
      (bytes : List ℕ) (r' : Reader) (out : List ℕ)
      → 0 < length bytes
      → read_buffer (record r { buffer = bytes }) ≡ returned r' out
      → r'.buffer ≡ []
      → r'.error ≡ false
      → receive r bytes ≡ returned r' out
  unfolding receive
  receive_by (b ∷ bytes) r' out some_input e used' clean' =
      let fuel : suc (length bytes) + 1 ≡ suc (suc (length bytes)) = omega arith in
      rw (next_empty (b ∷ bytes), receive)
        (rw fuel (drain_last (length bytes) _ r' out e used' clean'))
  receive_by [] r' out some_input e used' clean' = absurd (omega arith)

  pub receive_nothing : receive r [] ≡ returned r []
  unfolding receive drain
  receive_nothing =
      let same : record r { buffer = [] } ≡ r = ground arith in
      rw (next_empty [], receive, read_buffer_empty (record r { buffer = [] }) refl, drain)
        (ground arith)

-- Within a frame each buffer is passed on unmasked from where the last one ended.
pub receive_payload :
    (r : Reader) (bytes : List ℕ)
    → r.buffer ≡ []
    → r.error ≡ false
    → length bytes ≤ r.payload_remaining
    → receive r bytes
      ≡ returned (advance r (length bytes)) (unmask r.masked r.mask_key r.payload_read bytes)
unfolding mask
receive_payload r [] used clean fits = rw (receive_nothing r used clean) (ground arith)
receive_payload r (b ∷ bytes) used clean fits =
    receive_by r used clean (b ∷ bytes) (advance r (suc (length bytes))) _ (omega arith)
      (read_buffer_payload (record r { buffer = b ∷ bytes }) (omega arith) fits) refl clean

pub unmask-append :
    (m : Bool) (k : MaskKey) (offset : ℕ) (xs ys : List ℕ)
    → unmask m k offset (xs ++ ys) ≡ unmask m k offset xs ++ unmask m k (offset + length xs) ys
unmask-append true k offset xs ys = mask-append k offset xs ys
unmask-append false k offset xs ys = refl

unmask-nil : (m : Bool) (k : MaskKey) (offset : ℕ) → unmask m k offset [] ≡ []
unfolding mask
unmask-nil true k offset = refl
unmask-nil false k offset = refl

advance-advance : (r : Reader) (m n : ℕ) → advance (advance r m) n ≡ advance r (m + n)
advance-advance r m n = ground arith

-- In the middle of a payload, with no header bytes kept and no error before, the bytes of any number
-- of buffers that are not more than the payload lacks are passed on with the mask taken off from where
-- the reader is, however they are cut, and the reader is that much further.
pub receive_all_payload :
    (r : Reader) (bs : List (List ℕ)) (out : List ℕ)
    → r.buffer ≡ []
    → r.error ≡ false
    → length (flatten bs) ≤ r.payload_remaining
    → receive_all r bs out
      ≡ returned
          (advance r (length (flatten bs)))
          (out ++ unmask r.masked r.mask_key r.payload_read (flatten bs))
unfolding receive_all flatten
receive_all_payload r [] out used clean fits =
    rw (unmask-nil r.masked r.mask_key r.payload_read, append-nil out) (ground arith)
receive_all_payload r (b ∷ bs) out used clean fits =
    let whole = length-append b (flatten bs) in
    let first = receive_payload r b used clean (omega (arith, whole)) in
    let rest =
      receive_all_payload (advance r (length b)) bs
        (out ++ unmask r.masked r.mask_key r.payload_read b) refl clean (omega (arith, whole)) in
    let parts = unmask-append r.masked r.mask_key r.payload_read b (flatten bs) in
    rw
      (first, receive_all, rest, advance-advance r (length b) (length (flatten bs)), ← whole, parts)
      (rw append_assoc)
