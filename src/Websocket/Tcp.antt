-- ===== src/Websocket/Tcp.antt =====
-- src/protocol/websocket.cpp: the header codec, the receiver's framing and the sender of a websocket
-- over TCP or TLS. `char` data is read as bytes, and integers are stored low byte first, as on the
-- machines that the library is built for. Byte strings that a call leaves in a buffer are its result.
pub mod Agree
pub mod Frames
use beyond_protocol.Prelude.{
  ℕ, ◌+◌, ◌*◌, ◌/◌, ◌%◌, ◌^◌, ◌-◌, bit_and, bit_or, Bool, true, false, ◌&&◌, ◌||◌, ◌==◌, ltb, leb,
  not, if◌then◌else◌, List, [], ◌∷◌, ◌++◌, get_or, length, Option, none, some, map,
}
use beyond_protocol.Websocket.OpCode.{binary_frame}
use beyond_protocol.Websocket.Bytes.{byte_of, read_16, read_64}
use beyond_protocol.Websocket.Header.{MaskKey, no_key, key_bytes}
use beyond_protocol.Websocket.Masking.{mask}

-- reinterpret_cast<uint8_t*>(&mask)
abbrev pub mask_key : ℕ → MaskKey
mask_key m = record {
  key_0 = byte_of m 0;
  key_1 = byte_of m 1;
  key_2 = byte_of m 2;
  key_3 = byte_of m 3;
}

-- `failed` is the -1 of the source; `prepared` holds the bytes at the start of `data`, as many as
-- the call returns.
pub data Prepared : Type 0 where
  failed : Prepared
  prepared : List ℕ → Prepared

unfoldable pub ws_prepare : ℕ → Bool → ℕ → ℕ → ℕ → Prepared
ws_prepare op use_mask m len max_len =
    let size =
      2
      + (if leb 126 len then 2 else 0)
      + (if leb 65536 len then 6 else 0)
      + (if use_mask then 4 else 0) in
    let mask_bit = if use_mask then 0x80 else 0 in
    let key = key_bytes use_mask (mask_key m) in
    if ltb max_len size
    then failed
    else prepared (
        bit_or 0x80 op
        ∷ (if ltb len 126
            then bit_or (len % 2 ^ 8) mask_bit ∷ key
            else (if ltb len 65536
                then bit_or 126 mask_bit ∷ byte_of len 1 ∷ byte_of len 0 ∷ key
                else bit_or 127 mask_bit
                  ∷ byte_of len 7
                  ∷ byte_of len 6
                  ∷ byte_of len 5
                  ∷ byte_of len 4
                  ∷ byte_of len 3
                  ∷ byte_of len 2
                  ∷ byte_of len 1
                  ∷ byte_of len 0
                  ∷ key)))

-- wsheader_type
pub record WsHeader : Type 0 where
  pub header_size : ℕ
  pub fin : Bool
  pub rsv : ℕ
  pub mask : Bool
  pub opcode : ℕ
  pub n0 : ℕ
  pub n : ℕ
  pub masking_key : MaskKey

-- The exceptions that the two functions below throw.
pub data WsError : Type 0 where
  too_small reserved_not_zero opcode_invalid masked_not_supported : WsError

pub data Result {ℓ} (A : Type ℓ) : Type ℓ where
  ok : A → Result A
  throw : WsError → Result A

unfoldable pub ws_parse : List ℕ → Result WsHeader
ws_parse d =
    let d0 = get_or d 0 0 in
    let d1 = get_or d 1 0 in
    let opcode = bit_and d0 0x0f in
    let masked = bit_and d1 0x80 == 0x80 in
    let n0 = bit_and d1 0x7f in
    let size =
      2 + (if n0 == 126 then 2 else 0) + (if n0 == 127 then 8 else 0) + (if masked then 4 else 0) in
    let n = if ltb n0 126 then n0 else (if n0 == 126 then read_16 d 2 else read_64 d 2) in
    let i : ℕ = if ltb n0 126 then 2 else (if n0 == 126 then 4 else 10) in
    let key : MaskKey = record {
      key_0 = get_or d (i + 0) 0;
      key_1 = get_or d (i + 1) 0;
      key_2 = get_or d (i + 2) 0;
      key_3 = get_or d (i + 3) 0;
    } in
    if ltb (length d) 2
    then throw too_small
    else (if ltb (length d) size
        then throw too_small
        else (if not (bit_and d0 0x70 == 0)
            then throw reserved_not_zero
            else (if ltb 10 opcode || (ltb 2 opcode && ltb opcode 8)
                then throw opcode_invalid
                else ok (record {
                  header_size = size;
                  fin = bit_and d0 0x80 == 0x80;
                  rsv = bit_and d0 0x70;
                  mask = masked;
                  opcode = opcode;
                  n0 = n0;
                  n = n;
                  masking_key = if masked then key else no_key;
                }))))

-- What `prepare_next` answers: false (wait for more data), or true with the offset of the payload.
pub data Next : Type 0 where
  wait : Next
  ready : ℕ → Next

-- header.N + header.header_size is a sum of uint64_t.
unfoldable pub check_frame : WsHeader → ℕ → Result Next
check_frame h data_len =
    if ltb data_len ((h.n + h.header_size) % 2 ^ 64)
    then ok wait
    else (if h.mask then throw masked_not_supported else ok (ready h.header_size))

infixl 5 ◌>>=◌
abbrev ◌>>=◌ {ℓ κ} : {A : Type ℓ} {B : Type κ} → Result A → (A → Result B) → Result B
ok a >>= f = f a
throw e >>= f = throw e

unfoldable pub prepare_next : List ℕ → Result Next
unfolding check_frame
prepare_next d =
    let parsed = (do header ← ws_parse d; check_frame header (length d)) in
    if ltb (length d) 14 then ok wait else parsed

-- The masking loop of writev over the buffers, `msglen` bytes after the start of the message.
unfoldable pub mask_buffers : MaskKey → ℕ → List (List ℕ) → List (List ℕ)
mask_buffers key msglen [] = []
mask_buffers key msglen (b ∷ bs) = mask key msglen b ∷ mask_buffers key (msglen + length b) bs

unfoldable pub total_length : List (List ℕ) → ℕ
total_length [] = 0
total_length (b ∷ bs) = length b + total_length bs

-- The buffers that writev hands to SocketT::writev, with the mask that secure_rnd drew; none is the
-- early return of -1. The first buffer is the header.
unfoldable pub frame_buffers : ℕ → List (List ℕ) → Option (List (List ℕ))
frame_buffers m iov = elim (ws_prepare binary_frame true m (total_length iov) 20) [
  | failed ↦ none
  | prepared header ↦ some (header ∷ mask_buffers (mask_key m) 0 iov)
]
