-- ===== src/Websocket/Header.antt =====
-- The header codec of src/quic/src/websocket.hpp. Opcodes are their numbers, bytes are numbers below
-- 256 and a buffer with its length is a list.
pub mod RoundTrip
use beyond_protocol.Prelude.{
  ℕ, ◌+◌, ◌*◌, ◌/◌, ◌%◌, ◌^◌, bit_and, bit_or, Bool, true, false, ◌&&◌, ◌||◌, ◌==◌, ltb, not,
  if◌then◌else◌, List, [], ◌∷◌, ◌++◌, get_or, length,
}
use beyond_protocol.Websocket.Bytes.{byte_of, read_16, read_64}

-- WsMaskKey
pub record MaskKey : Type 0 where
  pub key_0 : ℕ
  pub key_1 : ℕ
  pub key_2 : ℕ
  pub key_3 : ℕ

abbrev pub no_key : MaskKey
no_key = record { key_0 = 0; key_1 = 0; key_2 = 0; key_3 = 0 }

pub record WebSocketHeader : Type 0 where
  pub fin : Bool
  pub rsv : ℕ
  pub mask : Bool
  pub op_code : ℕ
  pub payload_length : ℕ
  pub masking_key : MaskKey
  pub header_size : ℕ

-- WsWriteMaskingKey, where `use_mask` asks for it.
abbrev pub key_bytes : Bool → MaskKey → List ℕ
key_bytes true k = k.key_0 ∷ k.key_1 ∷ k.key_2 ∷ k.key_3 ∷ []
key_bytes false k = []

-- `abort` is a failed CHECK, `too_small` the -1 of the source, and `wrote` holds the bytes that the
-- call left at the start of the buffer: as many as it returns.
pub data Written : Type 0 where
  abort too_small : Written
  wrote : List ℕ → Written

unfoldable pub written_size : Bool → ℕ → ℕ
written_size use_mask length =
    2
    + (if ltb length 126 then 0 else 2)
    + (if ltb length 65536 then 0 else 6)
    + (if use_mask then 4 else 0)

-- What the three branches on the length store.
unfoldable pub header_bytes : ℕ → Bool → MaskKey → ℕ → List ℕ
header_bytes op use_mask key length =
    let mask_bit = if use_mask then 0x80 else 0 in
    bit_or 0x80 op
    ∷ (if ltb length 126
        then bit_or (length % 2 ^ 8) mask_bit ∷ key_bytes use_mask key
        else (if ltb length 65536
            then bit_or 126 mask_bit ∷ byte_of length 1 ∷ byte_of length 0 ∷ key_bytes use_mask key
            else bit_or 127 mask_bit
              ∷ byte_of length 7
              ∷ byte_of length 6
              ∷ byte_of length 5
              ∷ byte_of length 4
              ∷ byte_of length 3
              ∷ byte_of length 2
              ∷ byte_of length 1
              ∷ byte_of length 0
              ∷ key_bytes use_mask key))

unfoldable pub write_header : ℕ → Bool → MaskKey → ℕ → ℕ → Written
write_header op use_mask key length max_length =
    if ltb max_length 12
    then abort
    else (if ltb max_length (written_size use_mask length)
        then too_small
        else wrote (header_bytes op use_mask key length))

-- WsParseHeaderStatus; the header is read by callers only after OK.
pub data ParseStatus : Type 0 where
  ok : WebSocketHeader → ParseStatus
  not_enough_data invalid : ParseStatus

unfoldable pub parsed_size : ℕ → Bool → ℕ
parsed_size n mask =
    2 + (if n == 126 then 2 else 0) + (if n == 127 then 8 else 0) + (if mask then 4 else 0)

unfoldable pub key_at : List ℕ → ℕ → MaskKey
key_at d i = record {
  key_0 = get_or d (i + 0) 0;
  key_1 = get_or d (i + 1) 0;
  key_2 = get_or d (i + 2) 0;
  key_3 = get_or d (i + 3) 0;
}

-- An opcode that RFC 6455 leaves undefined.
unfoldable pub bad_op : ℕ → Bool
bad_op op = ltb 10 op || (ltb 2 op && ltb op 8)

-- The length field's three forms: the length, and where the masking key starts.
unfoldable pub read_length : List ℕ → ℕ → ℕ × ℕ
read_length d n =
    if ltb n 126 then (n, 2) else (if n == 126 then (read_16 d 2, 4) else (read_64 d 2, 10))

unfoldable pub parse_header : List ℕ → ParseStatus
parse_header d =
    let d0 = get_or d 0 0 in
    let d1 = get_or d 1 0 in
    let op = bit_and d0 0x0f in
    let mask = bit_and d1 0x80 == 0x80 in
    let n = bit_and d1 0x7f in
    let size = parsed_size n mask in
    let (payload, i) = read_length d n in
    if ltb (length d) 2 || ltb (length d) size
    then not_enough_data
    else (if not (bit_and d0 0x70 == 0) || bad_op op
        then invalid
        else ok (record {
          fin = bit_and d0 0x80 == 0x80;
          rsv = bit_and d0 0x70;
          mask = mask;
          op_code = op;
          payload_length = payload;
          masking_key = if mask then key_at d i else no_key;
          header_size = size;
        }))
