-- ===== src/Websocket/Header/RoundTrip.antt =====
-- What the header writer leaves in the buffer, the parser reads back.
use beyond_protocol.Prelude.{
  ℕ, ◌+◌, ◌%◌, ◌^◌, ◌<◌, ◌≤◌, ◌≡◌, refl, bit_and, bit_or, Bool, true, false, ◌==◌, ltb,
  if◌then◌else◌, List, [], ◌∷◌, ◌++◌, get_or, length, arith, Bool-cases, ◌⊎◌, inl, inr, or-zero,
  ◌∙◌,
}
use beyond_protocol.Websocket.Bytes.{
  byte_of, read_16, read_64, and-0x80, and-0x70, and-0x0f, and-0x7f, or-0x80, 0x80-or, join_16,
  join_64,
}
use beyond_protocol.Websocket.Header.{
  MaskKey, no_key, key_bytes, wrote, written_size, header_bytes, write_header, ok, parsed_size,
  key_at, bad_op, read_length, parse_header,
}

length-header_bytes :
    (op : ℕ) (m : Bool) (k : MaskKey) (n : ℕ) → length (header_bytes op m k n) ≡ written_size m n
unfolding header_bytes written_size
length-header_bytes op true k n = ground arith
length-header_bytes op false k n = ground arith

-- The opcodes of RFC 6455.
abbrev pub IsOpCode : ℕ → Type 0
IsOpCode op = (op ≤ 2) ⊎ ((8 ≤ op) × (op ≤ 10))

first_byte :
    (op : ℕ)
    → IsOpCode op
    → (bit_and (bit_or 0x80 op) 0x80 ≡ 0x80)
      × (bit_and (bit_or 0x80 op) 0x70 ≡ 0)
      × (bit_and (bit_or 0x80 op) 0x0f ≡ op)
      × (bad_op op ≡ false)
unfolding bad_op
first_byte op h =
    let e = 0x80-or op (omega arith) in
    rw e (
      omega (arith, and-0x80 (128 + op) (omega arith)),
      omega (arith, and-0x70 (128 + op) (omega arith)),
      omega (arith, and-0x0f (128 + op) (omega arith)),
      ground arith,
    )

second_byte :
    (m : Bool) (n : ℕ)
    → n < 128
    → (bit_and (bit_or n (if m then 0x80 else 0)) 0x7f ≡ n)
      × ((bit_and (bit_or n (if m then 0x80 else 0)) 0x80 == 0x80) ≡ m)
second_byte true n h = rw (or-0x80 n h) (
  omega (arith, and-0x7f (n + 128) (omega arith)),
  ground (arith, and-0x80 (n + 128) (omega arith)),
)
second_byte false n h =
    rw (or-zero n)
      (omega (arith, and-0x7f n (omega arith)), ground (arith, and-0x80 n (omega arith)))

two-le-parsed_size : (n : ℕ) (m : Bool) → 2 ≤ parsed_size n m
unfolding parsed_size
two-le-parsed_size n m = ground arith

module _ (d : List ℕ) (op n : ℕ) (m : Bool) (known : IsOpCode op) (small : n < 128) where
  parse_with :
      get_or d 0 0 ≡ bit_or 0x80 op
      → get_or d 1 0 ≡ bit_or n (if m then 0x80 else 0)
      → parsed_size n m ≤ length d
      → parse_header d
        ≡ ok (record {
          fin = true;
          rsv = 0;
          mask = m;
          op_code = op;
          payload_length = (read_length d n).0;
          masking_key = if m then key_at d (read_length d n).1 else no_key;
          header_size = parsed_size n m;
        })
  unfolding parse_header
  parse_with e0 e1 fits =
      let first = first_byte op known in
      let second = second_byte m n small in
      let long : ltb (length d) 2 ≡ false = ground (arith, two-le-parsed_size n m) in
      let whole : ltb (length d) (parsed_size n m) ≡ false = ground arith in
      rw (e0, e1, first.0, first.1, first.2, first.3, second.0, second.1, long, whole)

abbrev eight_bytes : ℕ → List ℕ
eight_bytes n =
    byte_of n 7
    ∷ byte_of n 6
    ∷ byte_of n 5
    ∷ byte_of n 4
    ∷ byte_of n 3
    ∷ byte_of n 2
    ∷ byte_of n 1
    ∷ byte_of n 0
    ∷ []

-- The eight bytes of a 64-bit length, read back over any bytes that stand before and after.
eight_bytes_join :
    (n : ℕ) → n < 2 ^ 64 → (a b : ℕ) (rest : List ℕ) → read_64 (a ∷ b ∷ eight_bytes n ++ rest) 2 ≡ n
unfolding read_64
eight_bytes_join n h a b rest =
    let below : (i : ℕ) → byte_of n i < 256 = λ i. omega arith in
    join_64 (byte_of n 7) (byte_of n 6) (byte_of n 5) (byte_of n 4) (byte_of n 3) (byte_of n 2)
      (byte_of n 1) (byte_of n 0) (below 6) (below 5) (below 4) (below 3) (below 2) (below 1)
      (below 0)
    ∙ omega arith

module _ (op : ℕ) (k : MaskKey) (n : ℕ) (rest : List ℕ) (known : IsOpCode op) where
  abbrev Reads : Bool → Type 0
  Reads m =
      parse_header (header_bytes op m k n ++ rest)
      ≡ ok (record {
        fin = true;
        rsv = 0;
        mask = m;
        op_code = op;
        payload_length = n;
        masking_key = if m then k else no_key;
        header_size = written_size m n;
      })

  short_form : (m : Bool) → n < 126 → Reads m
  unfolding header_bytes read_length key_at written_size parsed_size
  short_form true h =
      let d : List ℕ = bit_or 0x80 op ∷ bit_or n 0x80 ∷ key_bytes true k ++ rest in
      let e : n % 2 ^ 8 ≡ n = omega arith in
      ground (arith, e, parse_with d op n true known (omega arith) refl refl (ground arith))
  short_form false h =
      let d : List ℕ = bit_or 0x80 op ∷ bit_or n 0 ∷ rest in
      let e : n % 2 ^ 8 ≡ n = omega arith in
      ground (arith, e, parse_with d op n false known (omega arith) refl refl (ground arith))

  medium_form : (m : Bool) → 126 ≤ n → n < 65536 → Reads m
  unfolding header_bytes read_length key_at written_size parsed_size read_16
  medium_form true h h' =
      let d : List ℕ =
        bit_or 0x80 op ∷ bit_or 126 0x80 ∷ byte_of n 1 ∷ byte_of n 0 ∷ key_bytes true k ++ rest in
      let e : read_16 d 2 ≡ n = join_16 (byte_of n 1) (byte_of n 0) (omega arith) ∙ omega arith in
      ground (arith, e, parse_with d op 126 true known (omega arith) refl refl (omega arith))
  medium_form false h h' =
      let d : List ℕ = bit_or 0x80 op ∷ bit_or 126 0 ∷ byte_of n 1 ∷ byte_of n 0 ∷ rest in
      let e : read_16 d 2 ≡ n = join_16 (byte_of n 1) (byte_of n 0) (omega arith) ∙ omega arith in
      ground (arith, e, parse_with d op 126 false known (omega arith) refl refl (omega arith))

  long_form : (m : Bool) → 65536 ≤ n → n < 2 ^ 64 → Reads m
  unfolding header_bytes read_length key_at written_size parsed_size
  long_form true h h' =
      let d : List ℕ =
        bit_or 0x80 op ∷ bit_or 127 0x80 ∷ eight_bytes n ++ key_bytes true k ++ rest in
      ground (
        arith,
        eight_bytes_join n h' (bit_or 0x80 op) (bit_or 127 0x80) (key_bytes true k ++ rest),
        parse_with d op 127 true known (omega arith) refl refl (omega arith),
      )
  long_form false h h' =
      let d : List ℕ = bit_or 0x80 op ∷ bit_or 127 0 ∷ eight_bytes n ++ rest in
      ground (
        arith,
        eight_bytes_join n h' (bit_or 0x80 op) (bit_or 127 0) rest,
        parse_with d op 127 false known (omega arith) refl refl (omega arith),
      )

  form_cases : (m : Bool) → n < 2 ^ 64 → Reads m
  form_cases m h = elim (Bool-cases (ltb n 126)) [
    | inl s ↦ short_form m (ground arith)
    | inr l ↦ elim (Bool-cases (ltb n 65536)) [
      | inl s ↦ medium_form m (ground arith) (ground arith)
      | inr l' ↦ long_form m (ground arith) h
    ]
  ]

parsed_size-le : (n : ℕ) (m : Bool) → parsed_size n m ≤ 14
unfolding parsed_size
parsed_size-le n m = ground arith

written_size-le : (m : Bool) (n : ℕ) → written_size m n ≤ 14
unfolding written_size
written_size-le m n = ground arith

-- With room for 14 bytes the writer succeeds, for every known opcode and 64-bit length, and whatever
-- follows its bytes in the buffer the parser gives back the opcode, the length, the mask flag, the
-- key (zeros where there is no mask) and the number of bytes written.
pub parse_header-write_header :
    (op : ℕ) (m : Bool) (k : MaskKey) (n max_length : ℕ) (rest : List ℕ)
    → IsOpCode op
    → n < 2 ^ 64
    → 14 ≤ max_length
    → (bytes : List ℕ) × (write_header op m k n max_length ≡ wrote bytes)
      × (parse_header (bytes ++ rest)
          ≡ ok (record {
            fin = true;
            rsv = 0;
            mask = m;
            op_code = op;
            payload_length = n;
            masking_key = if m then k else no_key;
            header_size = length bytes;
          }))
unfolding write_header
parse_header-write_header op m k n max_length rest known fits room = (
  header_bytes op m k n,
  ground (arith, written_size-le m n),
  rw (length-header_bytes op m k n) (form_cases op k n rest known m fits),
)

-- The writer never passes the end of its buffer, nor the 14 bytes of the longest header.
pub length-write_header :
    (op : ℕ) (m : Bool) (k : MaskKey) (n max_length : ℕ) (bytes : List ℕ)
    → write_header op m k n max_length ≡ wrote bytes
    → (length bytes ≡ written_size m n) × (length bytes ≤ max_length) × (length bytes ≤ 14)
unfolding write_header
length-write_header op m k n max_length bytes e =
    ground (arith, length-header_bytes op m k n, written_size-le m n)

bytes_of_wrote :
    (op : ℕ) (m : Bool) (k : MaskKey) (n max_length : ℕ) (bytes : List ℕ)
    → write_header op m k n max_length ≡ wrote bytes
    → bytes ≡ header_bytes op m k n
unfolding write_header
bytes_of_wrote op m k n max_length bytes e = ground arith

-- The same for the bytes of any call that succeeded.
pub parse_header_of_wrote :
    (op : ℕ) (m : Bool) (k : MaskKey) (n max_length : ℕ) (bytes rest : List ℕ)
    → IsOpCode op
    → n < 2 ^ 64
    → write_header op m k n max_length ≡ wrote bytes
    → parse_header (bytes ++ rest)
      ≡ ok (record {
        fin = true;
        rsv = 0;
        mask = m;
        op_code = op;
        payload_length = n;
        masking_key = if m then k else no_key;
        header_size = length bytes;
      })
parse_header_of_wrote op m k n max_length bytes rest known fits e =
    rw (bytes_of_wrote op m k n max_length bytes e, length-header_bytes op m k n)
      (form_cases op k n rest known m fits)
