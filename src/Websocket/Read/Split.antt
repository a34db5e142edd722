-- ===== src/Websocket/Read/Split.antt =====
-- A header that arrives in one buffer or in two.
use mathlib.Core.List.{flatten, append-nil, append_assoc}
use beyond_protocol.Prelude.{
  ℕ, suc, ◌+◌, ◌-◌, ◌%◌, ◌^◌, ◌≡◌, ◌≢◌, ◌⊎◌, ◌≤◌, ◌<◌, ◌∙◌, refl, sym, ap, subst, Bool, true, false,
  if◌then◌else◌, List, [], ◌∷◌, ◌++◌, length, take, drop, min, arith, length-append, inl, inr,
}
use beyond_protocol.Websocket.OpCode.{close}
use beyond_protocol.Websocket.Header.{
  MaskKey, no_key, WebSocketHeader, ok, not_enough_data, parse_header,
}
use beyond_protocol.Websocket.Header.{wrote, write_header}
use beyond_protocol.Websocket.Header.RoundTrip.{
  IsOpCode, parse_header_of_wrote, length-write_header,
}
use beyond_protocol.Websocket.Read.{
  Reader, returned, copy_partial_header, start_payload, keep_partial, read_buffer, receive,
  receive_all,
}
use beyond_protocol.Websocket.Read.Payload.{
  unmask, advance, next_buffer_whole, receive_by, receive_nothing, receive_all_payload, take_all,
  unmask-append,
}

-- Between two frames.
pub record IsIdle (r : Reader) : Type 0 where
  pub used : r.buffer ≡ []
  pub clean : r.error ≡ false
  pub none_left : r.payload_remaining ≡ 0
  pub no_partial : r.partial_header ≡ []

-- The reader with a header taken and `n` bytes of its payload passed on.
abbrev pub begun : Reader → WebSocketHeader → ℕ → Reader
begun r w n = record r {
  buffer = [];
  masked = w.mask;
  mask_key = w.masking_key;
  partial_header = [];
  payload_read = n;
  payload_remaining = w.payload_length - n;
}

pub drop-append {ℓ} : {A : Type ℓ} (xs ys : List A) → drop (length xs) (xs ++ ys) ≡ ys
drop-append [] ys = refl
drop-append (x ∷ xs) ys = drop-append xs ys

take-append {ℓ} :
    {A : Type ℓ} (n : ℕ) (xs ys : List A) → take (length xs + n) (xs ++ ys) ≡ xs ++ take n ys
take-append n [] ys = ap (λ k. take k ys) (omega arith)
take-append n (x ∷ xs) ys =
    let e : suc (length xs) + n ≡ suc (length xs + n) = omega arith in rw (e, take-append n xs ys)

-- A proper part of a header is not enough for the parser.
pub parse_header_part :
    (p q : List ℕ) (w : WebSocketHeader)
    → parse_header (p ++ q) ≡ ok w
    → length p < w.header_size
    → parse_header p ≡ not_enough_data
unfolding parse_header
parse_header_part [] q w reads part = refl
parse_header_part (x ∷ []) q w reads part = refl
parse_header_part (x ∷ y ∷ p) q w reads part = ground arith

pub empty_or_not {ℓ} : {A : Type ℓ} (xs : List A) → (xs ≡ []) ⊎ (0 < length xs)
empty_or_not [] = inl refl
empty_or_not (x ∷ xs) = inr (omega arith)

abbrev pub kept : Reader → List ℕ → Reader
kept r p = record r { partial_header = p; buffer = [] }

module _ (w : WebSocketHeader) (open_frame : w.op_code ≢ close)
    (fits : w.payload_length < 2 ^ 31) where
  start_whole :
      (r : Reader) (offset : ℕ) (c : List ℕ)
      → drop (w.header_size - offset) r.buffer ≡ c
      → length c ≤ w.payload_length
      → start_payload r offset w ≡ returned (begun r w (length c)) (unmask w.mask w.masking_key 0 c)
  unfolding start_payload
  start_whole r offset c e within =
      let opened : Reader = record r {
        buffer = c;
        masked = w.mask;
        mask_key = w.masking_key;
        partial_header = [];
        payload_read = 0;
        payload_remaining = w.payload_length;
      } in
      let small : w.payload_length % 2 ^ 32 ≡ w.payload_length = omega arith in
      let zero_plus : 0 + length c ≡ length c = omega arith in
      rw (e, small) (ground (arith, next_buffer_whole opened within, zero_plus))

  module _ (p q : List ℕ) (size : w.header_size ≡ length p + length q)
      (short : length p + length q ≤ 14)
      (reads : (rest : List ℕ) → parse_header (p ++ q ++ rest) ≡ ok w) where
    copied :
        (r : Reader) (c : List ℕ)
        → r.buffer ≡ q ++ c
        → r.partial_header ≡ p
        → (rest : List ℕ) × (copy_partial_header r ≡ p ++ q ++ rest)
    unfolding copy_partial_header
    copied r c eb ep =
        let n = min (14 - length p) (length (q ++ c)) in
        let e : n ≡ length q + (n - length q) = omega (arith, length-append q c) in
        (
          take (n - length q) c,
          rw (ep, eb)
              (ap (λ k. p ++ take k (q ++ c)) e
                ∙ rw (take-append (n - length q) q c) (sym (append_assoc p q _))),
        )

    read_second :
        (r : Reader) (c : List ℕ)
        → r.buffer ≡ q ++ c
        → r.partial_header ≡ p
        → 0 < length p
        → 0 < length q
        → r.payload_remaining ≡ 0
        → length c ≤ w.payload_length
        → read_buffer r ≡ returned (begun r w (length c)) (unmask w.mask w.masking_key 0 c)
    unfolding read_buffer
    read_second r c eb ep some_p some_q none within =
        let header = copy_partial_header r in
        let (rest, e) = copied r c eb ep in
        let parsed : parse_header header ≡ ok w = rw e (reads rest) in
        let left : drop (w.header_size - length p) (q ++ c) ≡ c =
          (let k : w.header_size - length p ≡ length q = omega arith in rw k (drop-append q c)) in
        let left' : drop (w.header_size - length p) r.buffer ≡ c = rw eb left in
        let started =
          start_whole (record r { partial_header = header }) (length p) c left' within in
        let some_input : 0 < length r.buffer = rw eb (omega (arith, length-append q c)) in
        let same : length r.partial_header ≡ length p = ap length ep in
        rw (same, read_buffer) (ground (arith, parsed, started))

    read_at_once :
        (r : Reader) (c : List ℕ)
        → p ≡ []
        → r.buffer ≡ q ++ c
        → r.partial_header ≡ []
        → 0 < length q
        → r.payload_remaining ≡ 0
        → length c ≤ w.payload_length
        → read_buffer r ≡ returned (begun r w (length c)) (unmask w.mask w.masking_key 0 c)
    unfolding read_buffer
    read_at_once r c e eb ep some_q none within =
        let parsed : parse_header r.buffer ≡ ok w =
          rw eb (subst (λ t. parse_header (t ++ q ++ c) ≡ ok w) e (reads c)) in
        let left : drop (w.header_size - 0) r.buffer ≡ c =
          (let k : w.header_size - 0 ≡ length q = omega (arith, ap length e) in
            rw (k, eb) (drop-append q c)) in
        let started = start_whole r 0 c left within in
        let some_input : 0 < length r.buffer = rw eb (omega (arith, length-append q c)) in
        let same : length r.partial_header ≡ 0 = ap length ep in
        rw (same, read_buffer) (ground (arith, parsed, started))

    -- The first part of a header is kept, and nothing is passed on.
    read_first :
        (r : Reader)
        → r.buffer ≡ p
        → r.partial_header ≡ []
        → 0 < length p
        → 0 < length q
        → r.payload_remaining ≡ 0
        → read_buffer r ≡ returned (record r { partial_header = p; buffer = [] }) []
    unfolding read_buffer keep_partial copy_partial_header
    read_first r eb ep some_p some_q none =
        let whole : parse_header (p ++ (q ++ [])) ≡ ok w = rw (← append_assoc p q []) (reads []) in
        let part = parse_header_part p (q ++ []) w whole (omega arith) in
        let n : min 14 (length p) ≡ length p = omega arith in
        let kept : take (min (14 - 0) (length p)) p ≡ p = rw n (take_all p) in
        rw (ep, eb, part, read_buffer) (ground (arith, kept))

    pub receive_first :
        (r : Reader) → IsIdle r → 0 < length q → receive r p ≡ returned (kept r p) []
    receive_first r idle some_q = elim (empty_or_not p) [
      | inl e ↦
          let same : r ≡ kept r p = ground arith in
          subst (λ t. receive r t ≡ returned (kept r p) []) (sym e)
            (receive_nothing r idle.used idle.clean ∙ ap (λ s. returned s []) same)
      | inr some_p ↦
          receive_by r idle.used idle.clean p (kept r p) [] some_p
            (read_first (record r { buffer = p }) refl idle.no_partial some_p some_q idle.none_left)
            refl idle.clean
    ]

    receive_second :
        (r : Reader) (c : List ℕ)
        → IsIdle r
        → 0 < length q
        → length c ≤ w.payload_length
        → receive (kept r p) (q ++ c)
          ≡ returned (begun r w (length c)) (unmask w.mask w.masking_key 0 c)
    receive_second r c idle some_q within =
        let some_input : 0 < length (q ++ c) = omega (arith, length-append q c) in
        let input : Reader = record r { partial_header = p; buffer = q ++ c } in
        let step : read_buffer input
            ≡ returned (begun r w (length c)) (unmask w.mask w.masking_key 0 c) =
          elim (empty_or_not p) [
            | inl e ↦ read_at_once input c e refl e some_q idle.none_left within
            | inr some_p ↦ read_second input c refl refl some_p some_q idle.none_left within
          ] in
        receive_by (kept r p) refl idle.clean (q ++ c) (begun r w (length c)) _ some_input step refl
          idle.clean

    -- From one idle state to the next: whatever two parts the header comes in (the first may be
    -- empty), and however the payload is cut, the payload is passed on unmasked.
    pub receive_all_frame :
        (r : Reader) (c : List ℕ) (cs : List (List ℕ)) (out : List ℕ)
        → IsIdle r
        → 0 < length q
        → length (c ++ flatten cs) ≡ w.payload_length
        → (r' : Reader) × IsIdle r'
          × (receive_all r (p ∷ (q ++ c) ∷ cs) out
              ≡ returned r' (out ++ unmask w.mask w.masking_key 0 (c ++ flatten cs)))
    unfolding receive_all
    receive_all_frame r c cs out idle some_q whole =
        let parts = length-append c (flatten cs) in
        let start : Reader = begun r w (length c) in
        let more =
          receive_all_payload start cs (out ++ [] ++ unmask w.mask w.masking_key 0 c) refl
            idle.clean (omega arith) in
        let joined = unmask-append w.mask w.masking_key 0 c (flatten cs) in
        let offset : 0 + length c ≡ length c = omega arith in
        (
          advance start (length (flatten cs)),
          record { used = refl; clean = idle.clean; none_left = omega arith; no_partial = refl },
          rw
              (
                receive_first r idle some_q,
                receive_second r c idle some_q (omega arith),
                receive_all,
                more,
                joined,
                offset,
                append-nil,
              )
              (rw append_assoc),
        )

same_unmask :
    (m : Bool) (k : MaskKey) (body : List ℕ)
    → unmask m (if m then k else no_key) 0 body ≡ unmask m k 0 body
same_unmask true k body = refl
same_unmask false k body = refl

-- A frame with any known opcode but close and a payload below 2^31 bytes, laid out by the header
-- writer: an idle reader that gets it in any number of buffers, its header cut at most once, passes on
-- the payload with the mask taken off, and is idle again.
pub receive_all-write_header :
    (op : ℕ) (m : Bool) (k : MaskKey) (r : Reader) (p q c : List ℕ) (cs : List (List ℕ))
    (out : List ℕ)
    → IsOpCode op
    → op ≢ close
    → length (c ++ flatten cs) < 2 ^ 31
    → write_header op m k (length (c ++ flatten cs)) 14 ≡ wrote (p ++ q)
    → 0 < length q
    → IsIdle r
    → (r' : Reader) × IsIdle r'
      × (receive_all r (p ∷ (q ++ c) ∷ cs) out
          ≡ returned r' (out ++ unmask m k 0 (c ++ flatten cs)))
receive_all-write_header op m k r p q c cs out known open_frame fits written some_q idle =
    let n = length (c ++ flatten cs) in
    let (_, _, short) = length-write_header op m k n 14 (p ++ q) written in
    let size = length-append p q in
    let reads = λ (rest : List ℕ).
      parse_header_of_wrote op m k n 14 (p ++ q) rest known (omega arith) written in
    let done =
      receive_all_frame _ open_frame fits p q size (omega (arith, size)) reads r c cs out idle
        some_q refl in
    (
      done.0,
      done.1,
      done.2 ∙ ap (λ t. returned done.0 (out ++ t)) (same_unmask m k (c ++ flatten cs)),
    )
