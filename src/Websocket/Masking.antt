-- ===== src/Websocket/Masking.antt =====
-- Payload masking: Mask of src/quic/src/websocket.hpp and the masking loop of
-- WebSocketBase::writev in src/protocol/websocket.cpp.
use beyond_protocol.Prelude.{
  ℕ, zero, suc, ◌+◌, ◌%◌, ◌≡◌, refl, ap, bit_xor, List, [], ◌∷◌, ◌++◌, length, arith, xor_cancel,
}
use beyond_protocol.Websocket.Header.{MaskKey}

abbrev byte_at : MaskKey → ℕ → ℕ
byte_at k zero = k.key_0
byte_at k (suc zero) = k.key_1
byte_at k (suc (suc zero)) = k.key_2
byte_at k (suc (suc (suc i))) = k.key_3

-- Key[i & 3]
unfoldable pub key_byte : MaskKey → ℕ → ℕ
key_byte k i = byte_at k (i % 4)

-- for i: Buffer[i] ^= Key[(i + Offset) & 3]
unfoldable pub mask : MaskKey → ℕ → List ℕ → List ℕ
mask k offset [] = []
mask k offset (b ∷ buffer) = bit_xor b (key_byte k offset) ∷ mask k (offset + 1) buffer

pub length-mask : (k : MaskKey) (offset : ℕ) (xs : List ℕ) → length (mask k offset xs) ≡ length xs
unfolding mask
length-mask k offset [] = refl
length-mask k offset (x ∷ xs) = ap suc (length-mask k (offset + 1) xs)

-- Masking a message in two parts, the second from where the first ended, masks the whole of it.
pub mask-append :
    (k : MaskKey) (offset : ℕ) (xs ys : List ℕ)
    → mask k offset (xs ++ ys) ≡ mask k offset xs ++ mask k (offset + length xs) ys
unfolding mask
mask-append k offset [] ys = ap (λ n. mask k n ys) (omega arith)
mask-append k offset (x ∷ xs) ys = ap (◌∷◌ (bit_xor x (key_byte k offset))) (
    rw (mask-append k (offset + 1) xs ys)
      (ap (λ n. mask k (offset + 1) xs ++ mask k n ys) (omega arith)))

-- A second pass with the same key and offset gives the buffer back.
pub mask-mask : (k : MaskKey) (offset : ℕ) (xs : List ℕ) → mask k offset (mask k offset xs) ≡ xs
unfolding mask
mask-mask k offset [] = refl
mask-mask k offset (x ∷ xs) = rw (xor_cancel x (key_byte k offset), mask-mask k (offset + 1) xs)
