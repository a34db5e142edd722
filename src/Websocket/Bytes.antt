-- ===== src/Websocket/Bytes.antt =====
-- The byte expressions of the two header codecs, as arithmetic.
use beyond_protocol.Prelude.{
  ℕ, ◌+◌, ◌*◌, ◌/◌, ◌%◌, ◌^◌, ◌<◌, ◌≡◌, refl, bit_and, bit_or, ◌==◌, ==_iff, true, all_below,
  all_below_sound, or_byte, or_fields, zero-or, List, get_or,
}

-- (n >> 8 * k) & 0xff
abbrev pub byte_of : ℕ → ℕ → ℕ
byte_of n k = n / 2 ^ (8 * k) % 2 ^ 8

-- n = 0; n |= d[i] << 8; n |= d[i + 1] << 0;
unfoldable pub read_16 : List ℕ → ℕ → ℕ
read_16 d i = bit_or (bit_or 0 (get_or d i 0 * 2 ^ 8)) (get_or d (i + 1) 0)

-- n = 0; n |= d[i] << 56; ...; n |= d[i + 7] << 0;
unfoldable pub read_64 : List ℕ → ℕ → ℕ
read_64 d i =
    let n = bit_or 0 (get_or d i 0 * 2 ^ 56) in
    let n = bit_or n (get_or d (i + 1) 0 * 2 ^ 48) in
    let n = bit_or n (get_or d (i + 2) 0 * 2 ^ 40) in
    let n = bit_or n (get_or d (i + 3) 0 * 2 ^ 32) in
    let n = bit_or n (get_or d (i + 4) 0 * 2 ^ 24) in
    let n = bit_or n (get_or d (i + 5) 0 * 2 ^ 16) in
    let n = bit_or n (get_or d (i + 6) 0 * 2 ^ 8) in bit_or n (get_or d (i + 7) 0)

byte_eq : (f g : ℕ → ℕ) (x : ℕ) → all_below 256 (λ y. f y == g y) ≡ true → x < 256 → f x ≡ g x
byte_eq f g x table h = (==_iff _ _).0 (all_below_sound 256 (λ y. f y == g y) x table h)

pub and-0x80 : (x : ℕ) → x < 256 → bit_and x 0x80 ≡ x / 128 * 128
and-0x80 x h = byte_eq (λ y. bit_and y 0x80) (λ y. y / 128 * 128) x refl h

pub and-0x70 : (x : ℕ) → x < 256 → bit_and x 0x70 ≡ x / 16 % 8 * 16
and-0x70 x h = byte_eq (λ y. bit_and y 0x70) (λ y. y / 16 % 8 * 16) x refl h

pub and-0x0f : (x : ℕ) → x < 256 → bit_and x 0x0f ≡ x % 16
and-0x0f x h = byte_eq (λ y. bit_and y 0x0f) (λ y. y % 16) x refl h

pub and-0x7f : (x : ℕ) → x < 256 → bit_and x 0x7f ≡ x % 128
and-0x7f x h = byte_eq (λ y. bit_and y 0x7f) (λ y. y % 128) x refl h

pub or-0x80 : (x : ℕ) → x < 128 → bit_or x 0x80 ≡ x + 128
or-0x80 x h = low x h
  where
    low : (y : ℕ) → y < 128 → bit_or y 0x80 ≡ y + 128
    low y k = (==_iff _ _).0 (all_below_sound 128 (λ z. bit_or z 0x80 == z + 128) y refl k)

pub 0x80-or : (x : ℕ) → x < 128 → bit_or 0x80 x ≡ 128 + x
0x80-or x h = or_fields 7 1 x h

pub join_16 : (a b : ℕ) → b < 256 → bit_or (bit_or 0 (a * 2 ^ 8)) b ≡ a * 256 + b
join_16 a b h = rw (zero-or (a * 2 ^ 8)) (or_fields 8 a b h)

pub join_64 :
    (a b c d e f g h : ℕ)
    → b < 256
    → c < 256
    → d < 256
    → e < 256
    → f < 256
    → g < 256
    → h < 256
    → bit_or
        (bit_or
          (bit_or
            (bit_or
              (bit_or
                (bit_or (bit_or (bit_or 0 (a * 2 ^ 56)) (b * 2 ^ 48)) (c * 2 ^ 40))
                (d * 2 ^ 32))
              (e * 2 ^ 24))
            (f * 2 ^ 16))
          (g * 2 ^ 8))
        h
      ≡ ((((((a * 256 + b) * 256 + c) * 256 + d) * 256 + e) * 256 + f) * 256 + g) * 256 + h
join_64 a b c d e f g h kb kc kd ke kf kg kh =
    rw
      (
        zero-or (a * 2 ^ 56),
        or_byte 48 a b kb,
        or_byte 40 (a * 256 + b) c kc,
        or_byte 32 ((a * 256 + b) * 256 + c) d kd,
        or_byte 24 (((a * 256 + b) * 256 + c) * 256 + d) e ke,
        or_byte 16 ((((a * 256 + b) * 256 + c) * 256 + d) * 256 + e) f kf,
        or_byte 8 (((((a * 256 + b) * 256 + c) * 256 + d) * 256 + e) * 256 + f) g kg,
      )
      (or_fields 8 ((((((a * 256 + b) * 256 + c) * 256 + d) * 256 + e) * 256 + f) * 256 + g) h kh)
