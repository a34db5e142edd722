-- ===== src/Prelude/Bits.antt =====
-- Laws of `|` and `&` at variables, from the recursion on binary digits that the native operations
-- stand for: the digit at a position, joined fields, and single-bit masks.
use Prim.Native.Nat.{
  ℕ, zero, suc, ◌+◌, ◌*◌, ◌/◌, ◌%◌, ◌^◌, ◌≤◌, ◌<◌, min, max, bit_and, bit_or, bit_xor, digits,
  differ, bit_and-bitwise, bit_or-bitwise, bit_xor-bitwise,
}
use mathlib.Core.Path.{◌≡◌, refl, ap}
use mathlib.Core.Bool.{Bool, true, ◌&&◌}
use native.Mathlib.Nat.{pow-suc, one-le-pow}
use native.Mathlib.Numerals.{towards_suc}
use native.Mathlib.Omega.{arith}
use beyond_protocol.Prelude.Tests.{◌==◌, if◌then◌else◌}

module _ (z : ℕ → ℕ) (f : ℕ → ℕ → ℕ) where
  -- Counts that both reach the number's last digit give one result.
  digits_enough : (a b n m : ℕ) → a ≤ n → a ≤ m → digits z f n a b ≡ digits z f m a b
  digits_enough zero b zero zero hn hm = refl
  digits_enough zero b zero (suc m) hn hm = refl
  digits_enough zero b (suc n) zero hn hm = refl
  digits_enough zero b (suc n) (suc m) hn hm = refl
  digits_enough (suc a) b zero m hn hm = absurd (omega arith)
  digits_enough (suc a) b (suc n) zero hn hm = absurd (omega arith)
  digits_enough (suc a) b (suc n) (suc m) hn hm =
      ap (λ (t : ℕ). t * 2 + f (suc a % 2) (b % 2))
        (digits_enough (suc a / 2) (b / 2) n m (omega arith) (omega arith))

pub or_halves : (a b : ℕ) → bit_or a b ≡ bit_or (a / 2) (b / 2) * 2 + max (a % 2) (b % 2)
or_halves zero b = omega (arith, bit_or-bitwise 0 b, bit_or-bitwise 0 (b / 2))
or_halves (suc a) b = omega (
  arith,
  bit_or-bitwise (suc a) b,
  bit_or-bitwise (suc a / 2) (b / 2),
  digits_enough (λ y. y) max (suc a / 2) (b / 2) a (suc a / 2) (omega arith) (omega arith),
)

pub and_halves : (a b : ℕ) → bit_and a b ≡ bit_and (a / 2) (b / 2) * 2 + min (a % 2) (b % 2)
and_halves zero b = omega (arith, bit_and-bitwise 0 b, bit_and-bitwise 0 (b / 2))
and_halves (suc a) b = omega (
  arith,
  bit_and-bitwise (suc a) b,
  bit_and-bitwise (suc a / 2) (b / 2),
  digits_enough (λ y. 0) min (suc a / 2) (b / 2) a (suc a / 2) (omega arith) (omega arith),
)

pub zero-or : (b : ℕ) → bit_or 0 b ≡ b
zero-or b = bit_or-bitwise 0 b

pub xor_halves : (a b : ℕ) → bit_xor a b ≡ bit_xor (a / 2) (b / 2) * 2 + differ (a % 2) (b % 2)
xor_halves zero b = omega (arith, bit_xor-bitwise 0 b, bit_xor-bitwise 0 (b / 2))
xor_halves (suc a) b = omega (
  arith,
  bit_xor-bitwise (suc a) b,
  bit_xor-bitwise (suc a / 2) (b / 2),
  digits_enough (λ y. y) differ (suc a / 2) (b / 2) a (suc a / 2) (omega arith) (omega arith),
)

differ_digits : (x y : ℕ) → x < 2 → y < 2 → (differ x y < 2) × (differ (differ x y) y ≡ x)
differ_digits zero zero hx hy = omega arith
differ_digits zero (suc zero) hx hy = omega arith
differ_digits (suc zero) zero hx hy = omega arith
differ_digits (suc zero) (suc zero) hx hy = omega arith
differ_digits zero (suc (suc y)) hx hy = absurd (omega arith)
differ_digits (suc zero) (suc (suc y)) hx hy = absurd (omega arith)
differ_digits (suc (suc x)) y hx hy = absurd (omega arith)

xor_cancel_below : (n a b : ℕ) → a ≤ n → b ≤ n → bit_xor (bit_xor a b) b ≡ a
xor_cancel_below zero zero zero ha hb = refl
xor_cancel_below zero zero (suc b) ha hb = absurd (omega arith)
xor_cancel_below zero (suc a) b ha hb = absurd (omega arith)
xor_cancel_below (suc n) a b ha hb =
    let step = xor_halves a b in
    let digit = differ_digits (a % 2) (b % 2) (omega arith) (omega arith) in
    let half : bit_xor a b / 2 ≡ bit_xor (a / 2) (b / 2) = omega (arith, step, digit) in
    let low : bit_xor a b % 2 ≡ differ (a % 2) (b % 2) = omega (arith, step, digit) in
    rw
      (
        xor_halves (bit_xor a b) b,
        half,
        low,
        digit.1,
        xor_cancel_below n (a / 2) (b / 2) (omega arith) (omega arith),
      )
      (omega arith)

-- Exclusive or with a number undoes itself.
pub xor_cancel : (a b : ℕ) → bit_xor (bit_xor a b) b ≡ a
xor_cancel a b = xor_cancel_below (max a b) a b (omega arith) (omega arith)

-- The digit of `a` at position `k`.
abbrev pub bit : ℕ → ℕ → ℕ
bit zero a = a % 2
bit (suc k) a = bit k (a / 2)

pub bit-lt : (k a : ℕ) → bit k a < 2
bit-lt zero a = omega arith
bit-lt (suc k) a = bit-lt k (a / 2)

pub bit-zero : (k : ℕ) → bit k 0 ≡ 0
bit-zero zero = refl
bit-zero (suc k) = bit-zero k

pub bit-or : (k a b : ℕ) → bit k (bit_or a b) ≡ max (bit k a) (bit k b)
bit-or zero a b = omega (arith, or_halves a b)
bit-or (suc k) a b =
    let e : bit_or a b / 2 ≡ bit_or (a / 2) (b / 2) = omega (arith, or_halves a b) in
    rw e (bit-or k (a / 2) (b / 2))

pub bit-two_pow : (k j : ℕ) → bit k (2 ^ j) ≡ (if k == j then 1 else 0)
bit-two_pow zero zero = refl
bit-two_pow zero (suc j) = ground (arith, pow-suc 2 j)
bit-two_pow (suc k) zero = ground (arith, bit-zero k)
bit-two_pow (suc k) (suc j) =
    let e : 2 ^ suc j / 2 ≡ 2 ^ j = omega (arith, pow-suc 2 j) in
    rw e (ground (arith, bit-two_pow k j))

and-zero : (n a : ℕ) → a ≤ n → bit_and a 0 ≡ 0
and-zero n zero h = refl
and-zero zero (suc a) h = absurd (omega arith)
and-zero (suc n) (suc a) h =
    omega (arith, and_halves (suc a) 0, and-zero n (suc a / 2) (omega arith))

or-zero_below : (n a : ℕ) → a ≤ n → bit_or a 0 ≡ a
or-zero_below n zero h = refl
or-zero_below zero (suc a) h = absurd (omega arith)
or-zero_below (suc n) (suc a) h =
    omega (arith, or_halves (suc a) 0, or-zero_below n (suc a / 2) (omega arith))

pub or-zero : (a : ℕ) → bit_or a 0 ≡ a
or-zero a = or-zero_below a a (omega arith)

-- A mask of one digit picks it.
pub and_two_pow : (j a : ℕ) → bit_and a (2 ^ j) ≡ bit j a * 2 ^ j
and_two_pow zero a = omega (arith, and_halves a 1, and-zero (a / 2) (a / 2) (omega arith))
and_two_pow (suc j) a =
    let e : 2 ^ suc j / 2 ≡ 2 ^ j = omega (arith, pow-suc 2 j) in
    let h = and_halves a (2 ^ suc j) in
    let k : bit_and (a / 2) (2 ^ suc j / 2) ≡ bit j (a / 2) * 2 ^ j =
      rw e (and_two_pow j (a / 2)) in
    omega (arith, h, k, pow-suc 2 j, ap (λ (t : ℕ). bit j (a / 2) * t) (pow-suc 2 j))

-- A field above `k` low digits, and a field within them.
pub or_fields : (k q r : ℕ) → r < 2 ^ k → bit_or (q * 2 ^ k) r ≡ q * 2 ^ k + r
or_fields zero q r h = ground (arith, or-zero q)
or_fields (suc k) q r h =
    let e : q * 2 ^ suc k ≡ 2 * (q * 2 ^ k) = omega (arith, ap (λ (t : ℕ). q * t) (pow-suc 2 k)) in
    let e' : q * 2 ^ suc k / 2 ≡ q * 2 ^ k = omega (arith, e) in
    let ih : bit_or (q * 2 ^ suc k / 2) (r / 2) ≡ q * 2 ^ k + r / 2 =
      rw e' (or_fields k q (r / 2) (omega (arith, pow-suc 2 k))) in
    omega (arith, or_halves (q * 2 ^ suc k) r, ih, e)

-- The next byte joins a big-endian number from below.
pub or_byte : (k q d : ℕ) → d < 256 → bit_or (q * 2 ^ (k + 8)) (d * 2 ^ k) ≡ (q * 256 + d) * 2 ^ k
or_byte k q d h =
    let e : 2 ^ (k + 8) ≡ 256 * 2 ^ k = simp towards_suc (omega arith) in
    let fits : d * 2 ^ k < 2 ^ (k + 8) =
      rw e (lt_scaled d (2 ^ k) h (one-le-pow k 2 (omega arith))) in
    omega (arith, or_fields (k + 8) q (d * 2 ^ k) fits, ap (λ (t : ℕ). q * t) e)
  where
    lt_scaled : (x p : ℕ) → x < 256 → 1 ≤ p → x * p < 256 * p
    lt_scaled x p hx hp = grind arith

-- Over a byte a claim is checked at every value.
abbrev pub all_below : ℕ → (ℕ → Bool) → Bool
all_below zero p = true
all_below (suc n) p = p n && all_below n p

pub all_below_sound : (n : ℕ) (p : ℕ → Bool) (x : ℕ) → all_below n p ≡ true → x < n → p x ≡ true
all_below_sound zero p x h lt = absurd (omega arith)
all_below_sound (suc n) p x h lt = ground (arith, all_below_sound n p x)
