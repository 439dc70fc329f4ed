-- ===== src/Base/Bits.antt =====
-- Bits of bytes and words. `bit_and` and `bit_or` compute at numerals only; here are the laws at
-- variables that the register and packet code needs.
use Prim.Native.Nat.{
  ℕ, zero, suc, ◌+◌, ◌*◌, ◌/◌, ◌%◌, ◌^◌, ◌≤◌, ◌<◌, min, max, bit_and, bit_or, digits,
  bit_and-bitwise, bit_or-bitwise,
}
use mathlib.Core.Path.{◌≡◌, refl, ap}
use mathlib.Core.Bool.{Bool, true, ◌&&◌}
use native.Mathlib.Omega.{arith}

-- Every value of a small range, by evaluation.
unfoldable pub every_below : ℕ → (ℕ → Bool) → Bool
every_below zero p = true
every_below (suc n) p = p n && every_below n p

pub every_below_sound : (n : ℕ) (p : ℕ → Bool) (x : ℕ) → every_below n p ≡ true → x < n → p x ≡ true
unfolding every_below
every_below_sound zero p x h lt = absurd (omega arith)
every_below_sound (suc n) p x h lt = ground (arith, every_below_sound n p x)

-- The digit recursion gives one result for any fuel that covers the first number.
digits-fuel :
    (z : ℕ → ℕ) (f : ℕ → ℕ → ℕ) (n m a b : ℕ) → a ≤ n → a ≤ m → digits z f n a b ≡ digits z f m a b
digits-fuel z f zero zero a b p q = refl
digits-fuel z f zero (suc m) zero b p q = refl
digits-fuel z f zero (suc m) (suc a) b p q = absurd (omega arith)
digits-fuel z f (suc n) zero zero b p q = refl
digits-fuel z f (suc n) zero (suc a) b p q = absurd (omega arith)
digits-fuel z f (suc n) (suc m) zero b p q = refl
digits-fuel z f (suc n) (suc m) (suc a) b p q =
    omega (arith, digits-fuel z f n m (suc a / 2) (b / 2) (omega arith) (omega arith))

pub zero-bit_or : (b : ℕ) → bit_or 0 b ≡ b
zero-bit_or b = bit_or-bitwise 0 b

pub zero-bit_and : (b : ℕ) → bit_and 0 b ≡ 0
zero-bit_and b = bit_and-bitwise 0 b

-- The laws of the lowest digit.
pub bit_or_low : (a b : ℕ) → bit_or a b ≡ bit_or (a / 2) (b / 2) * 2 + max (a % 2) (b % 2)
bit_or_low zero b = omega (arith, zero-bit_or b, zero-bit_or (b / 2))
bit_or_low (suc a) b = omega (
  arith,
  bit_or-bitwise (suc a) b,
  bit_or-bitwise (suc a / 2) (b / 2),
  digits-fuel (λ b. b) max a (suc a / 2) (suc a / 2) (b / 2) (omega arith) (omega arith),
)

pub bit_and_low : (a b : ℕ) → bit_and a b ≡ bit_and (a / 2) (b / 2) * 2 + min (a % 2) (b % 2)
bit_and_low zero b = omega (arith, zero-bit_and b, zero-bit_and (b / 2))
bit_and_low (suc a) b = omega (
  arith,
  bit_and-bitwise (suc a) b,
  bit_and-bitwise (suc a / 2) (b / 2),
  digits-fuel (λ b. zero) min a (suc a / 2) (suc a / 2) (b / 2) (omega arith) (omega arith),
)

bit_or-zero_below : (n a : ℕ) → a ≤ n → bit_or a 0 ≡ a
bit_or-zero_below n zero h = refl
bit_or-zero_below zero (suc a) h = absurd (omega arith)
bit_or-zero_below (suc n) (suc a) h =
    omega (arith, bit_or_low (suc a) 0, bit_or-zero_below n (suc a / 2) (omega arith))

pub bit_or-zero : (a : ℕ) → bit_or a 0 ≡ a
bit_or-zero a = bit_or-zero_below a a (omega arith)

bit_and-zero_below : (n a : ℕ) → a ≤ n → bit_and a 0 ≡ 0
bit_and-zero_below n zero h = refl
bit_and-zero_below zero (suc a) h = absurd (omega arith)
bit_and-zero_below (suc n) (suc a) h =
    omega (arith, bit_and_low (suc a) 0, bit_and-zero_below n (suc a / 2) (omega arith))

bit_and-zero : (a : ℕ) → bit_and a 0 ≡ 0
bit_and-zero a = bit_and-zero_below a a (omega arith)

-- A number shifted left, and one that fits below the shift, do not share a digit.
pub bit_or_shifted : (k q r : ℕ) → r < 2 ^ k → bit_or (q * 2 ^ k) r ≡ q * 2 ^ k + r
bit_or_shifted zero q zero h = omega (arith, bit_or-zero (q * 2 ^ 0))
bit_or_shifted zero q (suc r) h = absurd (omega arith)
bit_or_shifted (suc k) q r h =
    let double : 2 ^ suc k ≡ 2 * 2 ^ k = omega arith in
    let shifted : q * 2 ^ suc k ≡ 2 * (q * 2 ^ k) = omega (arith, ap (λ (t : ℕ). q * t) double) in
    omega (
      arith,
      bit_or_low (q * 2 ^ suc k) r,
      ap (λ (t : ℕ). bit_or t (r / 2)) (let e : q * 2 ^ suc k / 2 ≡ q * 2 ^ k = omega arith in e),
      bit_or_shifted k q (r / 2) (omega arith),
    )

-- A mask of ones keeps the remainder.
mask-one : (a : ℕ) → bit_and a 1 ≡ a % 2
mask-one a = omega (arith, bit_and_low a 1, bit_and-zero (a / 2))

mask_four : (a : ℕ) → bit_and a 0x0F ≡ a % 16
mask_four a = omega (
  arith,
  bit_and_low a 15,
  bit_and_low (a / 2) 7,
  bit_and_low (a / 2 / 2) 3,
  mask-one (a / 2 / 2 / 2),
)

pub mask_byte : (a : ℕ) → bit_and a 0xFF ≡ a % 256
mask_byte a = omega (
  arith,
  bit_and_low a 255,
  bit_and_low (a / 2) 127,
  bit_and_low (a / 2 / 2) 63,
  bit_and_low (a / 2 / 2 / 2) 31,
  mask_four (a / 2 / 2 / 2 / 2),
)

pub mask_two : (a : ℕ) → bit_and a 0x03 ≡ a % 4
mask_two a = omega (arith, bit_and_low a 3, mask-one (a / 2))

pub mask_high : (a : ℕ) → bit_and a 0xF0 ≡ a / 16 % 16 * 16
mask_high a = omega (
  arith,
  bit_and_low a 240,
  bit_and_low (a / 2) 120,
  bit_and_low (a / 2 / 2) 60,
  bit_and_low (a / 2 / 2 / 2) 30,
  mask_four (a / 2 / 2 / 2 / 2),
)

-- A byte or more below what is already shifted up.
pub bit_or_below : (k acc q r : ℕ) → acc ≡ q * 2 ^ k → r < 2 ^ k → bit_or acc r ≡ acc + r
bit_or_below k acc q r e h = rw e (bit_or_shifted k q r h)
