-- ===== src/Base/Digits.antt =====
-- A word by its binary digits, which the bit operations treat one by one.
use Prim.Native.Nat.{min, max}
use native.Mathlib.Nat.{pow-suc, one-le-pow, div-div-eq-div-mul, mul_comm}
use userface.Base.{
  ℕ, zero, suc, ◌-◌, ◌/◌, ◌%◌, ◌^◌, ◌<◌, bit_and, bit_or, u8, ◌≡◌, refl, arith, ◌==◌, if◌then◌else◌,
}
use userface.Base.Bits.{bit_and_halves, bit_or_halves}

-- Digit `k` of a word.
abbrev pub digit : ℕ → ℕ → ℕ
digit zero x = x % 2
digit (suc k) x = digit k (x / 2)

pub digit_bound : (k x : ℕ) → digit k x < 2
digit_bound zero x = omega arith
digit_bound (suc k) x = digit_bound k (x / 2)

pub digit-bit_and : (k x y : ℕ) → digit k (bit_and x y) ≡ min (digit k x) (digit k y)
digit-bit_and zero x y = omega (arith, bit_and_halves x y)
digit-bit_and (suc k) x y =
    let half : bit_and x y / 2 ≡ bit_and (x / 2) (y / 2) = omega (arith, bit_and_halves x y) in
    rw half (digit-bit_and k (x / 2) (y / 2))

pub digit-bit_or : (k x y : ℕ) → digit k (bit_or x y) ≡ max (digit k x) (digit k y)
digit-bit_or zero x y = omega (arith, bit_or_halves x y)
digit-bit_or (suc k) x y =
    let half : bit_or x y / 2 ≡ bit_or (x / 2) (y / 2) = omega (arith, bit_or_halves x y) in
    rw half (digit-bit_or k (x / 2) (y / 2))

-- `~m` on a word of `n` digits.
pub digit-complement : (k n m : ℕ) → k < n → m < 2 ^ n → digit k (2 ^ n - 1 - m) ≡ 1 - digit k m
digit-complement k zero m h b = absurd (omega arith)
digit-complement zero (suc n) m h b = omega (arith, pow-suc 2 n, one-le-pow n 2)
digit-complement (suc k) (suc n) m h b =
    let half : (2 ^ suc n - 1 - m) / 2 ≡ 2 ^ n - 1 - m / 2 =
      omega (arith, pow-suc 2 n, one-le-pow n 2) in
    rw half (digit-complement k n (m / 2) (omega arith) (omega (arith, pow-suc 2 n)))

-- A word cut to a byte keeps the digits of that byte.
pub digit-u8 : (k x : ℕ) → k < 8 → digit k (u8 x) ≡ digit k x
digit-u8 zero x h = omega arith
digit-u8 (suc zero) x h = omega arith
digit-u8 (suc (suc zero)) x h = omega arith
digit-u8 (suc (suc (suc zero))) x h = omega arith
digit-u8 (suc (suc (suc (suc zero)))) x h = omega arith
digit-u8 (suc (suc (suc (suc (suc zero))))) x h = omega arith
digit-u8 (suc (suc (suc (suc (suc (suc zero)))))) x h = omega arith
digit-u8 (suc (suc (suc (suc (suc (suc (suc zero))))))) x h = omega arith
digit-u8 (suc (suc (suc (suc (suc (suc (suc (suc k)))))))) x h = absurd (omega arith)

digit-zero : (k : ℕ) → digit k 0 ≡ 0
digit-zero zero = refl
digit-zero (suc k) = digit-zero k

-- A power of two has one digit.
pub digit-pow : (k n : ℕ) → digit k (2 ^ n) ≡ (if k == n then 1 else 0)
digit-pow zero zero = refl
digit-pow zero (suc n) = ground (arith, pow-suc 2 n)
digit-pow (suc k) zero = ground (arith, digit-zero k)
digit-pow (suc k) (suc n) =
    let half : 2 ^ suc n / 2 ≡ 2 ^ n = omega (arith, pow-suc 2 n) in
    rw half (ground (arith, digit-pow k n))

pub digit-shift : (k x : ℕ) → x / 2 ^ k % 2 ≡ digit k x
digit-shift zero x = omega arith
digit-shift (suc k) x =
    let halves : x / 2 ^ suc k ≡ x / 2 / 2 ^ k =
      cc (div-div-eq-div-mul x 2 (2 ^ k), mul_comm 2 (2 ^ k), pow-suc 2 k) in
    rw halves (digit-shift k (x / 2))
