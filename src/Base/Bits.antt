-- ===== src/Base/Bits.antt =====
-- The bit operations by blocks. A number is `a * 2 ^ k + r` with `r` below `2 ^ k`: the block `a`
-- above the block `r`. `&`, `|` and `^` work on the two blocks apart, which gives the masks, shifts
-- and disjoint fields that the register code is made of.
use Prim.Native.Nat.{min, max, digits, bit_and-bitwise, bit_or-bitwise, bit_xor-bitwise, differ}
use native.Mathlib.Nat.{pow-suc, one-le-pow}
use userface.Base.{
  ℕ, zero, suc, ◌+◌, ◌-◌, ◌*◌, ◌/◌, ◌%◌, ◌^◌, ◌≤◌, ◌<◌, bit_and, bit_or, bit_xor, if◌then◌else◌,
  ◌==◌, ◌≡◌, refl, ap, arith,
}

module _ (z : ℕ → ℕ) (f : ℕ → ℕ → ℕ) where
  -- Any two supplies of steps that cover the first number give the same digits.
  digits_supply : (m n a b : ℕ) → a ≤ m → a ≤ n → digits z f m a b ≡ digits z f n a b
  digits_supply zero zero zero b p q = refl
  digits_supply zero (suc n) zero b p q = refl
  digits_supply (suc m) zero zero b p q = refl
  digits_supply (suc m) (suc n) zero b p q = refl
  digits_supply zero n (suc a) b p q = absurd (omega arith)
  digits_supply (suc m) zero (suc a) b p q = absurd (omega arith)
  digits_supply (suc m) (suc n) (suc a) b p q =
      ap (λ (t : ℕ). t * 2 + f (suc a % 2) (b % 2))
        (digits_supply m n (suc a / 2) (b / 2) (omega arith) (omega arith))

  digits_halves :
      (a b : ℕ)
      → digits z f (suc a) (suc a) b
        ≡ digits z f (suc a / 2) (suc a / 2) (b / 2) * 2 + f (suc a % 2) (b % 2)
  digits_halves a b =
      ap (λ (t : ℕ). t * 2 + f (suc a % 2) (b % 2))
        (digits_supply a (suc a / 2) (suc a / 2) (b / 2) (omega arith) (omega arith))

-- The lowest digit, and the rest.
pub bit_and_halves : (a b : ℕ) → bit_and a b ≡ bit_and (a / 2) (b / 2) * 2 + min (a % 2) (b % 2)
bit_and_halves zero b = simp bit_and-bitwise (omega arith)
bit_and_halves (suc a) b = simp bit_and-bitwise (digits_halves (λ _. 0) min a b)

pub bit_or_halves : (a b : ℕ) → bit_or a b ≡ bit_or (a / 2) (b / 2) * 2 + max (a % 2) (b % 2)
bit_or_halves zero b = simp bit_or-bitwise (omega arith)
bit_or_halves (suc a) b = simp bit_or-bitwise (digits_halves (λ c. c) max a b)

bit_xor_halves : (a b : ℕ) → bit_xor a b ≡ bit_xor (a / 2) (b / 2) * 2 + differ (a % 2) (b % 2)
bit_xor_halves zero b = simp bit_xor-bitwise (omega arith)
bit_xor_halves (suc a) b = simp bit_xor-bitwise (digits_halves (λ c. c) differ a b)

differ-zero : (x : ℕ) → differ x 0 ≡ x
differ-zero zero = refl
differ-zero (suc x) = refl

differ-one : (x : ℕ) → x < 2 → differ x 1 ≡ 1 - x
differ-one zero h = refl
differ-one (suc zero) h = refl
differ-one (suc (suc x)) h = absurd (omega arith)

xor_zero_below : (k a : ℕ) → a < k → bit_xor a 0 ≡ a
xor_zero_below zero a h = absurd (omega arith)
xor_zero_below (suc k) zero h = refl
xor_zero_below (suc k) (suc a) h = omega (
  arith,
  bit_xor_halves (suc a) 0,
  differ-zero (suc a % 2),
  xor_zero_below k (suc a / 2) (omega arith),
)

-- An exclusive or with 1 exchanges the lowest digit.
pub bit_xor-one : (a : ℕ) → bit_xor a 1 ≡ (if a % 2 == 0 then a + 1 else a - 1)
bit_xor-one a = ground (
  arith,
  bit_xor_halves a 1,
  differ-one (a % 2),
  xor_zero_below (suc (a / 2)) (a / 2) (omega arith),
)

pow_double : (a k : ℕ) → a * 2 ^ suc k ≡ a * 2 ^ k * 2
pow_double a k = omega (arith, ap (λ (t : ℕ). a * t) (pow-suc 2 k))

upper_half : (a k r : ℕ) → (a * 2 ^ suc k + r) / 2 ≡ a * 2 ^ k + r / 2
upper_half a k r = omega (arith, pow_double a k)

lower_half : (a k r : ℕ) → (a * 2 ^ suc k + r) % 2 ≡ r % 2
lower_half a k r = omega (arith, pow_double a k)

module _ (op f : ℕ → ℕ → ℕ) (zeros : op 0 0 ≡ 0)
    (halves : (a b : ℕ) → op a b ≡ op (a / 2) (b / 2) * 2 + f (a % 2) (b % 2)) where
  blocks :
      (k a b r s : ℕ)
      → r < 2 ^ k
      → s < 2 ^ k
      → op (a * 2 ^ k + r) (b * 2 ^ k + s) ≡ op a b * 2 ^ k + op r s
  blocks zero a b r s p q = ground (arith, zeros)
  blocks (suc k) a b r s p q =
      rw
        (
          halves (a * 2 ^ suc k + r) (b * 2 ^ suc k + s),
          upper_half a k r,
          upper_half b k s,
          lower_half a k r,
          lower_half b k s,
          blocks k a b (r / 2) (s / 2) (omega (arith, pow-suc 2 k)) (omega (arith, pow-suc 2 k)),
        )
        (omega (arith, halves r s, pow_double (op a b) k))

pub bit_and_blocks :
    (k a b r s : ℕ)
    → r < 2 ^ k
    → s < 2 ^ k
    → bit_and (a * 2 ^ k + r) (b * 2 ^ k + s) ≡ bit_and a b * 2 ^ k + bit_and r s
bit_and_blocks = blocks bit_and min refl bit_and_halves

pub bit_or_blocks :
    (k a b r s : ℕ)
    → r < 2 ^ k
    → s < 2 ^ k
    → bit_or (a * 2 ^ k + r) (b * 2 ^ k + s) ≡ bit_or a b * 2 ^ k + bit_or r s
bit_or_blocks = blocks bit_or max refl bit_or_halves

-- Zero on the right. (On the left both operations compute.)
and_zero_below : (k a : ℕ) → a < k → bit_and a 0 ≡ 0
and_zero_below zero a h = absurd (omega arith)
and_zero_below (suc k) zero h = refl
and_zero_below (suc k) (suc a) h =
    omega (arith, bit_and_halves (suc a) 0, and_zero_below k (suc a / 2) (omega arith))

pub bit_and-zero : (a : ℕ) → bit_and a 0 ≡ 0
bit_and-zero a = and_zero_below (suc a) a (omega arith)

or_zero_below : (k a : ℕ) → a < k → bit_or a 0 ≡ a
or_zero_below zero a h = absurd (omega arith)
or_zero_below (suc k) zero h = refl
or_zero_below (suc k) (suc a) h =
    omega (arith, bit_or_halves (suc a) 0, or_zero_below k (suc a / 2) (omega arith))

pub bit_or-zero : (a : ℕ) → bit_or a 0 ≡ a
bit_or-zero a = or_zero_below (suc a) a (omega arith)

zero-bit_or : (r : ℕ) → bit_or 0 r ≡ r
zero-bit_or r = simp bit_or-bitwise

-- A shifted field joined to one that fits below it is their sum.
pub bit_or_shifted : (k a r : ℕ) → r < 2 ^ k → bit_or (a * 2 ^ k) r ≡ a * 2 ^ k + r
bit_or_shifted k a r h =
    ground (
      arith,
      bit_or_blocks k a 0 0 r (omega (arith, one-le-pow k 2)) h,
      bit_or-zero a,
      zero-bit_or r,
    )

pub bit_or_below : (k a r : ℕ) → r < 2 ^ k → bit_or r (a * 2 ^ k) ≡ a * 2 ^ k + r
bit_or_below k a r h =
    ground (
      arith,
      bit_or_blocks k 0 a r 0 h (omega (arith, one-le-pow k 2)),
      bit_or-zero r,
      zero-bit_or a,
    )

-- A run of `k` ones keeps what lies below `2 ^ k`.
ones_self : (k r : ℕ) → r < 2 ^ k → bit_and r (2 ^ k - 1) ≡ r
ones_self zero r h = omega (arith, bit_and-zero r)
ones_self (suc k) r h = ground (
  arith,
  bit_and_halves r (2 ^ suc k - 1),
  pow-suc 2 k,
  one-le-pow k 2,
  ones_self k (r / 2) (omega (arith, pow-suc 2 k)),
)

-- A mask of the `k` lowest bits is the remainder by `2 ^ k`.
pub bit_and_ones : (k a : ℕ) → bit_and a (2 ^ k - 1) ≡ a % 2 ^ k
bit_and_ones k a = ground (
  arith,
  one-le-pow k 2,
  bit_and_blocks k (a / 2 ^ k) 0 (a % 2 ^ k) (2 ^ k - 1),
  bit_and-zero (a / 2 ^ k),
  ones_self k (a % 2 ^ k),
)

-- A mask that ends in `k` zeros reads the bits above them, in place.
pub bit_and_field : (k m a : ℕ) → bit_and a (m * 2 ^ k) ≡ bit_and (a / 2 ^ k) m * 2 ^ k
bit_and_field k m a =
    ground (
      arith,
      one-le-pow k 2,
      bit_and_blocks k (a / 2 ^ k) m (a % 2 ^ k) 0,
      bit_and-zero (a % 2 ^ k),
    )

zero-bit_and : (m : ℕ) → bit_and 0 m ≡ 0
zero-bit_and m = simp bit_and-bitwise

digit_distrib : (x y m : ℕ) → x < 2 → y < 2 → m < 2 → min (max x y) m ≡ max (min x m) (min y m)
digit_distrib x y m p q r = omega arith

or_half : (x y : ℕ) → bit_or x y / 2 ≡ bit_or (x / 2) (y / 2)
or_half x y = omega (arith, bit_or_halves x y)

or_low : (x y : ℕ) → bit_or x y % 2 ≡ max (x % 2) (y % 2)
or_low x y = omega (arith, bit_or_halves x y)

and_half : (x y : ℕ) → bit_and x y / 2 ≡ bit_and (x / 2) (y / 2)
and_half x y = omega (arith, bit_and_halves x y)

and_low : (x y : ℕ) → bit_and x y % 2 ≡ min (x % 2) (y % 2)
and_low x y = omega (arith, bit_and_halves x y)

distrib_below :
    (n x y m : ℕ) → x + y < n → bit_and (bit_or x y) m ≡ bit_or (bit_and x m) (bit_and y m)
distrib_below zero x y m h = absurd (omega arith)
distrib_below (suc n) zero y m h = rw (zero-bit_or y, zero-bit_and m, zero-bit_or (bit_and y m))
distrib_below (suc n) (suc x) y m h =
    rw
      (
        bit_and_halves (bit_or (suc x) y) m,
        bit_or_halves (bit_and (suc x) m) (bit_and y m),
        or_half (suc x) y,
        or_low (suc x) y,
        and_half (suc x) m,
        and_half y m,
        and_low (suc x) m,
        and_low y m,
        distrib_below n (suc x / 2) (y / 2) (m / 2) (omega arith),
        digit_distrib (suc x % 2) (y % 2) (m % 2) (omega arith) (omega arith) (omega arith),
      )
      refl

-- `&` distributes over `|`.
pub bit_and-bit_or : (x y m : ℕ) → bit_and (bit_or x y) m ≡ bit_or (bit_and x m) (bit_and y m)
bit_and-bit_or x y m = distrib_below (suc (x + y)) x y m (omega arith)
