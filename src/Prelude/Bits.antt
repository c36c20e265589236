-- ===== src/Prelude/Bits.antt =====
-- Masks of low bits, and disjoint fields, as arithmetic.
use Prim.Native.Nat.{ℕ, zero, suc, ◌+◌, ◌-◌, ◌*◌, ◌/◌, ◌%◌, ◌^◌, ◌≤◌, ◌<◌, min, max}
use Prim.Native.Nat.{
  bit_and, bit_or, bit_xor, differ, bit_xor-bitwise, digits, bit_and-bitwise, bit_or-bitwise,
}
use mathlib.Core.Path.{◌≡◌, refl, ap, ◌∙◌}
use native.Mathlib.Nat.{two-pow-succ, add-mul-mod_self_left, mod-eq_of_lt, div-add-mod, one-le-pow}
use native.Mathlib.Omega.{arith}

-- More rounds than the first number needs change nothing.
digits_rounds :
    (z : ℕ → ℕ) (f : ℕ → ℕ → ℕ) (n m a b : ℕ) → a ≤ n → a ≤ m → digits z f n a b ≡ digits z f m a b
digits_rounds z f zero zero a b p q = refl
digits_rounds z f zero (suc m) zero b p q = refl
digits_rounds z f (suc n) zero zero b p q = refl
digits_rounds z f (suc n) (suc m) zero b p q = refl
digits_rounds z f zero m (suc a) b p q = absurd (omega arith)
digits_rounds z f (suc n) zero (suc a) b p q = absurd (omega arith)
digits_rounds z f (suc n) (suc m) (suc a) b p q =
    ap (λ r. r * 2 + f (suc a % 2) (b % 2))
      (digits_rounds z f n m (suc a / 2) (b / 2) (omega arith) (omega arith))

-- The lowest digit apart from the others.
pub bit_and_halves : (a b : ℕ) → bit_and a b ≡ bit_and (a / 2) (b / 2) * 2 + min (a % 2) (b % 2)
bit_and_halves zero b = omega (arith, bit_and-bitwise 0 b, bit_and-bitwise 0 (b / 2))
bit_and_halves (suc a) b = omega (
  arith,
  bit_and-bitwise (suc a) b,
  bit_and-bitwise (suc a / 2) (b / 2),
  digits_rounds (λ r. 0) min a (suc a / 2) (suc a / 2) (b / 2) (omega arith) (omega arith),
)

pub bit_or_halves : (a b : ℕ) → bit_or a b ≡ bit_or (a / 2) (b / 2) * 2 + max (a % 2) (b % 2)
bit_or_halves zero b = omega (arith, bit_or-bitwise 0 b, bit_or-bitwise 0 (b / 2))
bit_or_halves (suc a) b = omega (
  arith,
  bit_or-bitwise (suc a) b,
  bit_or-bitwise (suc a / 2) (b / 2),
  digits_rounds (λ r. r) max a (suc a / 2) (suc a / 2) (b / 2) (omega arith) (omega arith),
)

bit_and-zero_below : (n a : ℕ) → a ≤ n → bit_and a 0 ≡ 0
bit_and-zero_below zero zero h = omega (arith, bit_and-bitwise 0 0)
bit_and-zero_below zero (suc a) h = absurd (omega arith)
bit_and-zero_below (suc n) zero h = omega (arith, bit_and-bitwise 0 0)
bit_and-zero_below (suc n) (suc a) h =
    omega (arith, bit_and_halves (suc a) 0, bit_and-zero_below n (suc a / 2) (omega arith))

pub bit_and-zero : (a : ℕ) → bit_and a 0 ≡ 0
bit_and-zero a = bit_and-zero_below a a (omega arith)

mod_double : (a m : ℕ) → 0 < m → a % (m + m) ≡ (a / 2 % m) * 2 + a % 2
mod_double a m h =
    ap (λ t. t % (m + m)) split
    ∙ add-mul-mod_self_left ((a / 2 % m) * 2 + a % 2) (m + m) (a / 2 / m)
    ∙ mod-eq_of_lt (omega arith)
  where
    split : a ≡ (a / 2 % m) * 2 + a % 2 + (m + m) * (a / 2 / m)
    split = omega (arith, div-add-mod (a / 2) m)

-- `a & (2^k - 1)` is the remainder by `2^k`.
pub bit_and_mask : (k a : ℕ) → bit_and a (2 ^ k - 1) ≡ a % 2 ^ k
bit_and_mask zero a = omega (arith, bit_and-zero a)
bit_and_mask (suc k) a = omega (
  arith,
  bit_and_halves a (2 ^ suc k - 1),
  ap (bit_and (a / 2)) shifted,
  bit_and_mask k (a / 2),
  mod_double a (2 ^ k) (one-le-pow k 2 (omega arith)),
  ap (λ t. a % t) (two-pow-succ k),
  two-pow-succ k,
  one-le-pow k 2 (omega arith),
)
  where
    shifted : (2 ^ suc k - 1) / 2 ≡ 2 ^ k - 1
    shifted = omega (arith, two-pow-succ k, one-le-pow k 2 (omega arith))

bit_or-zero_below : (n a : ℕ) → a ≤ n → bit_or a 0 ≡ a
bit_or-zero_below zero zero h = omega (arith, bit_or-bitwise 0 0)
bit_or-zero_below zero (suc a) h = absurd (omega arith)
bit_or-zero_below (suc n) zero h = omega (arith, bit_or-bitwise 0 0)
bit_or-zero_below (suc n) (suc a) h =
    omega (arith, bit_or_halves (suc a) 0, bit_or-zero_below n (suc a / 2) (omega arith))

-- `x << k | y` is a sum when `y` has `k` bits.
pub bit_or-shift : (k x y : ℕ) → y < 2 ^ k → bit_or (x * 2 ^ k) y ≡ x * 2 ^ k + y
bit_or-shift zero x y h =
    ap (λ t. bit_or (x * 1) t) {x = y} {y = 0} (omega arith)
    ∙ bit_or-zero_below (x * 1) (x * 1) (omega arith)
    ∙ omega arith
bit_or-shift (suc k) x y h = omega (
  arith,
  bit_or_halves (x * 2 ^ suc k) y,
  ap (λ t. bit_or t (y / 2)) half,
  ap (λ t. x * t) (two-pow-succ k),
  bit_or-shift k x (y / 2) (omega (arith, two-pow-succ k)),
  two-pow-succ k,
)
  where
    half : (x * 2 ^ suc k) / 2 ≡ x * 2 ^ k
    half = omega (arith, ap (λ t. x * t) (two-pow-succ k))

bit_xor_halves : (a b : ℕ) → bit_xor a b ≡ bit_xor (a / 2) (b / 2) * 2 + differ (a % 2) (b % 2)
bit_xor_halves zero b = omega (arith, bit_xor-bitwise 0 b, bit_xor-bitwise 0 (b / 2))
bit_xor_halves (suc a) b = omega (
  arith,
  bit_xor-bitwise (suc a) b,
  bit_xor-bitwise (suc a / 2) (b / 2),
  digits_rounds (λ r. r) differ a (suc a / 2) (suc a / 2) (b / 2) (omega arith) (omega arith),
)

differ_one : (x : ℕ) → x < 2 → differ x 1 ≡ 1 - x
differ_one zero h = omega arith
differ_one (suc zero) h = omega arith
differ_one (suc (suc x)) h = absurd (omega arith)

bit_xor-zero_below : (n a : ℕ) → a ≤ n → bit_xor a 0 ≡ a
bit_xor-zero_below zero zero h = omega (arith, bit_xor-bitwise 0 0)
bit_xor-zero_below zero (suc a) h = absurd (omega arith)
bit_xor-zero_below (suc n) zero h = omega (arith, bit_xor-bitwise 0 0)
bit_xor-zero_below (suc n) (suc a) h = omega (
  arith,
  bit_xor_halves (suc a) 0,
  bit_xor-zero_below n (suc a / 2) (omega arith),
  differ_zero (suc a % 2),
)
  where
    differ_zero : (x : ℕ) → differ x 0 ≡ x
    differ_zero zero = refl
    differ_zero (suc x) = refl

pub bit_xor-zero : (a : ℕ) → bit_xor a 0 ≡ a
bit_xor-zero a = bit_xor-zero_below a a (omega arith)

-- `a ^ (2^k - 1)` turns the `k` digits around.
pub bit_xor-ones : (k a : ℕ) → a < 2 ^ k → bit_xor a (2 ^ k - 1) + a ≡ 2 ^ k - 1
bit_xor-ones zero a h = omega (arith, bit_xor-zero a)
bit_xor-ones (suc k) a h = omega (
  arith,
  bit_xor_halves a (2 ^ suc k - 1),
  ap (bit_xor (a / 2)) shifted,
  bit_xor-ones k (a / 2) (omega (arith, two-pow-succ k)),
  ap (differ (a % 2)) odd,
  differ_one (a % 2) (omega arith),
  two-pow-succ k,
  one-le-pow k 2 (omega arith),
)
  where
    shifted : (2 ^ suc k - 1) / 2 ≡ 2 ^ k - 1
    shifted = omega (arith, two-pow-succ k, one-le-pow k 2 (omega arith))

    odd : (2 ^ suc k - 1) % 2 ≡ 1
    odd = omega (arith, two-pow-succ k, one-le-pow k 2 (omega arith))
