-- ===== src/Base/Bits.antt =====
-- `&` with a mask and `|` of disjoint fields, as arithmetic. The native operations mean a recursion
-- on binary digits; one equation for the lowest digit carries every law below.
use Prim.Native.Nat.{
  ℕ, zero, suc, ◌+◌, ◌*◌, ◌/◌, ◌%◌, ◌^◌, ◌≤◌, ◌<◌, min, max, bit_and, bit_or, digits,
  bit_and-bitwise, bit_or-bitwise,
}
use mathlib.Core.Path.{◌≡◌, refl, ap}
use native.Mathlib.Nat.{pow-suc}
use native.Mathlib.Omega.{arith}

-- More rounds than the first number has digits change nothing.
digits_enough :
    (z : ℕ → ℕ) (f : ℕ → ℕ → ℕ) (n m a b : ℕ) → a ≤ n → a ≤ m → digits z f n a b ≡ digits z f m a b
digits_enough z f zero zero a b p q = refl
digits_enough z f zero (suc m) zero b p q = refl
digits_enough z f zero (suc m) (suc a) b p q = absurd (omega arith)
digits_enough z f (suc n) zero zero b p q = refl
digits_enough z f (suc n) zero (suc a) b p q = absurd (omega arith)
digits_enough z f (suc n) (suc m) zero b p q = refl
digits_enough z f (suc n) (suc m) (suc a) b p q =
    omega (arith, digits_enough z f n m (suc a / 2) (b / 2) (omega arith) (omega arith))

pub bit_or-zero_left : (b : ℕ) → bit_or 0 b ≡ b
bit_or-zero_left b = bit_or-bitwise 0 b

pub bit_and-zero_left : (b : ℕ) → bit_and 0 b ≡ 0
bit_and-zero_left b = bit_and-bitwise 0 b

pub bit_or_lowest : (a b : ℕ) → bit_or a b ≡ bit_or (a / 2) (b / 2) * 2 + max (a % 2) (b % 2)
bit_or_lowest zero b = omega (arith, bit_or-zero_left b, bit_or-zero_left (b / 2))
bit_or_lowest (suc a) b = omega (
  arith,
  bit_or-bitwise (suc a) b,
  bit_or-bitwise (suc a / 2) (b / 2),
  digits_enough (λ y. y) max a (suc a / 2) (suc a / 2) (b / 2) (omega arith) (omega arith),
)

pub bit_and_lowest : (a b : ℕ) → bit_and a b ≡ bit_and (a / 2) (b / 2) * 2 + min (a % 2) (b % 2)
bit_and_lowest zero b = omega (arith, bit_and-zero_left b, bit_and-zero_left (b / 2))
bit_and_lowest (suc a) b = omega (
  arith,
  bit_and-bitwise (suc a) b,
  bit_and-bitwise (suc a / 2) (b / 2),
  digits_enough (λ y. 0) min a (suc a / 2) (suc a / 2) (b / 2) (omega arith) (omega arith),
)

bit_or-zero_upto : (n a : ℕ) → a ≤ n → bit_or a 0 ≡ a
bit_or-zero_upto n zero h = refl
bit_or-zero_upto zero (suc a) h = absurd (omega arith)
bit_or-zero_upto (suc n) (suc a) h =
    omega (arith, bit_or_lowest (suc a) 0, bit_or-zero_upto n (suc a / 2) (omega arith))

bit_and-zero_upto : (n a : ℕ) → a ≤ n → bit_and a 0 ≡ 0
bit_and-zero_upto n zero h = refl
bit_and-zero_upto zero (suc a) h = absurd (omega arith)
bit_and-zero_upto (suc n) (suc a) h =
    omega (arith, bit_and_lowest (suc a) 0, bit_and-zero_upto n (suc a / 2) (omega arith))

pub bit_or-zero : (a : ℕ) → bit_or a 0 ≡ a
bit_or-zero a = bit_or-zero_upto a a (omega arith)

pub bit_and-zero : (a : ℕ) → bit_and a 0 ≡ 0
bit_and-zero a = bit_and-zero_upto a a (omega arith)

double_shift : (q k : ℕ) → q * 2 ^ suc k ≡ 2 * (q * 2 ^ k)
double_shift q k = omega (arith, ap (λ (t : ℕ). q * t) (pow-suc 2 k))

-- `r | (q << k)` for `r` below bit `k`.
pub bit_or_above : (k q r : ℕ) → r < 2 ^ k → bit_or r (q * 2 ^ k) ≡ r + q * 2 ^ k
bit_or_above zero q zero fits = omega (arith, bit_or-zero_left (q * 2 ^ 0))
bit_or_above zero q (suc r) fits = absurd (omega arith)
bit_or_above (suc k) q r fits = omega (
  arith,
  bit_or_lowest r (q * 2 ^ suc k),
  double_shift q k,
  ap (λ (t : ℕ). bit_or (r / 2) t) (half_shift),
  bit_or_above k q (r / 2) (omega (arith, pow-suc 2 k)),
)
  where
    half_shift : q * 2 ^ suc k / 2 ≡ q * 2 ^ k
    half_shift = omega (arith, double_shift q k)

-- `(q << k) | r` for `r` below bit `k`.
pub bit_or_below : (k q r : ℕ) → r < 2 ^ k → bit_or (q * 2 ^ k) r ≡ q * 2 ^ k + r
bit_or_below zero q zero fits = omega (arith, bit_or-zero (q * 2 ^ 0))
bit_or_below zero q (suc r) fits = absurd (omega arith)
bit_or_below (suc k) q r fits = omega (
  arith,
  bit_or_lowest (q * 2 ^ suc k) r,
  double_shift q k,
  ap (λ (t : ℕ). bit_or t (r / 2)) (half_shift),
  bit_or_below k q (r / 2) (omega (arith, pow-suc 2 k)),
)
  where
    half_shift : q * 2 ^ suc k / 2 ≡ q * 2 ^ k
    half_shift = omega (arith, double_shift q k)

bit_and-one : (a : ℕ) → bit_and a 1 ≡ a % 2
bit_and-one a = omega (arith, bit_and_lowest a 1, bit_and-zero (a / 2))

bit_and_three : (a : ℕ) → bit_and a 3 ≡ a % 4
bit_and_three a = omega (arith, bit_and_lowest a 3, bit_and-one (a / 2))

pub bit_and_seven : (a : ℕ) → bit_and a 7 ≡ a % 8
bit_and_seven a = omega (arith, bit_and_lowest a 7, bit_and_three (a / 2))

bit_and_fifteen : (a : ℕ) → bit_and a 15 ≡ a % 16
bit_and_fifteen a = omega (arith, bit_and_lowest a 15, bit_and_seven (a / 2))

bit_and_31 : (a : ℕ) → bit_and a 31 ≡ a % 32
bit_and_31 a = omega (arith, bit_and_lowest a 31, bit_and_fifteen (a / 2))

bit_and_63 : (a : ℕ) → bit_and a 63 ≡ a % 64
bit_and_63 a = omega (arith, bit_and_lowest a 63, bit_and_31 (a / 2))

-- `a & 0x7f`
pub bit_and_7f : (a : ℕ) → bit_and a 0x7f ≡ a % 128
bit_and_7f a = omega (arith, bit_and_lowest a 127, bit_and_63 (a / 2))

pub bit_and_ff : (a : ℕ) → bit_and a 0xff ≡ a % 256
bit_and_ff a = omega (arith, bit_and_lowest a 255, bit_and_7f (a / 2))

bit_and_4 : (a : ℕ) → bit_and a 4 ≡ a / 4 % 2 * 4
bit_and_4 a = omega (arith, bit_and_lowest a 4, bit_and_lowest (a / 2) 2, bit_and-one (a / 2 / 2))

bit_and_32 : (a : ℕ) → bit_and a 32 ≡ a / 32 % 2 * 32
bit_and_32 a = omega (
  arith,
  bit_and_lowest a 32,
  bit_and_lowest (a / 2) 16,
  bit_and_lowest (a / 2 / 2) 8,
  bit_and_4 (a / 2 / 2 / 2),
)

-- `a & 0x80`: the continuation bit.
pub bit_and_80 : (a : ℕ) → bit_and a 0x80 ≡ a / 128 % 2 * 128
bit_and_80 a =
    omega (arith, bit_and_lowest a 128, bit_and_lowest (a / 2) 64, bit_and_32 (a / 2 / 2))

-- `a | 0x80`
pub bit_or_80 : (a : ℕ) → a < 128 → bit_or a 0x80 ≡ a + 128
bit_or_80 a h = omega (arith, bit_or_above 7 1 a h)
