-- ===== src/Prelude/Bits.antt =====
-- Single bits of a number, and of `bit_and`, `bit_or` and the complement of a 32-bit word.
use Prim.Native.Nat.{
  ℕ, zero, suc, ◌+◌, ◌-◌, ◌*◌, ◌/◌, ◌%◌, ◌^◌, ◌≤◌, ◌<◌, min, max, bit_and, bit_or, digits,
  bit_and-bitwise, bit_or-bitwise,
}
use mathlib.Core.Path.{◌≡◌, refl}
use mathlib.Core.Bool.{Bool, false, not, ◌&&◌, ◌||◌}
use native.Mathlib.Nat.{pow-suc}
use native.Mathlib.Omega.{arith}
use tv.Prelude.Tests.{◌==◌}

-- Bit `i` of `a`, from the lowest.
abbrev pub test_bit : ℕ → ℕ → Bool
test_bit a zero = a % 2 == 1
test_bit a (suc i) = test_bit (a / 2) i

-- `!a` on an `i32`, read as a 32-bit pattern.
unfoldable pub bit_not : ℕ → ℕ
bit_not a = 0xffffffff - a

pub test_bit-zero : (i : ℕ) → test_bit 0 i ≡ false
test_bit-zero zero = refl
test_bit-zero (suc i) = test_bit-zero i

-- An operation on the digits acts on every bit, if it does on one digit and on the rest that is
-- left when the first number has run out.
module _ (z : ℕ → ℕ) (f : ℕ → ℕ → ℕ) (op : Bool → Bool → Bool)
    (z_lem : (b i : ℕ) → test_bit (z b) i ≡ op false (test_bit b i))
    (digit : (x y : ℕ) → x < 2 → y < 2 → f x y < 2)
    (f_lem : (x y : ℕ) → x < 2 → y < 2 → (f x y == 1) ≡ op (x == 1) (y == 1)) where
  test_bit-digits :
      (n a b i : ℕ) → a ≤ n → test_bit (digits z f n a b) i ≡ op (test_bit a i) (test_bit b i)
  test_bit-digits zero zero b i h = rw (test_bit-zero i) (z_lem b i)
  test_bit-digits (suc n) zero b i h = rw (test_bit-zero i) (z_lem b i)
  test_bit-digits zero (suc a) b i h = absurd (omega arith)
  test_bit-digits (suc n) (suc a) b zero h =
      let rest = digits z f n (suc a / 2) (b / 2) in
      let d = f (suc a % 2) (b % 2) in
      let small : d < 2 = digit (suc a % 2) (b % 2) (omega arith) (omega arith) in
      let low : (rest * 2 + d) % 2 ≡ d = omega arith in
      rw low (f_lem (suc a % 2) (b % 2) (omega arith) (omega arith))
  test_bit-digits (suc n) (suc a) b (suc i) h =
      let rest = digits z f n (suc a / 2) (b / 2) in
      let d = f (suc a % 2) (b % 2) in
      let small : d < 2 = digit (suc a % 2) (b % 2) (omega arith) (omega arith) in
      let high : (rest * 2 + d) / 2 ≡ rest = omega arith in
      rw high (test_bit-digits n (suc a / 2) (b / 2) i (omega arith))

pub test_bit-bit_and : (a b i : ℕ) → test_bit (bit_and a b) i ≡ (test_bit a i && test_bit b i)
test_bit-bit_and a b i = rw (bit_and-bitwise a b) (
    test_bit-digits (λ b. 0) min ◌&&◌ (λ b j. test_bit-zero j) (λ x y p q. omega arith)
      (λ x y p q. ground arith) a a b i (omega arith))

pub test_bit-bit_or : (a b i : ℕ) → test_bit (bit_or a b) i ≡ (test_bit a i || test_bit b i)
test_bit-bit_or a b i = rw (bit_or-bitwise a b) (
    test_bit-digits (λ b. b) max ◌||◌ (λ b j. refl) (λ x y p q. omega arith)
      (λ x y p q. ground arith) a a b i (omega arith))

meet-le : (n a b : ℕ) → a ≤ n → digits (λ b. 0) min n a b ≤ a
meet-le zero a b h = omega arith
meet-le (suc n) zero b h = omega arith
meet-le (suc n) (suc a) b h = omega (arith, meet-le n (suc a / 2) (b / 2) (omega arith))

pub bit_and-le : (a b : ℕ) → bit_and a b ≤ a
bit_and-le a b = rw (bit_and-bitwise a b) (meet-le a a b (omega arith))

join-lt : (n w a b : ℕ) → a < 2 ^ w → b < 2 ^ w → digits (λ b. b) max n a b < 2 ^ w
join-lt zero w a b h k = k
join-lt (suc n) w zero b h k = k
join-lt (suc n) zero (suc a) b h k = absurd (omega arith)
join-lt (suc n) (suc w) (suc a) b h k = omega (
  arith,
  pow-suc 2 w,
  join-lt n w (suc a / 2) (b / 2) (omega (arith, pow-suc 2 w)) (omega (arith, pow-suc 2 w)),
)

pub bit_or-lt : (w a b : ℕ) → a < 2 ^ w → b < 2 ^ w → bit_or a b < 2 ^ w
bit_or-lt w a b h k = rw (bit_or-bitwise a b) (join-lt a w a b h k)

not_below_step : (w a : ℕ) → a < 2 ^ suc w → (2 ^ suc w - 1 - a) % 2 ≡ 1 - a % 2
not_below_step w a h = omega (arith, pow-suc 2 w)

test_bit-not_below :
    (w a i : ℕ) → a < 2 ^ w → i < w → test_bit (2 ^ w - 1 - a) i ≡ not (test_bit a i)
test_bit-not_below zero a i h k = elim k [ ]
test_bit-not_below (suc w) a zero h k = ground (arith, not_below_step w a)
test_bit-not_below (suc w) a (suc i) h k =
    let e : (2 ^ suc w - 1 - a) / 2 ≡ 2 ^ w - 1 - a / 2 = omega (arith, pow-suc 2 w) in
    rw e (test_bit-not_below w (a / 2) i (omega (arith, pow-suc 2 w)) (omega arith))

pub test_bit-bit_not : (a i : ℕ) → a < 2 ^ 32 → i < 32 → test_bit (bit_not a) i ≡ not (test_bit a i)
unfolding bit_not
test_bit-bit_not a i h k = test_bit-not_below 32 a i h k

pub bit_not-lt : (a : ℕ) → bit_not a < 2 ^ 32
unfolding bit_not
bit_not-lt a = omega arith

-- Two words with the same bits are one number.
pub eq_of_test_bit :
    (w a b : ℕ) → a < 2 ^ w → b < 2 ^ w → ((i : ℕ) → i < w → test_bit a i ≡ test_bit b i) → a ≡ b
eq_of_test_bit zero a b h k same = omega arith
eq_of_test_bit (suc w) a b h k same =
    let high : a / 2 ≡ b / 2 =
      eq_of_test_bit w (a / 2) (b / 2) (omega (arith, pow-suc 2 w)) (omega (arith, pow-suc 2 w))
        (λ i l. same (suc i) (omega arith)) in
    let low : a % 2 ≡ b % 2 = ground (arith, same 0 (omega arith)) in omega arith
