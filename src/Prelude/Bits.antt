-- ===== src/Prelude/Bits.antt =====
-- Masks, and `|` of numbers with no bit in common, as arithmetic.
use Prim.Native.Nat.{ℕ, zero, suc, ◌+◌, ◌*◌, ◌/◌, ◌%◌, ◌^◌, ◌≤◌, ◌<◌, min, max}
use Prim.Native.Nat.{bit_and, bit_or, digits}
use Prim.Native.Nat.{bit_and-bitwise, bit_or-bitwise}
use mathlib.Core.Path.{◌≡◌, refl, ap, sym, ◌∙◌}
use native.Mathlib.Omega.{arith}
use native.Mathlib.Nat.{pow-suc}

-- An operation that works digit by digit; `rest` is its result where the first number has no more.
module _ (rest : ℕ → ℕ) (digit : ℕ → ℕ → ℕ) where
  digits_end : (rounds b : ℕ) → digits rest digit rounds 0 b ≡ rest b
  digits_end zero b = refl
  digits_end (suc rounds) b = refl

  -- More rounds than the first number's size change nothing.
  digits_rounds : (a b k j : ℕ) → a ≤ k → a ≤ j → digits rest digit k a b ≡ digits rest digit j a b
  digits_rounds zero b k j lo hi = digits_end k b ∙ sym (digits_end j b)
  digits_rounds (suc a) b zero j lo hi = absurd (omega arith)
  digits_rounds (suc a) b (suc k) zero lo hi = absurd (omega arith)
  digits_rounds (suc a) b (suc k) (suc j) lo hi =
      let halves = digits_rounds (suc a / 2) (b / 2) k j (omega arith) (omega arith) in
      omega (arith, halves)

pub zero-bit_or : (b : ℕ) → bit_or 0 b ≡ b
zero-bit_or b = bit_or-bitwise 0 b

-- The lowest digit, and the others.
bit_or_halves : (a b : ℕ) → bit_or a b ≡ max (a % 2) (b % 2) + 2 * bit_or (a / 2) (b / 2)
bit_or_halves zero b = let whole = zero-bit_or b in omega (arith, whole, zero-bit_or (b / 2))
bit_or_halves (suc a) b =
    let half = suc a / 2 in
    let rounds = digits_rounds (λ b. b) max half (b / 2) a half (omega arith) (omega arith) in
    omega (arith, rounds, bit_or-bitwise (suc a) b, bit_or-bitwise half (b / 2))

double_shift : (g s : ℕ) → g * 2 ^ suc s ≡ 2 * (g * 2 ^ s)
double_shift g s = omega (arith, ap (λ (t : ℕ). g * t) (pow-suc 2 s))

-- `acc | g << s` is a sum where `acc` has `s` bits.
pub bit_or-shifted : (s g acc : ℕ) → acc < 2 ^ s → bit_or acc (g * 2 ^ s) ≡ acc + g * 2 ^ s
bit_or-shifted zero g acc h = ground (arith, zero-bit_or g)
bit_or-shifted (suc s) g acc h = ground (
  arith,
  bit_or_halves acc (g * 2 ^ suc s),
  double_shift g s,
  pow-suc 2 s,
  bit_or-shifted s g (acc / 2) (omega arith),
)

-- A byte below 0x80 with its top bit set.
pub set_top_bit : (b : ℕ) → b < 128 → bit_or b 0x80 ≡ b + 128
set_top_bit b h = bit_or-shifted 7 1 b h

below_pow : (a : ℕ) → a < 2 ^ a
below_pow zero = omega arith
below_pow (suc a) = omega (arith, below_pow a, pow-suc 2 a)

pub bit_or-zero : (a : ℕ) → bit_or a 0 ≡ a
bit_or-zero a = ground (arith, bit_or-shifted a 0 a (below_pow a))

-- `x | 1` sets the lowest bit.
pub bit_or-one : (a : ℕ) → bit_or a 1 ≡ a / 2 * 2 + 1
bit_or-one a = omega (arith, bit_or_halves a 1, bit_or-zero (a / 2))

-- `&` with a mask whose lowest bit is set.
bit_and_mask : (a m : ℕ) → bit_and a (m * 2 + 1) ≡ a % 2 + 2 * bit_and (a / 2) m
bit_and_mask zero m = omega (arith, bit_and-bitwise 0 (m * 2 + 1), bit_and-bitwise 0 m)
bit_and_mask (suc a) m =
    let half = suc a / 2 in
    let rounds = digits_rounds (λ b. zero) min half m a half (omega arith) (omega arith) in
    let mask : (m * 2 + 1) / 2 ≡ m = omega arith in
    let first = rw mask at (bit_and-bitwise (suc a) (m * 2 + 1)) in
    omega (arith, rounds, first, bit_and-bitwise half m)

-- With no mask nothing is left.
digits_none : (k a : ℕ) → digits (λ b. zero) min k a 0 ≡ 0
digits_none zero a = refl
digits_none (suc k) zero = refl
digits_none (suc k) (suc a) = omega (arith, digits_none k (suc a / 2))

bit_and-zero : (a : ℕ) → bit_and a 0 ≡ 0
bit_and-zero a = bit_and-bitwise a 0 ∙ digits_none a a

bit_and_three : (a : ℕ) → bit_and a 3 ≡ a % 4
bit_and_three a = omega (arith, bit_and_mask a 1, bit_and_mask (a / 2) 0, bit_and-zero (a / 2 / 2))

-- `b & 0x7` keeps the three low bits.
pub bit_and_seven : (a : ℕ) → bit_and a 0x7 ≡ a % 8
bit_and_seven a = omega (arith, bit_and_mask a 3, bit_and_three (a / 2))

-- `b & 0x7f` keeps the seven low bits.
pub bit_and_7f : (a : ℕ) → bit_and a 0x7f ≡ a % 128
bit_and_7f a =
    let low = bit_and_mask a 63 in
    let next = bit_and_mask (a / 2) 31 in
    let third = bit_and_mask (a / 2 / 2) 15 in
    let fourth = bit_and_mask (a / 2 / 2 / 2) 7 in
    omega (arith, low, next, third, fourth, bit_and_seven (a / 2 / 2 / 2 / 2))
