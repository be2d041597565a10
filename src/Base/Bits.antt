-- ===== src/Base/Bits.antt =====
-- `bit_and` at variables: the recursion on binary digits, and masks as division and remainder.
use Prim.Native.Nat.{
  ℕ, zero, suc, ◌+◌, ◌-◌, ◌*◌, ◌/◌, ◌%◌, ◌^◌, ◌≤◌, ◌<◌, min, bit_and, digits, bit_and-bitwise,
}
use mathlib.Core.Path.{◌≡◌, refl, ap}
use native.Mathlib.Nat.{pow-suc, one-le-pow, div-div-eq-div-mul, div-add-mod, div-one, mul_comm}
use native.Mathlib.Omega.{arith}

-- The digits that two numbers share, counted down from `n`.
abbrev shared : ℕ → ℕ → ℕ → ℕ
shared n = digits (λ y. zero) min n

-- A count no smaller than the first number gives all of them.
shared_all : (k n a b : ℕ) → n ≤ k → a ≤ n → shared n a b ≡ bit_and a b
shared_all k zero zero b h g = omega (arith, bit_and-bitwise 0 b)
shared_all k (suc n) zero b h g = omega (arith, bit_and-bitwise 0 b)
shared_all k zero (suc a) b h g = absurd (omega arith)
shared_all zero (suc n) (suc a) b h g = absurd (omega arith)
shared_all (suc k) (suc n) (suc a) b h g =
    let half : ℕ = suc a / 2 in
    omega (
      arith,
      shared_all k n half (b / 2) (omega arith) (omega arith),
      shared_all k a half (b / 2) (omega arith) (omega arith),
      bit_and-bitwise (suc a) b,
    )

-- One equation for the lowest binary digit.
pub bit_and_step : (a b : ℕ) → bit_and a b ≡ bit_and (a / 2) (b / 2) * 2 + min (a % 2) (b % 2)
bit_and_step zero b = omega (arith, bit_and-bitwise 0 b, bit_and-bitwise 0 (b / 2))
bit_and_step (suc a) b =
    let rest = shared_all a a (suc a / 2) (b / 2) (omega arith) (omega arith) in
    omega (arith, rest, bit_and-bitwise (suc a) b)

shared_none : (n a : ℕ) → shared n a 0 ≡ 0
shared_none zero a = refl
shared_none (suc n) zero = refl
shared_none (suc n) (suc a) = omega (arith, shared_none n (suc a / 2))

pub bit_and-zero : (a : ℕ) → bit_and a 0 ≡ 0
bit_and-zero a = omega (arith, shared_none a a, bit_and-bitwise a 0)

pub bit_and-one : (a : ℕ) → bit_and a 1 ≡ a % 2
bit_and-one a = omega (arith, bit_and-zero (a / 2), bit_and_step a 1)

div-two-mul : (m a : ℕ) → a / (m * 2) ≡ a / 2 / m
div-two-mul m a = rw (div-div-eq-div-mul a 2 m, mul_comm 2 m)

mod-two-mul : (m a : ℕ) → 0 < m → a % (m * 2) ≡ a / 2 % m * 2 + a % 2
mod-two-mul m a h = omega (
  arith,
  div-two-mul m a,
  div-add-mod a (m * 2),
  div-add-mod (a / 2) m,
  ap (λ (t : ℕ). m * t) (div-two-mul m a),
)

-- A mask of `n` ones is the remainder by `2 ^ n`.
pub bit_and_low : (n a : ℕ) → bit_and a (2 ^ n - 1) ≡ a % 2 ^ n
bit_and_low zero a = omega (arith, bit_and-zero a)
bit_and_low (suc n) a = ground (
  arith,
  bit_and_step a (2 ^ suc n - 1),
  bit_and_low n (a / 2),
  mod-two-mul (2 ^ n) a,
  pow-suc 2 n,
  one-le-pow n 2,
)

-- A mask of `n` ones above `k` zeros keeps the digits at the places `k` to `k + n - 1`.
pub bit_and_field : (k n a : ℕ) → bit_and a ((2 ^ n - 1) * 2 ^ k) ≡ a / 2 ^ k % 2 ^ n * 2 ^ k
bit_and_field zero n a =
    let e : (2 ^ n - 1) * 2 ^ 0 ≡ 2 ^ n - 1 = omega arith in
    let one : 2 ^ 0 ≡ 1 = refl in
    rw (e, one) (omega (arith, bit_and_low n a, ap (λ (t : ℕ). t % 2 ^ n) (div-one a)))
bit_and_field (suc k) n a = ground (
  arith,
  bit_and_step a ((2 ^ n - 1) * 2 ^ suc k),
  bit_and_field k n (a / 2),
  div-two-mul (2 ^ k) a,
  pow-suc 2 k,
  ap (λ (t : ℕ). (2 ^ n - 1) * t) (pow-suc 2 k),
  ap (λ (t : ℕ). a / 2 / 2 ^ k % 2 ^ n * t) (pow-suc 2 k),
)

-- A mask of two parts: `lo` below the place `k`, and `hi` from it on.
pub bit_and_split :
    (k a hi lo : ℕ)
    → lo < 2 ^ k
    → bit_and a (hi * 2 ^ k + lo) ≡ bit_and (a / 2 ^ k) hi * 2 ^ k + bit_and (a % 2 ^ k) lo
bit_and_split zero a hi lo h =
    let one : 2 ^ 0 ≡ 1 = refl in
    let e : hi * 1 + lo ≡ hi = omega arith in
    let z : lo ≡ 0 = omega arith in rw (one, e, z, div-one a) (omega (arith, bit_and-zero (a % 1)))
bit_and_split (suc k) a hi lo h =
    let q : (hi * 2 ^ suc k + lo) / 2 ≡ hi * 2 ^ k + lo / 2 =
      omega (arith, pow-suc 2 k, ap (λ (t : ℕ). hi * t) (pow-suc 2 k)) in
    let r : (hi * 2 ^ suc k + lo) % 2 ≡ lo % 2 =
      omega (arith, pow-suc 2 k, ap (λ (t : ℕ). hi * t) (pow-suc 2 k)) in
    let low : a % 2 ^ suc k ≡ a / 2 % 2 ^ k * 2 + a % 2 =
      rw (pow-suc 2 k) (mod-two-mul (2 ^ k) a (one-le-pow k 2 (omega arith))) in
    ground (
      arith,
      bit_and_step a (hi * 2 ^ suc k + lo),
      q,
      r,
      low,
      bit_and_step (a % 2 ^ suc k) lo,
      bit_and_split k (a / 2) hi (lo / 2) (omega (arith, pow-suc 2 k)),
      pow-suc 2 k,
      div-two-mul (2 ^ k) a,
      ap (λ (t : ℕ). bit_and (a / 2 / 2 ^ k) hi * t) (pow-suc 2 k),
    )
