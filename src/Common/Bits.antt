-- ===== src/Common/Bits.antt =====
-- The bits of machine words: `bit v k` is bit `k` of `v`, and the bitwise operations act on it.
use Prim.Native.Nat.{
  ℕ, zero, suc, ◌+◌, ◌-◌, ◌*◌, ◌/◌, ◌%◌, ◌^◌, ◌≤◌, ◌<◌, min, max, digits, bitwise, bit_and, bit_or,
  bit_and-bitwise, bit_or-bitwise,
}
use mathlib.Core.Path.{◌≡◌, refl, ap, sym, ◌∙◌}
use native.Mathlib.Nat.{pow-suc, one-le-pow}
use native.Mathlib.Omega.{arith}
use vde.Common.Tests.{◌==◌, if◌then◌else◌}

-- A bitwise operation recurs on the digits of its first argument, with that argument for fuel.
module _ (edge : ℕ → ℕ) (join : ℕ → ℕ → ℕ) where
  abbrev fueled : ℕ → ℕ → ℕ → ℕ
  fueled fuel m n = digits edge join fuel m n

  spare_one : (fuel m n : ℕ) → m ≤ fuel → fueled (suc fuel) m n ≡ fueled fuel m n
  spare_one (suc less) (suc m) n h =
      ap (λ d. d * 2 + join (suc m % 2) (n % 2)) (spare_one less (suc m / 2) (n / 2) (omega arith))
  spare_one zero (suc m) n h = absurd (omega arith)
  spare_one (suc fuel) zero n h = refl
  spare_one zero zero n h = refl

  spare : (k fuel m n : ℕ) → m ≤ fuel → fueled (k + fuel) m n ≡ fueled fuel m n
  spare zero fuel m n h = ap (λ f. fueled f m n) (omega arith)
  spare (suc k) fuel m n h =
      ap (λ f. fueled f m n) (let more : suc k + fuel ≡ suc (k + fuel) = omega arith in more)
      ∙ spare_one (k + fuel) m n (omega arith)
      ∙ spare k fuel m n h

  -- What an operation that is `bitwise` does with the lowest digits.
  halves :
      (op : ℕ → ℕ → ℕ)
      → ((m n : ℕ) → op m n ≡ bitwise edge join m n)
      → ((n : ℕ) → edge (n / 2) * 2 + join 0 (n % 2) ≡ edge n)
      → (m n : ℕ) → op (m / 2) (n / 2) * 2 + join (m % 2) (n % 2) ≡ op m n
  halves op is low zero n = rw (is zero n, is zero (n / 2)) (low n)
  halves op is low (suc m) n =
      let half = suc m / 2 in
      let fuel : m - half + half ≡ m = omega arith in
      let same : fueled half half (n / 2) ≡ fueled m half (n / 2) =
        sym (spare (m - half) half half (n / 2) (omega arith))
        ∙ ap (λ k. fueled k half (n / 2)) fuel in
      rw (is (suc m) n, is half (n / 2)) (ap (λ d. d * 2 + join (suc m % 2) (n % 2)) same)

pub bit_or_step : (m n : ℕ) → bit_or (m / 2) (n / 2) * 2 + max (m % 2) (n % 2) ≡ bit_or m n
bit_or_step = halves (λ n. n) max bit_or bit_or-bitwise (λ n. omega arith)

pub bit_and_step : (m n : ℕ) → bit_and (m / 2) (n / 2) * 2 + min (m % 2) (n % 2) ≡ bit_and m n
bit_and_step = halves (λ n. 0) min bit_and bit_and-bitwise (λ n. omega arith)

-- Bit `k`, by recursion on `k`.
unfoldable pub bit : ℕ → ℕ → ℕ
bit v zero = v % 2
bit v (suc k) = bit (v / 2) k

pub bit-lt-two : (k v : ℕ) → bit v k < 2
unfolding bit
bit-lt-two zero v = omega arith
bit-lt-two (suc k) v = bit-lt-two k (v / 2)

pub bit-bit_or : (k a b : ℕ) → bit (bit_or a b) k ≡ max (bit a k) (bit b k)
unfolding bit
bit-bit_or zero a b = omega (arith, bit_or_step a b)
bit-bit_or (suc k) a b =
    ap (λ t. bit t k) (omega (arith, bit_or_step a b)) ∙ bit-bit_or k (a / 2) (b / 2)

pub bit-bit_and : (k a b : ℕ) → bit (bit_and a b) k ≡ min (bit a k) (bit b k)
unfolding bit
bit-bit_and zero a b = omega (arith, bit_and_step a b)
bit-bit_and (suc k) a b =
    ap (λ t. bit t k) (omega (arith, bit_and_step a b)) ∙ bit-bit_and k (a / 2) (b / 2)

pub bit-zero : (k : ℕ) → bit 0 k ≡ 0
unfolding bit
bit-zero zero = refl
bit-zero (suc k) = bit-zero k

half_pow : (k : ℕ) → 2 ^ suc k / 2 ≡ 2 ^ k
half_pow k = omega (arith, pow-suc 2 k)

-- `1 << j` has bit `j` and no other.
pub bit-pow : (k j : ℕ) → bit (2 ^ j) k ≡ (if j == k then 1 else 0)
unfolding bit
bit-pow zero zero = refl
bit-pow zero (suc j) = ground (arith, pow-suc 2 j)
bit-pow (suc k) zero = bit-zero k ∙ ground arith
bit-pow (suc k) (suc j) = ap (λ t. bit t k) (half_pow j) ∙ bit-pow k j ∙ ground arith

zero_below : (k a : ℕ) → a < k → bit_and a 0 ≡ 0
zero_below zero a h = absurd (omega arith)
zero_below (suc k) zero h = refl
zero_below (suc k) (suc a) h =
    omega (arith, bit_and_step (suc a) 0, zero_below k (suc a / 2) (omega arith))

bit_and-zero : (a : ℕ) → bit_and a 0 ≡ 0
bit_and-zero a = zero_below (suc a) a (omega arith)

same_below : (k a : ℕ) → a < k → bit_or a 0 ≡ a
same_below zero a h = absurd (omega arith)
same_below (suc k) zero h = refl
same_below (suc k) (suc a) h =
    omega (arith, bit_or_step (suc a) 0, same_below k (suc a / 2) (omega arith))

pub bit_or-zero : (a : ℕ) → bit_or a 0 ≡ a
bit_or-zero a = same_below (suc a) a (omega arith)

-- `v & (1 << k)`, the test of a bit.
pub bit_and-pow : (k v : ℕ) → bit_and v (2 ^ k) ≡ bit v k * 2 ^ k
unfolding bit
bit_and-pow zero v = omega (arith, bit_and_step v 1, bit_and-zero (v / 2))
bit_and-pow (suc k) v = omega (
  arith,
  bit_and_step v (2 ^ suc k),
  pow-suc 2 k,
  half_pow k,
  ap (bit_and (v / 2)) (half_pow k),
  bit_and-pow k (v / 2),
  ap (λ (t : ℕ). bit (v / 2) k * t) (pow-suc 2 k),
)

-- A mask of `k` low bits is the remainder by `2 ^ k`.
pub bit_and_mask : (k a : ℕ) → bit_and a (2 ^ k - 1) ≡ a % 2 ^ k
bit_and_mask zero a = omega (arith, bit_and-zero a)
bit_and_mask (suc k) a = omega (
  arith,
  bit_and_step a (2 ^ suc k - 1),
  pow-suc 2 k,
  one-le-pow k 2,
  ap (bit_and (a / 2)) (mask_half k),
  bit_and_mask k (a / 2),
  mod_double (2 ^ k) a (one-le-pow k 2 (omega arith)),
  ap (λ t. a % t) (pow-suc 2 k),
)
  where
    mask_half : (k : ℕ) → (2 ^ suc k - 1) / 2 ≡ 2 ^ k - 1
    mask_half k = omega (arith, pow-suc 2 k)

    mod_double : (m a : ℕ) → 0 < m → a % (m * 2) ≡ a / 2 % m * 2 + a % 2
    mod_double m a h = grind arith
