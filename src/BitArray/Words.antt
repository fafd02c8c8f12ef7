-- ===== src/BitArray/Words.antt =====
-- One word: what `|= 1L << j` and `&= ~(1L << j)` do to its value and its bits.
use vde.Common.{
  ℕ, zero, suc, ◌+◌, ◌-◌, ◌*◌, ◌/◌, ◌%◌, ◌^◌, ◌<◌, bit_and, bit_or, ◌≡◌, ap, ◌∙◌, arith,
  if◌then◌else◌, ◌==◌, ltb,
}
use vde.Common.Bits.{bit_or-zero, bit, bit-zero, bit_or_step, bit_and_step, bit_and_mask}
use native.Mathlib.Nat.{pow-suc, one-le-pow, pow-le-pow_right}

double : (q k : ℕ) → q * 2 ^ suc k ≡ q * 2 ^ k * 2
double q k = omega (arith, ap (λ (t : ℕ). q * t) (pow-suc 2 k))

half_pow : (k : ℕ) → 2 ^ suc k / 2 ≡ 2 ^ k
half_pow k = omega (arith, pow-suc 2 k)

pub pow_lt : (n j : ℕ) → j < n → 2 ^ j < 2 ^ n
pow_lt n j h = omega (
  arith,
  pow-le-pow_right {n = 2} (omega arith) {i = suc j} {j = n} h,
  pow-suc 2 j,
  one-le-pow j 2,
)

mid : (n j : ℕ) → j < n → (2 ^ suc n - 1 - 2 ^ suc j) / 2 ≡ 2 ^ n - 1 - 2 ^ j
mid n j h = omega (arith, pow-suc 2 n, pow-suc 2 j, pow_lt n j h)

low : (n : ℕ) → (2 ^ suc n - 1 - 1) / 2 ≡ 2 ^ n - 1
low n = omega (arith, pow-suc 2 n, one-le-pow n 2)

ones_half : (n : ℕ) → (2 ^ suc n - 1) / 2 ≡ 2 ^ n - 1
ones_half n = omega (arith, pow-suc 2 n, one-le-pow n 2)

-- A mask of `n` ones.
pub bit-ones : (n k : ℕ) → bit (2 ^ n - 1) k ≡ (if ltb k n then 1 else 0)
unfolding bit
bit-ones zero k = bit-zero k ∙ ground arith
bit-ones (suc n) zero = ground (arith, pow-suc 2 n, one-le-pow n 2)
bit-ones (suc n) (suc k) = ap (λ t. bit t k) (ones_half n) ∙ bit-ones n k ∙ ground arith

-- Setting a bit adds its weight if it was clear.
pub bit_or-pow : (j v : ℕ) → bit_or v (2 ^ j) ≡ v + (1 - bit v j) * 2 ^ j
unfolding bit
bit_or-pow zero v = omega (arith, bit_or_step v 1, bit_or-zero (v / 2))
bit_or-pow (suc j) v = omega (
  arith,
  bit_or_step v (2 ^ suc j),
  pow-suc 2 j,
  ap (bit_or (v / 2)) (half_pow j),
  bit_or-pow j (v / 2),
  double (1 - bit (v / 2) j) j,
)

-- Clearing a bit of a word of `n` bits takes its weight away if it was set.
pub bit_and-clear :
    (n j v : ℕ) → j < n → v < 2 ^ n → bit_and v (2 ^ n - 1 - 2 ^ j) + bit v j * 2 ^ j ≡ v
unfolding bit
bit_and-clear zero j v h w = absurd (omega arith)
bit_and-clear (suc n) zero v h w = omega (
  arith,
  bit_and_step v (2 ^ suc n - 1 - 2 ^ 0),
  pow-suc 2 n,
  one-le-pow n 2,
  ap (bit_and (v / 2)) (low n),
  bit_and_mask n (v / 2),
  small n (v / 2) (omega (arith, pow-suc 2 n)),
)
  where
    small : (n u : ℕ) → u < 2 ^ n → u % 2 ^ n ≡ u
    small n u h = grind arith
bit_and-clear (suc n) (suc j) v h w = omega (
  arith,
  bit_and_step v (2 ^ suc n - 1 - 2 ^ suc j),
  pow-suc 2 n,
  pow-suc 2 j,
  one-le-pow n 2,
  pow_lt n j (omega arith),
  ap (bit_and (v / 2)) (mid n j (omega arith)),
  bit_and-clear n j (v / 2) (omega arith) (omega (arith, pow-suc 2 n)),
  double (bit (v / 2) j) j,
)

-- The bits of `~(1L << j)`.
pub bit-clear_mask :
    (n k j : ℕ)
    → j < n
    → bit (2 ^ n - 1 - 2 ^ j) k ≡ (if j == k then 0 else if ltb k n then 1 else 0)
unfolding bit
bit-clear_mask zero k j h = absurd (omega arith)
bit-clear_mask (suc n) zero zero h = ground (arith, pow-suc 2 n, one-le-pow n 2)
bit-clear_mask (suc n) zero (suc j) h =
    ground (arith, pow-suc 2 n, pow-suc 2 j, pow_lt n j (omega arith))
bit-clear_mask (suc n) (suc k) zero h = ap (λ t. bit t k) (low n) ∙ bit-ones n k ∙ ground arith
bit-clear_mask (suc n) (suc k) (suc j) h =
    ap (λ t. bit t k) (mid n j (omega arith)) ∙ bit-clear_mask n k j (omega arith) ∙ ground arith
