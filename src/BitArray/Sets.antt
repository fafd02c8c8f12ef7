-- ===== src/BitArray/Sets.antt =====
-- The operations of bitarray.h as operations on sets: the members after each, by `ba_check`.
use vde.Common.{
  ℕ, ◌/◌, ◌%◌, ◌^◌, ◌<◌, ◌≤◌, bit_and, bit_or, ◌≡◌, refl, sym, ap, ◌∙◌, arith, ltb, Bool-cases, inl,
  inr, get_or_out, set_out, if◌then◌else◌, ◌==◌, true, false, none, some, length, get_or,
  length-set, get_or-set,
}
use vde.Common.Bits.{bit, bit-lt-two, bit-bit_or, bit-bit_and, bit-pow, bit_and-pow, bit-zero}
use vde.BitArray.Words.{bit-clear_mask}
use vde.BitArray.{Bitarray, words, word_at, store, clear_mask, ba_check, ba_set, ba_clr}
use native.Mathlib.Nat.{one-le-pow}

-- `i` lies in the array.
abbrev pub Holds : Bitarray → ℕ → Type 0
Holds x i = i / 64 < length (words x)

-- The test reads one bit.
pub ba_check-bit : (x : Bitarray) (i : ℕ) → ba_check x i ≡ (bit (word_at x (i / 64)) (i % 64) == 1)
unfolding ba_check
ba_check-bit none i = rw (bit-zero (i % 64))
ba_check-bit (some ws) i = ground (
  arith,
  bit_and-pow (i % 64) (get_or ws (i / 64) 0),
  bit-lt-two (i % 64) (get_or ws (i / 64) 0),
  one-le-pow (i % 64) 2,
)

pub word_at-store :
    (x : Bitarray) (i k v : ℕ)
    → i < length (words x)
    → word_at (store x i v) k ≡ (if i == k then v else word_at x k)
word_at-store none i k v h = absurd (omega arith)
word_at-store (some ws) i k v h = get_or-set ws i k v 0 h

pub length-store : (x : Bitarray) (i v : ℕ) → length (words (store x i v)) ≡ length (words x)
length-store none i v = refl
length-store (some ws) i v = length-set ws i v

-- For an `i` that lies in the array, `ba_set` adds `i` to the set and nothing else.
pub ba_check-ba_set :
    (x : Bitarray) (i k : ℕ)
    → Holds x i
    → ba_check (ba_set x i) k ≡ (if i == k then true else ba_check x k)
unfolding ba_set
ba_check-ba_set x i k h =
    let w = word_at x (i / 64) in
    ground (
      arith,
      ba_check-bit (ba_set x i) k,
      ba_check-bit x k,
      word_at-store x (i / 64) (k / 64) (bit_or w (2 ^ (i % 64))),
      bit-bit_or (k % 64) w (2 ^ (i % 64)),
      bit-pow (k % 64) (i % 64),
      bit-lt-two (k % 64) w,
    )

-- For an `i` that lies in the array, `ba_clr` takes `i` out of the set and nothing else.
pub ba_check-ba_clr :
    (x : Bitarray) (i k : ℕ)
    → Holds x i
    → ba_check (ba_clr x i) k ≡ (if i == k then false else ba_check x k)
unfolding ba_clr
ba_check-ba_clr x i k h =
    let w = word_at x (i / 64) in
    ground (
      arith,
      ba_check-bit (ba_clr x i) k,
      ba_check-bit x k,
      word_at-store x (i / 64) (k / 64) (bit_and w (clear_mask (i % 64))),
      bit-bit_and (k % 64) w (clear_mask (i % 64)),
      bit-clear_mask 64 (k % 64) (i % 64),
      bit-lt-two (k % 64) w,
    )

-- Outside the array there are no members, and a write is lost.
past_end : (x : Bitarray) (i : ℕ) → length (words x) ≤ i / 64 → ba_check x i ≡ false
past_end x i h =
    ba_check-bit x i ∙ rw (get_or_out {0} (words x) (i / 64) 0 h, bit-zero (i % 64)) refl

store_out : (x : Bitarray) (k v : ℕ) → length (words x) ≤ k → store x k v ≡ x
store_out none k v h = refl
store_out (some ws) k v h = ap some (set_out ws k v h)

-- Wherever `i` lies, `ba_clr` leaves the set without it, and `ba_set` leaves other elements alone.
pub ba_check-ba_clr_any :
    (x : Bitarray) (i k : ℕ) → ba_check (ba_clr x i) k ≡ (if i == k then false else ba_check x k)
unfolding ba_clr
ba_check-ba_clr_any x i k = elim (Bool-cases (ltb (i / 64) (length (words x)))) [
  | inl inside ↦ ba_check-ba_clr x i k (ground arith)
  | inr outside ↦
      let past : length (words x) ≤ i / 64 = ground arith in
      rw (store_out x (i / 64) (bit_and (word_at x (i / 64)) (clear_mask (i % 64))) past)
        (elim (Bool-cases (i == k)) [
          | inl same ↦
              let e : i ≡ k = ground arith in rw same (sym (ap (ba_check x) e) ∙ past_end x i past)
          | inr other ↦ rw other refl
        ])
]

pub ba_check-ba_set_other :
    (x : Bitarray) (i k : ℕ) → (i == k) ≡ false → ba_check (ba_set x i) k ≡ ba_check x k
unfolding ba_set
ba_check-ba_set_other x i k h = elim (Bool-cases (ltb (i / 64) (length (words x)))) [
  | inl inside ↦ ba_check-ba_set x i k (ground arith) ∙ rw h refl
  | inr outside ↦
      rw (store_out x (i / 64) (bit_or (word_at x (i / 64)) (2 ^ (i % 64))) (ground arith)) refl
]

pub Holds-ba_set : (x : Bitarray) (i k : ℕ) → Holds x k → Holds (ba_set x i) k
unfolding ba_set
Holds-ba_set x i k h =
    omega (arith, length-store x (i / 64) (bit_or (word_at x (i / 64)) (2 ^ (i % 64))))

pub Holds-ba_clr : (x : Bitarray) (i k : ℕ) → Holds x k → Holds (ba_clr x i) k
unfolding ba_clr
Holds-ba_clr x i k h =
    omega (arith, length-store x (i / 64) (bit_and (word_at x (i / 64)) (clear_mask (i % 64))))
