-- ===== src/BitArray/Bulk.antt =====
-- The operations of bitarray.h on whole sets: allocation, resizing, union, copy.
use vde.Common.{
  ℕ, zero, suc, ◌+◌, ◌-◌, ◌/◌, ◌%◌, ◌^◌, ◌≤◌, ◌<◌, bit_and, bit_or, ◌≡◌, refl, ap, ◌∙◌, arith,
  if◌then◌else◌, ◌==◌, ltb, Bool, true, false, not, ◌&&◌, ◌||◌, none, some, List, [], ◌∷◌, length,
  get_or, get_or-replicate, pass_below, pass_below-at, ==_iff,
}
use native.Mathlib.Nat.{pow-suc}
use vde.Common.Bits.{bit, bit-lt-two, bit-bit_or, bit-bit_and, bit-zero}
use vde.BitArray.Words.{bit-ones}
use vde.BitArray.Sets.{ba_check-bit, length-store, word_at-store}
use vde.BitArray.{
  Bitarray, words, word_at, store, words_for, ba_alloc, ba_check, merge_words, copy_words, ba_add,
  ba_copy, ba_remove, ba_negate, complement, zero_words, realloc_words, last_mask, ba_realloc,
  ba_zap,
}

-- A new set is empty.
ba_check-ba_alloc : (memory : Bool) (n k : ℕ) → ba_check (ba_alloc memory n) k ≡ false
unfolding ba_alloc
ba_check-ba_alloc true n k =
    ba_check-bit _ k ∙ rw (get_or-replicate {A = ℕ} (words_for n) (k / 64) 0, bit-zero (k % 64))
ba_check-ba_alloc false n k = ba_check-bit none k ∙ rw (bit-zero (k % 64))

length-zero_words :
    (left k : ℕ) (x : Bitarray) → length (words (zero_words left k x)) ≡ length (words x)
unfolding zero_words
length-zero_words zero k x = refl
length-zero_words (suc left) k x = length-zero_words left (k + 1) (store x k 0) ∙ length-store x k 0

word_at-zero_words :
    (left k : ℕ) (x : Bitarray) (i : ℕ)
    → k + left ≤ length (words x)
    → word_at (zero_words left k x) i
      ≡ (if not (ltb i k) && ltb i (k + left) then 0 else word_at x i)
unfolding zero_words
word_at-zero_words zero k x i h = ground arith
word_at-zero_words (suc left) k x i h = ground (
  arith,
  word_at-zero_words left (k + 1) (store x k 0) i,
  length-store x k 0,
  word_at-store x k i 0,
)

length-realloc_words : (junk m : ℕ) (ws : List ℕ) → length (realloc_words junk m ws) ≡ m
length-realloc_words junk zero ws = refl
length-realloc_words junk (suc m) [] = ap suc (length-realloc_words junk m [])
length-realloc_words junk (suc m) (w ∷ ws) = ap suc (length-realloc_words junk m ws)

get_or-realloc_words :
    (junk m : ℕ) (ws : List ℕ) (i : ℕ)
    → i < m
    → i < length ws
    → get_or (realloc_words junk m ws) i 0 ≡ get_or ws i 0
get_or-realloc_words junk zero ws i h k = absurd (omega arith)
get_or-realloc_words junk (suc m) [] i h k = absurd (omega arith)
get_or-realloc_words junk (suc m) (w ∷ ws) zero h k = refl
get_or-realloc_words junk (suc m) (w ∷ ws) (suc i) h k =
    get_or-realloc_words junk m ws i (omega arith) (omega arith)

masks_table : pass_below (λ t. (2 ^ 64 - 1) / 2 ^ (64 - t) == 2 ^ t - 1) 65 ≡ true
unfolding pass_below
masks_table = refl

-- The mask keeps the bits of the last word that lie below `n`.
bit-last_mask :
    (n k : ℕ)
    → 0 < n
    → n ≤ 2 ^ 32
    → bit (last_mask n) k ≡ (if ltb k ((n - 1) % 64 + 1) then 1 else 0)
bit-last_mask n k h b =
    let t : ℕ = (n - 1) % 64 + 1 in
    let s : (2 ^ 32 - n) % 64 ≡ 64 - t = omega arith in
    rw
      (
        s,
        (==_iff _ _).0 (
            pass_below-at (λ t. (2 ^ 64 - 1) / 2 ^ (64 - t) == 2 ^ t - 1) {n = 65} {i = t}
              (omega arith) masks_table),
      )
      (bit-ones t k)

-- Growing a set that is not empty, to at most 2^32, keeps every member below the old size and adds
-- none up to the new size, when memory is found, whatever it holds.
ba_check-ba_realloc :
    (junk : ℕ) (b : Bitarray) (n m k : ℕ)
    → 0 < n
    → n ≤ m
    → m ≤ 2 ^ 32
    → length (words b) ≡ words_for n
    → k < m
    → ba_check (ba_realloc junk b n m) k ≡ (ltb k n && ba_check b k)
unfolding ba_realloc
ba_check-ba_realloc junk b n m k p le top len h =
    let ws = realloc_words junk (words_for m) (words b) in
    let nb = zero_words (words_for m - words_for n) (words_for n) (some ws) in
    let last = words_for n - 1 in
    let masked = bit_and (word_at nb last) (last_mask n) in
    ground (
      arith,
      ba_check-bit (ba_realloc junk b n m) k,
      ba_check-bit b k,
      length-realloc_words junk (words_for m) (words b),
      length-zero_words (words_for m - words_for n) (words_for n) (some ws),
      word_at-store nb last (k / 64) masked,
      word_at-zero_words (words_for m - words_for n) (words_for n) (some ws) (k / 64),
      get_or-realloc_words junk (words_for m) (words b) (k / 64),
      bit-bit_and (k % 64) (word_at nb last) (last_mask n),
      bit-last_mask n (k % 64),
      bit-lt-two (k % 64) (word_at b (k / 64)),
      bit-zero (k % 64),
    )

length-merge_words :
    (f : ℕ → ℕ → ℕ) (k : ℕ) (dst src : List ℕ) → length (merge_words f k dst src) ≡ length dst
length-merge_words f zero dst src = refl
length-merge_words f (suc k) [] src = refl
length-merge_words f (suc k) (d ∷ dst) [] = ap suc (length-merge_words f k dst [])
length-merge_words f (suc k) (d ∷ dst) (s ∷ src) = ap suc (length-merge_words f k dst src)

get_or-merge_words :
    (f : ℕ → ℕ → ℕ) (k : ℕ) (dst src : List ℕ) (i : ℕ)
    → i < k
    → i < length dst
    → get_or (merge_words f k dst src) i 0 ≡ f (get_or dst i 0) (get_or src i 0)
get_or-merge_words f zero dst src i h l = absurd (omega arith)
get_or-merge_words f (suc k) [] src i h l = absurd (omega arith)
get_or-merge_words f (suc k) (d ∷ dst) [] zero h l = refl
get_or-merge_words f (suc k) (d ∷ dst) [] (suc i) h l =
    get_or-merge_words f k dst [] i (omega arith) (omega arith)
get_or-merge_words f (suc k) (d ∷ dst) (s ∷ src) zero h l = refl
get_or-merge_words f (suc k) (d ∷ dst) (s ∷ src) (suc i) h l =
    get_or-merge_words f k dst src i (omega arith) (omega arith)

get_or-copy_words :
    (k : ℕ) (dst src : List ℕ) (i : ℕ)
    → i < k
    → i < length dst
    → i < length src
    → get_or (copy_words k dst src) i 0 ≡ get_or src i 0
get_or-copy_words zero dst src i h l m = absurd (omega arith)
get_or-copy_words (suc k) [] src i h l m = absurd (omega arith)
get_or-copy_words (suc k) (d ∷ dst) [] i h l m = absurd (omega arith)
get_or-copy_words (suc k) (d ∷ dst) (s ∷ src) zero h l m = refl
get_or-copy_words (suc k) (d ∷ dst) (s ∷ src) (suc i) h l m =
    get_or-copy_words k dst src i (omega arith) (omega arith) (omega arith)

-- A bit of `~w`, for a word of `n` bits.
bit-complement : (n k w : ℕ) → w < 2 ^ n → k < n → bit (2 ^ n - 1 - w) k ≡ 1 - bit w k
unfolding bit
bit-complement zero k w h l = absurd (omega arith)
bit-complement (suc n) zero w h l = omega (arith, pow-suc 2 n)
bit-complement (suc n) (suc k) w h l =
    ap (λ t. bit t k) (half n w h)
    ∙ bit-complement n k (w / 2) (omega (arith, pow-suc 2 n)) (omega arith)
  where
    half : (n w : ℕ) → w < 2 ^ suc n → (2 ^ suc n - 1 - w) / 2 ≡ 2 ^ n - 1 - w / 2
    half n w h = omega (arith, pow-suc 2 n)

-- `ba_zap` leaves the empty set.
ba_check-ba_zap :
    (x : Bitarray) (n k : ℕ)
    → words_for n ≤ length (words x)
    → k < n
    → ba_check (ba_zap x n) k ≡ false
unfolding ba_zap
ba_check-ba_zap x n k l h = ground (
  arith,
  ba_check-bit (ba_zap x n) k,
  word_at-zero_words (words_for n) 0 x (k / 64),
  bit-zero (k % 64),
)

-- Two sets of the same size.
module _ (dst : List ℕ) (src : Bitarray) (n k : ℕ) (room : words_for n ≤ length dst)
    (h : k < n) where
  -- `ba_add` is union, for a destination with room for the elements.
  ba_check-ba_add : ba_check (ba_add (some dst) src n) k ≡ (ba_check (some dst) k || ba_check src k)
  unfolding ba_add
  ba_check-ba_add = ground (
    arith,
    ba_check-bit (ba_add (some dst) src n) k,
    ba_check-bit (some dst) k,
    ba_check-bit src k,
    get_or-merge_words bit_or (words_for n) dst (words src) (k / 64),
    bit-bit_or (k % 64) (get_or dst (k / 64) 0) (get_or (words src) (k / 64) 0),
    bit-lt-two (k % 64) (get_or dst (k / 64) 0),
    bit-lt-two (k % 64) (get_or (words src) (k / 64) 0),
  )

  -- `ba_copy` is assignment.
  ba_check-ba_copy :
      words_for n ≤ length (words src) → ba_check (ba_copy (some dst) src n) k ≡ ba_check src k
  unfolding ba_copy
  ba_check-ba_copy r = ground (
    arith,
    ba_check-bit (ba_copy (some dst) src n) k,
    ba_check-bit src k,
    get_or-copy_words (words_for n) dst (words src) (k / 64),
  )

  -- `ba_remove` is difference, for a destination with room and a source of 64-bit words.
  ba_check-ba_remove :
      get_or (words src) (k / 64) 0 < 2 ^ 64
      → ba_check (ba_remove (some dst) src n) k ≡ (ba_check (some dst) k && not (ba_check src k))
  unfolding ba_remove
  ba_check-ba_remove w =
      let f : ℕ → ℕ → ℕ = λ d s. bit_and d (complement s) in
      ground (
        arith,
        ba_check-bit (ba_remove (some dst) src n) k,
        ba_check-bit (some dst) k,
        ba_check-bit src k,
        get_or-merge_words f (words_for n) dst (words src) (k / 64),
        bit-bit_and (k % 64) (get_or dst (k / 64) 0) (complement (get_or (words src) (k / 64) 0)),
        bit-complement 64 (k % 64) (get_or (words src) (k / 64) 0),
        bit-lt-two (k % 64) (get_or dst (k / 64) 0),
        bit-lt-two (k % 64) (get_or (words src) (k / 64) 0),
      )

-- `ba_negate` turns every bit, for an array with room and words of 64 bits.
ba_check-ba_negate :
    (ws : List ℕ) (n k : ℕ)
    → words_for n ≤ length ws
    → k < n
    → get_or ws (k / 64) 0 < 2 ^ 64
    → ba_check (ba_negate (some ws) n) k ≡ not (ba_check (some ws) k)
unfolding ba_negate
ba_check-ba_negate ws n k room h w =
    let f : ℕ → ℕ → ℕ = λ d s. complement d in
    ground (
      arith,
      ba_check-bit (ba_negate (some ws) n) k,
      ba_check-bit (some ws) k,
      get_or-merge_words f (words_for n) ws [] (k / 64),
      bit-complement 64 (k % 64) (get_or ws (k / 64) 0),
      bit-lt-two (k % 64) (get_or ws (k / 64) 0),
    )
