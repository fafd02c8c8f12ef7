-- ===== src/BitArray.antt =====
-- vde-2/src/vde_switch/bitarray.h on a 64-bit machine: sets of small numbers as arrays of words.
-- A `bitarray` is a pointer, `none` for NULL. A read out of range gives 0 and a write out of range
-- or through NULL changes nothing; both are undefined in C, and the theorems assume neither.
pub mod Words
pub mod Sets
pub mod Bulk
pub mod Iterate
pub mod Card
pub mod Stop
use vde.Common.{
  ℕ, zero, suc, ◌+◌, ◌-◌, ◌*◌, ◌/◌, ◌%◌, ◌^◌, bit_and, bit_or, Bool, true, false, not, Option, none,
  some, List, [], ◌∷◌, ◌++◌, if◌then◌else◌, ◌==◌, length, get_or, set, replicate, take,
}

abbrev word_bits : ℕ
word_bits = 64

abbrev pub Bitarray : Type 0
Bitarray = Option (List ℕ)

-- `__WORDSIZEROUND`
abbrev pub words_for : ℕ → ℕ
words_for n = (n + 63) / 64

-- The words behind the pointer.
abbrev pub words : Bitarray → List ℕ
words none = []
words (some ws) = ws

-- `x[k]`
abbrev pub word_at : Bitarray → ℕ → ℕ
word_at x k = get_or (words x) k 0

-- `x[k] = v`
abbrev pub store : Bitarray → ℕ → ℕ → Bitarray
store none k v = none
store (some ws) k v = some (set ws k v)

-- `calloc` may fail: the Boolean says whether it finds memory.
unfoldable pub ba_alloc : Bool → ℕ → Bitarray
ba_alloc memory n = if memory then some (replicate (words_for n) 0) else none

-- `~(1L << j)`
abbrev pub clear_mask : ℕ → ℕ
clear_mask j = 2 ^ 64 - 1 - 2 ^ j

unfoldable pub ba_check : Bitarray → ℕ → Bool
ba_check none i = false
ba_check (some ws) i = not (bit_and (get_or ws (i / 64) 0) (2 ^ (i % 64)) == 0)

unfoldable pub ba_set : Bitarray → ℕ → Bitarray
ba_set x i = store x (i / 64) (bit_or (word_at x (i / 64)) (2 ^ (i % 64)))

unfoldable pub ba_clr : Bitarray → ℕ → Bitarray
ba_clr x i = store x (i / 64) (bit_and (word_at x (i / 64)) (clear_mask (i % 64)))

-- for (i = k; i < k + left; i++) x[i] = 0;
unfoldable pub zero_words : ℕ → ℕ → Bitarray → Bitarray
zero_words zero k x = x
zero_words (suc left) k x = zero_words left (k + 1) (store x k 0)

unfoldable pub ba_zap : Bitarray → ℕ → Bitarray
unfolding zero_words
ba_zap x n = zero_words (words_for n) 0 x

-- `realloc` keeps the words that fit. What it adds is unspecified: `junk` fills it.
abbrev pub realloc_words : ℕ → ℕ → List ℕ → List ℕ
realloc_words junk zero ws = []
realloc_words junk (suc k) [] = junk ∷ realloc_words junk k []
realloc_words junk (suc k) (w ∷ ws) = w ∷ realloc_words junk k ws

-- `(-1UL) >> ((0U - n) % 64)`
abbrev pub last_mask : ℕ → ℕ
last_mask n = (2 ^ 64 - 1) / 2 ^ ((2 ^ 32 - n) % 64)

unfoldable pub ba_realloc : ℕ → Bitarray → ℕ → ℕ → Bitarray
unfolding zero_words
ba_realloc junk b n m =
    let nb =
      zero_words (words_for m - words_for n) (words_for n)
        (some (realloc_words junk (words_for m) (words b))) in
    store nb (words_for n - 1) (bit_and (word_at nb (words_for n - 1)) (last_mask n))

-- `memcpy` of the first `k` words.
abbrev pub copy_words : ℕ → List ℕ → List ℕ → List ℕ
copy_words zero dst src = dst
copy_words (suc k) [] src = []
copy_words (suc k) (d ∷ dst) [] = d ∷ dst
copy_words (suc k) (d ∷ dst) (s ∷ src) = s ∷ copy_words k dst src

unfoldable pub ba_copy : Bitarray → Bitarray → ℕ → Bitarray
ba_copy none src n = none
ba_copy (some dst) src n = some (copy_words (words_for n) dst (words src))

-- The word loops `dst[i] = f(dst[i], src[i])` for `i` below `k`.
abbrev pub merge_words : (ℕ → ℕ → ℕ) → ℕ → List ℕ → List ℕ → List ℕ
merge_words f zero dst src = dst
merge_words f (suc k) [] src = []
merge_words f (suc k) (d ∷ dst) [] = f d 0 ∷ merge_words f k dst []
merge_words f (suc k) (d ∷ dst) (s ∷ src) = f d s ∷ merge_words f k dst src

unfoldable pub ba_add : Bitarray → Bitarray → ℕ → Bitarray
ba_add none src n = none
ba_add (some dst) src n = some (merge_words bit_or (words_for n) dst (words src))

-- `~w` on 64 bits.
abbrev pub complement : ℕ → ℕ
complement w = 2 ^ 64 - 1 - w

unfoldable pub ba_remove : Bitarray → Bitarray → ℕ → Bitarray
ba_remove none src n = none
ba_remove (some dst) src n =
    some (merge_words (λ d s. bit_and d (complement s)) (words_for n) dst (words src))

unfoldable pub ba_negate : Bitarray → ℕ → Bitarray
ba_negate none n = none
ba_negate (some ws) n = some (merge_words (λ d s. complement d) (words_for n) ws [])

-- The inner loop of `ba_FORALL`: `left` rounds from bit `j`, with the rest of the word in `v`. The
-- list holds the values of `K` for which the expression runs, in order.
unfoldable pub bits_of_word : ℕ → ℕ → ℕ → List ℕ
bits_of_word zero j v = []
bits_of_word (suc left) j v =
    let rest = bits_of_word left (j + 1) (v / 2) in if v % 2 == 1 then j ∷ rest else rest

-- The outer loop, `left` words from word `i`.
unfoldable pub bits_of_words : ℕ → ℕ → Bitarray → List ℕ
unfolding bits_of_word
bits_of_words zero i x = []
bits_of_words (suc left) i x =
    bits_of_word 64 (i * 64) (word_at x i) ++ bits_of_words left (i + 1) x

unfoldable pub ba_forall : Bitarray → ℕ → List ℕ
unfolding bits_of_words
ba_forall x n = bits_of_words (words_for n) 0 x

-- The loops of `ba_card`, with the running count in `n`.
unfoldable pub card_of_word : ℕ → ℕ → ℕ → ℕ
card_of_word zero v n = n
card_of_word (suc left) v n = card_of_word left (v / 2) (if v % 2 == 1 then n + 1 else n)

unfoldable pub card_of_words : ℕ → ℕ → Bitarray → ℕ → ℕ
unfolding card_of_word
card_of_words zero i x n = n
card_of_words (suc left) i x n = card_of_words left (i + 1) x (card_of_word 64 (word_at x i) n)

unfoldable pub ba_card : Bitarray → ℕ → ℕ
unfolding card_of_words
ba_card x n = card_of_words (words_for n) 0 x 0

-- The `bac_` functions keep the cardinality in one more word.
unfoldable pub bac_alloc : Bool → ℕ → Bitarray
bac_alloc memory n = if memory then some (replicate (words_for n + 1) 0) else none

unfoldable pub bac_check : Bitarray → ℕ → Bool
bac_check none i = false
bac_check (some ws) i = not (bit_and (get_or ws (i / 64) 0) (2 ^ (i % 64)) == 0)

unfoldable pub bac_set : Bitarray → ℕ → ℕ → Bitarray
bac_set x n i =
    let w = word_at x (i / 64) in
    let v = bit_or w (2 ^ (i % 64)) in
    let y = store x (i / 64) v in
    if v == w then x else store y (words_for n) ((word_at y (words_for n) + 1) % 2 ^ 64)

unfoldable pub bac_clr : Bitarray → ℕ → ℕ → Bitarray
bac_clr x n i =
    let w = word_at x (i / 64) in
    let v = bit_and w (clear_mask (i % 64)) in
    let y = store x (i / 64) v in
    if v == w then x else store y (words_for n) ((word_at y (words_for n) + 2 ^ 64 - 1) % 2 ^ 64)

unfoldable bac_zap : Bitarray → ℕ → Bitarray
unfolding zero_words
bac_zap x n = store (zero_words (words_for n) 0 x) (words_for n) 0

unfoldable bac_card : Bitarray → ℕ → ℕ
bac_card x n = word_at x (words_for n)

unfoldable bac_empty : Bitarray → ℕ → Bool
bac_empty x n = word_at x (words_for n) == 0

-- The outer loop of `bac_FORALL`, `left` words from word `i`, while `count` members are still to come.
unfoldable pub bac_words : ℕ → ℕ → ℕ → Bitarray → List ℕ
unfolding bits_of_word
bac_words zero i count x = []
bac_words (suc left) i count x =
    let here = bits_of_word 64 (i * 64) (word_at x i) in
    let rest = bac_words left (i + 1) (count - length here) x in
    if count == 0 then [] else here ++ rest

-- The values of `K` for which the expression of `bac_FORALL` runs, in order.
unfoldable pub bac_forall : Bitarray → ℕ → List ℕ
unfolding bac_words
bac_forall x n = bac_words (words_for n) 0 (word_at x (words_for n)) x
