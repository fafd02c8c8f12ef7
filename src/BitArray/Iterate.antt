-- ===== src/BitArray/Iterate.antt =====
-- The loops over a set: `ba_FORALL` and `ba_card`.
use vde.Common.{
  ℕ, zero, suc, ◌+◌, ◌*◌, ◌/◌, ◌%◌, ◌<◌, ◌≡◌, refl, sym, ap, ap₂, ◌∙◌, arith, if◌then◌else◌, ◌==◌,
  Bool, Bool-cases, inl, inr, ◌≤◌, true, has, has-keep, List, [], ◌∷◌, ◌++◌, length, length-append,
  keep, keep-append,
}
use vde.Common.Bits.{bit}
use vde.BitArray.Sets.{ba_check-bit}
use vde.BitArray.{
  Bitarray, word_at, words_for, ba_check, bits_of_word, bits_of_words, ba_forall, card_of_word,
  card_of_words, ba_card,
}

-- The numbers from `i` on, `left` of them.
abbrev pub upto : ℕ → ℕ → List ℕ
upto zero i = []
upto (suc left) i = i ∷ upto left (i + 1)

upto-append : (a b i : ℕ) → upto (a + b) i ≡ upto a i ++ upto b (i + a)
upto-append zero b i = ap₂ upto (omega arith) (omega arith)
upto-append (suc a) b i =
    ap (λ t. upto t i) (let e : suc a + b ≡ suc (a + b) = omega arith in e)
    ∙ ap (λ t. i ∷ t) (upto-append a b (i + 1) ∙ ap (λ t. upto a (i + 1) ++ upto b t) (omega arith))

bits_of_word-keep :
    (left j v : ℕ) (p : ℕ → Bool)
    → ((k : ℕ) → k < left → p (j + k) ≡ (bit v k == 1))
    → bits_of_word left j v ≡ keep p (upto left j)
unfolding bits_of_word keep bit
bits_of_word-keep zero j v p h = refl
bits_of_word-keep (suc left) j v p h =
    let first : p j ≡ (v % 2 == 1) = ap p (omega arith) ∙ h 0 (omega arith) in
    let rest : bits_of_word left (j + 1) (v / 2) ≡ keep p (upto left (j + 1)) =
      bits_of_word-keep left (j + 1) (v / 2) p
        (λ k l. ap p (omega arith) ∙ h (suc k) (omega arith)) in
    ground arith

bits_of_words-keep :
    (left i : ℕ) (x : Bitarray)
    → bits_of_words left i x ≡ keep (ba_check x) (upto (left * 64) (i * 64))
unfolding bits_of_words keep
bits_of_words-keep zero i x = refl
bits_of_words-keep (suc left) i x =
    ap₂ ◌++◌
      (bits_of_word-keep 64 (i * 64) (word_at x i) (ba_check x)
        (λ k h. ba_check-bit x (i * 64 + k) ∙ place i k h))
      (bits_of_words-keep left (i + 1) x)
    ∙ sym (keep-append (ba_check x) (upto 64 (i * 64)) (upto (left * 64) ((i + 1) * 64)))
    ∙ ap (keep (ba_check x)) (
        ap (λ t. upto 64 (i * 64) ++ upto (left * 64) t) (omega arith)
        ∙ sym (upto-append 64 (left * 64) (i * 64))
        ∙ ap (λ t. upto t (i * 64)) (omega arith))
  where
    place :
        (i k : ℕ)
        → k < 64
        → (bit (word_at x ((i * 64 + k) / 64)) ((i * 64 + k) % 64) == 1)
          ≡ (bit (word_at x i) k == 1)
    place i k h =
        let q : (i * 64 + k) / 64 ≡ i = omega arith in
        let r : (i * 64 + k) % 64 ≡ k = omega arith in rw (q, r)

-- `ba_FORALL` visits exactly the members, once each, in rising order, up to the end of the last word.
pub ba_forall-keep :
    (x : Bitarray) (n : ℕ) → ba_forall x n ≡ keep (ba_check x) (upto (words_for n * 64) 0)
unfolding ba_forall
ba_forall-keep x n = bits_of_words-keep (words_for n) 0 x

card_of_word-length : (left j v n : ℕ) → card_of_word left v n ≡ n + length (bits_of_word left j v)
unfolding card_of_word bits_of_word
card_of_word-length zero j v n = omega arith
card_of_word-length (suc left) j v n =
    ground (arith, card_of_word-length left (j + 1) (v / 2) (if v % 2 == 1 then n + 1 else n))

card_of_words-length :
    (left i : ℕ) (x : Bitarray) (n : ℕ)
    → card_of_words left i x n ≡ n + length (bits_of_words left i x)
unfolding card_of_words bits_of_words
card_of_words-length zero i x n = omega arith
card_of_words-length (suc left) i x n = omega (
  arith,
  card_of_word-length 64 (i * 64) (word_at x i) n,
  card_of_words-length left (i + 1) x (card_of_word 64 (word_at x i) n),
  length-append {0} (bits_of_word 64 (i * 64) (word_at x i)) (bits_of_words left (i + 1) x),
)

-- `ba_card` is the number of members that `ba_FORALL` visits.
ba_card-length : (x : Bitarray) (n : ℕ) → ba_card x n ≡ length (ba_forall x n)
unfolding ba_card ba_forall
ba_card-length x n = omega (arith, card_of_words-length (words_for n) 0 x 0)

has-upto : (left i j : ℕ) → j ≤ i → i < j + left → has i (upto left j) ≡ true
has-upto zero i j a b = absurd (omega arith)
has-upto (suc left) i j a b = elim (Bool-cases (j == i)) [
  | inl same ↦ rw same refl
  | inr other ↦ rw other (has-upto left i (j + 1) (ground arith) (omega arith))
]

-- A member of a set is visited.
pub has-ba_forall :
    (x : Bitarray) (n i : ℕ) → i < n → ba_check x i ≡ true → has i (ba_forall x n) ≡ true
has-ba_forall x n i lt m =
    rw (ba_forall-keep x n, has-keep (ba_check x) (upto (words_for n * 64) 0) i)
      (rw (has-upto (words_for n * 64) i 0 (omega arith) (omega arith), m) refl)
