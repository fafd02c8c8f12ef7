-- ===== src/BitArray/Stop.antt =====
-- `bac_FORALL`, which stops when it has seen as many members as there are.
use vde.Common.{
  ℕ, zero, suc, ◌+◌, ◌-◌, ◌*◌, ◌/◌, ◌≡◌, refl, sym, ap, ap₂, ◌∙◌, arith, Bool-cases, inl, inr, ◌==◌,
  List, [], ◌∷◌, ◌++◌, some, length, length-append, get_or, take, drop,
}
use vde.BitArray.{words_for, bits_of_word, bits_of_words, ba_forall, bac_words, bac_forall}
use vde.BitArray.Card.{popcount, popcount-zero, total, IsCounted}

bits_of_word-popcount : (left j v : ℕ) → length (bits_of_word left j v) ≡ popcount left v
unfolding bits_of_word popcount
bits_of_word-popcount zero j v = refl
bits_of_word-popcount (suc left) j v = ground (arith, bits_of_word-popcount left (j + 1) (v / 2))

drop-nil : (k : ℕ) → drop {A = ℕ} k [] ≡ []
drop-nil zero = refl
drop-nil (suc k) = refl

total-step :
    (left i : ℕ) (ws : List ℕ)
    → total (take (suc left) (drop i ws))
      ≡ popcount 64 (get_or ws i 0) + total (take left (drop (i + 1) ws))
total-step zero zero [] = omega (arith, popcount-zero 64)
total-step (suc left) zero [] = omega (arith, popcount-zero 64)
total-step left zero (w ∷ ws) = refl
total-step left (suc i) [] = rw (drop-nil (suc i + 1)) (empty left)
  where
    empty : (left : ℕ) → 0 ≡ popcount 64 0 + total (take left [])
    empty zero = omega (arith, popcount-zero 64)
    empty (suc left) = omega (arith, popcount-zero 64)
total-step left (suc i) (w ∷ ws) =
    total-step left i ws
    ∙ ap (λ k. popcount 64 (get_or ws i 0) + total (take left (drop k (w ∷ ws))))
        (let f : suc (i + 1) ≡ suc i + 1 = omega arith in f)

words-total :
    (left i : ℕ) (ws : List ℕ)
    → length (bits_of_words left i (some ws)) ≡ total (take left (drop i ws))
unfolding bits_of_words
words-total zero i ws = refl
words-total (suc left) i ws =
    length-append {0} (bits_of_word 64 (i * 64) (get_or ws i 0))
      (bits_of_words left (i + 1) (some ws))
    ∙ ap₂ ◌+◌ (bits_of_word-popcount 64 (i * 64) (get_or ws i 0)) (words-total left (i + 1) ws)
    ∙ sym (total-step left i ws)

nothing_left : (xs : List ℕ) → length xs ≡ 0 → xs ≡ []
nothing_left [] h = refl
nothing_left (x ∷ xs) h = absurd (omega arith)

bac_words-all :
    (left i count : ℕ) (ws : List ℕ)
    → count ≡ total (take left (drop i ws))
    → bac_words left i count (some ws) ≡ bits_of_words left i (some ws)
unfolding bac_words bits_of_words
bac_words-all zero i count ws h = refl
bac_words-all (suc left) i count ws h = elim (Bool-cases (count == 0)) [
  | inl over ↦ rw over (
      sym (
        nothing_left (bits_of_words (suc left) i (some ws))
          (words-total (suc left) i ws ∙ sym h ∙ ground arith)))
  | inr more ↦ rw more (
      ap (λ t. bits_of_word 64 (i * 64) (get_or ws i 0) ++ t)
        (bac_words-all left (i + 1) (count - length (bits_of_word 64 (i * 64) (get_or ws i 0))) ws (
          omega
            (arith, h, total-step left i ws, bits_of_word-popcount 64 (i * 64) (get_or ws i 0)))))
]

-- With a right count, `bac_FORALL` runs for the members for which `ba_FORALL` runs, in the same order.
pub bac_forall-all :
    (n : ℕ) (ws : List ℕ) → IsCounted n ws → bac_forall (some ws) n ≡ ba_forall (some ws) n
unfolding bac_forall ba_forall
bac_forall-all n ws c = bac_words-all (words_for n) 0 (get_or ws (words_for n) 0) ws c.counted
