-- ===== src/Tests/Members.antt =====
-- The sets of bitarray.h with a few members.
use vde.Common.{
  zero, suc, ◌^◌, keep, ℕ, ◌*◌, ◌<◌, ◌≡◌, refl, arith, some, List, [], ◌∷◌, get_or, if◌then◌else◌,
}
use vde.BitArray.Iterate.{upto, ba_forall-keep}
use vde.BitArray.Stop.{bac_forall-all}
use vde.BitArray.{bac_forall, ba_forall, Bitarray, words_for, ba_check, bac_set}
use vde.BitArray.Card.{IsCounted, popcount, bac_set-IsCounted}

abbrev small : Bitarray
small = some (0b1010 ∷ [])

two_words-narrow : (k : ℕ) → get_or (0b1010 ∷ 2 ∷ []) k 0 < 2 ^ 64
two_words-narrow zero = omega arith
two_words-narrow (suc zero) = omega arith
two_words-narrow (suc (suc k)) = omega arith

-- Members 1 and 3, and their number.
counted : IsCounted 4 (0b1010 ∷ 2 ∷ [])
unfolding popcount
counted = record { size = refl; narrow = two_words-narrow; counted = refl }

bac_set-IsCounted_example :
    (ys : List ℕ) × (bac_set (some (0b1010 ∷ 2 ∷ [])) 4 2 ≡ some ys)
    × IsCounted 4 ys
    × (get_or ys 1 0 ≡ (if ba_check (some (0b1010 ∷ 2 ∷ [])) 2 then 2 else 3))
bac_set-IsCounted_example = bac_set-IsCounted counted 2 (omega arith) (omega arith)

ba_forall-keep_example : ba_forall small 4 ≡ keep (ba_check small) (upto (words_for 4 * 64) 0)
ba_forall-keep_example = ba_forall-keep small 4

bac_forall-all_example :
    bac_forall (some (0b1010 ∷ 2 ∷ [])) 4 ≡ ba_forall (some (0b1010 ∷ 2 ∷ [])) 4
bac_forall-all_example = bac_forall-all 4 (0b1010 ∷ 2 ∷ []) counted
