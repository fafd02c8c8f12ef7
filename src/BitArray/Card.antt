-- ===== src/BitArray/Card.antt =====
-- The `bac_` variants: the extra word counts the members.
use vde.Common.{
  ℕ, zero, suc, ◌+◌, ◌-◌, ◌*◌, ◌/◌, ◌%◌, ◌^◌, ◌≤◌, ◌<◌, bit_and, bit_or, ◌≡◌, refl, ap, ◌∙◌, arith,
  if◌then◌else◌, ◌==◌, Bool-cases, inl, inr, true, false, List, [], ◌∷◌, some, length, get_or, set,
  get_or-set, get_or-set_ne, length-set, take,
}
use native.Mathlib.Nat.{pow-suc, one-le-pow}
use vde.Common.Bits.{bit, bit-lt-two, bit_or_step, bit-bit_and}
use vde.BitArray.Words.{bit_or-pow, bit_and-clear, bit-clear_mask, pow_lt}
use vde.BitArray.Sets.{ba_check-bit}
use vde.BitArray.{words_for, clear_mask, ba_check, bac_set, bac_clr}

-- How many of the low `n` bits of a word are set.
unfoldable pub popcount : ℕ → ℕ → ℕ
popcount zero v = 0
popcount (suc n) v = v % 2 + popcount n (v / 2)

abbrev pub total : List ℕ → ℕ
total [] = 0
total (w ∷ ws) = popcount 64 w + total ws

popcount-set :
    (n j v : ℕ) → j < n → popcount n (v + (1 - bit v j) * 2 ^ j) ≡ popcount n v + (1 - bit v j)
unfolding bit popcount
popcount-set zero j v h = absurd (omega arith)
popcount-set (suc n) zero v h =
    omega (arith, ap (popcount n) (let e : (v + (1 - v % 2) * 1) / 2 ≡ v / 2 = omega arith in e))
popcount-set (suc n) (suc j) v h =
    let d : (1 - bit (v / 2) j) * 2 ^ suc j ≡ (1 - bit (v / 2) j) * 2 ^ j * 2 =
      omega (arith, ap (λ (t : ℕ). (1 - bit (v / 2) j) * t) (pow-suc 2 j)) in
    let e : (v + (1 - bit (v / 2) j) * 2 ^ suc j) / 2 ≡ v / 2 + (1 - bit (v / 2) j) * 2 ^ j =
      omega arith in
    omega (arith, ap (popcount n) e, popcount-set n j (v / 2) (omega arith))

-- `|= 1L << j` adds a bit unless it was there.
popcount-bit_or :
    (j v : ℕ) → j < 64 → popcount 64 (bit_or v (2 ^ j)) ≡ popcount 64 v + (1 - bit v j)
popcount-bit_or j v h = ap (popcount 64) (bit_or-pow j v) ∙ popcount-set 64 j v h

-- `&= ~(1L << j)` takes a bit away if it was there.
popcount-bit_and :
    (j v : ℕ)
    → j < 64
    → v < 2 ^ 64
    → popcount 64 (bit_and v (clear_mask j)) + bit v j ≡ popcount 64 v
popcount-bit_and j v h w =
    let u = bit_and v (clear_mask j) in
    let gone : bit u j ≡ 0 =
      ground (arith, bit-bit_and j v (clear_mask j), bit-clear_mask 64 j j) in
    elim (Bool-cases (bit v j == 1)) [
      | inl one ↦
          let b : bit v j ≡ 1 = ground arith in
          let e : v ≡ u + (1 - bit u j) * 2 ^ j = omega (
            arith,
            bit_and-clear 64 j v h w,
            gone,
            ap (λ (t : ℕ). t * 2 ^ j) b,
            ap (λ (t : ℕ). (1 - t) * 2 ^ j) gone,
          ) in
          omega (arith, ap (popcount 64) e, popcount-set 64 j u h)
      | inr clear ↦
          let b : bit v j ≡ 0 = ground (arith, bit-lt-two j v) in
          let e : v ≡ u = omega (arith, bit_and-clear 64 j v h w, ap (λ (t : ℕ). t * 2 ^ j) b) in
          omega (arith, ap (popcount 64) e)
    ]

bit_or-lt : (n a b : ℕ) → a < 2 ^ n → b < 2 ^ n → bit_or a b < 2 ^ n
bit_or-lt zero a b h k =
    let e : a ≡ 0 = omega arith in let f : b ≡ 0 = omega arith in rw (e, f) (omega arith)
bit_or-lt (suc n) a b h k = omega (
  arith,
  bit_or_step a b,
  pow-suc 2 n,
  bit_or-lt n (a / 2) (b / 2) (omega (arith, pow-suc 2 n)) (omega (arith, pow-suc 2 n)),
)

popcount-le : (n v : ℕ) → popcount n v ≤ n
unfolding popcount
popcount-le zero v = omega arith
popcount-le (suc n) v = omega (arith, popcount-le n (v / 2))

pub popcount-zero : (n : ℕ) → popcount n 0 ≡ 0
unfolding popcount
popcount-zero zero = refl
popcount-zero (suc n) = omega (arith, popcount-zero n)

total-take-le : (k : ℕ) (ws : List ℕ) → total (take k ws) ≤ k * 64
total-take-le zero ws = omega arith
total-take-le (suc k) [] = omega arith
total-take-le (suc k) (w ∷ ws) = omega (arith, popcount-le 64 w, total-take-le k ws)

total-take-set :
    (k i v : ℕ) (ws : List ℕ)
    → i < k
    → i < length ws
    → total (take k (set ws i v)) + popcount 64 (get_or ws i 0) ≡ total (take k ws) + popcount 64 v
total-take-set zero i v ws h l = absurd (omega arith)
total-take-set (suc k) i v [] h l = absurd (omega arith)
total-take-set (suc k) zero v (w ∷ ws) h l = omega arith
total-take-set (suc k) (suc i) v (w ∷ ws) h l =
    omega (arith, total-take-set k i v ws (omega arith) (omega arith))

take-set_past : (k v : ℕ) (ws : List ℕ) → take k (set ws k v) ≡ take k ws
take-set_past zero v ws = refl
take-set_past (suc k) v [] = refl
take-set_past (suc k) v (w ∷ ws) = ap (λ t. w ∷ t) (take-set_past k v ws)

popcount-take : (k i : ℕ) (ws : List ℕ) → i < k → popcount 64 (get_or ws i 0) ≤ total (take k ws)
popcount-take zero i ws h = absurd (omega arith)
popcount-take (suc k) i [] h = omega (arith, popcount-zero 64)
popcount-take (suc k) zero (w ∷ ws) h = omega arith
popcount-take (suc k) (suc i) (w ∷ ws) h = omega (arith, popcount-take k i ws (omega arith))

-- The words of a set of `n` elements, and behind them the number of its members.
pub record IsCounted (n : ℕ) (ws : List ℕ) : Type 0 where
  pub size : length ws ≡ words_for n + 1
  pub narrow : (k : ℕ) → get_or ws k 0 < 2 ^ 64
  pub counted : get_or ws (words_for n) 0 ≡ total (take (words_for n) ws)

module _ {n : ℕ} {ws : List ℕ} (c : IsCounted n ws) (i : ℕ) (h : i < n) where
  -- A word and the counter are written, the counter by what the word gains or loses.
  write-IsCounted :
      (v k : ℕ)
      → v < 2 ^ 64
      → k < 2 ^ 64
      → k + popcount 64 (get_or ws (i / 64) 0) ≡ get_or ws (words_for n) 0 + popcount 64 v
      → IsCounted n (set (set ws (i / 64) v) (words_for n) k)
  write-IsCounted v k hv hk e =
      let ys = set ws (i / 64) v in
      let same = length-set {0} ws (i / 64) v in
      record {
        size = omega (arith, c.size, same, length-set {0} ys (words_for n) k);
        narrow = λ j. ground (
          arith,
          c.size,
          same,
          c.narrow j,
          get_or-set ws (i / 64) j v 0,
          get_or-set ys (words_for n) j k 0,
        );
        counted =
            let new = get_or-set ys (words_for n) (words_for n) k 0 (omega (arith, c.size, same)) in
            let kept = take-set_past (words_for n) k ys in
            let sum =
              total-take-set (words_for n) (i / 64) v ws (omega arith) (omega (arith, c.size)) in
            new ∙ ground (arith, ap total kept, sum, c.counted);
      }

  word : ℕ
  word = get_or ws (i / 64) 0

  counter : ℕ
  counter = get_or ws (words_for n) 0

  -- Writing the word leaves the counter.
  counter_kept : (v : ℕ) → get_or (set ws (i / 64) v) (words_for n) 0 ≡ counter
  unfolding counter
  counter_kept v = get_or-set_ne ws (i / 64) (words_for n) v 0 (omega arith)

  counter_le : counter ≤ words_for n * 64
  unfolding counter
  counter_le = omega (arith, c.counted, total-take-le (words_for n) ws)

  -- `bac_set` of an element keeps a right count right: one more if the member is new, for fewer than
  -- 2^32 elements.
  pub bac_set-IsCounted :
      n < 2 ^ 32
      → (ys : List ℕ) × (bac_set (some ws) n i ≡ some ys)
        × IsCounted n ys
        × (get_or ys (words_for n) 0 ≡ (
            if ba_check (some ws) i
            then get_or ws (words_for n) 0
            else get_or ws (words_for n) 0 + 1))
  unfolding bac_set word counter
  bac_set-IsCounted small =
      let v = bit_or word (2 ^ (i % 64)) in
      let sum : v ≡ word + (1 - bit word (i % 64)) * 2 ^ (i % 64) = bit_or-pow (i % 64) word in
      elim (Bool-cases (ba_check (some ws) i)) [
        | inl old ↦
            let b : bit word (i % 64) ≡ 1 = ground (arith, ba_check-bit (some ws) i) in
            let e : (v == word) ≡ true =
              ground (arith, sum, ap (λ (t : ℕ). (1 - t) * 2 ^ (i % 64)) b) in
            (ws, rw e refl, c, rw old refl)
        | inr new ↦
            let b : bit word (i % 64) ≡ 0 =
              ground (arith, ba_check-bit (some ws) i, bit-lt-two (i % 64) word) in
            let e : (v == word) ≡ false =
              ground
                (arith, sum, one-le-pow (i % 64) 2, ap (λ (t : ℕ). (1 - t) * 2 ^ (i % 64)) b) in
            let k : (get_or (set ws (i / 64) v) (words_for n) 0 + 1) % 2 ^ 64 ≡ counter + 1 =
              omega (arith, counter_kept v, counter_le) in
            let room : words_for n < length (set ws (i / 64) v) =
              omega (arith, c.size, length-set {0} ws (i / 64) v) in
            (
              set (set ws (i / 64) v) (words_for n) (counter + 1),
              rw (e, k) refl,
              write-IsCounted v (counter + 1)
                  (bit_or-lt 64 word (2 ^ (i % 64)) (c.narrow (i / 64))
                    (pow_lt 64 (i % 64) (omega arith)))
                  (omega (arith, counter_le))
                  (omega (arith, popcount-bit_or (i % 64) word (omega arith), b)),
              ground (
                arith,
                new,
                get_or-set (set ws (i / 64) v) (words_for n) (words_for n) (counter + 1) 0 room,
              ),
            )
      ]

  -- `bac_clr` of an element keeps a right count right: one less if there was such a member, for fewer
  -- than 2^32 elements.
  bac_clr-IsCounted :
      n < 2 ^ 32
      → (ys : List ℕ) × (bac_clr (some ws) n i ≡ some ys)
        × IsCounted n ys
        × (get_or ys (words_for n) 0 + (if ba_check (some ws) i then 1 else 0)
            ≡ get_or ws (words_for n) 0)
  unfolding bac_clr word counter
  bac_clr-IsCounted small =
      let v = bit_and word (clear_mask (i % 64)) in
      let sum : v + bit word (i % 64) * 2 ^ (i % 64) ≡ word =
        bit_and-clear 64 (i % 64) word (omega arith) (c.narrow (i / 64)) in
      elim (Bool-cases (ba_check (some ws) i)) [
        | inl old ↦
            let b : bit word (i % 64) ≡ 1 = ground (arith, ba_check-bit (some ws) i) in
            let e : (v == word) ≡ false =
              ground (arith, sum, one-le-pow (i % 64) 2, ap (λ (t : ℕ). t * 2 ^ (i % 64)) b) in
            let fewer = popcount-bit_and (i % 64) word (omega arith) (c.narrow (i / 64)) in
            let some_there : 1 ≤ counter =
              omega (
                arith,
                c.counted,
                fewer,
                b,
                popcount-take (words_for n) (i / 64) ws (omega arith),
              ) in
            let k : (get_or (set ws (i / 64) v) (words_for n) 0 + 2 ^ 64 - 1) % 2 ^ 64
                ≡ counter - 1 =
              omega (arith, counter_kept v, counter_le) in
            let room : words_for n < length (set ws (i / 64) v) =
              omega (arith, c.size, length-set {0} ws (i / 64) v) in
            (
              set (set ws (i / 64) v) (words_for n) (counter - 1),
              rw (e, k) refl,
              write-IsCounted v (counter - 1) (omega (arith, sum, c.narrow (i / 64)))
                  (omega (arith, counter_le)) (omega (arith, fewer, b)),
              ground (
                arith,
                old,
                get_or-set (set ws (i / 64) v) (words_for n) (words_for n) (counter - 1) 0 room,
              ),
            )
        | inr new ↦
            let b : bit word (i % 64) ≡ 0 =
              ground (arith, ba_check-bit (some ws) i, bit-lt-two (i % 64) word) in
            let e : (v == word) ≡ true = ground (arith, sum, ap (λ (t : ℕ). t * 2 ^ (i % 64)) b) in
            (ws, rw e refl, c, rw new (omega arith))
      ]
