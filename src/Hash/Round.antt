-- ===== src/Hash/Round.antt =====
-- `po2round` and its loop.
use vde.Common.{
  ℕ, zero, suc, ◌+◌, ◌-◌, ◌*◌, ◌/◌, ◌^◌, ◌≤◌, ◌<◌, ◌≡◌, refl, ◌∙◌, arith, ◌==◌, Bool-cases,
  ==-false, inl, inr,
}
use native.Mathlib.Nat.{pow-suc}
use vde.Hash.{po2_loop, po2round}

-- With enough fuel the loop adds the number `d` of the binary digits of `x`.
record Digits (fuel x d : ℕ) : Type 0 where
  above : x < 2 ^ d
  least : 0 < x → 2 ^ d ≤ 2 * x
  zero_digits : x ≡ 0 → d ≡ 0
  few : d ≤ fuel

Digits-double : (fuel x d : ℕ) → 0 < x → Digits fuel (x / 2) d → Digits (suc fuel) x (suc d)
Digits-double fuel x d p h = record {
  above = omega (arith, pow-suc 2 d, h.above);
  least = λ _. elim (Bool-cases (x / 2 == 0)) [
    | inl one ↦ let e : d ≡ 0 = h.zero_digits (ground arith) in rw e (omega arith)
    | inr more ↦ omega (arith, pow-suc 2 d, h.least (ground arith))
  ];
  zero_digits = λ e. absurd (omega arith);
  few = omega (arith, h.few);
}

po2_loop-Digits :
    (fuel x i : ℕ) → x < 2 ^ fuel → (d : ℕ) × (po2_loop (suc fuel) x i ≡ i + d) × Digits fuel x d
unfolding po2_loop
po2_loop-Digits zero x i h =
    let e : x ≡ 0 = omega arith in
    (
      0,
      rw e (omega arith),
      rw e (record {
        above = omega arith;
        least = λ p. omega arith;
        zero_digits = λ _. refl;
        few = omega arith;
      }),
    )
po2_loop-Digits (suc fuel) x i h = elim (Bool-cases (x == 0)) [
  | inl done ↦
      let e : x ≡ 0 = ground arith in
      (
        0,
        rw done (omega arith),
        rw e (record {
          above = omega arith;
          least = λ p. omega arith;
          zero_digits = λ _. refl;
          few = omega arith;
        }),
      )
  | inr more ↦
      let (d, run, digits) = po2_loop-Digits fuel (x / 2) (i + 1) (omega (arith, pow-suc 2 fuel)) in
      (suc d, rw more (run ∙ omega arith), Digits-double fuel x d (ground arith) digits)
]

po2round-loop : (vx : ℕ) → 0 < vx → po2round vx ≡ po2_loop 32 (vx - 1) 0
unfolding po2round
po2round-loop vx p = rw (==-false vx 0 (omega arith)) refl

Digits-small : (vx d : ℕ) → 0 < vx → Digits 31 (vx - 1) d → 2 ^ d < 2 * vx
Digits-small vx d p g = elim (Bool-cases (vx == 1)) [
  | inl one ↦ let e : d ≡ 0 = g.zero_digits (ground arith) in rw e (omega arith)
  | inr more ↦ omega (arith, g.least (ground arith))
]

-- For a positive `int`, `po2round` returns the least exponent whose power of two is not below the
-- size; its loop ends within the 32 rounds that the model allows.
pub po2round_lem :
    (vx : ℕ)
    → 0 < vx
    → vx < 2 ^ 31
    → (vx ≤ 2 ^ po2round vx) × (2 ^ po2round vx < 2 * vx) × (po2round vx ≤ 31)
po2round_lem vx p h =
    let (d, run, digits) = po2_loop-Digits 31 (vx - 1) 0 (omega arith) in
    let e : po2round vx ≡ d = po2round-loop vx p ∙ run ∙ omega arith in
    rw e (omega (arith, digits.above), Digits-small vx d p digits, digits.few)
