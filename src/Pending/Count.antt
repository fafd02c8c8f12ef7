-- ===== src/Pending/Count.antt =====
-- How often `vdepq_del` of packetq.c counts a buffer down.
use vde.Common.{
  ℕ, ◌+◌, ◌-◌, ◌%◌, ◌^◌, ◌<◌, ◌≤◌, ◌≡◌, refl, ap, ◌∙◌, arith, true, false, Option, none, some, List,
  [], ◌∷◌, if◌then◌else◌, ◌==◌, length, All, Bool-cases, inl, inr,
}
use vde.Pending.{PacketBuf, Store, elem_at, buf_at, count_down, vdepq_del}
use vde.Pending.Ring.{Link, IsQueue}
use vde.Pending.Freed.{released, del_all}

-- How many elements name a buffer.
unfoldable pub refs : ℕ → List Link → ℕ
refs b [] = 0
refs b (x ∷ xs) = if x.1 == b then refs b xs + 1 else refs b xs

-- A buffer with so many references less, free if none is left.
abbrev pub less : ℕ → PacketBuf → Option PacketBuf
less n p =
    if n == 0
    then some p
    else if n == p.count
    then none
    else some (record p { count = p.count - n })

released-none : (b : ℕ) (xs : List Link) → released b xs none ≡ none
unfolding released
released-none b [] = refl
released-none b (x ∷ xs) = elim (Bool-cases (x.1 == b)) [
  | inl yes_ ↦ rw yes_ (released-none b xs)
  | inr no_ ↦ rw no_ (released-none b xs)
]

count_down-left :
    (p : PacketBuf)
    → 0 < p.count
    → p.count < 2 ^ 15
    → count_down (some p)
      ≡ (if p.count - 1 == 0 then none else some (record p { count = p.count - 1 }))
count_down-left p some_ small =
    let e : (p.count + 2 ^ 16 - 1) % 2 ^ 16 ≡ p.count - 1 = omega arith in rw e refl

-- One reference less and then some others.
less-suc :
    (n : ℕ) (p : PacketBuf)
    → n + 1 ≤ p.count
    → 1 < p.count
    → less n (record p { count = p.count - 1 }) ≡ less (n + 1) p
less-suc n p h more = elim (Bool-cases (n == p.count - 1)) [
  | inl last ↦
      let e : (n + 1 == p.count) ≡ true = ground arith in
      let some_ : (n == 0) ≡ false = ground arith in
      let some' : (n + 1 == 0) ≡ false = ground arith in rw (some_, last, some', e) refl
  | inr left ↦
      let e : (n + 1 == p.count) ≡ false = ground arith in
      let some' : (n + 1 == 0) ≡ false = ground arith in
      let same : p.count - 1 - n ≡ p.count - (n + 1) = omega arith in
      rw (e, some', left)
        (elim (Bool-cases (n == 0)) [
          | inl none' ↦ let zero' : n ≡ 0 = ground arith in rw (none', zero') refl
          | inr more' ↦ rw more' (ap (λ k. some (record p { count = k })) same)
        ])
]

released-less :
    (b : ℕ) (xs : List Link) (p : PacketBuf)
    → refs b xs ≤ p.count
    → p.count < 2 ^ 15
    → released b xs (some p) ≡ less (refs b xs) p
unfolding released refs
released-less b [] p enough small = refl
released-less b (x ∷ xs) p enough small = elim (Bool-cases (x.1 == b)) [
  | inl yes_ ↦
      let many : refs b xs + 1 ≤ p.count = ground arith in
      rw (yes_, count_down-left p (omega arith) small)
        (elim (Bool-cases (p.count - 1 == 0)) [
          | inl last ↦
              let e : refs b xs ≡ 0 = ground arith in
              let one : p.count ≡ 1 = ground arith in rw (last, e, one) (released-none b xs)
          | inr more ↦ rw more (
              released-less b xs (record p { count = p.count - 1 }) (ground arith) (ground arith)
              ∙ less-suc (refs b xs) p many (ground arith))
        ])
  | inr no_ ↦ rw no_ (released-less b xs p (ground arith) small)
]

-- With rounds for all elements `vdepq_del` leaves the empty queue and frees every element of it. A buffer
-- whose count is at least the number n of the elements that name it, and below 2^15, is afterwards counted
-- n lower; it is freed where it was named and its count was n, and is else kept.
pub vdepq_del-released :
    (fuel : ℕ) (tail : Option ℕ) (s : Store) (xs : List Link) (b : ℕ) (p : PacketBuf)
    → length xs ≤ fuel
    → IsQueue s tail xs
    → buf_at s b ≡ some p
    → refs b xs ≤ p.count
    → p.count < 2 ^ 15
    → ((vdepq_del fuel tail s).0 ≡ none)
      × All (λ x. elem_at (vdepq_del fuel tail s).1 x.0 ≡ none) xs
      × (buf_at (vdepq_del fuel tail s).1 b ≡ less (refs b xs) p)
vdepq_del-released fuel tail s xs b p rounds q there enough small =
    let (empty, freed, bufs) = del_all fuel tail s xs rounds q in
    (empty, freed, bufs b ∙ ap (released b xs) there ∙ released-less b xs p enough small)
