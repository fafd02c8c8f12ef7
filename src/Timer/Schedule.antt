-- ===== src/Timer/Schedule.antt =====
-- `qtimer_add` on the list of the timers in use.
use vde.Common.{
  ℕ, zero, suc, ◌+◌, ◌≤◌, ◌<◌, ◌≡◌, refl, ap, ◌∙◌, arith, true, List, [], ◌∷◌, ◌++◌, leb, length,
  length-set, length-append, set, take, Bool-cases, inl, inr, some, replicate,
}
use vde.Common.Int.{ℤ, pos}
use vde.Timer.{
  QtTimer, Timers, uninitialised, added, qtimer_add, install, enlarge, free_tail, stored_times,
  qt_alloc_step,
}
use vde.Timer.Compact.{active, IsStored, take-set_snoc}

take-append_left :
    {A : Type 0} (n : ℕ) (xs ys : List A) → n ≤ length xs → take n (xs ++ ys) ≡ take n xs
take-append_left zero xs ys h = refl
take-append_left (suc n) [] ys h = absurd (omega arith)
take-append_left (suc n) (x ∷ xs) ys h = ap (λ t. x ∷ t) (take-append_left n xs ys (omega arith))

-- The timer that `qtimer_add` makes.
abbrev pub new_timer : ℕ → ℤ → ℕ → ℕ → Timers → QtTimer
new_timer period times call arg s = record {
  qt_n = s.countqt;
  qt_period = period;
  qt_nextcall = s.gqtime + period;
  qt_times = stored_times times;
  qt_call = call;
  qt_arg = arg;
}

-- What enlarging the array does: room for one more, and nothing else.
record Enlarged (s e : Timers) : Type 0 where
  stored : length e.qth ≡ e.maxqt
  room : s.activeqt < e.maxqt
  count : (e.activeqt ≡ s.activeqt) × (e.countqt ≡ s.countqt) × (e.gqtime ≡ s.gqtime)
  same : take s.activeqt e.qth ≡ active s

enlarge-Enlarged : (s : Timers) → IsStored s → Enlarged s (enlarge s)
unfolding enlarge
enlarge-Enlarged s v = elim (Bool-cases (leb s.maxqt s.activeqt)) [
  | inl full ↦
      let fresh = replicate qt_alloc_step uninitialised in
      rw full (record {
        stored = omega (arith, length-append {0} s.qth fresh, v.slots);
        room = omega (arith, v.room);
        count = (refl, refl, refl);
        same = take-append_left s.activeqt s.qth fresh (omega (arith, v.slots, v.room));
      })
  | inr free ↦
      rw free
        (record { stored = v.slots; room = ground arith; count = (refl, refl, refl); same = refl })
]

-- With memory and a positive period, `qtimer_add` puts the new timer behind the others, under the number `countqt`, which
-- it then steps on; the clock stands still and the array stays well formed.
pub qtimer_add_lem :
    (period n call arg : ℕ) (s : Timers)
    → IsStored s
    → 0 < period
    → (s' : Timers) × (qtimer_add (pos period) (pos n) (some call) arg true true s
        ≡ added s.countqt s')
      × (active s' ≡ active s ++ new_timer period (pos n) call arg s ∷ [])
      × (s'.countqt ≡ s.countqt + 1)
      × (s'.gqtime ≡ s.gqtime)
      × IsStored s'
unfolding qtimer_add
qtimer_add_lem period n call arg s v h =
    let e = enlarge s in
    let g = enlarge-Enlarged s v in
    let t = new_timer period (pos n) call arg s in
    let there = g.count.0 in
    let put = take-set_snoc s.activeqt e.qth t (omega (arith, g.stored, g.room)) in
    (
      install t e (free_tail s.qtf),
      ground arith,
      ap (λ k. take (k + 1) (set e.qth k t)) there ∙ put ∙ ap (λ a. a ++ t ∷ []) g.same,
      ap (λ k. k + 1) g.count.1,
      g.count.2,
      record {
        slots = length-set e.qth e.activeqt t ∙ g.stored;
        room = omega (arith, there, g.room);
      },
    )
