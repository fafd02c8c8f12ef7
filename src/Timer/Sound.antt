-- ===== src/Timer/Sound.antt =====
-- The invariant of the timers, and what stopping one and serving them do to it.
use vde.Common.{
  ℕ, zero, suc, ◌+◌, ◌≤◌, ◌<◌, ◌≡◌, refl, sym, ap, ◌∙◌, arith, not, List, [], ◌∷◌, ◌++◌,
  if◌then◌else◌, ◌==◌, length, length-set, get_or, take, keep, Bool-cases, inl, inr, All,
}
use vde.Timer.{QtTimer, Timers, uninitialised, qtimer_del, del_loop, due, fire}
use vde.Timer.Compact.{active, served, calls, IsStored, calls-cons}

-- How many of the timers have number `n`.
unfoldable pub count_id : ℕ → List QtTimer → ℕ
count_id n [] = 0
count_id n (t ∷ ts) = (if n == t.qt_n then 1 else 0) + count_id n ts

-- The timers that are left to fire: the sum of the counters.
unfoldable pub total_times : List QtTimer → ℕ
total_times [] = 0
total_times (t ∷ ts) = t.qt_times + total_times ts

-- A timer lies ahead of the clock, under a number already given.
pub record IsAhead (now next : ℕ) (t : QtTimer) : Type 0 where
  pub later : now < t.qt_nextcall
  pub period : 0 < t.qt_period
  pub numbered : t.qt_n < next

pub record IsSound (s : Timers) : Type 0 where
  pub stored : IsStored s
  pub ahead : All (IsAhead s.gqtime s.countqt) (active s)
  pub unique : (n : ℕ) → count_id n (active s) ≤ 1

pub All-append {ℓ} :
    {A : Type 0} (P : A → Type ℓ) (xs ys : List A) → All P xs → All P ys → All P (xs ++ ys)
All-append P [] ys h k = k
All-append P (x ∷ xs) ys h k = (h.0, All-append P xs ys h.1 k)

pub All-map {ℓ} :
    {A : Type 0} {P Q : A → Type ℓ} (xs : List A) → ((x : A) → P x → Q x) → All P xs → All Q xs
All-map [] f h = h
All-map (x ∷ xs) f h = (f x h.0, All-map xs f h.1)

fire-IsAhead :
    (now next : ℕ) (t : QtTimer) → IsAhead now next t → IsAhead (now + 1) next (fire (now + 1) t)
fire-IsAhead now next t h = elim (Bool-cases (due (now + 1) t)) [
  | inl yes_due ↦ rw yes_due (record {
    later = ground (arith, h.later, h.period);
    period = h.period;
    numbered = h.numbered;
  })
  | inr not_due ↦
      rw not_due (record { later = ground arith; period = h.period; numbered = h.numbered })
]

pub served-IsAhead :
    (now next : ℕ) (ts : List QtTimer)
    → All (IsAhead now next) ts
    → All (IsAhead (now + 1) next) (served (now + 1) ts)
unfolding keep
served-IsAhead now next [] h = h
served-IsAhead now next (t ∷ ts) h = elim (Bool-cases (t.qt_times == 0)) [
  | inl dead ↦ rw dead (served-IsAhead now next ts h.1)
  | inr live ↦ rw live (fire-IsAhead now next t h.0, served-IsAhead now next ts h.1)
]

-- Under the invariant the handler calls exactly the live timers whose time it is now.
pub due-exact :
    (now next : ℕ) (t : QtTimer) → IsAhead now next t → due (now + 1) t ≡ (t.qt_nextcall == now + 1)
due-exact now next t h = ground arith

pub count_id-served-le :
    (now n : ℕ) (ts : List QtTimer) → count_id n (served now ts) ≤ count_id n ts
unfolding count_id keep
count_id-served-le now n [] = omega arith
count_id-served-le now n (t ∷ ts) = ground (arith, count_id-served-le now n ts)

count_id-append :
    (n : ℕ) (xs ys : List QtTimer) → count_id n (xs ++ ys) ≡ count_id n xs + count_id n ys
unfolding count_id
count_id-append n [] ys = omega arith
count_id-append n (x ∷ xs) ys = omega (arith, count_id-append n xs ys)

pub count_id-fresh :
    (now next : ℕ) (ts : List QtTimer) → All (IsAhead now next) ts → count_id next ts ≡ 0
unfolding count_id
count_id-fresh now next [] h = refl
count_id-fresh now next (t ∷ ts) h = ground (arith, count_id-fresh now next ts, h.0.numbered)

pub count_id-snoc :
    (m : ℕ) (t : QtTimer) (ts : List QtTimer)
    → count_id m ts ≤ 1
    → count_id t.qt_n ts ≡ 0
    → count_id m (ts ++ t ∷ []) ≤ 1
unfolding count_id
count_id-snoc m t ts h f = elim (Bool-cases (m == t.qt_n)) [
  | inl same ↦
      let e : m ≡ t.qt_n = ground arith in
      rw count_id-append (ground (arith, same, f, ap (λ k. count_id k ts) e))
  | inr other ↦ rw count_id-append (ground (arith, other))
]

-- Each call uses up one of the times, and nothing else does.
pub total_times-served :
    (now : ℕ) (ts : List QtTimer)
    → total_times (served now ts) + length (calls now ts) ≡ total_times ts
unfolding total_times keep
total_times-served now [] = refl
total_times-served now (t ∷ ts) = ground (arith, total_times-served now ts)

-- The first timer of number `n`, stopped.
unfoldable pub mark : ℕ → List QtTimer → List QtTimer
mark n [] = []
mark n (t ∷ ts) = if n == t.qt_n then record t { qt_times = 0 } ∷ ts else t ∷ mark n ts

del_loop-shift :
    (left i n : ℕ) (t : QtTimer) (ts : List QtTimer)
    → del_loop left (suc i) n (t ∷ ts) ≡ t ∷ del_loop left i n ts
unfolding del_loop
del_loop-shift zero i n t ts = refl
del_loop-shift (suc left) i n t ts =
    let e : suc i + 1 ≡ suc (i + 1) = omega arith in
    rw (e, del_loop-shift left (i + 1) n t ts) (ground arith)

-- The loop of `qtimer_del` stops the first timer of the number, among those in use.
del_loop-mark :
    (left n : ℕ) (ts : List QtTimer)
    → left ≤ length ts
    → take left (del_loop left 0 n ts) ≡ mark n (take left ts)
unfolding del_loop mark
del_loop-mark zero n ts h = refl
del_loop-mark (suc left) n [] h = absurd (omega arith)
del_loop-mark (suc left) n (t ∷ ts) h =
    let e : 0 + 1 ≡ 1 = refl in
    elim (Bool-cases (n == t.qt_n)) [
      | inl same ↦ rw same refl
      | inr other ↦
          rw (other, del_loop-shift left 0 n t ts)
            (ap (λ r. t ∷ r) (del_loop-mark left n ts (omega arith)))
    ]

pub length-del_loop : (left i n : ℕ) (ts : List QtTimer) → length (del_loop left i n ts) ≡ length ts
unfolding del_loop
length-del_loop zero i n ts = refl
length-del_loop (suc left) i n ts = elim (Bool-cases (n == (get_or ts i uninitialised).qt_n)) [
  | inl same ↦ rw same (length-set ts i _)
  | inr other ↦ rw other (length-del_loop left (i + 1) n ts)
]

pub active-qtimer_del :
    (n : ℕ) (s : Timers) → IsStored s → active (qtimer_del n s) ≡ mark n (active s)
unfolding qtimer_del
active-qtimer_del n s v = del_loop-mark s.activeqt n s.qth (omega (arith, v.slots, v.room))

-- Once the only timer of its number is stopped, no live one has it.
pub mark-served :
    (now n : ℕ) (ts : List QtTimer) → count_id n ts ≤ 1 → count_id n (served now (mark n ts)) ≡ 0
unfolding mark count_id keep
mark-served now n [] h = refl
mark-served now n (t ∷ ts) h = elim (Bool-cases (n == t.qt_n)) [
  | inl same ↦ ground (arith, same, count_id-served-le now n ts)
  | inr other ↦ ground (arith, other, mark-served now n ts)
]

keep-other : (n : ℕ) (ts : List QtTimer) → count_id n ts ≡ 0 → keep (λ t. not (n == t.qt_n)) ts ≡ ts
unfolding count_id keep
keep-other n [] h = refl
keep-other n (t ∷ ts) h = ground (arith, keep-other n ts)

pub calls-mark :
    (now n : ℕ) (ts : List QtTimer)
    → count_id n ts ≤ 1
    → calls now (mark n ts) ≡ calls now (keep (λ t. not (n == t.qt_n)) ts)
unfolding mark count_id keep
calls-mark now n [] h = refl
calls-mark now n (t ∷ ts) h = elim (Bool-cases (n == t.qt_n)) [
  | inl same ↦
      let rest : count_id n ts ≡ 0 = ground (arith, same) in rw (same, keep-other n ts rest) refl
  | inr other ↦
      let rest : count_id n ts ≤ 1 = ground (arith, other) in
      rw other (
        calls-cons now t (mark n ts)
        ∙ ap (λ c. calls now (t ∷ []) ++ c) (calls-mark now n ts rest)
        ∙ sym (calls-cons now t (keep (λ t. not (n == t.qt_n)) ts)))
]

pub count_id-mark : (n m : ℕ) (ts : List QtTimer) → count_id m (mark n ts) ≡ count_id m ts
unfolding mark count_id
count_id-mark n m [] = refl
count_id-mark n m (t ∷ ts) = ground (arith, count_id-mark n m ts)

pub mark-IsAhead :
    (now next n : ℕ) (ts : List QtTimer)
    → All (IsAhead now next) ts
    → All (IsAhead now next) (mark n ts)
unfolding mark
mark-IsAhead now next n [] h = h
mark-IsAhead now next n (t ∷ ts) h = elim (Bool-cases (n == t.qt_n)) [
  | inl same ↦
      rw same (record { later = h.0.later; period = h.0.period; numbered = h.0.numbered }, h.1)
  | inr other ↦ rw other (h.0, mark-IsAhead now next n ts h.1)
]
