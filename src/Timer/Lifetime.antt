-- ===== src/Timer/Lifetime.antt =====
-- The life of a timer: `qtimer_add`, the handler's calls, `qtimer_del`.
use vde.Common.{
  ℕ, ◌+◌, ◌<◌, ◌≡◌, refl, ap, ap₂, ◌∙◌, arith, true, not, List, [], ◌∷◌, ◌++◌, map, ◌==◌, leb,
  length, keep, Bool-cases, inl, inr, All, some,
}
use vde.Common.Int.{pos}
use vde.Timer.{QtTimer, Timers, added, qtimer_add, qtimer_del, due, call_of, sig_alarm}
use vde.Timer.Compact.{active, is_live, calls, IsStored, sig_alarm_lem}
use vde.Timer.Schedule.{new_timer, qtimer_add_lem}
use vde.Timer.Sound.{
  count_id, total_times, IsAhead, IsSound, All-append, All-map, served-IsAhead, due-exact,
  count_id-served-le, count_id-fresh, count_id-snoc, total_times-served, length-del_loop,
  active-qtimer_del, mark-served, calls-mark, count_id-mark, mark-IsAhead,
}

-- With memory, `qtimer_add` of a positive period gives the new timer the number `countqt`, puts it
-- behind the others, and keeps a sound state sound.
pub qtimer_add-IsSound :
    (period n call arg : ℕ) (s : Timers)
    → IsSound s
    → 0 < period
    → (s' : Timers) × (qtimer_add (pos period) (pos n) (some call) arg true true s
        ≡ added s.countqt s')
      × IsSound s'
      × (active s' ≡ active s ++ new_timer period (pos n) call arg s ∷ [])
qtimer_add-IsSound period n call arg s v h =
    let (s', run, ts, count, clock, stored) = qtimer_add_lem period n call arg s v.stored h in
    let t = new_timer period (pos n) call arg s in
    (
      s',
      run,
      record {
        stored = stored;
        ahead =
            rw (ts, clock, count)
              (All-append (IsAhead s.gqtime (s.countqt + 1)) (active s) (t ∷ [])
                (All-map (active s)
                  (λ x a. record {
                    later = a.later;
                    period = a.period;
                    numbered = omega (arith, a.numbered);
                  })
                  v.ahead)
                (record { later = omega arith; period = h; numbered = omega arith }, tt));
        unique = λ m. rw ts (
            count_id-snoc m t (active s) (v.unique m)
              (count_id-fresh s.gqtime s.countqt (active s) v.ahead));
      },
      ts,
    )

qtimer_del-IsStored : (n : ℕ) (s : Timers) → IsStored s → IsStored (qtimer_del n s)
unfolding qtimer_del
qtimer_del-IsStored n s v = record {
  slots = length-del_loop s.activeqt 0 n s.qth ∙ v.slots;
  room = v.room;
}

pub qtimer_del-clock :
    (n : ℕ) (s : Timers)
    → ((qtimer_del n s).gqtime ≡ s.gqtime) × ((qtimer_del n s).countqt ≡ s.countqt)
unfolding qtimer_del
qtimer_del-clock n s = (refl, refl)

-- `qtimer_del` keeps a sound state sound, whatever the number.
pub qtimer_del-IsSound : (n : ℕ) (s : Timers) → IsSound s → IsSound (qtimer_del n s)
qtimer_del-IsSound n s v =
    let ts = active-qtimer_del n s v.stored in
    let (clock, count) = qtimer_del-clock n s in
    record {
      stored = qtimer_del-IsStored n s v.stored;
      ahead = rw (ts, clock, count) (mark-IsAhead s.gqtime s.countqt n (active s) v.ahead);
      unique = λ m. rw (ts, count_id-mark n m (active s)) (v.unique m);
    }

sig_alarm-count : (s : Timers) → (sig_alarm s).0.countqt ≡ s.countqt
unfolding sig_alarm
sig_alarm-count s = refl

-- A tick keeps a sound state sound.
sig_alarm-IsSound : (s : Timers) → IsSound s → IsSound (sig_alarm s).0
sig_alarm-IsSound s v =
    let (ts, log, clock, stored) = sig_alarm_lem s v.stored in
    record {
      stored = stored;
      ahead =
          rw (ts, clock, sig_alarm-count s) (served-IsAhead s.gqtime s.countqt (active s) v.ahead);
      unique =
          λ m. rw ts (omega (arith, count_id-served-le (s.gqtime + 1) m (active s), v.unique m));
    }

-- For timers ahead of the clock, being due is being due now.
due-now :
    (now next : ℕ) (ts : List QtTimer)
    → All (IsAhead now next) ts
    → keep (due (now + 1)) (keep is_live ts)
      ≡ keep (λ t. t.qt_nextcall == now + 1) (keep is_live ts)
unfolding keep
due-now now next [] h = refl
due-now now next (t ∷ ts) h = elim (Bool-cases (t.qt_times == 0)) [
  | inl dead ↦ rw dead (due-now now next ts h.1)
  | inr live ↦
      let e : leb t.qt_nextcall (now + 1) ≡ (t.qt_nextcall == now + 1) = due-exact now next t h.0 in
      rw (live, e, due-now now next ts h.1) refl
]

-- In a sound state a tick calls exactly the live timers whose next call is now, in order, and the
-- calls that remain to the timers fall by the number of calls made.
pub sig_alarm-calls :
    (s : Timers)
    → IsSound s
    → let (s', log) = sig_alarm s in
      (log ≡ map call_of (keep (λ t. t.qt_nextcall == s.gqtime + 1) (keep is_live (active s))))
      × (total_times (active s') + length log ≡ total_times (active s))
sig_alarm-calls s v =
    let (ts, log, clock, stored) = sig_alarm_lem s v.stored in
    (
      log ∙ ap (map call_of) (due-now s.gqtime s.countqt (active s) v.ahead),
      rw (ts, log) (total_times-served (s.gqtime + 1) (active s)),
    )

-- In a sound state, after `qtimer_del n` the next tick calls for the timers of other numbers, as it would without the
-- timer of number `n`, and leaves no timer of that number.
pub sig_alarm-qtimer_del :
    (n : ℕ) (s : Timers)
    → IsSound s
    → let (s', log) = sig_alarm (qtimer_del n s) in
      (count_id n (active s') ≡ 0)
      × (log ≡ calls (s.gqtime + 1) (keep (λ t. not (n == t.qt_n)) (active s)))
sig_alarm-qtimer_del n s v =
    let (ts, log, clock, stored) =
      sig_alarm_lem (qtimer_del n s) (qtimer_del-IsStored n s v.stored) in
    let marked = active-qtimer_del n s v.stored in
    let now = (qtimer_del-clock n s).0 in
    (
      rw (ts, marked) (mark-served ((qtimer_del n s).gqtime + 1) n (active s) (v.unique n)),
      log
          ∙ ap₂ (λ k t. calls (k + 1) t) now marked
          ∙ calls-mark (s.gqtime + 1) n (active s) (v.unique n),
    )
