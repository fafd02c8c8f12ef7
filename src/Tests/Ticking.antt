-- ===== src/Tests/Ticking.antt =====
-- The timers of qtimer.c with one timer.
use vde.Common.{◌+◌, ◌≡◌, refl, arith, not, [], ◌∷◌, map, keep, length, ◌==◌}
use vde.Common.Int.{pos}
use vde.Timer.{Timers, qtimer_del, sig_alarm, call_of, install, enlarge, sweep, turn}
use vde.Timer.Compact.{active, is_live, served, calls, IsStored, sig_alarm_lem}
use vde.Timer.Lifetime.{sig_alarm-calls, sig_alarm-qtimer_del}
use vde.Timer.Schedule.{new_timer}
use vde.Timer.Sound.{IsSound, count_id, total_times}

abbrev no_timers : Timers
no_timers = record { qth = []; qtf = []; maxqt = 0; gqtime = 0; activeqt = 0; countqt = 0 }

no_timers-IsSound : IsSound no_timers
unfolding count_id
no_timers-IsSound = record {
  stored = record { slots = refl; room = omega arith };
  ahead = tt;
  unique = λ n. omega arith;
}

-- A timer that calls function 7 with argument 9 every second, three times.
abbrev one_timer : Timers
one_timer = install (new_timer 1 (pos 3) 7 9 no_timers) (enlarge no_timers) []

one_timer-IsSound : IsSound one_timer
unfolding enlarge count_id
one_timer-IsSound = record {
  stored = record { slots = refl; room = omega arith };
  ahead = (record { later = omega arith; period = omega arith; numbered = omega arith }, tt);
  unique = λ n. ground arith;
}

-- It is called at the first tick.
first_tick : (sig_alarm one_timer).1 ≡ (7, 9) ∷ []
unfolding enlarge sig_alarm sweep turn
first_tick = refl

sig_alarm_lem_example :
    let r = sig_alarm one_timer in
    (active r.0 ≡ served (one_timer.gqtime + 1) (active one_timer))
    × (r.1 ≡ calls (one_timer.gqtime + 1) (active one_timer))
    × (r.0.gqtime ≡ one_timer.gqtime + 1)
    × IsStored r.0
sig_alarm_lem_example = sig_alarm_lem one_timer one_timer-IsSound.stored

sig_alarm-calls_example :
    let r = sig_alarm one_timer in
    (r.1
      ≡ map call_of
          (keep (λ t. t.qt_nextcall == one_timer.gqtime + 1) (keep is_live (active one_timer))))
    × (total_times (active r.0) + length r.1 ≡ total_times (active one_timer))
sig_alarm-calls_example = sig_alarm-calls one_timer one_timer-IsSound

sig_alarm-qtimer_del_example :
    let r = sig_alarm (qtimer_del 0 one_timer) in
    (count_id 0 (active r.0) ≡ 0)
    × (r.1 ≡ calls (one_timer.gqtime + 1) (keep (λ t. not (0 == t.qt_n)) (active one_timer)))
sig_alarm-qtimer_del_example = sig_alarm-qtimer_del 0 one_timer one_timer-IsSound
