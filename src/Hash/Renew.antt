-- ===== src/Hash/Renew.antt =====
-- The timer of the garbage collector: set up with the table, and renewed with its interval.
use vde.Common.{ℕ, ◌<◌, ◌≡◌, refl, ◌∙◌, arith, true, none, some, [], ◌∷◌, ◌++◌}
use vde.Common.Int.{pos}
use vde.Timer.{Timers, qtimer_del}
use vde.Timer.Compact.{active}
use vde.Timer.Lifetime.{qtimer_add-IsSound, qtimer_del-IsSound, qtimer_del-clock}
use vde.Timer.Schedule.{new_timer}
use vde.Timer.Sound.{IsSound, mark, active-qtimer_del}
use vde.Hash.{
  Table, hash_alloc, po2round, hash_init, hash_set_gc_interval, hash_gc_call, gc_interval_dfl,
  gc_expire_dfl,
}
use vde.Hash.Setup.{hash_alloc-IsHashed}
use vde.Hash.Slots.{IsHashed, view}

-- With memory, in a sound state of the timers, `hash_set_gc_interval` with a positive interval stops the
-- collector's timer and adds a new one with the interval as its period, whose number the table keeps;
-- the timers stay sound, and nothing else changes in the table.
hash_set_gc_interval-renews :
    (p : ℕ) (t : Table) (s : Timers)
    → IsSound s
    → 0 < p
    → (s' : Timers) × (hash_set_gc_interval (pos p) true true t s
        ≡ some (record t { gc_interval = pos p; gc_timerno = s.countqt }, s'))
      × IsSound s'
      × (active s' ≡ mark t.gc_timerno (active s) ++ new_timer p (pos 0) hash_gc_call 0 s ∷ [])
unfolding hash_set_gc_interval
hash_set_gc_interval-renews p t s v h =
    let d = qtimer_del t.gc_timerno s in
    let (clock, count) = qtimer_del-clock t.gc_timerno s in
    let (s', run, sound, ts) =
      qtimer_add-IsSound p 0 hash_gc_call 0 d (qtimer_del-IsSound t.gc_timerno s v) h in
    (
      s',
      rw (run, count) refl,
      sound,
      ts ∙ rw (active-qtimer_del t.gc_timerno s v.stored, clock, count) refl,
    )

-- With memory, `hash_init` makes an empty table that is well formed, and adds a timer that runs the
-- collector in each interval to sound timers, which stay sound.
hash_init_lem :
    (size : ℕ) (t : Table) (s : Timers)
    → IsSound s
    → (t' : Table) × (s' : Timers) × (hash_init size true true t s ≡ some (t', s'))
      × IsHashed t'
      × ((q : ℕ) → view t' q ≡ none)
      × (t'.gc_timerno ≡ s.countqt)
      × IsSound s'
      × (active s' ≡ active s ++ new_timer gc_interval_dfl (pos 0) hash_gc_call 0 s ∷ [])
unfolding hash_init hash_alloc
hash_init_lem size t s v =
    let (s', run, sound, ts) = qtimer_add-IsSound 2 0 hash_gc_call 0 s v (omega arith) in
    let made = record (hash_alloc (po2round size) t) {
      gc_interval = pos gc_interval_dfl;
      gc_expire = pos gc_expire_dfl;
      gc_timerno = s.countqt;
    } in
    let (hashed, empty) = hash_alloc-IsHashed (po2round size) made in
    (made, s', rw run refl, hashed, empty, refl, sound, ts)
