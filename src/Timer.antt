-- ===== src/Timer.antt =====
-- vde-2/src/vde_switch/qtimer.c: periodic timers driven by SIGALRM, kept in an array that the
-- handler compacts in place. A `struct qt_timer` is named by its place, for no two slots below
-- `activeqt` hold the same pointer. A function pointer and its argument are numbers, and a call of
-- the handler's callbacks is a pair of them in its log.
pub mod Compact
pub mod Schedule
pub mod Sound
pub mod Lifetime
use vde.Common.{
  ℕ, zero, suc, ◌+◌, ◌-◌, ◌%◌, ◌^◌, Bool, true, false, ◌&&◌, ◌||◌, not, Option, none, some, List,
  [], ◌∷◌, ◌++◌, if◌then◌else◌, ◌==◌, ltb, leb, get_or, set, replicate,
}
use vde.Common.Int.{ℤ, pos, negsuc}

-- `struct qt_timer`
pub record QtTimer : Type 0 where
  pub qt_n : ℕ
  pub qt_period : ℕ
  pub qt_nextcall : ℕ
  pub qt_times : ℕ  -- unsigned int
  pub qt_call : ℕ
  pub qt_arg : ℕ

-- The static variables. `qth` has `maxqt` slots, those from `activeqt` on not in use.
pub record Timers : Type 0 where
  pub qth : List QtTimer
  pub qtf : List QtTimer  -- the free list, linked through `qt_arg` in the source
  pub maxqt : ℕ
  pub gqtime : ℕ
  pub activeqt : ℕ
  pub countqt : ℕ

abbrev pub qt_alloc_step : ℕ
qt_alloc_step = 4

-- Fresh memory holds anything; the fields are all written before they are read.
abbrev pub uninitialised : QtTimer
uninitialised = record {
  qt_n = 0;
  qt_period = 0;
  qt_nextcall = 0;
  qt_times = 0;
  qt_call = 0;
  qt_arg = 0;
}

unfoldable pub qtime : Timers → ℕ
qtime s = s.gqtime

-- What `qtimer_add` does: it returns the new timer's number, or -1, or dereferences NULL.
pub data Added : Type 0 where
  added : ℕ → Timers → Added
  refused : Timers → Added
  crashed : Added

-- `(times == 0) ? -1 : times`, stored in an unsigned int; `times` is not negative here.
abbrev pub stored_times : ℤ → ℕ
stored_times (pos zero) = 2 ^ 32 - 1
stored_times (pos (suc n)) = suc n % 2 ^ 32
stored_times (negsuc n) = 0

-- `period > 0 && call && times >= 0`
abbrev accepts : ℤ → ℤ → Option ℕ → Bool
accepts (pos p) (pos t) (some f) = ltb 0 p
accepts _ _ _ = false

abbrev pub seconds : ℤ → ℕ
seconds (pos p) = p
seconds (negsuc p) = 0

abbrev callee : Option ℕ → ℕ
callee (some f) = f
callee none = 0

-- The array is enlarged when it is full.
unfoldable pub enlarge : Timers → Timers
enlarge s =
    if leb s.maxqt s.activeqt
    then record s {
      qth = s.qth ++ replicate qt_alloc_step uninitialised;
      maxqt = s.maxqt + qt_alloc_step;
    }
    else s

-- `qth[n] = qtf; qtf = qtf->qt_arg;` and the writes to the fields of `qth[n]`.
abbrev pub install : QtTimer → Timers → List QtTimer → Timers
install t s rest = record s {
  qth = set s.qth s.activeqt t;
  qtf = rest;
  activeqt = s.activeqt + 1;
  countqt = s.countqt + 1;
}

abbrev pub free_tail : List QtTimer → List QtTimer
free_tail [] = []
free_tail (t ∷ ts) = ts

abbrev pub is_empty {ℓ} : {A : Type ℓ} → List A → Bool
is_empty [] = true
is_empty (x ∷ xs) = false

-- `grow_memory` and `timer_memory` say whether `realloc` and `malloc` succeed. After a failed
-- `malloc` the source tests `qth` where it means `qtf`, and writes through NULL.
unfoldable pub qtimer_add : ℤ → ℤ → Option ℕ → ℕ → Bool → Bool → Timers → Added
qtimer_add period times call arg grow_memory timer_memory s =
    if not (accepts period times call)
    then refused s
    else if leb s.maxqt s.activeqt && not grow_memory
    then refused (record s { qth = [] })
    else if is_empty s.qtf && not timer_memory
    then crashed
    else let t : QtTimer = record {
      qt_n = s.countqt;
      qt_period = seconds period;
      qt_nextcall = s.gqtime + seconds period;
      qt_times = stored_times times;
      qt_call = callee call;
      qt_arg = arg;
    } in
      added s.countqt (install t (enlarge s) (free_tail s.qtf))

-- for (i = ...; left > 0; i++) if (n == qth[i]->qt_n) { qth[i]->qt_times = 0; break; }
unfoldable pub del_loop : ℕ → ℕ → ℕ → List QtTimer → List QtTimer
del_loop zero i n qth = qth
del_loop (suc left) i n qth =
    let t = get_or qth i uninitialised in
    let rest = del_loop left (i + 1) n qth in
    if n == t.qt_n then set qth i (record t { qt_times = 0 }) else rest

unfoldable pub qtimer_del : ℕ → Timers → Timers
unfolding del_loop
qtimer_del n s = record s { qth = del_loop s.activeqt 0 n s.qth }

-- A call of a callback with its argument.
abbrev pub Call : Type 0
Call = ℕ × ℕ

-- One live timer at time `now`: what it becomes, and whether its callback runs. The test
-- `qt_times > 0` always holds here, for the field is unsigned and not 0.
abbrev pub due : ℕ → QtTimer → Bool
due now t = leb t.qt_nextcall now

abbrev pub fire : ℕ → QtTimer → QtTimer
fire now t =
    if due now t
    then record t {
      qt_nextcall = t.qt_nextcall + t.qt_period;
      qt_times = if ltb 0 t.qt_times then t.qt_times - 1 else t.qt_times;
    }
    else t

abbrev pub call_of : QtTimer → Call
call_of t = (t.qt_call, t.qt_arg)

-- The state of the loop in `sig_alarm`.
pub record Sweep : Type 0 where
  pub slots : List QtTimer
  pub freed : List QtTimer
  pub log : List Call
  pub next : ℕ  -- `j`

-- One round of the loop of `sig_alarm`. A dead timer goes to the free list; another is served, and
-- moved down to `j`.
unfoldable pub turn : ℕ → ℕ → Sweep → Sweep
turn now i w =
    let t = get_or w.slots i uninitialised in
    let u = fire now t in
    let kept = set w.slots i u in
    if t.qt_times == 0 then record w { freed = t ∷ w.freed } else record w {
      slots = if i == w.next then kept else set kept w.next u;
      log = if due now t then w.log ++ call_of t ∷ [] else w.log;
      next = w.next + 1;
    }

-- `left` rounds from `i`.
unfoldable pub sweep : ℕ → ℕ → ℕ → Sweep → Sweep
unfolding turn
sweep now zero i w = w
sweep now (suc left) i w = sweep now left (i + 1) (turn now i w)

-- The handler: the state after it, and the calls that it made.
unfoldable pub sig_alarm : Timers → Timers × List Call
unfolding sweep
sig_alarm s =
    let now = s.gqtime + 1 in
    let w = sweep now s.activeqt 0 (record { slots = s.qth; freed = s.qtf; log = []; next = 0 }) in
    (record s { qth = w.slots; qtf = w.freed; gqtime = now; activeqt = w.next }, w.log)
