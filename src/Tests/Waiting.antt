-- ===== src/Tests/Waiting.antt =====
-- The queues of unsent packets at concrete inputs.
use vde.Common.{All, ◌≤◌, Bool, true, ℕ, ◌≡◌, refl, arith, none, some, List, [], ◌∷◌, ◌==◌}
use vde.Pending.{
  PacketBuf, elem_at, buf_at, Store, Pushed, vdepq_add, vdepq_del, vdepq_try, drop_first,
  packetbufdel,
}
use vde.Pending.Ring.{Link, IsQueue}
use vde.Pending.Fifo.{SentInOrder, went, vdepq_try-went}
use vde.Pending.Count.{refs, less, vdepq_del-released}

abbrev shared : PacketBuf
shared = record { len = 3; count = 2; packet = 7 ∷ 8 ∷ 9 ∷ [] }

-- One packet waits twice, in one buffer.
abbrev waiting : Store
waiting = record {
  bufs = some shared ∷ [];
  elems =
      some (record { vdepq_pb = 0; vdepq_next = 1 })
      ∷ some (record { vdepq_pb = 0; vdepq_next = 0 })
      ∷ [];
}

abbrev waiters : List Link
waiters = (0, 0) ∷ (1, 0) ∷ []

waiting-IsQueue : IsQueue waiting (some 1) waiters
waiting-IsQueue = (
  (0, 0) ∷ [],
  0,
  refl,
  record {
    first = 0;
    path = (refl, 1, refl, refl);
    last = refl;
    apart = (((λ e. omega (arith, e)), tt), (tt, tt));
  },
)

two_refs : refs 0 waiters ≤ 2
unfolding refs
two_refs = omega arith

-- The second call of `sendfun` blocks.
abbrev second : ℕ → Bool
second k = k == 1

vdepq_try-went_example : SentInOrder second 0 waiters (vdepq_try second 2 0 (some 1) waiting)
vdepq_try-went_example =
    vdepq_try-went second 2 0 (some 1) waiting waiters (omega arith) waiting-IsQueue

went-waiters : went second 0 waiters ≡ 0 ∷ []
unfolding went
went-waiters = refl

vdepq_del-released_example :
    ((vdepq_del 2 (some 1) waiting).0 ≡ none)
    × All (λ x. elem_at (vdepq_del 2 (some 1) waiting).1 x.0 ≡ none) waiters
    × (buf_at (vdepq_del 2 (some 1) waiting).1 0 ≡ less (refs 0 waiters) shared)
vdepq_del-released_example =
    vdepq_del-released 2 (some 1) waiting waiters 0 shared (omega arith) waiting-IsQueue refl
      two_refs (omega arith)

-- Both references gone, the buffer is free.
del_waiting : (vdepq_del 2 (some 1) waiting).1.bufs ≡ none ∷ []
unfolding vdepq_del drop_first packetbufdel
del_waiting = refl

-- A further packet, for which no buffer was made yet.
abbrev third : Pushed
third = vdepq_add true true (some 1) (4 ∷ 5 ∷ []) 2 none waiting

-- A packet put in an empty queue is its own next.
add_first :
    (vdepq_add true true none (4 ∷ []) 1 none (record { bufs = []; elems = [] })).store.elems
    ≡ some (record { vdepq_pb = 0; vdepq_next = 0 }) ∷ []
unfolding vdepq_add
add_first = refl
