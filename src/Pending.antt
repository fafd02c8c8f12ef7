-- ===== src/Pending.antt =====
-- vde-2/src/vde_switch/packetq.c: queues of packets that could not be sent yet, as built with VDE_PQ2.
-- A queue is a ring of elements on the heap, named by its last; the packets are in buffers that several
-- queues share. An address is an index into the lists of a `Store`, `none` there is freed memory.
pub mod Ring
pub mod Fifo
pub mod Freed
pub mod Count
pub mod Append
pub mod Add
use vde.Common.{
  ℕ, zero, suc, ◌+◌, ◌-◌, ◌%◌, ◌^◌, Bool, true, false, not, Option, none, some, List, [], ◌∷◌, ◌++◌,
  if◌then◌else◌, ◌==◌, length, get_or, set,
}

-- `struct packetbuf` with the bytes behind it; `count` is a `short`.
pub record PacketBuf : Type 0 where
  pub len : ℕ
  pub count : ℕ
  pub packet : List ℕ

-- `struct vdepq`
pub record Vdepq : Type 0 where
  pub vdepq_pb : ℕ
  pub vdepq_next : ℕ

pub record Store : Type 0 where
  pub bufs : List (Option PacketBuf)
  pub elems : List (Option Vdepq)

abbrev pub elem_at : Store → ℕ → Option Vdepq
elem_at s a = get_or s.elems a none

abbrev pub buf_at : Store → ℕ → Option PacketBuf
buf_at s a = get_or s.bufs a none

-- What a read through a bad pointer would see; a fault in C.
abbrev pub pb_of : Option Vdepq → ℕ
pb_of none = 0
pb_of (some e) = e.vdepq_pb

abbrev pub next_of : Option Vdepq → ℕ
next_of none = 0
next_of (some e) = e.vdepq_next

abbrev pub with_next : ℕ → Option Vdepq → Option Vdepq
with_next n none = none
with_next n (some e) = some (record e { vdepq_next = n })

-- a->vdepq_next = n;
abbrev set_next : ℕ → ℕ → Store → Store
set_next a n s = record s { elems = set s.elems a (with_next n (elem_at s a)) }

-- (packetbuftmp->count)++;
abbrev pub count_up : Option PacketBuf → Option PacketBuf
count_up none = none
count_up (some p) = some (record p { count = (p.count + 1) % 2 ^ 16 })

-- What the reference by one element is worth: the buffer with one less, freed at 0.
abbrev pub count_down : Option PacketBuf → Option PacketBuf
count_down none = none
count_down (some p) =
    let left = (p.count + 2 ^ 16 - 1) % 2 ^ 16 in
    if left == 0 then none else some (record p { count = left })

-- `PACKETBUFDEL`
unfoldable pub packetbufdel : ℕ → Store → Store
packetbufdel a s = record s { bufs = set s.bufs a (count_down (buf_at s a)) }

-- The result of `vdepq_add`, with `*tail` and `*tmp` after it.
pub record Pushed : Type 0 where
  pub done : Bool
  pub tail : Option ℕ
  pub tmp : Option ℕ
  pub store : Store

-- A new buffer at the end of the heap.
abbrev pub new_buf : List ℕ → ℕ → Store → Store
new_buf packet len s = record s {
  bufs = s.bufs ++ some (record { len = len % 2 ^ 16; count = 0; packet = packet }) ∷ [];
}

-- The part of `vdepq_add` behind the allocations: the element at the end of the heap goes behind the
-- last of the ring.
abbrev pub link : Option ℕ → ℕ → Store → Option ℕ × Store
link tail pb s =
    let new = length s.elems in
    let s1 = record s { bufs = set s.bufs pb (count_up (buf_at s pb)) } in
    elim tail [
      | none ↦ (
        some new,
        record s1 { elems = s1.elems ++ some (record { vdepq_pb = pb; vdepq_next = new }) ∷ [] },
      )
      | some t ↦ (
        some new,
        set_next t new (record s1 {
          elems =
              s1.elems ++ some (record { vdepq_pb = pb; vdepq_next = next_of (elem_at s1 t) }) ∷ [];
        }),
      )
    ]

-- `elem_memory` and `buf_memory` say whether `malloc` succeeds. `len` is kept in a `short`, here its 16 bits.
unfoldable pub vdepq_add : Bool → Bool → Option ℕ → List ℕ → ℕ → Option ℕ → Store → Pushed
vdepq_add elem_memory buf_memory tail packet len tmp s =
    if not elem_memory
    then record { done = false; tail = tail; tmp = tmp; store = s }
    else elim tmp [
      | some pb ↦
          let (tail', s') = link tail pb s in
          record { done = true; tail = tail'; tmp = some pb; store = s' }
      | none ↦
          let pb = length s.bufs in
          let (tail', s') = link tail pb (new_buf packet len s) in
          if buf_memory
          then record { done = true; tail = tail'; tmp = some pb; store = s' }
          else record { done = false; tail = tail; tmp = none; store = s }
    ]

-- The removal of the first element of a ring with last element `t`, as both loops do it.
unfoldable pub drop_first : ℕ → Store → Option ℕ × Store
unfolding packetbufdel
drop_first t s =
    let first = next_of (elem_at s t) in
    let s1 = packetbufdel (pb_of (elem_at s first)) s in
    let s2 = if first == t then s1 else set_next t (next_of (elem_at s1 first)) s1 in
    (if first == t then none else some t, record s2 { elems = set s2.elems first none })

-- The loop of `vdepq_del`, with as many rounds as `fuel`.
unfoldable pub vdepq_del : ℕ → Option ℕ → Store → Option ℕ × Store
vdepq_del zero tail s = (tail, s)
vdepq_del (suc fuel) none s = (none, s)
vdepq_del (suc fuel) (some t) s = let (tail', s') = drop_first t s in vdepq_del fuel tail' s'

-- What `vdepq_try` did: `sent` has the buffers it sent from, in order; it returns how many.
pub record Tried : Type 0 where
  pub tail : Option ℕ
  pub store : Store
  pub sent : List ℕ

-- The loop of `vdepq_try`. `blocks k` says whether call `k` of `sendfun` gives -EWOULDBLOCK.
unfoldable pub vdepq_try : (ℕ → Bool) → ℕ → ℕ → Option ℕ → Store → Tried
vdepq_try blocks zero k tail s = record { tail = tail; store = s; sent = [] }
vdepq_try blocks (suc fuel) k none s = record { tail = none; store = s; sent = [] }
vdepq_try blocks (suc fuel) k (some t) s =
    let pb = pb_of (elem_at s (next_of (elem_at s t))) in
    let (tail', s') = drop_first t s in
    let rest = vdepq_try blocks fuel (k + 1) tail' s' in
    if blocks k
    then record { tail = some t; store = s; sent = [] }
    else record rest { sent = pb ∷ rest.sent }
