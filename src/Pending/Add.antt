-- ===== src/Pending/Add.antt =====
-- `vdepq_add` of packetq.c with and without memory.
use vde.Common.{
  ℕ, ◌%◌, ◌^◌, ◌≡◌, if◌then◌else◌, ◌==◌, Bool, true, false, Option, none, some, List, [], ◌∷◌, ◌++◌,
  length,
}
use vde.Pending.{PacketBuf, Store, buf_at, count_up, Pushed}
use vde.Pending.Ring.{Link, IsQueue}

-- The buffer that the packet is to be in, before it is counted.
abbrev buffer_of : Option ℕ → List ℕ → ℕ → Store → Option PacketBuf
buffer_of none packet len s = some (record { len = len % 2 ^ 16; count = 0; packet = packet })
buffer_of (some pb) packet len s = buf_at s pb

abbrev pub given : Option ℕ → Bool
given none = false
given (some pb) = true

-- Where that buffer is: where the caller has it, else at the first address that was never used.
abbrev address_of : Option ℕ → Store → ℕ
address_of none s = length s.bufs
address_of (some pb) s = pb

-- The packet was put behind the elements `xs` of the store `s`.
pub record Appended (xs : List Link) (tmp : Option ℕ) (packet : List ℕ) (len : ℕ) (s : Store)
    (r : Pushed) : Type 0 where
  pub named : r.tmp ≡ some (address_of tmp s)
  pub queue : IsQueue r.store r.tail (xs ++ (length s.elems, address_of tmp s) ∷ [])
  pub bufs :
      (j : ℕ)
      → buf_at r.store j
        ≡ (if address_of tmp s == j then count_up (buffer_of tmp packet len s) else buf_at s j)
