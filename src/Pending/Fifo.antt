-- ===== src/Pending/Fifo.antt =====
-- The queues of packetq.c are first in, first out.
use vde.Common.{
  ℕ, zero, suc, ◌+◌, ◌<◌, ◌≤◌, ◌≡◌, refl, ap, arith, Bool, Option, none, some, List, [], ◌∷◌, ◌++◌,
  if◌then◌else◌, length, length-append, Bool-cases, inl, inr,
}
use vde.Pending.{Store, drop_first, Tried, vdepq_try}
use vde.Pending.Ring.{
  Link, IsRing, IsQueue, drop_first-many, drop_first-one, IsRing-first, IsRing-only,
}

-- The buffers of the elements in front of the first one that blocks, and the elements from there on.
unfoldable pub went : (ℕ → Bool) → ℕ → List Link → List ℕ
went blocks k [] = []
went blocks k (x ∷ xs) = if blocks k then [] else x.1 ∷ went blocks (k + 1) xs

unfoldable pub stays : (ℕ → Bool) → ℕ → List Link → List Link
stays blocks k [] = []
stays blocks k (x ∷ xs) = if blocks k then x ∷ xs else stays blocks (k + 1) xs

abbrev pub SentInOrder : (ℕ → Bool) → ℕ → List Link → Tried → Type 0
SentInOrder blocks k xs r = (r.sent ≡ went blocks k xs) × IsQueue r.store r.tail (stays blocks k xs)

try_none :
    (blocks : ℕ → Bool) (fuel k : ℕ) (s : Store)
    → vdepq_try blocks fuel k none s ≡ record { tail = none; store = s; sent = [] }
unfolding vdepq_try
try_none blocks zero k s = refl
try_none blocks (suc fuel) k s = refl

try_one :
    (blocks : ℕ → Bool) (fuel k : ℕ) (s : Store) (t pb : ℕ)
    → IsRing s [] t pb
    → SentInOrder blocks k ((t, pb) ∷ []) (vdepq_try blocks (suc fuel) k (some t) s)
unfolding vdepq_try went stays
try_one blocks fuel k s t pb ring = elim (Bool-cases (blocks k)) [
  | inl yes_ ↦ rw yes_ (refl, ([], pb, refl, ring))
  | inr no_ ↦
      rw (no_, (drop_first-one s t pb ring).0, try_none blocks fuel (k + 1) (drop_first t s).1)
        (ap (λ p. p ∷ []) (IsRing-only s t pb ring), refl)
]

try_ring :
    (blocks : ℕ → Bool) (fuel k : ℕ) (ys : List Link) (s : Store) (t pb : ℕ)
    → length ys < fuel
    → IsRing s ys t pb
    → SentInOrder blocks k (ys ++ (t, pb) ∷ []) (vdepq_try blocks fuel k (some t) s)
unfolding vdepq_try went stays
try_ring blocks zero k ys s t pb enough ring = absurd (omega arith)
try_ring blocks (suc fuel) k [] s t pb enough ring = try_one blocks fuel k s t pb ring
try_ring blocks (suc fuel) k ((x, p) ∷ ys) s t pb enough ring = elim (Bool-cases (blocks k)) [
  | inl yes_ ↦ rw yes_ (refl, ((x, p) ∷ ys, pb, refl, ring))
  | inr no_ ↦
      let (same, ring', gone) = drop_first-many s x p ys t pb ring in
      let (order, queue) =
        try_ring blocks fuel (k + 1) ys (drop_first t s).1 t pb (omega arith) ring' in
      rw (no_, same, IsRing-first s x p ys t pb ring) (rw order refl, queue)
]

-- With rounds for all elements `vdepq_try` sends the packets from the first one on, up to the first for
-- which `sendfun` would block; that one and those behind it are left as the queue, in their order.
pub vdepq_try-went :
    (blocks : ℕ → Bool) (fuel k : ℕ) (tail : Option ℕ) (s : Store) (xs : List Link)
    → length xs ≤ fuel
    → IsQueue s tail xs
    → SentInOrder blocks k xs (vdepq_try blocks fuel k tail s)
unfolding went stays
vdepq_try-went blocks fuel k none s xs enough q = rw (q, try_none blocks fuel k s) (refl, refl)
vdepq_try-went blocks fuel k (some t) s xs enough (ys, pb, e, ring) = rw e (
    try_ring blocks fuel k ys s t pb (omega (arith, ap length e, length-append ys ((t, pb) ∷ [])))
      ring)
