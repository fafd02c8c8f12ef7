-- ===== src/Pending/Freed.antt =====
-- `vdepq_del` of packetq.c gives back what the queue holds: its elements and its references to buffers.
use vde.Common.{
  ℕ, zero, suc, ◌<◌, ◌≤◌, ◌≡◌, refl, ap, sym, ◌∙◌, arith, Bool, true, false, Option, none, some,
  List, [], ◌∷◌, ◌++◌, if◌then◌else◌, ◌==◌, length, length-append, All, get_or-set_fix, Bool-cases,
  inl, inr,
}
use mathlib.Core.Path.{subst}
use vde.Pending.{
  PacketBuf, Vdepq, Store, elem_at, buf_at, pb_of, next_of, count_down, packetbufdel, drop_first,
  vdepq_del,
}
use vde.Pending.Ring.{
  Link, IsRing, IsQueue, drop_first-at, drop_first-many, drop_first-one, IsRing-first, IsRing-only,
}

-- A removal lets one reference to the buffer of the first element go.
drop_first-buf :
    (s : Store) (t b : ℕ)
    → buf_at (drop_first t s).1 b ≡ (
        if pb_of (elem_at s (next_of (elem_at s t))) == b
        then count_down (buf_at s b)
        else buf_at s b)
unfolding drop_first packetbufdel
drop_first-buf s t b =
    let p = pb_of (elem_at s (next_of (elem_at s t))) in
    elim (Bool-cases (next_of (elem_at s t) == t)) [
      | inl yes_ ↦ rw yes_ (get_or-set_fix s.bufs p b count_down none refl ∙ same p)
      | inr no_ ↦ rw no_ (get_or-set_fix s.bufs p b count_down none refl ∙ same p)
    ]
  where
    same :
        (p : ℕ)
        → (if p == b then count_down (buf_at s p) else buf_at s b)
          ≡ (if p == b then count_down (buf_at s b) else buf_at s b)
    same p = elim (Bool-cases (p == b)) [
      | inl yes_ ↦ let e : p ≡ b = ground arith in rw (yes_, e) refl
      | inr no_ ↦ rw no_ refl
    ]

-- A freed element is not touched again.
drop_first-freed : (s : Store) (t j : ℕ) → elem_at s j ≡ none → elem_at (drop_first t s).1 j ≡ none
unfolding drop_first packetbufdel
drop_first-freed s t j h =
    let x = next_of (elem_at s t) in
    elim (Bool-cases (x == t)) [
      | inl yes_ ↦ rw yes_ (get_or-set_fix s.elems x j (λ o. none) none refl ∙ either (x == j) h)
      | inr no_ ↦
          drop_first-at s t x j refl no_
          ∙ either (x == j) (elim (Bool-cases (t == j)) [
            | inl same ↦ let e : t ≡ j = ground arith in rw (same, e, h) refl
            | inr other ↦ rw other h
          ])
    ]
  where
    either : {o : Option Vdepq} (c : Bool) → o ≡ none → (if c then none else o) ≡ none
    either true h = refl
    either false h = h

-- A buffer after some elements let go of it.
unfoldable pub released : ℕ → List Link → Option PacketBuf → Option PacketBuf
released b [] o = o
released b (x ∷ xs) o = released b xs (if x.1 == b then count_down o else o)

del_none : (fuel : ℕ) (s : Store) → vdepq_del fuel none s ≡ (none, s)
unfolding vdepq_del
del_none zero s = refl
del_none (suc fuel) s = refl

del_step :
    (fuel : ℕ) (s : Store) (t : ℕ) (o : Option ℕ)
    → (drop_first t s).0 ≡ o
    → vdepq_del (suc fuel) (some t) s ≡ vdepq_del fuel o (drop_first t s).1
unfolding vdepq_del
del_step fuel s t o e = ap (λ o. vdepq_del fuel o (drop_first t s).1) e

del-freed :
    (fuel : ℕ) (tail : Option ℕ) (s : Store) (j : ℕ)
    → elem_at s j ≡ none
    → elem_at (vdepq_del fuel tail s).1 j ≡ none
unfolding vdepq_del
del-freed zero tail s j h = h
del-freed (suc fuel) none s j h = h
del-freed (suc fuel) (some t) s j h =
    del-freed fuel (drop_first t s).0 (drop_first t s).1 j (drop_first-freed s t j h)

abbrev GaveBack : List Link → Store → Option ℕ × Store → Type 0
GaveBack xs s r =
    (r.0 ≡ none)
    × All (λ x. elem_at r.1 x.0 ≡ none) xs
    × ((b : ℕ) → buf_at r.1 b ≡ released b xs (buf_at s b))

del_ring :
    (fuel : ℕ) (ys : List Link) (s : Store) (t pb : ℕ)
    → length ys < fuel
    → IsRing s ys t pb
    → GaveBack (ys ++ (t, pb) ∷ []) s (vdepq_del fuel (some t) s)
unfolding released
del_ring zero ys s t pb enough ring = absurd (omega arith)
del_ring (suc fuel) [] s t pb enough ring =
    let (empty, gone) = drop_first-one s t pb ring in
    rw (del_step fuel s t none empty, del_none fuel (drop_first t s).1)
      (refl, (gone, tt), λ b. drop_first-buf s t b ∙ rw (IsRing-only s t pb ring) refl)
del_ring (suc fuel) ((x, p) ∷ ys) s t pb enough ring =
    let (same, ring', gone) = drop_first-many s x p ys t pb ring in
    let s' = (drop_first t s).1 in
    let (empty, freed, bufs) = del_ring fuel ys s' t pb (omega arith) ring' in
    subst (GaveBack ((x, p) ∷ ys ++ (t, pb) ∷ []) s) (sym (del_step fuel s t (some t) same)) (
      empty,
      (del-freed fuel (some t) s' x gone, freed),
      λ b.
          bufs b
          ∙ ap (released b (ys ++ (t, pb) ∷ []))
              (drop_first-buf s t b ∙ rw (IsRing-first s x p ys t pb ring) refl),
    )

pub del_all :
    (fuel : ℕ) (tail : Option ℕ) (s : Store) (xs : List Link)
    → length xs ≤ fuel
    → IsQueue s tail xs
    → GaveBack xs s (vdepq_del fuel tail s)
unfolding released
del_all fuel none s xs enough q = rw (q, del_none fuel s) (refl, tt, λ b. refl)
del_all fuel (some t) s xs enough (ys, pb, e, ring) =
    rw e
      (del_ring fuel ys s t pb (omega (arith, ap length e, length-append ys ((t, pb) ∷ []))) ring)
