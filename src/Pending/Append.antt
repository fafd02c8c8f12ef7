-- ===== src/Pending/Append.antt =====
-- `vdepq_add` of packetq.c puts the packet behind the others.
use vde.Common.{
  ℕ, ◌<◌, ◌≡◌, ◌≢◌, refl, ap, sym, ◌∙◌, arith, false, Option, none, some, List, [], ◌∷◌, ◌++◌,
  if◌then◌else◌, ◌==◌, ltb, length, All, get_or, get_or-set_fix, get_or_out, get_or-append_left,
  Bool-cases, inl, inr, ==-false, ==-refl,
}
use mathlib.Core.Option.{none-ne-some}
use vde.Pending.{Vdepq, Store, elem_at, next_of, with_next, link}
use vde.Pending.Ring.{Link, IsPath, IsPath-other, IsPath-append, Avoids, AreApart, IsRing, IsQueue}

-- An address with an element is an address of the heap.
elem_at-inside : (s : Store) (a : ℕ) (e : Vdepq) → elem_at s a ≡ some e → a < length s.elems
elem_at-inside s a e h = elim (Bool-cases (ltb a (length s.elems))) [
  | inl yes_ ↦ ground arith
  | inr no_ ↦ absurd (none-ne-some e (sym (get_or_out s.elems a none (ground arith)) ∙ h))
]

abbrev Inside : Store → List Link → Type 0
Inside s xs = All (λ x. x.0 < length s.elems) xs

IsPath-Inside :
    (s : Store) (a : ℕ) (xs : List Link) (b : ℕ) → IsPath (elem_at s) a xs b → Inside s xs
IsPath-Inside s a [] b p = tt
IsPath-Inside s a ((x, pb) ∷ xs) b (e, n, there, rest) = (
  elem_at-inside s x (record { vdepq_pb = pb; vdepq_next = n }) there,
  IsPath-Inside s n xs b rest,
)

Inside-Avoids : (s : Store) (xs : List Link) → Inside s xs → Avoids (length s.elems) xs
Inside-Avoids s [] h = tt
Inside-Avoids s (x ∷ xs) (h, hs) = ((λ e. omega (arith, e)), Inside-Avoids s xs hs)

Avoids-append :
    (a : ℕ) (xs : List Link) (y : Link) → Avoids a xs → y.0 ≢ a → Avoids a (xs ++ y ∷ [])
Avoids-append a [] y h k = (k, tt)
Avoids-append a (x ∷ xs) y (h, hs) k = (h, Avoids-append a xs y hs k)

AreApart-append :
    (xs : List Link) (y : Link) → Avoids y.0 xs → AreApart xs → AreApart (xs ++ y ∷ [])
AreApart-append [] y h k = (tt, tt)
AreApart-append (x ∷ xs) y (h, hs) (k, ks) =
    (Avoids-append x.0 xs y k (λ e. h (sym e)), AreApart-append xs y hs ks)

-- The heap after a packet went behind the element at `t`.
link-at :
    (s : Store) (t pb j : ℕ)
    → t < length s.elems
    → elem_at (link (some t) pb s).1 j ≡ (
        if t == j
        then with_next (length s.elems) (elem_at s t)
        else get_or
            (s.elems ++ some (record { vdepq_pb = pb; vdepq_next = next_of (elem_at s t) }) ∷ [])
            j
            none)
link-at s t pb j inside =
    let new = length s.elems in
    let all = s.elems ++ some (record { vdepq_pb = pb; vdepq_next = next_of (elem_at s t) }) ∷ [] in
    get_or-set_fix all t j (with_next new) none refl
    ∙ ap (λ o. if t == j then with_next new o else get_or all j none)
        (get_or-append_left s.elems
          (some (record { vdepq_pb = pb; vdepq_next = next_of (elem_at s t) }) ∷ []) t none inside)

-- The new element stands at the end of the heap.
pub end_of {ℓ} :
    {A : Type ℓ} (xs : List (Option A)) (o : Option A) → get_or (xs ++ o ∷ []) (length xs) none ≡ o
end_of [] o = refl
end_of (x ∷ xs) o = end_of xs o

All-kept :
    (s : Store) (t pb : ℕ) (xs : List Link)
    → t < length s.elems
    → Inside s xs
    → Avoids t xs
    → All (λ x. elem_at (link (some t) pb s).1 x.0 ≡ elem_at s x.0) xs
All-kept s t pb [] inside h k = tt
All-kept s t pb (x ∷ xs) inside (h, hs) (k, ks) = (
  link-at s t pb x.0 inside
      ∙ rw (==-false t x.0 (λ e. k (sym e))) (
          get_or-append_left s.elems
            (some (record { vdepq_pb = pb; vdepq_next = next_of (elem_at s t) }) ∷ []) x.0 none h),
  All-kept s t pb xs inside hs ks,
)

link-IsRing :
    (s : Store) (ys : List Link) (t p pb : ℕ)
    → IsRing s ys t p
    → IsRing (link (some t) pb s).1 (ys ++ (t, p) ∷ []) (length s.elems) pb
link-IsRing s ys t p pb ring =
    let record { first = first; path = path; last = last; apart = (away, apart) } = ring in
    let new = length s.elems in
    let inside = elem_at-inside s t (record { vdepq_pb = p; vdepq_next = first }) last in
    let all = IsPath-Inside s first ys t path in
    let other : (t == new) ≡ false = ==-false t new (λ e. omega (arith, e)) in
    record {
      first = first;
      path =
          IsPath-append (elem_at (link (some t) pb s).1) first ys ((t, p) ∷ []) t new
            (IsPath-other (elem_at s) (elem_at (link (some t) pb s).1) first ys t
              (All-kept s t pb ys inside all away) path)
            (refl, new, link-at s t pb t inside ∙ rw (==-refl t, last) refl, refl);
      last =
          link-at s t pb new inside
          ∙ rw other (
              end_of s.elems (some (record { vdepq_pb = pb; vdepq_next = next_of (elem_at s t) }))
              ∙ rw last refl);
      apart = (
        Avoids-append new ys (t, p) (Inside-Avoids s ys all) (λ e. omega (arith, e, inside)),
        AreApart-append ys (t, p) away apart,
      );
    }

pub link-IsQueue :
    (s : Store) (tail : Option ℕ) (pb : ℕ) (xs : List Link)
    → IsQueue s tail xs
    → IsQueue (link tail pb s).1 (link tail pb s).0 (xs ++ (length s.elems, pb) ∷ [])
link-IsQueue s none pb xs q = (
  [],
  pb,
  ap (λ xs. xs ++ (length s.elems, pb) ∷ []) q,
  record {
    first = length s.elems;
    path = refl;
    last = end_of s.elems (some (record { vdepq_pb = pb; vdepq_next = length s.elems }));
    apart = (tt, tt);
  },
)
link-IsQueue s (some t) pb xs (ys, p, e, ring) = (
  ys ++ (t, p) ∷ [],
  pb,
  ap (λ xs. xs ++ (length s.elems, pb) ∷ []) e,
  link-IsRing s ys t p pb ring,
)
