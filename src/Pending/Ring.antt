-- ===== src/Pending/Ring.antt =====
-- The rings of packetq.c.
use vde.Common.{
  ℕ, ◌≡◌, ◌≢◌, refl, sym, ap, ◌∙◌, false, Option, none, some, List, [], ◌∷◌, ◌++◌, if◌then◌else◌,
  ◌==◌, set, All, get_or-set_fix, ==-refl, ==-false,
}
use vde.Pending.{Vdepq, Store, elem_at, pb_of, next_of, with_next, drop_first, packetbufdel}

-- An element of a queue: its address and that of its buffer.
abbrev pub Link : Type 0
Link = ℕ × ℕ

-- From address `a` the elements follow one another to address `b`.
abbrev pub IsPath : (ℕ → Option Vdepq) → ℕ → List Link → ℕ → Type 0
IsPath at a [] b = a ≡ b
IsPath at a ((x, pb) ∷ xs) b =
    (a ≡ x) × (n : ℕ) × (at x ≡ some (record { vdepq_pb = pb; vdepq_next = n })) × IsPath at n xs b

-- None of the elements is at an address.
abbrev pub Avoids : ℕ → List Link → Type 0
Avoids a xs = All (λ x. x.0 ≢ a) xs

abbrev pub AreApart : List Link → Type 0
AreApart [] = Unit
AreApart (x ∷ xs) = Avoids x.0 xs × AreApart xs

-- A path is not concerned by changes elsewhere.
pub IsPath-other :
    (f g : ℕ → Option Vdepq) (a : ℕ) (xs : List Link) (b : ℕ)
    → All (λ x. g x.0 ≡ f x.0) xs
    → IsPath f a xs b
    → IsPath g a xs b
IsPath-other f g a [] b h p = p
IsPath-other f g a ((x, pb) ∷ xs) b (h, hs) (e, n, there, rest) =
    (e, n, h ∙ there, IsPath-other f g n xs b hs rest)

pub IsPath-append :
    (f : ℕ → Option Vdepq) (a : ℕ) (xs ys : List Link) (b c : ℕ)
    → IsPath f a xs b
    → IsPath f b ys c
    → IsPath f a (xs ++ ys) c
IsPath-append f a [] ys b c p q = rw p q
IsPath-append f a ((x, pb) ∷ xs) ys b c (e, n, there, rest) q =
    (e, n, there, IsPath-append f n xs ys b c rest q)

-- A ring with last element `t`, of buffer `pb`: the elements before it lead from its successor to it.
pub record IsRing (s : Store) (xs : List Link) (t pb : ℕ) : Type 0 where
  pub first : ℕ
  pub path : IsPath (elem_at s) first xs t
  pub last : elem_at s t ≡ some (record { vdepq_pb = pb; vdepq_next = first })
  pub apart : Avoids t xs × AreApart xs

-- The queue named by `tail` holds these elements, first to last.
abbrev pub IsQueue : Store → Option ℕ → List Link → Type 0
IsQueue s none xs = xs ≡ []
IsQueue s (some t) xs = (ys : List Link) × (pb : ℕ) × (xs ≡ ys ++ (t, pb) ∷ []) × IsRing s ys t pb

-- The elements are not changed by what happens at two addresses they avoid.
All-same :
    (f g : ℕ → Option Vdepq) (a b : ℕ) (xs : List Link)
    → ((j : ℕ) → j ≢ a → j ≢ b → g j ≡ f j)
    → Avoids a xs
    → Avoids b xs
    → All (λ x. g x.0 ≡ f x.0) xs
All-same f g a b [] h p q = tt
All-same f g a b (x ∷ xs) h (p, ps) (q, qs) = (h x.0 p q, All-same f g a b xs h ps qs)

-- What stands on the heap after the first of several elements was taken out.
pub drop_first-at :
    (s : Store) (t x j : ℕ)
    → next_of (elem_at s t) ≡ x
    → (x == t) ≡ false
    → elem_at (drop_first t s).1 j ≡ (
        if x == j
        then none
        else if t == j
        then with_next (next_of (elem_at s x)) (elem_at s t)
        else elem_at s j)
unfolding drop_first packetbufdel
drop_first-at s t x j e h =
    let f : Option Vdepq → Option Vdepq = with_next (next_of (elem_at s x)) in
    rw (e, h)
      (get_or-set_fix (set s.elems t (f (elem_at s t))) x j (λ o. none) none refl
        ∙ ap (λ o. if x == j then none else o) (get_or-set_fix s.elems t j f none refl))

drop_first-tail :
    (s : Store) (t x : ℕ)
    → next_of (elem_at s t) ≡ x
    → (x == t) ≡ false
    → (drop_first t s).0 ≡ some t
unfolding drop_first
drop_first-tail s t x e h = rw (e, h) refl

-- The first of several elements is taken out: the ring goes on from the second.
pub drop_first-many :
    (s : Store) (x p : ℕ) (xs : List Link) (t pb : ℕ)
    → IsRing s ((x, p) ∷ xs) t pb
    → ((drop_first t s).0 ≡ some t)
      × IsRing (drop_first t s).1 xs t pb
      × (elem_at (drop_first t s).1 x ≡ none)
drop_first-many s x p xs t pb ring =
    let record {
      first = first;
      path = (e, n, there, rest);
      last = last;
      apart = ((u, us), (v, vs));
    } =
      ring in
    let next_t : next_of (elem_at s t) ≡ x = ap next_of last ∙ e in
    let next_x : next_of (elem_at s x) ≡ n = ap next_of there in
    let other : (x == t) ≡ false = ==-false x t u in
    (
      drop_first-tail s t x next_t other,
      record {
        first = n;
        path =
            IsPath-other (elem_at s) (elem_at (drop_first t s).1) n xs t
              (All-same (elem_at s) (elem_at (drop_first t s).1) t x xs
                (λ j a b.
                  drop_first-at s t x j next_t other
                  ∙ rw (==-false x j (λ q. b (sym q)), ==-false t j (λ q. a (sym q))) refl)
                us v)
              rest;
        last = drop_first-at s t x t next_t other ∙ rw (other, ==-refl t, last, next_x) refl;
        apart = (us, vs);
      },
      drop_first-at s t x x next_t other ∙ rw (==-refl x) refl,
    )

-- The only element is taken out.
pub drop_first-one :
    (s : Store) (t pb : ℕ)
    → IsRing s [] t pb
    → ((drop_first t s).0 ≡ none) × (elem_at (drop_first t s).1 t ≡ none)
unfolding drop_first packetbufdel
drop_first-one s t pb ring =
    let e : next_of (elem_at s t) ≡ t = ap next_of ring.last ∙ ring.path in
    (
      rw (e, ==-refl t) refl,
      rw (e, ==-refl t) (get_or-set_fix s.elems t t (λ o. none) none refl ∙ rw (==-refl t) refl),
    )

-- The next of the last element is the first.
pub IsRing-first :
    (s : Store) (x p : ℕ) (xs : List Link) (t pb : ℕ)
    → IsRing s ((x, p) ∷ xs) t pb
    → pb_of (elem_at s (next_of (elem_at s t))) ≡ p
IsRing-first s x p xs t pb ring =
    let record { first = first; path = (e, n, there, rest); last = last; apart = far } = ring in
    rw (last, e, there) refl

pub IsRing-only :
    (s : Store) (t pb : ℕ) → IsRing s [] t pb → pb_of (elem_at s (next_of (elem_at s t))) ≡ pb
IsRing-only s t pb ring = rw (ap next_of ring.last ∙ ring.path) (ap pb_of ring.last)
