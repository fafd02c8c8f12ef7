-- ===== src/Switch/Flood.antt =====
-- What one port receives of a loop that sends to many.
use vde.Common.{
  ℕ, zero, suc, ◌+◌, ◌≡◌, refl, ap, ap₂, ◌∙◌, arith, Bool, true, false, ◌&&◌, ◌||◌, not, some, List,
  [], ◌∷◌, ◌++◌, if◌then◌else◌, ◌==◌, ltb, leb, keep, keep-append, All, Bool-cases, Option-cases,
  inl, inr,
}
use mathlib.Core.List.{append-nil}
use vde.BitArray.Iterate.{upto}
use vde.Switch.{Endpoint, Port, Switch, port_at}
use vde.Switch.Frame.{Frame}
use vde.Switch.Forward.{Sent, send_eps, send_port, send_others, hub_loop}

-- The calls for port `i`, by the port number that they pass.
abbrev pub received : ℕ → List Sent → List Sent
received i xs = keep (λ x. x.port == i) xs

-- Every endpoint knows its port.
abbrev pub Numbered : Switch → Type 0
Numbered s = (i : ℕ) (p : Port) → port_at s i ≡ some p → All (λ e. e.port ≡ i) p.ep

received-send_eps :
    (i j : ℕ) (f : Frame) (es : List Endpoint)
    → All (λ e. e.port ≡ j) es
    → received i (send_eps f es) ≡ (if j == i then send_eps f es else [])
unfolding keep send_eps
received-send_eps i j f [] h = ground arith
received-send_eps i j f (e ∷ es) h = ground (arith, received-send_eps i j f es, h.0)

-- Whether `i` is one of the numbers from `j` on, `left` of them.
unfoldable pub within : ℕ → ℕ → ℕ → Bool
within left j i = leb j i && ltb i (j + left)

within-zero : (j i : ℕ) → within 0 j i ≡ false
unfolding within
within-zero j i = ground arith

within-suc : (left j i : ℕ) → within (suc left) j i ≡ ((j == i) || within left (j + 1) i)
unfolding within
within-suc left j i = ground arith

within-after : (left j i : ℕ) → (j == i) ≡ true → within left (j + 1) i ≡ false
unfolding within
within-after left j i h = ground arith

-- The same with a test on the numbers.
within-member :
    (c : ℕ → Bool) (left j i : ℕ)
    → c j ≡ true
    → ((j == i) || within left (j + 1) i && c i) ≡ (within (suc left) j i && c i)
within-member c left j i h = elim (Bool-cases (j == i)) [
  | inl same ↦
      let e : c i ≡ true = ap c (let e : i ≡ j = ground arith in e) ∙ h in
      rw (within-suc left j i, same, e) refl
  | inr other ↦ rw (within-suc left j i, other) refl
]

within-out :
    (c : ℕ → Bool) (left j i : ℕ)
    → c j ≡ false
    → (within left (j + 1) i && c i) ≡ (within (suc left) j i && c i)
within-out c left j i h = elim (Bool-cases (j == i)) [
  | inl same ↦
      let e : c i ≡ false = ap c (let e : i ≡ j = ground arith in e) ∙ h in
      rw (within-suc left j i, within-after left j i same, same, e) refl
  | inr other ↦ rw (within-suc left j i, other) refl
]

-- Two lists of which one at most is not empty.
append-if :
    (a b on : Bool) (xs : List Sent)
    → (a ≡ true → b ≡ false)
    → (if on && a then xs else []) ++ (if b && on then xs else [])
      ≡ (if (a || b) && on then xs else [])
append-if true b on xs h = rw (h refl) (one on)
  where
    one : (on : Bool) → (if on && true then xs else []) ++ [] ≡ (if on then xs else [])
    one true = append-nil xs
    one false = refl
append-if false b true xs h = refl
append-if false b false xs h = refl

module _ (s : Switch) (numbered : Numbered s) (f : Frame) where
  received-send_port :
      (i j : ℕ) → received i (send_port s f j) ≡ (if j == i then send_port s f j else [])
  unfolding send_port keep
  received-send_port i j = elim (Option-cases (port_at s j)) [
    | inl gone ↦ rw (gone, send_port) (ground arith)
    | inr (p, there) ↦ rw (there, send_port) (received-send_eps i j f p.ep (numbered j p there))
  ]

  -- One turn of a loop that passes over the port `from`.
  abbrev send_past : ℕ → ℕ → List Sent
  send_past from j = if j == from then [] else send_port s f j

  pub received-send_past :
      (from i j : ℕ)
      → received i (send_past from j) ≡ (if not (i == from) && j == i then send_port s f i else [])
  unfolding keep
  received-send_past from i j = elim (Bool-cases (j == i)) [
    | inl same ↦
        let e : j ≡ i = ground arith in
        elim (Bool-cases (i == from)) [
          | inl back ↦ rw (e, back) refl
          | inr on ↦ rw (e, on) (received-send_port i i)
        ]
    | inr other ↦ elim (Bool-cases (j == from)) [
      | inl back ↦ rw (back, other) (ground arith)
      | inr on ↦ rw (on, other, received-send_port i j) (ground arith)
    ]
  ]

  -- A turn for `j`, then the turns for the numbers behind it.
  received-step :
      (from i j : ℕ) (b : Bool) (rest : List Sent)
      → ((j == i) ≡ true → b ≡ false)
      → received i rest ≡ (if b && not (i == from) then send_port s f i else [])
      → received i (send_past from j ++ rest)
        ≡ (if (j == i || b) && not (i == from) then send_port s f i else [])
  received-step from i j b rest once h =
      keep-append (λ x. x.port == i) (send_past from j) rest
      ∙ ap₂ ◌++◌ (received-send_past from i j) h
      ∙ append-if (j == i) b (not (i == from)) (send_port s f i) once

  -- The loop over the members of a set.
  pub received-send_others :
      (c : ℕ → Bool) (from i left j : ℕ)
      → received i (send_others s f from (keep c (upto left j)))
        ≡ (if (within left j i && c i) && not (i == from) then send_port s f i else [])
  unfolding send_others keep
  received-send_others c from i zero j = rw (within-zero j i) refl
  received-send_others c from i (suc left) j =
      let rest = received-send_others c from i left (j + 1) in
      elim (Bool-cases (c j)) [
        | inl member ↦ rw member (
            received-step from i j (within left (j + 1) i && c i) _ (once left i j) rest
            ∙ rw (within-member c left j i member) refl)
        | inr out ↦ rw out (rest ∙ rw (within-out c left j i out) refl)
      ]
    where
      once : (left i j : ℕ) → (j == i) ≡ true → (within left (j + 1) i && c i) ≡ false
      once left i j h = rw (within-after left j i h) refl

  -- The loop of a hub.
  pub received-hub_loop :
      (from i left j : ℕ)
      → received i (hub_loop s f from left j)
        ≡ (if within left j i && not (i == from) then send_port s f i else [])
  unfolding hub_loop keep
  received-hub_loop from i zero j = rw (within-zero j i) refl
  received-hub_loop from i (suc left) j =
      received-step from i j (within left (j + 1) i) _ (within-after left j i)
        (received-hub_loop from i left (j + 1))
      ∙ rw (within-suc left j i) refl
