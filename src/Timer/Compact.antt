-- ===== src/Timer/Compact.antt =====
-- The handler's in-place loop against its meaning: serve the live timers, drop the dead ones.
use vde.Common.{
  ℕ, zero, suc, ◌+◌, ◌≤◌, ◌<◌, ◌≡◌, refl, sym, ap, ap₂, ◌∙◌, arith, Bool, true, false, not, List,
  [], ◌∷◌, ◌++◌, map, if◌then◌else◌, ◌==◌, length, length-set, get_or, set, take, drop, keep,
  Bool-cases, inl, inr,
}
use mathlib.Core.List.{append_assoc, append-nil}
use vde.Timer.{
  QtTimer, Timers, uninitialised, Call, due, fire, call_of, Sweep, turn, sweep, sig_alarm,
}

-- The timers in use.
abbrev pub active : Timers → List QtTimer
active s = take s.activeqt s.qth

abbrev pub is_live : QtTimer → Bool
is_live t = not (t.qt_times == 0)

-- What the loop means: the timers that stay, and the calls that are made, in order.
abbrev pub served : ℕ → List QtTimer → List QtTimer
served now ts = map (fire now) (keep is_live ts)

abbrev pub calls : ℕ → List QtTimer → List Call
calls now ts = map call_of (keep (due now) (keep is_live ts))

module _ {ℓ} {A : Type ℓ} where
  pub take-set_snoc :
      (j : ℕ) (xs : List A) (v : A)
      → j < length xs
      → take (j + 1) (set xs j v) ≡ take j xs ++ v ∷ []
  take-set_snoc j [] v h = absurd (omega arith)
  take-set_snoc zero (x ∷ xs) v h = refl
  take-set_snoc (suc j) (x ∷ xs) v h =
      let e : suc j + 1 ≡ suc (j + 1) = omega arith in
      rw e (ap (λ t. x ∷ t) (take-set_snoc j xs v (omega arith)))

  take-set_past : (j i : ℕ) (xs : List A) (v : A) → j ≤ i → take j (set xs i v) ≡ take j xs
  take-set_past zero i xs v h = refl
  take-set_past (suc j) i [] v h = refl
  take-set_past (suc j) zero (x ∷ xs) v h = absurd (omega arith)
  take-set_past (suc j) (suc i) (x ∷ xs) v h =
      ap (λ t. x ∷ t) (take-set_past j i xs v (omega arith))

  drop-set_before : (i j : ℕ) (xs : List A) (v : A) → j < i → drop i (set xs j v) ≡ drop i xs
  drop-set_before zero j xs v h = absurd (omega arith)
  drop-set_before (suc i) j [] v h = refl
  drop-set_before (suc i) zero (x ∷ xs) v h = refl
  drop-set_before (suc i) (suc j) (x ∷ xs) v h = drop-set_before i j xs v (omega arith)

  drop-get_or :
      (i : ℕ) (xs : List A) (d : A) → i < length xs → drop i xs ≡ get_or xs i d ∷ drop (i + 1) xs
  drop-get_or i [] d h = absurd (omega arith)
  drop-get_or zero (x ∷ xs) d h = refl
  drop-get_or (suc i) (x ∷ xs) d h =
      let e : suc i + 1 ≡ suc (i + 1) = omega arith in rw e (drop-get_or i xs d (omega arith))

served-cons :
    (now : ℕ) (t : QtTimer) (ts : List QtTimer)
    → served now (t ∷ ts) ≡ served now (t ∷ []) ++ served now ts
unfolding keep
served-cons now t ts = ground arith

pub calls-cons :
    (now : ℕ) (t : QtTimer) (ts : List QtTimer)
    → calls now (t ∷ ts) ≡ calls now (t ∷ []) ++ calls now ts
unfolding keep
calls-cons now t ts = ground arith

module _ (now : ℕ) (t : QtTimer) where
  served_dead : (t.qt_times == 0) ≡ true → served now (t ∷ []) ≡ []
  unfolding keep
  served_dead h = rw h refl

  served_live : (t.qt_times == 0) ≡ false → served now (t ∷ []) ≡ fire now t ∷ []
  unfolding keep
  served_live h = rw h refl

  calls_dead : (t.qt_times == 0) ≡ true → calls now (t ∷ []) ≡ []
  unfolding keep
  calls_dead h = rw h refl

  calls_live :
      (t.qt_times == 0) ≡ false → calls now (t ∷ []) ≡ (if due now t then call_of t ∷ [] else [])
  unfolding keep
  calls_live h = rw h (ground arith)

-- Two writes of one value, at `i` and then at a place `j` that does not come after it.
module _ {ℓ} {A : Type ℓ} (xs : List A) (v : A) (i j : ℕ) (h : i < length xs) (k : j ≤ i) where
  written : List A
  written = if i == j then set xs i v else set (set xs i v) j v

  take-written : take (j + 1) written ≡ take j xs ++ v ∷ []
  unfolding written
  take-written = elim (Bool-cases (i == j)) [
    | inl same ↦ let e : i ≡ j = ground arith in rw same (rw e (take-set_snoc j xs v (omega arith)))
    | inr other ↦ rw other (
        take-set_snoc j (set xs i v) v (omega (arith, length-set {ℓ} xs i v))
        ∙ ap (λ t. t ++ v ∷ []) (take-set_past j i xs v k))
  ]

  drop-written : drop (i + 1) written ≡ drop (i + 1) xs
  unfolding written
  drop-written = elim (Bool-cases (i == j)) [
    | inl same ↦ rw same (drop-set_before (i + 1) i xs v (omega arith))
    | inr other ↦ rw other (
        drop-set_before (i + 1) j (set xs i v) v (omega arith)
        ∙ drop-set_before (i + 1) i xs v (omega arith))
  ]

module _ (now i : ℕ) (w : Sweep) (h : i < length w.slots) (k : w.next ≤ i) where
  cell : QtTimer
  cell = get_or w.slots i uninitialised

  -- One round, by its effect on the compacted part, the rest and the log.
  record Turned (r : Sweep) : Type 0 where
    same_length : length r.slots ≡ length w.slots
    moved : take r.next r.slots ≡ take w.next w.slots ++ served now (cell ∷ [])
    ahead : drop (i + 1) r.slots ≡ drop (i + 1) w.slots
    logged : r.log ≡ w.log ++ calls now (cell ∷ [])
    bounded : r.next ≤ i + 1

  turn-Turned : Turned (turn now i w)
  unfolding turn cell written
  turn-Turned = elim (Bool-cases (cell.qt_times == 0)) [
    | inl dead ↦ rw dead (record {
      same_length = refl;
      moved = sym (ap (λ t. take w.next w.slots ++ t) (served_dead now cell dead) ∙ append-nil _);
      ahead = refl;
      logged = sym (ap (λ t. w.log ++ t) (calls_dead now cell dead) ∙ append-nil _);
      bounded = omega arith;
    })
    | inr live ↦
        let u = fire now cell in
        let kept = set w.slots i u in
        let same = length-set {0} w.slots i u in
        rw live (record {
          same_length = ground (arith, same, length-set kept w.next u);
          moved = rw (served_live now cell live) (take-written w.slots u i w.next h k);
          ahead = drop-written w.slots u i w.next h k;
          logged = rw (calls_live now cell live) (ground (arith, append-nil w.log));
          bounded = omega arith;
        })
  ]

-- What the loop leaves, from round `i` on, in terms of the slots from `i` on.
record Swept (now left i : ℕ) (w r : Sweep) : Type 0 where
  pub same_length : length r.slots ≡ length w.slots
  pub moved : take r.next r.slots ≡ take w.next w.slots ++ served now (take left (drop i w.slots))
  pub logged : r.log ≡ w.log ++ calls now (take left (drop i w.slots))
  pub bounded : r.next ≤ i + left

take-drop-suc :
    {A : Type 0} (left i : ℕ) (xs : List A) (d : A)
    → i < length xs
    → take (suc left) (drop i xs) ≡ get_or xs i d ∷ take left (drop (i + 1) xs)
take-drop-suc left i xs d h = rw (drop-get_or i xs d h) refl

sweep-Swept :
    (now left i : ℕ) (w : Sweep)
    → i + left ≤ length w.slots
    → w.next ≤ i
    → Swept now left i w (sweep now left i w)
unfolding sweep keep cell
sweep-Swept now zero i w h k = record {
  same_length = refl;
  moved = sym (append-nil _);
  logged = sym (append-nil _);
  bounded = omega arith;
}
sweep-Swept now (suc left) i w h k =
    let first = turn-Turned now i w (omega arith) k in
    let t = get_or w.slots i uninitialised in
    let ts = take left (drop (i + 1) w.slots) in
    let rest =
      sweep-Swept now left (i + 1) (turn now i w) (omega (arith, first.same_length))
        first.bounded in
    let split = take-drop-suc left i w.slots uninitialised (omega arith) in
    record {
      same_length = rest.same_length ∙ first.same_length;
      moved =
          rest.moved
          ∙ ap₂ (λ a b. a ++ served now (take left b)) first.moved first.ahead
          ∙ append_assoc (take w.next w.slots) (served now (t ∷ [])) (served now ts)
          ∙ ap (λ a. take w.next w.slots ++ a) (sym (served-cons now t ts))
          ∙ ap (λ a. take w.next w.slots ++ served now a) (sym split);
      logged =
          rest.logged
          ∙ ap₂ (λ a b. a ++ calls now (take left b)) first.logged first.ahead
          ∙ append_assoc w.log (calls now (t ∷ [])) (calls now ts)
          ∙ ap (λ a. w.log ++ a) (sym (calls-cons now t ts))
          ∙ ap (λ a. w.log ++ calls now a) (sym split);
      bounded = omega (arith, rest.bounded);
    }

-- The array has room for the timers in use.
pub record IsStored (s : Timers) : Type 0 where
  pub slots : length s.qth ≡ s.maxqt
  pub room : s.activeqt ≤ s.maxqt

-- In an array that is well formed, the handler serves each live timer once, in order, keeps them in order in the first `activeqt`
-- slots, drops the dead ones, and leaves the array well formed.
pub sig_alarm_lem :
    (s : Timers)
    → IsStored s
    → let now = s.gqtime + 1 in
      let (s', log) = sig_alarm s in
      (active s' ≡ served now (active s))
      × (log ≡ calls now (active s))
      × (s'.gqtime ≡ now)
      × IsStored s'
unfolding sig_alarm
sig_alarm_lem s v =
    let w : Sweep = record { slots = s.qth; freed = s.qtf; log = []; next = 0 } in
    let r =
      sweep-Swept (s.gqtime + 1) s.activeqt 0 w (omega (arith, v.slots, v.room)) (omega arith) in
    (
      r.moved,
      r.logged,
      refl,
      record { slots = r.same_length ∙ v.slots; room = omega (arith, r.bounded, v.room) },
    )
