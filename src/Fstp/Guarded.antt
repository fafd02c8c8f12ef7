-- ===== src/Fstp/Guarded.antt =====
-- The invariant of the trees and the ports: a port that a tree counts as a backup is shut.
use vde.Common.{
  ℕ, ◌≡◌, ◌⊎◌, refl, sym, ap, ◌∙◌, arith, Bool, true, ◌&&◌, ◌||◌, not, Option, none, some, ◌==◌,
  get_or, Bool-cases, inl, inr,
}
use mathlib.Core.Bool.{false≢true}
use vde.BitArray.{ba_check}
use vde.BitArray.Sets.{Holds}
use vde.Switch.{
  Switch, PortStatus, discarding, vlan_at, port_at, untag_of, null_vlan, with_status,
  port_set_status,
}
use vde.Switch.Wired.{in_table}
use vde.Fstp.{Vlst, Bridge, fsttab_at, vlst_of, vlst_at, change, change_vlst, set_status}
use vde.Fstp.Steps.{
  vlst_at-here, vlst_at-other, vlan_at-set_status, table-with_status, Holds-with_status, shut_with,
  other_with,
}

-- The port is in one of the two sets of a tree's ports.
abbrev pub is_member : Vlst → ℕ → Bool
is_member v i = ba_check v.untag i || ba_check v.tagged i

-- A backup that is no edge port.
abbrev pub is_blocked : Vlst → ℕ → Bool
is_blocked v i = ba_check v.backup i && not (ba_check v.edge i)

abbrev pub is_shut : Switch → ℕ → ℕ → Bool
is_shut s vlan i = ba_check (vlan_at s vlan).notlearning i

-- The ports of a tree are ports of its VLAN, which has a place for each in the set of those that
-- discard; and a port that is blocked in the tree is in that set.
pub record IsGuarded (b : Bridge) : Type 0 where
  pub members : (u i : ℕ) → is_member (vlst_at b u) i ≡ true → in_table b.switch u i ≡ true
  pub placed : (u i : ℕ) → in_table b.switch u i ≡ true → Holds (vlan_at b.switch u).notlearning i
  pub guarded : (u i : ℕ) → is_blocked (vlst_at b u) i ≡ true → is_shut b.switch u i ≡ true

-- The invariant is one of the VLAN tables and the trees.
pub IsGuarded-same :
    (b c : Bridge)
    → c.switch.vlant ≡ b.switch.vlant
    → c.fsttab ≡ b.fsttab
    → IsGuarded b
    → IsGuarded c
IsGuarded-same b c ev et g = record {
  members = λ u i m.
      ap (λ vs. ba_check (get_or vs u null_vlan).table i) ev
      ∙ g.members u i (sym (ap (λ ts. is_member (vlst_of (get_or ts u none)) i) et) ∙ m);
  placed = λ u i m.
      rw ev (g.placed u i (sym (ap (λ vs. ba_check (get_or vs u null_vlan).table i) ev) ∙ m));
  guarded = λ u i m.
      ap (λ vs. ba_check (get_or vs u null_vlan).notlearning i) ev
      ∙ g.guarded u i (sym (ap (λ ts. is_blocked (vlst_of (get_or ts u none)) i) et) ∙ m);
}

-- A change of a tree takes in ports of its VLAN alone and blocks shut ports alone.
abbrev IsTame : Bridge → ℕ → (Vlst → Vlst) → Type 0
IsTame b vlan f =
    (v : Vlst) (i : ℕ)
    → (is_member (f v) i ≡ true → (is_member v i ≡ true) ⊎ (in_table b.switch vlan i ≡ true))
      × (is_blocked (f v) i ≡ true → (is_blocked v i ≡ true) ⊎ (is_shut b.switch vlan i ≡ true))

pub change_vlst-IsGuarded :
    (b : Bridge) (vlan : ℕ) (f : Vlst → Vlst)
    → IsGuarded b
    → IsTame b vlan f
    → IsGuarded (change_vlst vlan f b)
unfolding ba_check
change_vlst-IsGuarded b vlan f g tame = record {
  members = λ u i m. members u i m;
  placed = g.placed;
  guarded = λ u i m. guarded u i m;
}
  where
    here_members :
        (o : Option Vlst)
        → fsttab_at b vlan ≡ o
        → (i : ℕ) → is_member (vlst_of (change f o)) i ≡ true
        → in_table b.switch vlan i ≡ true
    here_members none e i m = absurd (false≢true m)
    here_members (some v) e i m = elim ((tame v i).0 m) [
      | inr there ↦ there
      | inl before ↦ g.members vlan i (rw e before)
    ]

    here_guarded :
        (o : Option Vlst)
        → fsttab_at b vlan ≡ o
        → (i : ℕ) → is_blocked (vlst_of (change f o)) i ≡ true
        → is_shut b.switch vlan i ≡ true
    here_guarded none e i m = absurd (false≢true m)
    here_guarded (some v) e i m = elim ((tame v i).1 m) [
      | inr there ↦ there
      | inl before ↦ g.guarded vlan i (rw e before)
    ]

    members :
        (u i : ℕ)
        → is_member (vlst_at (change_vlst vlan f b) u) i ≡ true
        → in_table b.switch u i ≡ true
    members u i m = elim (Bool-cases (vlan == u)) [
      | inr other ↦ g.members u i (rw (vlst_at-other b vlan u f other) at m)
      | inl same ↦
          let e : u ≡ vlan = ground arith in
          let m' = rw (e, vlst_at-here b vlan f) at m in
          rw e (here_members (fsttab_at b vlan) refl i m')
    ]

    guarded :
        (u i : ℕ)
        → is_blocked (vlst_at (change_vlst vlan f b) u) i ≡ true
        → is_shut b.switch u i ≡ true
    guarded u i m = elim (Bool-cases (vlan == u)) [
      | inr other ↦ g.guarded u i (rw (vlst_at-other b vlan u f other) at m)
      | inl same ↦
          let e : u ≡ vlan = ground arith in
          let m' = rw (e, vlst_at-here b vlan f) at m in
          rw e (here_guarded (fsttab_at b vlan) refl i m')
    ]

-- A port that is given a state in a VLAN, where it is no longer blocked unless the state is to
-- discard.
module _ (b : Bridge) (i vlan : ℕ) (st : PortStatus) (g : IsGuarded b) where
  abbrev home : Bool
  home = untag_of (port_at b.switch i) == vlan

  abbrev after : Switch
  after = port_set_status i vlan st b.switch

  vlan_cases :
      (u : ℕ)
      → (vlan_at after u ≡ vlan_at b.switch u)
        ⊎ ((u ≡ vlan)
            × (in_table b.switch vlan i ≡ true)
            × (vlan_at after u ≡ with_status i st home (vlan_at b.switch vlan)))
  vlan_cases u = elim (Bool-cases (in_table b.switch vlan i && (vlan == u))) [
    | inr other ↦ inl (vlan_at-set_status b.switch i vlan u st ∙ rw other refl)
    | inl here ↦
        inr (ground arith, ground arith, vlan_at-set_status b.switch i vlan u st ∙ rw here refl)
  ]

  pub table-set_status : (u k : ℕ) → in_table after u k ≡ in_table b.switch u k
  table-set_status u k = elim (vlan_cases u) [
    | inl same ↦ ap (λ v. ba_check v.table k) same
    | inr (e, m, at) ↦ rw e (
        ap (λ v. ba_check v.table k) (ap (vlan_at after) (sym e) ∙ at)
        ∙ ap (λ t. ba_check t k) (table-with_status (vlan_at b.switch vlan) i st home))
  ]

  pub set_status-IsGuarded :
      ((in_table b.switch vlan i ≡ true) → is_blocked (vlst_at b vlan) i ≡ true → st ≡ discarding)
      → IsGuarded (set_status i vlan st b)
  set_status-IsGuarded blocked = record {
    members = λ u k m. table-set_status u k ∙ g.members u k m;
    placed = λ u k m. elim (vlan_cases u) [
      | inl same ↦ rw same (g.placed u k (sym (table-set_status u k) ∙ m))
      | inr (e, t, at) ↦ rw at (
          Holds-with_status (vlan_at b.switch vlan) i k st home
            (g.placed vlan k (rw e at (sym (table-set_status u k) ∙ m))))
    ];
    guarded = λ u k m. elim (vlan_cases u) [
      | inl same ↦ rw same (g.guarded u k m)
      | inr (e, t, at) ↦
          let m' = rw e at m in
          elim (Bool-cases (i == k)) [
            | inr away ↦
                rw (at, other_with (vlan_at b.switch vlan) i k st home away) (g.guarded vlan k m')
            | inl same ↦
                let s : k ≡ i = ground arith in
                let d = blocked t (rw s at m') in
                rw (at, s, d) (shut_with (vlan_at b.switch vlan) i home (g.placed vlan i t))
          ]
    ];
  }
