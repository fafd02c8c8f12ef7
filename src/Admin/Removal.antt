-- ===== src/Admin/Removal.antt =====
-- `portremove`: a port that goes is gone from every VLAN.
use vde.Common.{
  ℕ, ◌<◌, ◌≡◌, refl, ap, ◌∙◌, arith, true, false, none, some, List, if◌then◌else◌, ◌==◌, ltb, has,
  get_or-set_fix, Bool-cases, Option-cases, inl, inr, ==-refl,
}
use mathlib.Core.Bool.{false≢true}
use vde.Common.Int.{ℤ, pos, negsuc, in_range, to_ℕ}
use vde.Timer.{is_empty}
use vde.BitArray.{ba_check, ba_clr, ba_forall, bac_forall}
use vde.BitArray.Sets.{ba_check-ba_clr_any}
use vde.BitArray.Iterate.{has-ba_forall}
use vde.BitArray.Card.{IsCounted}
use vde.BitArray.Stop.{bac_forall-all}
use vde.Switch.{Port, Vlan, null_vlan, vlan_at, port_at}
use vde.Switch.Wired.{in_table}
use vde.Fstp.{Bridge, numofvlan}
use vde.Fstp.Blocked.{for_each-keeps}
use vde.Fstp.Agreement.{for_each-reaches}
use vde.Admin.Ports.{free_port, portremove, leave_vlan, drop_port}

-- The VLAN tables after a port has left one of them.
module _ (port k : ℕ) (b : Bridge) where
  without_port : Vlan → Vlan
  without_port v = record v { table = ba_clr v.table port }

  leave_vlan-at :
      (u : ℕ)
      → vlan_at (leave_vlan port k b).switch u
        ≡ (if k == u then without_port (vlan_at b.switch k) else vlan_at b.switch u)
  unfolding without_port ba_clr
  leave_vlan-at u = get_or-set_fix b.switch.vlant k u without_port null_vlan refl

  leave_vlan-stays :
      (u : ℕ)
      → in_table b.switch u port ≡ false
      → in_table (leave_vlan port k b).switch u port ≡ false
  unfolding without_port
  leave_vlan-stays u h = elim (Bool-cases (k == u)) [
    | inr other ↦ rw (leave_vlan-at u, other) h
    | inl same ↦
        rw (leave_vlan-at u, same)
          (ba_check-ba_clr_any (vlan_at b.switch k).table port port ∙ rw (==-refl port) refl)
  ]

leave_vlan-here : (port k : ℕ) (b : Bridge) → in_table (leave_vlan port k b).switch k port ≡ false
unfolding without_port
leave_vlan-here port k b =
    rw (leave_vlan-at port k b k, ==-refl k)
      (ba_check-ba_clr_any (vlan_at b.switch k).table port port ∙ rw (==-refl port) refl)

drop_port-at : (port : ℕ) (b : Bridge) → port_at (drop_port port b).switch port ≡ none
drop_port-at port b =
    get_or-set_fix b.switch.portv port port (λ p. none) none refl ∙ rw (==-refl port) refl

leave_vlan-portv : (port k : ℕ) (b : Bridge) → (leave_vlan port k b).switch.portv ≡ b.switch.portv
leave_vlan-portv port k b = refl

free_port-gone :
    (port : ℕ) (p : Port) (ws : List ℕ) (vlan : ℕ) (b : Bridge)
    → port < b.switch.numports
    → port_at b.switch port ≡ some p
    → is_empty p.ep ≡ true
    → b.switch.validvlan ≡ some ws
    → IsCounted numofvlan ws
    → vlan < numofvlan
    → ba_check b.switch.validvlan vlan ≡ true
    → (port_at (free_port port b).switch port ≡ none)
      × (in_table (free_port port b).switch vlan port ≡ false)
unfolding free_port
free_port-gone port p ws vlan b lt there idle valid counted range member =
    let below : ltb port b.switch.numports ≡ true = ground arith in
    let is = bac_forall b.switch.validvlan numofvlan in
    let same : is ≡ ba_forall b.switch.validvlan numofvlan =
      rw valid (bac_forall-all numofvlan ws counted) in
    let visited : has vlan is ≡ true =
      ap (has vlan) same ∙ has-ba_forall b.switch.validvlan numofvlan vlan range member in
    rw (below, there, idle, free_port)
      (
        for_each-keeps (λ c. port_at c.switch port ≡ none) (leave_vlan port) (λ k c h. h) is
            (drop_port port b) (drop_port-at port b),
        for_each-reaches {0, 0, 0} (λ c. Unit) (λ c. in_table c.switch vlan port ≡ false)
            (leave_vlan port) vlan (λ k c h. tt) (λ k c h. leave_vlan-stays port k c vlan h)
            (λ c h. leave_vlan-here port vlan c) is (drop_port port b) visited tt,
      )

-- When the set of the valid VLANs carries its right count and `portremove` returns 0, the port is gone,
-- and it is a member of no valid VLAN.
pub portremove-gone :
    (val : ℤ) (ws : List ℕ) (vlan : ℕ) (b : Bridge)
    → b.switch.validvlan ≡ some ws
    → IsCounted numofvlan ws
    → vlan < numofvlan
    → ba_check b.switch.validvlan vlan ≡ true
    → (portremove val b).0 ≡ 0
    → let s = (portremove val b).1.switch in
      (port_at s (to_ℕ val) ≡ none) × (in_table s vlan (to_ℕ val) ≡ false)
unfolding portremove
portremove-gone val ws vlan b valid counted range member done =
    elim (Bool-cases (in_range val b.switch.numports)) [
      | inr outside ↦ absurd (let e = rw outside at done in omega arith)
      | inl inside ↦ elim (Option-cases (port_at b.switch (to_ℕ val))) [
        | inl gone ↦ absurd (let e = rw (inside, gone, portremove) at done in omega arith)
        | inr (p, there) ↦ elim (Bool-cases (is_empty p.ep)) [
          | inr used ↦ absurd (let e = rw (inside, there, used, portremove) at done in omega arith)
          | inl idle ↦
              rw (inside, there, idle, portremove)
                (free_port-gone (to_ℕ val) p ws vlan b (below val inside) there idle valid counted
                  range member)
        ]
      ]
    ]
  where
    below : (a : ℤ) → in_range a b.switch.numports ≡ true → to_ℕ a < b.switch.numports
    below (pos n) h = ground arith
    below (negsuc n) h = absurd (false≢true h)
