-- ===== src/Admin/Guard.antt =====
-- The invariant of Fstp/Guarded when endpoints go.
use vde.Common.{
  ℕ, ◌≡◌, refl, sym, ap, ◌∙◌, arith, none, if◌then◌else◌, ◌==◌, ltb, get_or-set_fix, Bool-cases,
  Option-cases, inl, inr,
}
use vde.Common.Int.{ℤ, in_range, to_ℕ}
use vde.Timer.{is_empty}
use vde.BitArray.{ba_check, ba_clr, bac_forall}
use vde.Switch.{Vlan, null_vlan, vlan_at, port_at, novlan}
use vde.Fstp.{Bridge, numofvlan, for_each}
use vde.Fstp.Guarded.{IsGuarded, IsGuarded-same}
use vde.Fstp.Blocked.{for_each-keeps}
use vde.Fstp.Ports.{fstdelport-IsGuarded}
use vde.Admin.{change_port, change_vlan, forget_port}
use vde.Admin.Endpoints.{rec_close_ep, deactivate, deactivate_port, close_ep_port_fd}

-- A change of a VLAN that leaves its table and the set of its ports that discard.
module _ (vlan : ℕ) (f : Vlan → Vlan) (b : Bridge) (fixed : f null_vlan ≡ null_vlan)
    (table : (v : Vlan) → (f v).table ≡ v.table)
    (notlearning : (v : Vlan) → (f v).notlearning ≡ v.notlearning) where
  abbrev changed : Bridge
  changed = change_vlan vlan f b

  at :
      (u : ℕ)
      → vlan_at changed.switch u
        ≡ (if vlan == u then f (vlan_at b.switch vlan) else vlan_at b.switch u)
  at u = get_or-set_fix b.switch.vlant vlan u f null_vlan fixed

  same_table : (u : ℕ) → (vlan_at changed.switch u).table ≡ (vlan_at b.switch u).table
  same_table u = ap (λ v. v.table) (at u) ∙ elim (Bool-cases (vlan == u)) [
    | inr other ↦ rw other refl
    | inl same ↦
        let e : vlan ≡ u = ground arith in rw same (rw (sym e) (table (vlan_at b.switch vlan)))
  ]

  same_notlearning :
      (u : ℕ) → (vlan_at changed.switch u).notlearning ≡ (vlan_at b.switch u).notlearning
  same_notlearning u = ap (λ v. v.notlearning) (at u) ∙ elim (Bool-cases (vlan == u)) [
    | inr other ↦ rw other refl
    | inl same ↦
        let e : vlan ≡ u = ground arith in
        rw same (rw (sym e) (notlearning (vlan_at b.switch vlan)))
  ]

  change_vlan-IsGuarded : IsGuarded b → IsGuarded changed
  change_vlan-IsGuarded g = record {
    members = λ u i m. ap (λ x. ba_check x i) (same_table u) ∙ g.members u i m;
    placed = λ u i m.
        rw (same_notlearning u) (g.placed u i (sym (ap (λ x. ba_check x i) (same_table u)) ∙ m));
    guarded = λ u i m. ap (λ x. ba_check x i) (same_notlearning u) ∙ g.guarded u i m;
  }

deactivate-IsGuarded :
    (port vlan : ℕ) (b : Bridge) → IsGuarded b → IsGuarded (deactivate port vlan b)
unfolding ba_clr
deactivate-IsGuarded port vlan b g = fstdelport-IsGuarded vlan port _ (
    change_vlan-IsGuarded vlan (λ v. record v { bctag = ba_clr v.bctag port }) b refl (λ v. refl)
      (λ v. refl) g)

deactivate_port-IsGuarded :
    (port vlanuntag : ℕ) (b : Bridge) → IsGuarded b → IsGuarded (deactivate_port port vlanuntag b)
unfolding deactivate_port ba_clr
deactivate_port-IsGuarded port vlanuntag b g =
    let b1 = change_port port (λ p. record p { ms = none; curuser = none }) (forget_port port b) in
    let b2 = for_each (bac_forall b1.switch.validvlan numofvlan) (deactivate port) b1 in
    let g2 : IsGuarded b2 =
      for_each-keeps IsGuarded (deactivate port) (deactivate-IsGuarded port)
        (bac_forall b1.switch.validvlan numofvlan) b1 (IsGuarded-same b b1 refl refl g) in
    elim (Bool-cases (ltb vlanuntag novlan)) [
      | inr tagged_only ↦ rw tagged_only g2
      | inl home ↦ rw home (
          change_vlan-IsGuarded vlanuntag (λ v. record v { bcuntag = ba_clr v.bcuntag port }) b2
            refl (λ v. refl) (λ v. refl) g2)
    ]

-- Closing an endpoint keeps the invariant that a port which a tree counts as a backup, and that is no edge
-- port, is shut: whether the port, the endpoint or neither exists, and whether or not the port goes
-- out of use with it.
pub close_ep_port_fd-IsGuarded :
    (portno : ℤ) (fd_ctl : ℕ) (b : Bridge)
    → IsGuarded b
    → IsGuarded (close_ep_port_fd portno fd_ctl b).1
unfolding close_ep_port_fd
close_ep_port_fd-IsGuarded portno fd_ctl b g =
    let i = to_ℕ portno in
    elim (Bool-cases (in_range portno b.switch.numports)) [
      | inr outside ↦ rw outside g
      | inl inside ↦ elim (Option-cases (port_at b.switch i)) [
        | inl gone ↦ rw (inside, gone, close_ep_port_fd) g
        | inr (p, there) ↦
            let rest = (rec_close_ep p.ep fd_ctl).1 in
            let b1 = change_port i (λ p. record p { ep = rest }) b in
            let g1 : IsGuarded b1 = IsGuarded-same b b1 refl refl g in
            elim (Bool-cases (is_empty rest)) [
              | inr more ↦ rw (inside, there, more, close_ep_port_fd) g1
              | inl last ↦
                  rw (inside, there, last, close_ep_port_fd)
                    (deactivate_port-IsGuarded i p.vlanuntag b1 g1)
            ]
      ]
    ]
