-- ===== src/Switch/Rewire.antt =====
-- `port_set_status` and the invariant of Switch/Wired.
use vde.Common.{
  ℕ, ◌<◌, ◌≡◌, ◌≢◌, ◌⊎◌, refl, ap, sym, ◌∙◌, arith, Bool, true, false, ◌==◌, length, get_or-set,
  get_or-set_ne, Bool-cases, inl, inr, ==-refl,
}
use vde.BitArray.{ba_check}
use vde.BitArray.Sets.{ba_check-ba_set, ba_check-ba_clr}
use vde.Switch.{
  Switch, Vlan, PortStatus, discarding, learning, forwarding, vlan_at, port_at, untag_of, null_vlan,
  set_vlan, with_status, port_set_status,
}
use vde.Switch.Status.{HasPlace}
use vde.Switch.Wired.{IsWired, in_table, in_bctag, in_bcuntag}

-- A member of a set after the change was one before, or is the port, in the set for its own form.
bctag_cases :
    (v : Vlan) (port i : ℕ) (status : PortStatus) (home : Bool)
    → HasPlace v port
    → ba_check (with_status port status home v).bctag i ≡ true
    → (ba_check v.bctag i ≡ true) ⊎ ((port ≡ i) × (home ≡ false))
bctag_cases v port i discarding home p h = ground (arith, ba_check-ba_clr v.bctag port i p.bctag)
bctag_cases v port i learning home p h = ground (arith, ba_check-ba_clr v.bctag port i p.bctag)
bctag_cases v port i forwarding true p h = inl h
bctag_cases v port i forwarding false p h = ground (arith, ba_check-ba_set v.bctag port i p.bctag)

bcuntag_cases :
    (v : Vlan) (port i : ℕ) (status : PortStatus) (home : Bool)
    → HasPlace v port
    → ba_check (with_status port status home v).bcuntag i ≡ true
    → (ba_check v.bcuntag i ≡ true) ⊎ ((port ≡ i) × (home ≡ true))
bcuntag_cases v port i discarding home p h =
    ground (arith, ba_check-ba_clr v.bcuntag port i p.bcuntag)
bcuntag_cases v port i learning home p h =
    ground (arith, ba_check-ba_clr v.bcuntag port i p.bcuntag)
bcuntag_cases v port i forwarding false p h = inl h
bcuntag_cases v port i forwarding true p h =
    ground (arith, ba_check-ba_set v.bcuntag port i p.bcuntag)

table-with :
    (v : Vlan) (port : ℕ) (status : PortStatus) (home : Bool)
    → (with_status port status home v).table ≡ v.table
table-with v port discarding home = refl
table-with v port learning home = refl
table-with v port forwarding true = refl
table-with v port forwarding false = refl

module _ (s : Switch) (w : IsWired s) (port vlan : ℕ) (status : PortStatus)
    (h : vlan < length s.vlant) (p : HasPlace (vlan_at s vlan) port)
    (member : in_table s vlan port ≡ true) where
  home : Bool
  home = untag_of (port_at s port) == vlan

  changed : Switch
  changed = set_vlan s vlan (with_status port status home (vlan_at s vlan))

  vlan_here : vlan_at changed vlan ≡ with_status port status home (vlan_at s vlan)
  unfolding changed
  vlan_here =
      get_or-set s.vlant vlan vlan (with_status port status home (vlan_at s vlan)) null_vlan h
      ∙ rw (==-refl vlan) refl

  vlan_other : (u : ℕ) → vlan ≢ u → vlan_at changed u ≡ vlan_at s u
  unfolding changed
  vlan_other u ne = get_or-set_ne s.vlant vlan u _ null_vlan ne

  table_same : (u : ℕ) → (vlan_at changed u).table ≡ (vlan_at s u).table
  table_same u = elim (Bool-cases (vlan == u)) [
    | inl same ↦
        let e : vlan ≡ u = ground arith in
        rw (sym e) (ap (λ v. v.table) vlan_here ∙ table-with (vlan_at s vlan) port status home)
    | inr other ↦ ap (λ v. v.table) (vlan_other u (ground arith))
  ]

  tagged_in :
      (u i : ℕ)
      → in_bctag changed u i ≡ true
      → (in_table s u i ≡ true) × ((untag_of (port_at s i) == u) ≡ false)
  unfolding home
  tagged_in u i m = elim (Bool-cases (vlan == u)) [
    | inr other ↦ w.tagged u i (rw (vlan_other u (ground arith)) at m)
    | inl same ↦
        let e : u ≡ vlan = ground arith in
        let m' = rw (e, vlan_here) at m in
        rw e (elim (bctag_cases (vlan_at s vlan) port i status home p m') [
          | inl before ↦ w.tagged vlan i before
          | inr (here, apart) ↦ rw (sym here) (member, apart)
        ])
  ]

  untagged_in :
      (u i : ℕ)
      → in_bcuntag changed u i ≡ true
      → (in_table s u i ≡ true) × ((untag_of (port_at s i) == u) ≡ true)
  unfolding home
  untagged_in u i m = elim (Bool-cases (vlan == u)) [
    | inr other ↦ w.untagged u i (rw (vlan_other u (ground arith)) at m)
    | inl same ↦
        let e : u ≡ vlan = ground arith in
        let m' = rw (e, vlan_here) at m in
        rw e (elim (bcuntag_cases (vlan_at s vlan) port i status home p m') [
          | inl before ↦ w.untagged vlan i before
          | inr (here, own) ↦ rw (sym here) (member, own)
        ])
  ]

  same_member : (u i : ℕ) → in_table changed u i ≡ in_table s u i
  same_member u i = ap (λ t. ba_check t i) (table_same u)

  changed-IsWired : IsWired changed
  unfolding changed
  changed-IsWired = record {
    numbered = w.numbered;
    within = λ u i m. w.within u i (sym (same_member u i) ∙ m);
    tagged = λ u i m. let (t, a) = tagged_in u i m in (same_member u i ∙ t, a);
    untagged = λ u i m. let (t, a) = untagged_in u i m in (same_member u i ∙ t, a);
    home = λ i m. let (t, a) = w.home i m in (same_member _ i ∙ t, a);
    hashed = w.hashed;
    behind = λ q e m. same_member _ e.port ∙ w.behind q e m;
  }

-- Giving a port a state in a VLAN whose sets have a place for it keeps a wired switch wired.
pub port_set_status-IsWired :
    (s : Switch) (port vlan : ℕ) (status : PortStatus)
    → IsWired s
    → vlan < length s.vlant
    → HasPlace (vlan_at s vlan) port
    → IsWired (port_set_status port vlan status s)
unfolding port_set_status changed home
port_set_status-IsWired s port vlan status w h p = elim (Bool-cases (in_table s vlan port)) [
  | inl member ↦ rw member (changed-IsWired s w port vlan status h p member)
  | inr out ↦ rw out w
]
