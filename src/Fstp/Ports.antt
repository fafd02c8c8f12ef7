-- ===== src/Fstp/Ports.antt =====
-- The invariant of Fstp/Guarded when a port joins or leaves a tree, and with time.
use vde.Common.{
  ℕ, ◌≡◌, ◌⊎◌, refl, sym, arith, Bool, true, false, ◌==◌, ◌%◌, ◌^◌, ◌+◌, ◌-◌, bit_and, Bool-cases,
  inl, inr,
}
use vde.BitArray.{ba_check, ba_zap, ba_forall, bac_forall}
use vde.BitArray.Sets.{ba_check-ba_clr_any, ba_check-ba_set_other}
use vde.Switch.Wired.{in_table}
use vde.Fstp.{Vlst, Bridge, numofvlan, vlst_at, change_vlst, is_active, for_each, now}
use vde.Fstp.Vlans.{renew_vlan}
use vde.Fstp.Send.{
  fst_sendbpdu, send_untagged, send_tagged, port_send_packet, root_outpacket, root_outtagpacket,
}
use vde.Fstp.Protocol.{join, fstaddport, leave, fstdelport}
use vde.Fstp.Hello.{
  is_lost, hello_untagged, hello_tagged, fst_hello_vlan, wake, forget_received, fst_updatebackup,
  fst_hello,
}
use vde.Fstp.Guarded.{IsGuarded, IsGuarded-same, is_member, is_blocked, change_vlst-IsGuarded}
use vde.Fstp.Blocked.{fst_sendbpdu-IsGuarded, for_each-keeps, reopen-IsGuarded}
use vde.Fstp.Invariant.{same-IsGuarded, topology_change-IsGuarded, renew_vlan-IsGuarded}

module _ (v : Vlst) (port i : ℕ) where
  join-member :
      (tagged : Bool)
      → is_member (join tagged port v) i ≡ true
      → (is_member v i ≡ true) ⊎ (port ≡ i)
  join-member tagged m = elim (Bool-cases (port == i)) [
    | inl here ↦ inr (ground arith)
    | inr away ↦ inl (elim (Bool-cases tagged) [
      | inl t ↦
          rw
            (
              t,
              ba_check-ba_set_other v.tagged port i away,
              ba_check-ba_clr_any v.untag port i,
              away,
            )
            at m
      | inr u ↦
          rw
            (
              u,
              ba_check-ba_set_other v.untag port i away,
              ba_check-ba_clr_any v.tagged port i,
              away,
            )
            at m
    ])
  ]

  join-blocked : (tagged : Bool) → is_blocked (join tagged port v) i ≡ true → is_blocked v i ≡ true
  join-blocked tagged m =
      ground (arith, ba_check-ba_clr_any v.backup port i, ba_check-ba_clr_any v.edge port i)

  leave-member : is_member (leave port v) i ≡ true → is_member v i ≡ true
  leave-member m =
      ground (arith, ba_check-ba_clr_any v.untag port i, ba_check-ba_clr_any v.tagged port i)

  leave-blocked : is_blocked (leave port v) i ≡ true → is_blocked v i ≡ true
  leave-blocked m =
      ground (arith, ba_check-ba_clr_any v.backup port i, ba_check-ba_clr_any v.edge port i)

-- A port of the VLAN that joins its tree keeps the invariant.
fstaddport-IsGuarded :
    (vlan port : ℕ) (tagged : Bool) (b : Bridge)
    → IsGuarded b
    → in_table b.switch vlan port ≡ true
    → IsGuarded (fstaddport vlan port tagged b)
unfolding fstaddport
fstaddport-IsGuarded vlan port tagged b g m =
    let b1 = change_vlst vlan (join tagged port) b in
    topology_change-IsGuarded vlan port (fst_sendbpdu vlan port false false false b1) (
      fst_sendbpdu-IsGuarded vlan port false false false b1 (
        change_vlst-IsGuarded b vlan (join tagged port) g (λ v i. (
          λ n. elim (join-member v port i tagged n) [
            | inl before ↦ inl before
            | inr here ↦ inr (rw (sym here) m)
          ],
          λ n. inl (join-blocked v port i tagged n),
        ))))

-- A port that leaves a tree keeps the invariant, the tree's root port too.
pub fstdelport-IsGuarded :
    (vlan port : ℕ) (b : Bridge) → IsGuarded b → IsGuarded (fstdelport vlan port b)
unfolding fstdelport
fstdelport-IsGuarded vlan port b g =
    let b1 = change_vlst vlan (leave port) b in
    let g1 : IsGuarded b1 =
      change_vlst-IsGuarded b vlan (leave port) g
        (λ v i. (λ n. inl (leave-member v port i n), λ n. inl (leave-blocked v port i n))) in
    elim (Bool-cases (port == (vlst_at b1 vlan).rootport)) [
      | inr other ↦ rw other (topology_change-IsGuarded vlan port b1 g1)
      | inl root ↦ rw root (
          topology_change-IsGuarded vlan port (renew_vlan vlan b1)
            (renew_vlan-IsGuarded vlan b1 g1))
    ]

fst_hello_vlan-IsGuarded : (vlan : ℕ) (b : Bridge) → IsGuarded b → IsGuarded (fst_hello_vlan vlan b)
unfolding fst_hello_vlan send_untagged send_tagged port_send_packet
fst_hello_vlan-IsGuarded vlan b g = elim (Bool-cases (is_lost (now b) (vlst_at b vlan))) [
  | inl lost ↦ rw lost (rest (renew_vlan vlan b) (renew_vlan-IsGuarded vlan b g))
  | inr known ↦ rw known (rest b g)
]
  where
    untagged : (i : ℕ) (c : Bridge) → IsGuarded c → IsGuarded (hello_untagged vlan i c)
    untagged i c h = elim (Bool-cases (ba_check (vlst_at c vlan).edge i)) [
      | inl edge ↦ rw edge h
      | inr inner ↦ rw inner (IsGuarded-same c _ refl refl h)
    ]

    tagged : (i : ℕ) (c : Bridge) → IsGuarded c → IsGuarded (hello_tagged vlan i c)
    tagged i c h = elim (Bool-cases (ba_check (vlst_at c vlan).edge i)) [
      | inl edge ↦ rw edge h
      | inr inner ↦ rw inner (IsGuarded-same c _ refl refl h)
    ]

    rest :
        (c : Bridge)
        → IsGuarded c
        → let c2 = root_outtagpacket vlan (root_outpacket vlan c) in
          let c3 =
            for_each (ba_forall (vlst_at c2 vlan).untag c2.numports) (hello_untagged vlan) c2 in
          IsGuarded
            (for_each (ba_forall (vlst_at c3 vlan).tagged c3.numports) (hello_tagged vlan) c3)
    rest c h = for_each-keeps IsGuarded (hello_tagged vlan) tagged _ _ (
        for_each-keeps IsGuarded (hello_untagged vlan) untagged _ _
          (IsGuarded-same c _ refl refl h))

fst_updatebackup-IsGuarded :
    (index vlan : ℕ) (b : Bridge) → IsGuarded b → IsGuarded (fst_updatebackup index vlan b)
unfolding fst_updatebackup
fst_updatebackup-IsGuarded index vlan b g =
    let b1 = for_each (ba_forall (vlst_at b vlan).backup b.numports) (wake vlan) b in
    elim (Bool-cases (index == 0)) [
      | inl first ↦
          rw (forget_received, first)
            (same-IsGuarded b1 vlan (λ v. record v { rcvhist0 = ba_zap v.rcvhist0 b1.numports })
              (λ v i. (refl, refl)) woken)
      | inr second ↦
          rw (forget_received, second)
            (same-IsGuarded b1 vlan (λ v. record v { rcvhist1 = ba_zap v.rcvhist1 b1.numports })
              (λ v i. (refl, refl)) woken)
    ]
  where
    step : (i : ℕ) (c : Bridge) → IsGuarded c → IsGuarded (wake vlan i c)
    step i c h = elim (Bool-cases (is_active (vlst_at c vlan) i)) [
      | inl active ↦ rw active h
      | inr silent ↦ rw silent (reopen-IsGuarded vlan i c h)
    ]

    woken : IsGuarded (for_each (ba_forall (vlst_at b vlan).backup b.numports) (wake vlan) b)
    woken =
        for_each-keeps IsGuarded (wake vlan) step (ba_forall (vlst_at b vlan).backup b.numports) b g

-- The periodic work of the protocol, with its timeouts, keeps the invariant.
pub fst_hello-IsGuarded : (b : Bridge) → IsGuarded b → IsGuarded (fst_hello b)
unfolding fst_hello
fst_hello-IsGuarded b g =
    let b1 = record b { hellocounter = (b.hellocounter + 1) % 2 ^ 32 } in
    let b2 = for_each (bac_forall b1.switch.validvlan numofvlan) fst_hello_vlan b1 in
    let g2 : IsGuarded b2 =
      for_each-keeps IsGuarded fst_hello_vlan fst_hello_vlan-IsGuarded
        (bac_forall b1.switch.validvlan numofvlan) b1 (IsGuarded-same b b1 refl refl g) in
    let b3 = record b2 { rcvhistindex = 1 - b2.rcvhistindex } in
    elim (Bool-cases (bit_and b2.hellocounter 3 == 0)) [
      | inr between ↦ rw between g2
      | inl fourth ↦ rw fourth (
          for_each-keeps IsGuarded (fst_updatebackup b3.rcvhistindex)
            (fst_updatebackup-IsGuarded b3.rcvhistindex) (bac_forall b3.switch.validvlan numofvlan)
            b3 (IsGuarded-same b2 b3 refl refl g2))
    ]
