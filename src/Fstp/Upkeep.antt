-- ===== src/Fstp/Upkeep.antt =====
-- The invariant of Switch/Wired with time: `fst_hello` of fstp.c.
use vde.Common.{ℕ, ◌+◌, ◌-◌, ◌%◌, ◌^◌, bit_and, refl, ◌==◌, Bool-cases, inl, inr}
use vde.BitArray.{ba_check, ba_forall, bac_forall}
use vde.Switch.{Switch}
use vde.Fstp.{Bridge, numofvlan, vlst_at, is_active, for_each, now}
use vde.Fstp.Vlans.{renew_vlan}
use vde.Fstp.Send.{send_untagged, send_tagged, port_send_packet, root_outpacket, root_outtagpacket}
use vde.Fstp.Hello.{
  is_lost, hello_untagged, hello_tagged, fst_hello_vlan, wake, fst_updatebackup, fst_hello,
}
use vde.Fstp.Blocked.{for_each-keeps}
use vde.Fstp.Fit.{IsFit, IsKept}
use vde.Fstp.Wiring.{reopen-Keeps, renew_vlan-Keeps}

module _ (s : Switch) where
  abbrev Keeps : Bridge → Type 0
  Keeps b = IsKept s b.switch

  fst_hello_vlan-Keeps : (vlan : ℕ) (b : Bridge) → Keeps b → Keeps (fst_hello_vlan vlan b)
  unfolding fst_hello_vlan send_untagged send_tagged port_send_packet
  fst_hello_vlan-Keeps vlan b k = elim (Bool-cases (is_lost (now b) (vlst_at b vlan))) [
    | inl lost ↦ rw lost (rest (renew_vlan vlan b) (renew_vlan-Keeps s vlan b k))
    | inr known ↦ rw known (rest b k)
  ]
    where
      untagged : (i : ℕ) (c : Bridge) → Keeps c → Keeps (hello_untagged vlan i c)
      untagged i c h = elim (Bool-cases (ba_check (vlst_at c vlan).edge i)) [
        | inl edge ↦ rw edge h
        | inr inner ↦ rw inner h
      ]

      tagged : (i : ℕ) (c : Bridge) → Keeps c → Keeps (hello_tagged vlan i c)
      tagged i c h = elim (Bool-cases (ba_check (vlst_at c vlan).edge i)) [
        | inl edge ↦ rw edge h
        | inr inner ↦ rw inner h
      ]

      rest :
          (c : Bridge)
          → Keeps c
          → let c2 = root_outtagpacket vlan (root_outpacket vlan c) in
            let c3 =
              for_each (ba_forall (vlst_at c2 vlan).untag c2.numports) (hello_untagged vlan) c2 in
            Keeps (for_each (ba_forall (vlst_at c3 vlan).tagged c3.numports) (hello_tagged vlan) c3)
      rest c h =
          let c2 = root_outtagpacket vlan (root_outpacket vlan c) in
          let c3 =
            for_each (ba_forall (vlst_at c2 vlan).untag c2.numports) (hello_untagged vlan) c2 in
          for_each-keeps Keeps (hello_tagged vlan) tagged
            (ba_forall (vlst_at c3 vlan).tagged c3.numports) c3
            (for_each-keeps Keeps (hello_untagged vlan) untagged
              (ba_forall (vlst_at c2 vlan).untag c2.numports) c2 h)

  fst_updatebackup-Keeps :
      (index vlan : ℕ) (b : Bridge) → Keeps b → Keeps (fst_updatebackup index vlan b)
  unfolding fst_updatebackup
  fst_updatebackup-Keeps index vlan b k =
      for_each-keeps Keeps (wake vlan) step (ba_forall (vlst_at b vlan).backup b.numports) b k
    where
      step : (i : ℕ) (c : Bridge) → Keeps c → Keeps (wake vlan i c)
      step i c h = elim (Bool-cases (is_active (vlst_at c vlan) i)) [
        | inl active ↦ rw active h
        | inr silent ↦ rw silent (reopen-Keeps s vlan i c h)
      ]

-- The periodic work of the protocol, on a wired switch on which the sets of a VLAN have a place for
-- each member, with the timeouts and the ports that it opens: it leaves the ports and the members of
-- the VLANs as they are, and keeps the switch wired and the places.
pub fst_hello-IsKept : (b : Bridge) → IsFit b.switch → IsKept b.switch (fst_hello b).switch
unfolding fst_hello
fst_hello-IsKept b fit =
    let s = b.switch in
    let k : Keeps s b = record {
      fit = fit;
      portv = refl;
      numports = refl;
      members = λ u i. refl;
    } in
    let b1 = record b { hellocounter = (b.hellocounter + 1) % 2 ^ 32 } in
    let b2 = for_each (bac_forall b1.switch.validvlan numofvlan) fst_hello_vlan b1 in
    let k2 =
      for_each-keeps (Keeps s) fst_hello_vlan (fst_hello_vlan-Keeps s)
        (bac_forall b1.switch.validvlan numofvlan) b1 k in
    let b3 = record b2 { rcvhistindex = 1 - b2.rcvhistindex } in
    elim (Bool-cases (bit_and b2.hellocounter 3 == 0)) [
      | inr between ↦ rw between k2
      | inl fourth ↦ rw fourth (
          for_each-keeps (Keeps s) (fst_updatebackup b3.rcvhistindex)
            (fst_updatebackup-Keeps s b3.rcvhistindex) (bac_forall b3.switch.validvlan numofvlan) b3
            k2)
    ]
