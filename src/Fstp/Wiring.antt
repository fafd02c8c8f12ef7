-- ===== src/Fstp/Wiring.antt =====
-- The invariant of Switch/Wired when a frame comes in, one of the protocol included.
use vde.Common.{
  ℕ, ◌≡◌, refl, ap, Bool, true, false, Option, if◌then◌else◌, ◌==◌, bit_and, ◌-◌, ◌++◌, drop,
  Bool-cases, Option-cases, inl, inr,
}
use Prim.Native.Nat.{Ordering}
use vde.BitArray.{ba_check, ba_set, ba_forall}
use vde.Switch.{Switch, discarding, forwarding}
use vde.Switch.Frame.{Frame}
use vde.Switch.Wired.{IsBytes, in_table}
use vde.Switch.Forward.{route_in_packet}
use vde.Switch.Confine.{route_in_packet-IsWired}
use vde.Fstp.{
  FstBpdu, Bridge, switchid_len, memcmp, fsttab_at, vlst_at, change_vlst, set_status, for_each, now,
}
use vde.Fstp.Packets.{read_bpdu}
use vde.Fstp.Vlans.{own_root, reopen, start_vlan, fstnewvlan, renew_vlan}
use vde.Fstp.Send.{fst_sendbpdu, topology_change, tell_change, is_designated}
use vde.Fstp.Protocol.{
  shut, fastprotocol, cost_through, is_positive, new_root, longer_way, use_bpdu, compare_bpdu,
  note_received, is_faulty, fst_in_bpdu,
}
use vde.Fstp.Receive.{handle_in_packet}
use vde.Fstp.Blocked.{fst_sendbpdu-IsQuiet, for_each-keeps, block}
use vde.Fstp.Packet.{take_root}
use vde.Fstp.Fit.{IsFit, IsKept, port_set_status-IsKept, hash_delete_vlan-IsKept}

module _ (s : Switch) where
  -- The switch of a state is kept.
  abbrev Keeps : Bridge → Type 0
  Keeps b = IsKept s b.switch

  send :
      (vlan port : ℕ) (agr tc tcack : Bool) (b : Bridge)
      → Keeps b
      → Keeps (fst_sendbpdu vlan port agr tc tcack b)
  send vlan port agr tc tcack b k = rw (fst_sendbpdu-IsQuiet vlan port agr tc tcack b).switch k

  topology_change-Keeps :
      (vlan genport : ℕ) (b : Bridge) → Keeps b → Keeps (topology_change vlan genport b)
  unfolding topology_change
  topology_change-Keeps vlan genport b k =
      for_each-keeps Keeps (tell_change vlan genport) tell _ _ (
        for_each-keeps Keeps (tell_change vlan genport) tell _ _
          (hash_delete_vlan-IsKept s b.switch vlan k))
    where
      tell : (i : ℕ) (c : Bridge) → Keeps c → Keeps (tell_change vlan genport i c)
      tell i c h = elim (Bool-cases (is_designated (vlst_at c vlan) genport i)) [
        | inl yes_ ↦ rw yes_ (send vlan i false true false c h)
        | inr no_ ↦ rw no_ h
      ]

  pub reopen-Keeps : (vlan port : ℕ) (b : Bridge) → Keeps b → Keeps (reopen vlan port b)
  reopen-Keeps vlan port b k = port_set_status-IsKept s b.switch port vlan forwarding k

  pub renew_vlan-Keeps : (vlan : ℕ) (b : Bridge) → Keeps b → Keeps (renew_vlan vlan b)
  unfolding fstnewvlan start_vlan
  renew_vlan-Keeps vlan b k = elim (Option-cases (fsttab_at b vlan)) [
    | inl gone ↦ rw (renew_vlan, gone) k
    | inr (v, there) ↦
        let b' = change_vlst vlan (own_root b.myid false) b in
        rw (renew_vlan, there)
          (for_each-keeps Keeps (reopen vlan) (reopen-Keeps vlan)
            (ba_forall (vlst_at b' vlan).backup b'.numports) b' k)
  ]

  fastprotocol-Keeps :
      (vlan newrootport : ℕ) (b : Bridge) → Keeps b → Keeps (fastprotocol vlan newrootport b)
  unfolding fastprotocol
  fastprotocol-Keeps vlan newrootport b k =
      let b1 = for_each (ba_forall (vlst_at b vlan).untag b.numports) (shut vlan newrootport) b in
      let b2 =
        for_each (ba_forall (vlst_at b1 vlan).tagged b1.numports) (shut vlan newrootport) b1 in
      let k1 =
        for_each-keeps Keeps (shut vlan newrootport) close
          (ba_forall (vlst_at b vlan).untag b.numports) b k in
      send vlan newrootport true false false (reopen vlan newrootport b2) (
        reopen-Keeps vlan newrootport b2 (
          for_each-keeps Keeps (shut vlan newrootport) close
            (ba_forall (vlst_at b1 vlan).tagged b1.numports) b1 k1))
    where
      close : (i : ℕ) (c : Bridge) → Keeps c → Keeps (shut vlan newrootport i c)
      close i c h = elim (Bool-cases (is_designated (vlst_at c vlan) newrootport i)) [
        | inr no_ ↦ rw no_ h
        | inl yes_ ↦ rw yes_ (
            send vlan i false false false
              (change_vlst vlan (λ v. record v { backup = ba_set v.backup i })
                (set_status i vlan discarding c))
              (port_set_status-IsKept s c.switch i vlan discarding h))
      ]

  new_root-Keeps :
      (vlan port : ℕ) (p : FstBpdu) (b : Bridge) → Keeps b → Keeps (new_root vlan port p b)
  unfolding new_root
  new_root-Keeps vlan port p b k =
      elim (Bool-cases
        (is_positive (memcmp 8 (vlst_at b vlan).root (b.outpacket.src ++ b.outpacket.proto)))) [
          | inl higher ↦ rw higher (rest b k)
          | inr lower ↦ rw lower (rest (renew_vlan vlan b) (renew_vlan-Keeps vlan b k))
        ]
    where
      rest :
          (c : Bridge)
          → Keeps c
          → Keeps (
              topology_change vlan port
                (fastprotocol vlan port (change_vlst vlan (take_root port (now b) p) c)))
      rest c h =
          let c' = change_vlst vlan (take_root port (now b) p) c in
          topology_change-Keeps vlan port (fastprotocol vlan port c')
            (fastprotocol-Keeps vlan port c' h)

  longer_way-Keeps :
      (vlan port : ℕ) (p : FstBpdu) (b : Bridge) → Keeps b → Keeps (longer_way vlan port p b)
  unfolding longer_way
  longer_way-Keeps vlan port p b k = elim (Bool-cases (bit_and p.stp_flags 0x0c == 0x04)) [
    | inl root ↦ elim (Bool-cases (ba_check (vlst_at b vlan).backup port)) [
      | inl backup ↦
          rw (root, backup)
            (topology_change-Keeps vlan port (reopen vlan port b) (reopen-Keeps vlan port b k))
      | inr open_ ↦ rw (root, open_) k
    ]
    | inr other ↦ elim (Bool-cases (ba_check (vlst_at b vlan).backup port)) [
      | inl backup ↦ rw (other, backup) k
      | inr open_ ↦
          rw (other, open_)
            (topology_change-Keeps vlan port (block vlan port b)
              (port_set_status-IsKept s b.switch port vlan discarding k))
    ]
  ]

  use_bpdu-Keeps :
      (vlan port : ℕ) (p : FstBpdu) (b : Bridge) → Keeps b → Keeps (use_bpdu vlan port p b)
  unfolding use_bpdu
  use_bpdu-Keeps vlan port p b k = by_order (compare_bpdu (vlst_at b vlan) p) refl
    where
      lower :
          (o : Ordering)
          → Keeps (elim o as (λ o. Bridge) [
            | Ordering.eq ↦ longer_way vlan port p b
            | _ ↦ fst_sendbpdu vlan port false false false b
          ])
      lower Ordering.eq = longer_way-Keeps vlan port p b k
      lower Ordering.lt = send vlan port false false false b k
      lower Ordering.gt = send vlan port false false false b k

      by_order :
          (o : Ordering) → compare_bpdu (vlst_at b vlan) p ≡ o → Keeps (use_bpdu vlan port p b)
      by_order Ordering.eq e = rw (e, use_bpdu) k
      by_order Ordering.gt e = rw (e, use_bpdu) (new_root-Keeps vlan port p b k)
      by_order Ordering.lt e = elim (Bool-cases (port == (vlst_at b vlan).rootport)) [
        | inl from_root ↦ rw (e, from_root, use_bpdu) (new_root-Keeps vlan port p b k)
        | inr other ↦
            rw (e, other, use_bpdu) (lower (memcmp switchid_len (vlst_at b vlan).root p.stp_root))
      ]

  fst_in_bpdu-Keeps :
      (port : ℕ) (f : Frame) (vlan : ℕ) (tagged : Bool) (b : Bridge)
      → Keeps b
      → Keeps (fst_in_bpdu port f vlan tagged b)
  unfolding fst_in_bpdu
  fst_in_bpdu-Keeps port f vlan tagged b k =
      let p = read_bpdu (drop (if tagged then 4 else 0) f.bytes) in
      let len = if tagged then f.len - 4 else f.len in
      let b1 = note_received vlan port b in
      let b2 = topology_change vlan port b1 in
      elim (Bool-cases (ba_check (vlst_at b vlan).edge port)) [
        | inl edge ↦ rw edge k
        | inr inner ↦ elim (Option-cases (fsttab_at b1 vlan)) [
          | inl gone ↦ rw (inner, gone, fst_in_bpdu) k
          | inr (v, there) ↦ elim (Bool-cases (is_faulty len p)) [
            | inl faulty ↦ rw (inner, there, faulty, fst_in_bpdu) k
            | inr good ↦ elim (Bool-cases (bit_and p.stp_flags 1 == 1)) [
              | inr calm ↦
                  rw (inner, there, good, calm, fst_in_bpdu)
                    (use_bpdu-Keeps vlan port
                      (record p { stp_rootcost = cost_through b1 (vlst_at b1 vlan) port p }) b1 k)
              | inl changed ↦
                  rw (inner, there, good, changed, fst_in_bpdu)
                    (use_bpdu-Keeps vlan port
                      (record p { stp_rootcost = cost_through b2 (vlst_at b2 vlan) port p }) b2
                      (topology_change-Keeps vlan port b1 k))
            ]
          ]
        ]
      ]

-- On a wired switch on which the sets of a VLAN have a place for each member, a frame of bytes that
-- comes in, whether it is sent on, dropped or one of the protocol, leaves the ports and the members of
-- the VLANs as they are, and keeps the switch wired and the places.
pub handle_in_packet-IsKept :
    (fresh : Option ℕ) (port : ℕ) (f : Frame) (b : Bridge)
    → IsFit b.switch
    → IsBytes f
    → IsKept b.switch (handle_in_packet fresh port f b).switch
unfolding handle_in_packet
handle_in_packet-IsKept fresh port f b fit bytes =
    let h = route_in_packet b.switch (now b) fresh port f in
    let (wired, same) = route_in_packet-IsWired b.switch (now b) fresh port f fit.wired bytes in
    let b1 = record b { switch = h.switch; sent = b.sent ++ h.sent } in
    let k : IsKept b.switch h.switch = record {
      fit = record { wired = wired; placed = λ u i m. rw same (fit.placed u i (rw same at m)) };
      portv = ap (λ s. s.portv) same;
      numports = ap (λ s. s.numports) same;
      members = λ u i. ap (λ s. in_table s u i) same;
    } in
    elim (Option-cases h.bpdu) [
      | inl nothing ↦ rw (nothing, handle_in_packet) k
      | inr (p, handed) ↦
          rw (handed, handle_in_packet)
            (fst_in_bpdu-Keeps b.switch p.port p.frame p.vlan p.tagged b1 k)
    ]
