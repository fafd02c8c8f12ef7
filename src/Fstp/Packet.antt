-- ===== src/Fstp/Packet.antt =====
-- The invariant of Fstp/Guarded when a packet comes in, when a port joins or leaves a tree, and with
-- time.
use vde.Common.{
  ℕ, ◌≡◌, refl, ap, ◌∙◌, Bool, true, false, if◌then◌else◌, ◌==◌, bit_and, ◌-◌, ◌++◌, drop,
  Bool-cases, Option-cases, inl, inr,
}
use Prim.Native.Nat.{Ordering}
use vde.BitArray.{ba_check, ba_set}
use vde.Switch.Frame.{Frame}
use vde.Switch.Wired.{in_table}
use vde.Fstp.{Vlst, FstBpdu, Bridge, switchid_len, memcmp, fsttab_at, vlst_at, change_vlst, now}
use vde.Fstp.Packets.{read_bpdu}
use vde.Fstp.Vlans.{reopen, renew_vlan}
use vde.Fstp.Send.{fst_sendbpdu, topology_change, tell_change, is_designated}
use vde.Fstp.Protocol.{
  fastprotocol, cost_through, is_positive, new_root, longer_way, use_bpdu, compare_bpdu,
  note_received, is_faulty, fst_in_bpdu,
}
use vde.Fstp.Guarded.{IsGuarded}
use vde.Fstp.Blocked.{
  fst_sendbpdu-IsQuiet, fst_sendbpdu-IsGuarded, for_each-keeps, reopen-IsGuarded, block,
  block-IsGuarded,
}
use vde.Fstp.Invariant.{
  same-IsGuarded, topology_change-IsGuarded, renew_vlan-IsGuarded, fastprotocol-IsGuarded,
}

abbrev pub take_root : ℕ → ℕ → FstBpdu → Vlst → Vlst
take_root port t p v = record v {
  root = p.stp_root;
  rootcost = p.stp_rootcost;
  dessw = p.stp_bridge;
  port = p.stp_port;
  rootport = port;
  roottimestamp = t;
}

new_root-IsGuarded :
    (vlan port : ℕ) (p : FstBpdu) (b : Bridge) → IsGuarded b → IsGuarded (new_root vlan port p b)
unfolding new_root
new_root-IsGuarded vlan port p b g =
    elim (Bool-cases
      (is_positive (memcmp 8 (vlst_at b vlan).root (b.outpacket.src ++ b.outpacket.proto)))) [
        | inl higher ↦ rw higher (rest b g)
        | inr lower ↦ rw lower (rest (renew_vlan vlan b) (renew_vlan-IsGuarded vlan b g))
      ]
  where
    rest :
        (c : Bridge)
        → IsGuarded c
        → IsGuarded (
            topology_change vlan port
              (fastprotocol vlan port (change_vlst vlan (take_root port (now b) p) c)))
    rest c h =
        let c' = change_vlst vlan (take_root port (now b) p) c in
        topology_change-IsGuarded vlan port (fastprotocol vlan port c') (
          fastprotocol-IsGuarded vlan port c'
            (same-IsGuarded c vlan (take_root port (now b) p) (λ v i. (refl, refl)) h))

longer_way-IsGuarded :
    (vlan port : ℕ) (p : FstBpdu) (b : Bridge)
    → IsGuarded b
    → in_table b.switch vlan port ≡ true
    → IsGuarded (longer_way vlan port p b)
unfolding longer_way
longer_way-IsGuarded vlan port p b g m = elim (Bool-cases (bit_and p.stp_flags 0x0c == 0x04)) [
  | inl root ↦ elim (Bool-cases (ba_check (vlst_at b vlan).backup port)) [
    | inl backup ↦
        rw (root, backup)
          (topology_change-IsGuarded vlan port (reopen vlan port b)
            (reopen-IsGuarded vlan port b g))
    | inr open_ ↦ rw (root, open_) g
  ]
  | inr other ↦ elim (Bool-cases (ba_check (vlst_at b vlan).backup port)) [
    | inl backup ↦ rw (other, backup) g
    | inr open_ ↦
        rw (other, open_)
          (topology_change-IsGuarded vlan port (block vlan port b)
            (block-IsGuarded vlan port b g m))
  ]
]

use_bpdu-IsGuarded :
    (vlan port : ℕ) (p : FstBpdu) (b : Bridge)
    → IsGuarded b
    → in_table b.switch vlan port ≡ true
    → IsGuarded (use_bpdu vlan port p b)
unfolding use_bpdu
use_bpdu-IsGuarded vlan port p b g m = by_order (compare_bpdu (vlst_at b vlan) p) refl
  where
    lower :
        (o : Ordering)
        → IsGuarded (elim o as (λ o. Bridge) [
          | Ordering.eq ↦ longer_way vlan port p b
          | _ ↦ fst_sendbpdu vlan port false false false b
        ])
    lower Ordering.eq = longer_way-IsGuarded vlan port p b g m
    lower Ordering.lt = fst_sendbpdu-IsGuarded vlan port false false false b g
    lower Ordering.gt = fst_sendbpdu-IsGuarded vlan port false false false b g

    by_order :
        (o : Ordering) → compare_bpdu (vlst_at b vlan) p ≡ o → IsGuarded (use_bpdu vlan port p b)
    by_order Ordering.eq e =
        rw (e, use_bpdu)
          (same-IsGuarded b vlan (λ v. record v { roottimestamp = now b }) (λ v i. (refl, refl)) g)
    by_order Ordering.gt e = rw (e, use_bpdu) (new_root-IsGuarded vlan port p b g)
    by_order Ordering.lt e = elim (Bool-cases (port == (vlst_at b vlan).rootport)) [
      | inl from_root ↦ rw (e, from_root, use_bpdu) (new_root-IsGuarded vlan port p b g)
      | inr other ↦
          rw (e, other, use_bpdu) (lower (memcmp switchid_len (vlst_at b vlan).root p.stp_root))
    ]

note_received-IsGuarded :
    (vlan port : ℕ) (b : Bridge) → IsGuarded b → IsGuarded (note_received vlan port b)
note_received-IsGuarded vlan port b g = elim (Bool-cases (b.rcvhistindex == 0)) [
  | inl first ↦
      rw (note_received, first)
        (same-IsGuarded b vlan (λ v. record v { rcvhist0 = ba_set v.rcvhist0 port })
          (λ v i. (refl, refl)) g)
  | inr second ↦
      rw (note_received, second)
        (same-IsGuarded b vlan (λ v. record v { rcvhist1 = ba_set v.rcvhist1 port })
          (λ v i. (refl, refl)) g)
]

note_received-table : (vlan port : ℕ) (b : Bridge) → (note_received vlan port b).switch ≡ b.switch
note_received-table vlan port b = refl

topology_change-table :
    (vlan genport : ℕ) (b : Bridge) (u i : ℕ)
    → in_table (topology_change vlan genport b).switch u i ≡ in_table b.switch u i
unfolding topology_change
topology_change-table vlan genport b u i =
    for_each-keeps (λ c. in_table c.switch u i ≡ in_table b.switch u i) (tell_change vlan genport)
      tell _ _
      (for_each-keeps (λ c. in_table c.switch u i ≡ in_table b.switch u i)
        (tell_change vlan genport) tell _ _ refl)
  where
    tell :
        (k : ℕ) (c : Bridge)
        → in_table c.switch u i ≡ in_table b.switch u i
        → in_table (tell_change vlan genport k c).switch u i ≡ in_table b.switch u i
    tell k c h = elim (Bool-cases (is_designated (vlst_at c vlan) genport k)) [
      | inr not_ ↦ rw not_ h
      | inl told ↦
          rw told
            (ap (λ s. in_table s u i) (fst_sendbpdu-IsQuiet vlan k false true false c).switch ∙ h)
    ]

-- A packet of the protocol that comes in on a port of the VLAN keeps the invariant: a port that a tree
-- counts as a backup, and that is no edge port, is shut.
pub fst_in_bpdu-IsGuarded :
    (port : ℕ) (f : Frame) (vlan : ℕ) (tagged : Bool) (b : Bridge)
    → IsGuarded b
    → in_table b.switch vlan port ≡ true
    → IsGuarded (fst_in_bpdu port f vlan tagged b)
unfolding fst_in_bpdu
fst_in_bpdu-IsGuarded port f vlan tagged b g m =
    let p = read_bpdu (drop (if tagged then 4 else 0) f.bytes) in
    let len = if tagged then f.len - 4 else f.len in
    let b1 = note_received vlan port b in
    let g1 = note_received-IsGuarded vlan port b g in
    let b2 = topology_change vlan port b1 in
    elim (Bool-cases (ba_check (vlst_at b vlan).edge port)) [
      | inl edge ↦ rw edge g
      | inr inner ↦ elim (Option-cases (fsttab_at b1 vlan)) [
        | inl gone ↦ rw (inner, gone, fst_in_bpdu) g1
        | inr (v, there) ↦ elim (Bool-cases (is_faulty len p)) [
          | inl faulty ↦ rw (inner, there, faulty, fst_in_bpdu) g1
          | inr good ↦ elim (Bool-cases (bit_and p.stp_flags 1 == 1)) [
            | inr calm ↦
                rw (inner, there, good, calm, fst_in_bpdu)
                  (use_bpdu-IsGuarded vlan port
                    (record p { stp_rootcost = cost_through b1 (vlst_at b1 vlan) port p }) b1 g1 m)
            | inl changed ↦
                rw (inner, there, good, changed, fst_in_bpdu)
                  (use_bpdu-IsGuarded vlan port
                    (record p { stp_rootcost = cost_through b2 (vlst_at b2 vlan) port p }) b2
                    (topology_change-IsGuarded vlan port b1 g1)
                    (topology_change-table vlan port b1 vlan port ∙ m))
          ]
        ]
      ]
    ]
