-- ===== src/Fstp/Protocol.antt =====
-- The protocol of fstp.c: `fastprotocol`, `fst_in_bpdu`, `fstaddport` and `fstdelport`.
use vde.Common.{
  ℕ, ◌+◌, ◌-◌, ◌%◌, ◌^◌, bit_and, Bool, true, false, ◌||◌, not, Option, none, some, List, ◌++◌,
  if◌then◌else◌, ◌==◌, ltb, drop,
}
use vde.Common.Int.{to_32}
use vde.BitArray.{ba_check, ba_set, ba_clr, ba_forall}
use vde.Switch.{Port, discarding, port_at}
use vde.Switch.Frame.{Frame}
use vde.Fstp.{
  Vlst, FstBpdu, Bridge, switchid_len, memcmp, ltonstring, nstringtol, fsttab_at, vlst_at,
  change_vlst, set_status, for_each, now,
}
use vde.Fstp.Packets.{read_bpdu}
use vde.Fstp.Vlans.{renew_vlan, reopen}
use vde.Fstp.Send.{is_designated, fst_sendbpdu, topology_change}
use Prim.Native.Nat.{Ordering}

-- The body of the loops of `fastprotocol`.
abbrev pub shut : ℕ → ℕ → ℕ → Bridge → Bridge
shut vlan newrootport port b =
    if is_designated (vlst_at b vlan) newrootport port
    then fst_sendbpdu vlan port false false false (
        change_vlst vlan (λ v. record v { backup = ba_set v.backup port })
          (set_status port vlan discarding b))
    else b

unfoldable pub fastprotocol : ℕ → ℕ → Bridge → Bridge
fastprotocol vlan newrootport b =
    let b1 = for_each (ba_forall (vlst_at b vlan).untag b.numports) (shut vlan newrootport) b in
    let b2 = for_each (ba_forall (vlst_at b1 vlan).tagged b1.numports) (shut vlan newrootport) b1 in
    fst_sendbpdu vlan newrootport true false false (reopen vlan newrootport b2)

-- `port_getcost`; the source reads through `portv[port]`.
abbrev port_getcost : Option Port → ℕ
port_getcost none = 0
port_getcost (some p) = p.cost

-- The cost of the root through the port, written over the one in the packet.
abbrev pub cost_through : Bridge → Vlst → ℕ → FstBpdu → List ℕ
cost_through b v port p =
    let bonus = if port == v.bonusport then to_32 v.bonuscost else 0 in
    ltonstring
      ((nstringtol p.stp_rootcost + port_getcost (port_at b.switch port) + 2 ^ 32 - bonus) % 2 ^ 32)

abbrev pub next_key : Ordering → Ordering → Ordering
next_key Ordering.eq o = o
next_key o _ = o

-- `val`: what is known of the root, against what the packet says of it.
unfoldable pub compare_bpdu : Vlst → FstBpdu → Ordering
compare_bpdu v p = next_key (memcmp switchid_len v.root p.stp_root) (
    next_key (memcmp 4 v.rootcost p.stp_rootcost)
      (next_key (memcmp switchid_len v.dessw p.stp_bridge) (memcmp 2 v.port p.stp_port)))

-- The test `> 0` of a result of `memcmp`.
abbrev pub is_positive : Ordering → Bool
is_positive Ordering.gt = true
is_positive _ = false

-- The packet's root becomes the root of the VLAN. The condition compares the root that was known with
-- the eight bytes from `outpacket.header.src` on.
unfoldable pub new_root : ℕ → ℕ → FstBpdu → Bridge → Bridge
unfolding memcmp
new_root vlan port p b =
    let renewed =
      if is_positive (memcmp 8 (vlst_at b vlan).root (b.outpacket.src ++ b.outpacket.proto))
      then b
      else renew_vlan vlan b in
    let b1 =
      change_vlst vlan
        (λ v. record v {
          root = p.stp_root;
          rootcost = p.stp_rootcost;
          dessw = p.stp_bridge;
          port = p.stp_port;
          rootport = port;
          roottimestamp = now b;
        })
        renewed in
    topology_change vlan port (fastprotocol vlan port b1)

-- The packet tells of a longer way to the same root.
unfoldable pub longer_way : ℕ → ℕ → FstBpdu → Bridge → Bridge
longer_way vlan port p b =
    let v = vlst_at b vlan in
    if bit_and p.stp_flags 0x0c == 0x04
    then if ba_check v.backup port then topology_change vlan port (reopen vlan port b) else b
    else if ba_check v.backup port
    then b
    else topology_change vlan port (
        set_status port vlan discarding
          (change_vlst vlan (λ v. record v { backup = ba_set v.backup port }) b))

-- What follows the comparison, by `val`.
unfoldable pub use_bpdu : ℕ → ℕ → FstBpdu → Bridge → Bridge
unfolding new_root longer_way compare_bpdu
use_bpdu vlan port p b =
    let v = vlst_at b vlan in
    elim (compare_bpdu v p) [
      | Ordering.eq ↦ change_vlst vlan (λ v. record v { roottimestamp = now b }) b
      | Ordering.gt ↦ new_root vlan port p b
      | Ordering.lt ↦
          if port == v.rootport
          then new_root vlan port p b
          else elim (memcmp switchid_len v.root p.stp_root) [
            | Ordering.eq ↦ longer_way vlan port p b
            | _ ↦ fst_sendbpdu vlan port false false false b
          ]
    ]

-- ba_set(fsttab[vlan]->rcvhist[rcvhistindex],port);
abbrev pub note_received : ℕ → ℕ → Bridge → Bridge
note_received vlan port b =
    change_vlst vlan
      (λ v.
        if b.rcvhistindex == 0
        then record v { rcvhist0 = ba_set v.rcvhist0 port }
        else record v { rcvhist1 = ba_set v.rcvhist1 port })
      b

-- The tests that a packet of a live tree must pass.
abbrev pub is_faulty : ℕ → FstBpdu → Bool
is_faulty len p = ltb len 51 || not (p.stp_version == 2) || not (p.stp_type == 2)

unfoldable pub fst_in_bpdu : ℕ → Frame → ℕ → Bool → Bridge → Bridge
unfolding use_bpdu read_bpdu
fst_in_bpdu port f vlan tagged b =
    let p = read_bpdu (drop (if tagged then 4 else 0) f.bytes) in
    let len = if tagged then f.len - 4 else f.len in
    let b1 = note_received vlan port b in
    if ba_check (vlst_at b vlan).edge port then b else elim (fsttab_at b1 vlan) [
      | none ↦ b1
      | some v ↦
          if is_faulty len p
          then b1
          else let b2 = if bit_and p.stp_flags 1 == 1 then topology_change vlan port b1 else b1 in
            use_bpdu vlan port
              (record p { stp_rootcost = cost_through b2 (vlst_at b2 vlan) port p }) b2
    ]

-- The sets of the tree when a port joins it.
abbrev pub join : Bool → ℕ → Vlst → Vlst
join as_tagged port v = record v {
  tagged = if as_tagged then ba_set v.tagged port else ba_clr v.tagged port;
  untag = if as_tagged then ba_clr v.untag port else ba_set v.untag port;
  backup = ba_clr v.backup port;
  edge = ba_clr v.edge port;
  rcvhist0 = ba_clr v.rcvhist0 port;
  rcvhist1 = ba_clr v.rcvhist1 port;
}

unfoldable pub fstaddport : ℕ → ℕ → Bool → Bridge → Bridge
fstaddport vlan port tagged b =
    topology_change vlan port
      (fst_sendbpdu vlan port false false false (change_vlst vlan (join tagged port) b))

abbrev pub leave : ℕ → Vlst → Vlst
leave port v = record v {
  untag = ba_clr v.untag port;
  tagged = ba_clr v.tagged port;
  backup = ba_clr v.backup port;
  edge = ba_clr v.edge port;
}

unfoldable pub fstdelport : ℕ → ℕ → Bridge → Bridge
fstdelport vlan port b =
    let b1 = change_vlst vlan (leave port) b in
    let b2 = if port == (vlst_at b1 vlan).rootport then renew_vlan vlan b1 else b1 in
    topology_change vlan port b2
