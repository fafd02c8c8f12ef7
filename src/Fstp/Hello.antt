-- ===== src/Fstp/Hello.antt =====
-- The periodic work of fstp.c: `fst_hello` with `fst_hello_vlan` and `fst_updatebackup`.
use vde.Common.{
  ℕ, ◌+◌, ◌-◌, ◌*◌, ◌%◌, ◌^◌, bit_and, Bool, true, false, ◌&&◌, not, if◌then◌else◌, ◌==◌, ltb,
}
use vde.BitArray.{ba_check, ba_zap, ba_forall, bac_forall}
use vde.Fstp.{Vlst, Bridge, numofvlan, helloperiod, vlst_at, change_vlst, is_active, for_each, now}
use vde.Fstp.Vlans.{renew_vlan, reopen}
use vde.Fstp.Send.{send_untagged, send_tagged, root_outpacket, root_outtagpacket}

-- rootport != 0 && (now - roottimestamp) > 3*helloperiod, on unsigned integers.
abbrev pub is_lost : ℕ → Vlst → Bool
is_lost t v =
    not (v.rootport == 0)
    && ltb (3 * helloperiod) ((t + 2 ^ 32 - v.roottimestamp % 2 ^ 32) % 2 ^ 32)

-- The bodies of the two loops of `fst_hello_vlan`.
abbrev pub hello_untagged : ℕ → ℕ → Bridge → Bridge
hello_untagged vlan port b =
    if ba_check (vlst_at b vlan).edge port then b else send_untagged vlan port true false false b

abbrev pub hello_tagged : ℕ → ℕ → Bridge → Bridge
hello_tagged vlan port b =
    if ba_check (vlst_at b vlan).edge port then b else send_tagged vlan port true false false b

unfoldable pub fst_hello_vlan : ℕ → Bridge → Bridge
fst_hello_vlan vlan b =
    let b1 = if is_lost (now b) (vlst_at b vlan) then renew_vlan vlan b else b in
    let b2 = root_outtagpacket vlan (root_outpacket vlan b1) in
    let b3 = for_each (ba_forall (vlst_at b2 vlan).untag b2.numports) (hello_untagged vlan) b2 in
    for_each (ba_forall (vlst_at b3 vlan).tagged b3.numports) (hello_tagged vlan) b3

-- The body of the first loop of `fst_updatebackup`.
abbrev pub wake : ℕ → ℕ → Bridge → Bridge
wake vlan port b = if is_active (vlst_at b vlan) port then b else reopen vlan port b

-- ba_zap(fsttab[vlan]->rcvhist[index],numports);
abbrev pub forget_received : ℕ → ℕ → Vlst → Vlst
forget_received index n v =
    if index == 0
    then record v { rcvhist0 = ba_zap v.rcvhist0 n }
    else record v { rcvhist1 = ba_zap v.rcvhist1 n }

unfoldable pub fst_updatebackup : ℕ → ℕ → Bridge → Bridge
fst_updatebackup index vlan b =
    let b1 = for_each (ba_forall (vlst_at b vlan).backup b.numports) (wake vlan) b in
    change_vlst vlan (forget_received index b1.numports) b1

unfoldable pub fst_hello : Bridge → Bridge
unfolding for_each fst_hello_vlan fst_updatebackup
fst_hello b =
    let b1 = record b { hellocounter = (b.hellocounter + 1) % 2 ^ 32 } in
    let b2 = for_each (bac_forall b1.switch.validvlan numofvlan) fst_hello_vlan b1 in
    let b3 = record b2 { rcvhistindex = 1 - b2.rcvhistindex } in
    if bit_and b2.hellocounter 3 == 0
    then for_each (bac_forall b3.switch.validvlan numofvlan) (fst_updatebackup b3.rcvhistindex) b3
    else b2
