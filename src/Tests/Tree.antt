-- ===== src/Tests/Tree.antt =====
-- The office switch of Tests/Office with the protocol on, and a tree for VLAN 1 with its two ports, of
-- which both were active of late.
use mathlib.Core.Bool.{false≢true}
use vde.Common.{
  ℕ, zero, suc, ◌≡◌, refl, arith, true, false, none, some, [], ◌∷◌, replicate, pass_below,
  Bool-cases, inl, inr,
}
use vde.Common.Int.{pos}
use vde.Timer.{Timers}
use vde.BitArray.{ba_check, ba_set, ba_clr, ba_forall}
use vde.BitArray.Sets.{Holds}
use vde.Switch.{vlan_at, port_set_status}
use vde.Switch.Wired.{IsWired, in_table}
use vde.Fstp.{Vlst, FstBpdu, Bridge, vlst_at, for_each}
use vde.Fstp.Packets.{initial_outpacket, initial_outtagpacket, bpdu_frame, stp_bytes}
use Prim.Native.Nat.{compare}
use vde.Fstp.Protocol.{compare_bpdu}
use vde.Fstp.Priority.{IsVector, number, known_key, told_key, compare_bpdu-number}
use vde.Fstp.Guarded.{IsGuarded, is_member, is_blocked, is_shut}
use vde.Fstp.Protocol.{fastprotocol, fst_in_bpdu, fstdelport}
use vde.Fstp.Packet.{fst_in_bpdu-IsGuarded}
use vde.Fstp.Ports.{fstdelport-IsGuarded, fst_hello-IsGuarded}
use vde.Fstp.Send.{topology_change, fst_sendbpdu}
use vde.Fstp.Hello.{fst_hello}
use vde.Fstp.Receive.{handle_in_packet}
use vde.Fstp.Incoming.{handle_in_packet-IsGuarded}
use vde.Tests.Office.{office, office-IsWired, office-within, every_member}

abbrev pub tree : Vlst
tree = record {
  root = 0x80 ∷ 0 ∷ 2 ∷ 0 ∷ 0 ∷ 0 ∷ 0 ∷ 9 ∷ [];
  rootcost = replicate 4 0;
  dessw = replicate 8 0xff;
  port = 0 ∷ 0 ∷ [];
  rootport = 0;
  bonusport = 0;
  bonuscost = pos 0;
  tctime = 0;
  roottimestamp = 0;
  untag = some (0b0110 ∷ []);
  tagged = some (0 ∷ []);
  backup = some (0 ∷ []);
  edge = some (0 ∷ []);
  rcvhist0 = some (0b0110 ∷ []);
  rcvhist1 = some (0 ∷ []);
}

abbrev clock : Timers
clock = record { qth = []; qtf = []; maxqt = 0; gqtime = 20; activeqt = 0; countqt = 0 }

abbrev pub talking : Bridge
talking = record {
  switch = record office { fst_pflag = 1 };
  timers = clock;
  fsttab = none ∷ some tree ∷ none ∷ [];
  numports = 4;
  rcvhistindex = 0;
  hellocounter = 0;
  fst_timerno = 0;
  myid = 0x80 ∷ 0 ∷ 2 ∷ 0 ∷ 0 ∷ 0 ∷ 0 ∷ 9 ∷ [];
  switchmac = 2 ∷ 0 ∷ 0 ∷ 0 ∷ 0 ∷ 9 ∷ [];
  outpacket = initial_outpacket;
  outtagpacket = initial_outtagpacket;
  sent = [];
}

pub talking-IsWired : IsWired talking.switch
talking-IsWired = record {
  numbered = office-IsWired.numbered;
  within = office-IsWired.within;
  tagged = office-IsWired.tagged;
  untagged = office-IsWired.untagged;
  home = office-IsWired.home;
  hashed = office-IsWired.hashed;
  behind = office-IsWired.behind;
}

talking-members :
    (u i : ℕ) → is_member (vlst_at talking u) i ≡ true → in_table talking.switch u i ≡ true
unfolding ba_check pass_below
talking-members zero i m = absurd (false≢true m)
talking-members (suc zero) i m = elim (Bool-cases (ba_check (some (0b0110 ∷ [])) i)) [
  | inl there ↦ there
  | inr out ↦
      let t : ba_check (some (0 ∷ [])) i ≡ true = rw out at m in
      absurd (false≢true (every_member 0 (λ i. false) refl i t))
]
talking-members (suc (suc zero)) i m = absurd (false≢true m)
talking-members (suc (suc (suc u))) i m = absurd (false≢true m)

talking-placed :
    (u i : ℕ) → in_table talking.switch u i ≡ true → Holds (vlan_at talking.switch u).notlearning i
unfolding ba_check
talking-placed zero i m = omega (arith, office-within 0 i m)
talking-placed (suc zero) i m = omega (arith, office-within 1 i m)
talking-placed (suc (suc zero)) i m = omega (arith, office-within 2 i m)
talking-placed (suc (suc (suc u))) i m = absurd (false≢true m)

talking-guarded :
    (u i : ℕ) → is_blocked (vlst_at talking u) i ≡ true → is_shut talking.switch u i ≡ true
unfolding ba_check pass_below
talking-guarded zero i m = absurd (false≢true m)
talking-guarded (suc zero) i m =
    let t : ba_check (some (0 ∷ [])) i ≡ true = ground arith in
    absurd (false≢true (every_member 0 (λ i. false) refl i t))
talking-guarded (suc (suc zero)) i m = absurd (false≢true m)
talking-guarded (suc (suc (suc u))) i m = absurd (false≢true m)

pub talking-IsGuarded : IsGuarded talking
talking-IsGuarded = record {
  members = talking-members;
  placed = talking-placed;
  guarded = talking-guarded;
}

-- Another switch, with a lower identifier, offers itself as the root on port 1.
abbrev pub offer : FstBpdu
offer = record initial_outpacket {
  src = 2 ∷ 0 ∷ 0 ∷ 0 ∷ 0 ∷ 1 ∷ [];
  stp_root = 0x80 ∷ 0 ∷ 2 ∷ 0 ∷ 0 ∷ 0 ∷ 0 ∷ 1 ∷ [];
  stp_bridge = 0x80 ∷ 0 ∷ 2 ∷ 0 ∷ 0 ∷ 0 ∷ 0 ∷ 1 ∷ [];
  stp_port = 0x80 ∷ 3 ∷ [];
}

in_vlan_1 : in_table talking.switch 1 1 ≡ true
unfolding ba_check
in_vlan_1 = refl

fst_in_bpdu-IsGuarded_example : IsGuarded (fst_in_bpdu 1 (bpdu_frame offer) 1 false talking)
fst_in_bpdu-IsGuarded_example =
    fst_in_bpdu-IsGuarded 1 (bpdu_frame offer) 1 false talking talking-IsGuarded in_vlan_1

handle_in_packet-IsGuarded_example :
    IsGuarded (handle_in_packet (some 0) 1 (bpdu_frame offer) talking)
handle_in_packet-IsGuarded_example =
    handle_in_packet-IsGuarded (some 0) 1 (bpdu_frame offer) talking talking-IsGuarded
      talking-IsWired

fstdelport-IsGuarded_example : IsGuarded (fstdelport 1 2 talking)
fstdelport-IsGuarded_example = fstdelport-IsGuarded 1 2 talking talking-IsGuarded

fst_hello-IsGuarded_example : IsGuarded (fst_hello talking)
fst_hello-IsGuarded_example = fst_hello-IsGuarded talking talking-IsGuarded

-- A run: the offer is taken, port 1 becomes the root port, and port 2 is shut.
offer_taken :
    let b = fst_in_bpdu 1 (bpdu_frame offer) 1 false talking in
    ((vlst_at b 1).rootport ≡ 1)
    × ((vlst_at b 1).root ≡ offer.stp_root)
    × (is_shut b.switch 1 2 ≡ true)
    × (is_shut b.switch 1 1 ≡ false)
unfolding fst_in_bpdu bpdu_frame ba_check stp_bytes topology_change for_each ba_forall fastprotocol
    fst_sendbpdu port_set_status ba_set ba_clr
offer_taken = (refl, refl, refl, refl)

bytes_of_tree : IsVector tree.root tree.rootcost tree.dessw tree.port
bytes_of_tree = record {
  root_length = refl;
  cost_length = refl;
  bridge_length = refl;
  port_length = refl;
  root_bytes = ground arith;
  cost_bytes = ground arith;
  bridge_bytes = ground arith;
  port_bytes = ground arith;
}

bytes_of_offer : IsVector offer.stp_root offer.stp_rootcost offer.stp_bridge offer.stp_port
bytes_of_offer = record {
  root_length = refl;
  cost_length = refl;
  bridge_length = refl;
  port_length = refl;
  root_bytes = ground arith;
  cost_bytes = ground arith;
  bridge_bytes = ground arith;
  port_bytes = ground arith;
}

compare_bpdu-number_example :
    compare_bpdu tree offer ≡ compare (number (known_key tree)) (number (told_key offer))
compare_bpdu-number_example = compare_bpdu-number tree offer bytes_of_tree bytes_of_offer
