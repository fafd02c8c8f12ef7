-- ===== src/Tests/Custody.antt =====
-- The commands and the timeouts of the switch at concrete inputs.
use vde.Common.{
  Bool, true, ℕ, zero, suc, ◌-◌, ◌^◌, ◌<◌, ◌≡◌, refl, arith, false, none, some, List, [], ◌∷◌, ◌++◌,
  replicate, length, get_or, get_or-replicate, ltb, Bool-cases, inl, inr, get_or-append_left,
  get_or-append_right,
}
use vde.Common.Int.{pos}
use vde.BitArray.{bac_forall, ba_forall, ba_clr, ba_set}
use vde.Fstp.Protocol.{fstaddport, fstdelport}
use vde.Fstp.Send.{topology_change, fst_sendbpdu}
use vde.BitArray.{ba_check}
use vde.BitArray.Card.{IsCounted, popcount}
use vde.Switch.{port_at, vlan_at}
use vde.Fstp.Guarded.{IsGuarded, is_shut}
use vde.Switch.Wired.{in_table}
use vde.Fstp.{Vlst, Bridge, vlst_at, numofvlan}
use vde.Switch.{Endpoint, Port}
use vde.Admin.Endpoints.{checkport_ac, endpoint, setup_ep, close_ep, close_ep_port_fd}
use vde.Admin.Opening.{eps_at}
use vde.Admin.Closing.{close_ep-setup_ep}
use vde.Admin.Ports.{portremove}
use vde.Admin.Removal.{portremove-gone}
use vde.Admin.Guard.{close_ep_port_fd-IsGuarded}
use vde.Tests.Tree.{talking-IsGuarded, talking, tree}

-- A switch whose port 3 has lost its endpoint, with VLANs 0, 1 and 2.
abbrev valid_words : List ℕ
valid_words = 0b111 ∷ replicate 63 0 ++ 3 ∷ []

abbrev idle_holder : Port
idle_holder = record {
  ep = [];
  flag = 0;
  ms = none;
  vlanuntag = 2;
  user = none;
  group = none;
  curuser = none;
  cost = 1;
}

abbrev idle_port : Bridge
idle_port = record talking {
  switch = record talking.switch {
    portv = none ∷ none ∷ none ∷ some idle_holder ∷ [];
    validvlan = some valid_words;
  };
}

valid_words-narrow : (k : ℕ) → get_or valid_words k 0 < 2 ^ 64
valid_words-narrow zero = omega arith
valid_words-narrow (suc k) =
    let zs : List ℕ = replicate 63 0 in
    let end : List ℕ = 3 ∷ [] in
    elim (Bool-cases (ltb k 63)) [
      | inl low ↦
          let lt : k < length zs = ground arith in
          let z : ℕ = 0 in
          let r : get_or zs k z ≡ z = get_or-replicate 63 k z in
          omega (arith, get_or-append_left {0} zs end k 0 lt, r)
      | inr high ↦ omega (arith, get_or-append_right {0} zs end k 0 (ground arith), last (k - 63))
    ]
  where
    last : (j : ℕ) → get_or (3 ∷ []) j 0 < 2 ^ 64
    last zero = omega arith
    last (suc j) = omega arith

valid_words-IsCounted : IsCounted numofvlan valid_words
unfolding popcount
valid_words-IsCounted = record { size = refl; narrow = valid_words-narrow; counted = refl }

portremove-gone_example :
    let s = (portremove (pos 3) idle_port).1.switch in
    (port_at s 3 ≡ none) × (in_table s 2 3 ≡ false)
unfolding ba_check portremove
portremove-gone_example =
    portremove-gone (pos 3) valid_words 2 idle_port refl valid_words-IsCounted (omega arith) refl
      refl

-- A tree whose root, behind port 1, was heard at time 2; it is 20 now.
abbrev stale_tree : Vlst
stale_tree = record tree {
  root = 0x80 ∷ 0 ∷ 2 ∷ 0 ∷ 0 ∷ 0 ∷ 0 ∷ 1 ∷ [];
  rootport = 1;
  roottimestamp = 2;
  backup = some (0b0100 ∷ []);
  rcvhist0 = some (0b0010 ∷ []);
}

abbrev stale : Bridge
stale = record talking { fsttab = none ∷ some stale_tree ∷ none ∷ [] }

-- A guest on port 3.
abbrev guest : Endpoint
guest = record { port = 3; fd_ctl = 7; fd_data = 8 }

abbrev nobody : ℕ → ℕ → Bool
nobody u g = false

abbrev visited : Bridge
visited = (setup_ep nobody true true (pos 3) 7 8 1000 0 idle_port).1

guest-visits : setup_ep nobody true true (pos 3) 7 8 1000 0 idle_port ≡ (endpoint guest, visited)
unfolding setup_ep checkport_ac
guest-visits = refl

close_ep-setup_ep_example :
    ((close_ep guest visited).0 ≡ 0) × (eps_at (close_ep guest visited).1 3 ≡ eps_at idle_port 3)
close_ep-setup_ep_example =
    close_ep-setup_ep nobody true true (pos 3) 7 8 1000 0 idle_port visited guest 3 guest-visits

-- Port 3 with an owner, and a caller without a user: `checkport_ac` refuses, and `curuser` is equal.
abbrev owned : Port
owned = record idle_holder { user = some 500 }

abbrev owned_port : Bridge
owned_port = record idle_port {
  switch = record idle_port.switch { portv = none ∷ none ∷ none ∷ some owned ∷ [] };
}

anonymous-enters :
    (checkport_ac nobody owned (2 ^ 32 - 1) ≡ false)
    × ((setup_ep nobody true true (pos 3) 7 8 (2 ^ 32 - 1) 0 owned_port).0 ≡ endpoint guest)
unfolding setup_ep checkport_ac
anonymous-enters = (refl, refl)

-- Port 2 is tagged in VLAN 2, and the tree of VLAN 2 has shut it as a backup.
abbrev blocked_tree : Vlst
blocked_tree = record tree {
  untag = some (0b1000 ∷ []);
  tagged = some (0b0100 ∷ []);
  backup = some (0b0100 ∷ []);
}

abbrev blocked : Bridge
blocked = record talking {
  switch = record talking.switch {
    validvlan = some valid_words;
    vlant =
        vlan_at talking.switch 0
        ∷ vlan_at talking.switch 1
        ∷ record (vlan_at talking.switch 2) {
          bctag = some (0 ∷ []);
          notlearning = some (0b0100 ∷ []);
        }
        ∷ [];
  };
  fsttab = none ∷ some tree ∷ some blocked_tree ∷ [];
}

-- Its endpoint goes and comes again: the port is no backup any more, and it is shut all the same.
abbrev reopened : Bridge
reopened =
    (setup_ep nobody true true (pos 2) 12 22 1000 0 (close_ep_port_fd (pos 2) 12 blocked).1).1

stays_shut : (ba_check (vlst_at reopened 2).backup 2 ≡ false) × (is_shut reopened.switch 2 2 ≡ true)
unfolding ba_check setup_ep close_ep_port_fd bac_forall fstdelport topology_change ba_forall ba_clr
    fst_sendbpdu checkport_ac fstaddport ba_set
stays_shut = (refl, refl)

close_ep_port_fd-IsGuarded_example : IsGuarded (close_ep_port_fd (pos 2) 12 talking).1
close_ep_port_fd-IsGuarded_example = close_ep_port_fd-IsGuarded (pos 2) 12 talking talking-IsGuarded
