-- ===== src/Tests/Frames.antt =====
-- Frames that come in at the ports of the office.
use mathlib.Core.Bool.{false≢true}
use vde.Common.{
  ◌++◌, zero, suc, ap, ℕ, ◌<◌, ◌≡◌, ◌≢◌, refl, arith, Bool, true, false, not, ◌&&◌, none, some,
  List, [], ◌∷◌, if◌then◌else◌, ◌==◌, get_or, All, keep,
}
use vde.Timer.{is_empty}
use vde.BitArray.{ba_check, ba_forall, bits_of_word, bits_of_words}
use vde.Hash.{extmac, find_in_hash, find_in_hash_update, hash_alloc, chain_find, calc_hash, see}
use vde.Switch.{Switch, vlan_at, discarding, port_set_status, port_get_status}
use vde.Switch.Confine.{
  IsSwitched, route_in_packet-IsWired, route_in_packet-delivers, route_in_packet-confined,
}
use vde.Switch.Deliver.{known, goes_to, shape}
use vde.Switch.Flood.{received}
use vde.Switch.Forward.{
  admit, learn, send_port, send_eps, send_others, flood, unicast, deliver, switch_packet,
  route_in_packet,
}
use vde.Switch.Frame.{
  Frame, dest, src, is_broadcast, is_tagged, tag_vlan, is_bpdu, tag2untag, untag2tag,
  tag2untag-untag2tag, untag2tag_lem,
}
use vde.Switch.Rewire.{port_set_status-IsWired}
use vde.Switch.Status.{port_get_status-set}
use vde.Switch.Wired.{IsWired, IsBytes, in_table}
use vde.Tests.Office.{office, office-IsWired}

-- A frame of fourteen bytes of header and one of data.
abbrev frame : ℕ → ℕ → Frame
frame to from = record {
  bytes = 2 ∷ 0 ∷ 0 ∷ 0 ∷ 0 ∷ to ∷ 2 ∷ 0 ∷ 0 ∷ 0 ∷ 0 ∷ from ∷ 8 ∷ 0 ∷ 77 ∷ [];
  len = 15;
}

pub bytes_below : (xs : List ℕ) → All (λ b. b < 256) xs → (i : ℕ) → get_or xs i 0 < 256
bytes_below [] h i = omega arith
bytes_below (x ∷ xs) h zero = h.0
bytes_below (x ∷ xs) h (suc i) = bytes_below xs h.1 i

frame-IsBytes : (to from : ℕ) → to < 256 → from < 256 → IsBytes (frame to from)
frame-IsBytes to from h k = bytes_below (frame to from).bytes (
  omega arith,
  (
    omega arith,
    (
      omega arith,
      (
        omega arith,
        (
          omega arith,
          (
            h,
            (
              omega arith,
              (
                omega arith,
                (
                  omega arith,
                  (
                    omega arith,
                    (omega arith, (k, (omega arith, (omega arith, (omega arith, tt))))),
                  ),
                ),
              ),
            ),
          ),
        ),
      ),
    ),
  ),
)

program : Unit {0}
unfolding find_in_hash find_in_hash_update hash_alloc chain_find calc_hash extmac see ba_check
    ba_forall bits_of_word bits_of_words admit learn send_port send_eps send_others flood unicast
    deliver switch_packet route_in_packet is_broadcast is_tagged tag_vlan is_bpdu tag2untag
    untag2tag keep
program = tt

-- Station 1 sends from port 1 to station 2.
first-IsSwitched : IsSwitched office 1 (frame 2 1) 1 false
unfolding program
first-IsSwitched = record { no_hub = refl; admitted = refl; no_bpdu = refl; learns = refl }

-- It is flooded to port 2, the other port of VLAN 1.
first_flood :
    (route_in_packet office 10 (some 0) 1 (frame 2 1)).sent
    ≡ record { fd_ctl = 12; fd_data = 22; frame = frame 2 1; port = 2 } ∷ []
unfolding program
first_flood = refl

route_in_packet-delivers_example :
    let r = route_in_packet office 10 (some 0) 1 (frame 2 1) in
    (r.bpdu ≡ none)
    × (received 2 r.sent ≡ (
        if goes_to office 1 (known r.switch 1 (frame 2 1)) 2 && not (2 == 1)
        then send_port office (shape office 1 false (frame 2 1) 2) 2
        else []))
route_in_packet-delivers_example =
    route_in_packet-delivers office 10 (some 0) 1 (frame 2 1) 1 false office-IsWired
      (frame-IsBytes 2 1 (omega arith) (omega arith)) first-IsSwitched 2

port_two_gets : received 2 (route_in_packet office 10 (some 0) 1 (frame 2 1)).sent ≢ []
unfolding program
port_two_gets e = absurd (false≢true (ap is_empty e))

route_in_packet-confined_example :
    (vlan : ℕ) × (tagged : Bool) × (admit office 1 (frame 2 1) ≡ some (vlan, tagged))
    × (in_table office vlan 1 ≡ true)
    × (in_table office vlan 2 ≡ true)
    × ((2 == 1) ≡ false)
route_in_packet-confined_example =
    route_in_packet-confined office 10 (some 0) 1 (frame 2 1) office-IsWired
      (frame-IsBytes 2 1 (omega arith) (omega arith)) refl 2 port_two_gets

route_in_packet-IsWired_example :
    let s' = (route_in_packet office 10 (some 0) 1 (frame 2 1)).switch in
    IsWired s' × (s' ≡ record office { hash = s'.hash })
route_in_packet-IsWired_example =
    route_in_packet-IsWired office 10 (some 0) 1 (frame 2 1) office-IsWired
      (frame-IsBytes 2 1 (omega arith) (omega arith))

abbrev hub : Switch
hub = record office { pflag = 1 }

port_get_status-set_example : port_get_status 2 1 (port_set_status 2 1 discarding office) ≡ (
    if ba_check (vlan_at office 1).table 2 && (2 == 2) && (1 == 1)
    then discarding
    else port_get_status 2 1 office)
port_get_status-set_example =
    port_get_status-set office 2 1 discarding (omega arith)
      (record { bctag = omega arith; bcuntag = omega arith; notlearning = omega arith }) 2 1

tag2untag-untag2tag_example : tag2untag (untag2tag 5 (frame 2 1)) ≡ frame 2 1
tag2untag-untag2tag_example = tag2untag-untag2tag 5 (frame 2 1) (omega arith)

untag2tag_lem_example :
    let g = untag2tag 5 (frame 2 1) in
    (is_tagged g ≡ true)
    × (tag_vlan g ≡ 5)
    × (dest g ≡ dest (frame 2 1))
    × (src g ≡ src (frame 2 1))
untag2tag_lem_example = untag2tag_lem 5 (frame 2 1) (omega arith) (omega arith)

port_set_status-IsWired_example : IsWired (port_set_status 2 2 discarding office)
port_set_status-IsWired_example =
    port_set_status-IsWired office 2 2 discarding office-IsWired (omega arith)
      (record { bctag = omega arith; bcuntag = omega arith; notlearning = omega arith })

-- The office with a fifth port that nobody uses.
abbrev roomy : Switch
roomy = record office { numports = 5; portv = office.portv ++ none ∷ [] }
