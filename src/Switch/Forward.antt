-- ===== src/Switch/Forward.antt =====
-- What `handle_in_packet` of port.c does with a frame that comes in on a port, up to the call of
-- `fst_in_bpdu` for a frame of the protocol. That call is the value `bpdu` here, and is made in
-- Fstp/Receive.
use vde.Common.{
  ℕ, zero, suc, ◌+◌, ◌-◌, Bool, true, false, ◌&&◌, Option, none, some, List, [], ◌∷◌, ◌++◌,
  if◌then◌else◌, ◌==◌,
}
use vde.BitArray.{ba_check, ba_forall}
use vde.Hash.{Table, find_in_hash, find_in_hash_update}
use vde.Switch.{Endpoint, Switch, vlan_at, port_at, untag_of, novlan, is_hub, runs_fstp}
use vde.Switch.Frame.{
  Frame, dest, src, is_broadcast, is_tagged, tag_vlan, is_bpdu, tag2untag, untag2tag,
}

-- A call of a port's `sender`, for one endpoint: `sender(fd_ctl, fd_data, packet, len, port)`.
pub record Sent : Type 0 where
  pub fd_ctl : ℕ
  pub fd_data : ℕ
  pub frame : Frame
  pub port : ℕ

-- The loop of `SEND_PACKET_PORT` over the endpoints.
unfoldable pub send_eps : Frame → List Endpoint → List Sent
send_eps f [] = []
send_eps f (e ∷ es) =
    record { fd_ctl = e.fd_ctl; fd_data = e.fd_data; frame = f; port = e.port } ∷ send_eps f es

-- `SEND_PACKET_PORT(portv[i],i,packet,len)`. A NULL `portv[i]` is a fault in C; here nothing is sent.
unfoldable pub send_port : Switch → Frame → ℕ → List Sent
unfolding send_eps
send_port s f i = elim (port_at s i) [ none ↦ [] | some p ↦ send_eps f p.ep ]

-- `if (i != port) SEND_PACKET_PORT(...)` for the indices of a `ba_FORALL`.
unfoldable pub send_others : Switch → Frame → ℕ → List ℕ → List Sent
send_others s f port [] = []
send_others s f port (i ∷ is) =
    (if i == port then [] else send_port s f i) ++ send_others s f port is

-- for (i = ...; left > 0; i++) if ((i != port) && (portv[i] != NULL)) SEND_PACKET_PORT(...)
unfoldable pub hub_loop : Switch → Frame → ℕ → ℕ → ℕ → List Sent
hub_loop s f port zero i = []
hub_loop s f port (suc left) i =
    (if i == port then [] else send_port s f i) ++ hub_loop s f port left (i + 1)

-- The VLAN of a frame that comes in on a port, and whether the frame is tagged; `none` discards it.
unfoldable pub admit : Switch → ℕ → Frame → Option (ℕ × Bool)
admit s port f =
    if is_tagged f
    then if ba_check (vlan_at s (tag_vlan f)).table port then some (tag_vlan f, true) else none
    else if untag_of (port_at s port) == novlan
    then none
    else some (untag_of (port_at s port), false)

-- The address table after the frame's source has been learned, unless that is a group address.
unfoldable pub learn : Switch → ℕ → Option ℕ → ℕ → ℕ → Frame → Table
learn s now fresh port vlan f =
    if is_broadcast (src f)
    then s.hash
    else (find_in_hash_update (src f) vlan port now fresh s.hash).1

-- To all the ports of the VLAN but the one it came from, in the form of a port's set.
unfoldable pub flood : Switch → ℕ → ℕ → Bool → Frame → List Sent
flood s port vlan tagged f =
    let v = vlan_at s vlan in
    let to_tag = ba_forall v.bctag s.numports in
    let to_untag = ba_forall v.bcuntag s.numports in
    if tagged
    then send_others s f port to_tag ++ send_others s (tag2untag f) port to_untag
    else send_others s f port to_untag ++ send_others s (untag2tag vlan f) port to_tag

-- To the one port behind which the destination was learned.
unfoldable pub unicast : Switch → ℕ → ℕ → Bool → Frame → ℕ → List Sent
unicast s port vlan tagged f tarport =
    let untagged_there = untag_of (port_at s tarport) == vlan in
    if tarport == port
    then []
    else if tagged
    then if untagged_there then send_port s (tag2untag f) tarport else send_port s f tarport
    else if untagged_there
    then send_port s f tarport
    else send_port s (untag2tag vlan f) tarport

-- The choice between the two, by the address table.
unfoldable pub deliver : Switch → ℕ → ℕ → Bool → Frame → List Sent
deliver s port vlan tagged f =
    if is_broadcast (dest f)
    then flood s port vlan tagged f
    else elim (find_in_hash (dest f) vlan s.hash) [
      | none ↦ flood s port vlan tagged f
      | some tarport ↦ unicast s port vlan tagged f tarport
    ]

-- The arguments of the call of `fst_in_bpdu`.
pub record Bpdu : Type 0 where
  pub port : ℕ
  pub frame : Frame
  pub vlan : ℕ
  pub tagged : Bool

-- What the handler did: the new state, the frames sent, and the frame given to the spanning tree
-- protocol, if any.
pub record Handled : Type 0 where
  pub switch : Switch
  pub sent : List Sent
  pub bpdu : Option Bpdu

abbrev nothing_done : Switch → Handled
nothing_done s = record { switch = s; sent = []; bpdu = none }

-- The part of `handle_in_packet` behind the choice of the VLAN.
unfoldable pub switch_packet : Switch → ℕ → Option ℕ → ℕ → Frame → ℕ → Bool → Handled
switch_packet s now fresh port f vlan tagged =
    if is_bpdu f && runs_fstp s
    then record {
      switch = s;
      sent = [];
      bpdu = some (record { port = port; frame = f; vlan = vlan; tagged = tagged });
    }
    else if ba_check (vlan_at s vlan).notlearning port
    then nothing_done s
    else let s' = record s { hash = learn s now fresh port vlan f } in
      record { switch = s'; sent = deliver s' port vlan tagged f; bpdu = none }

-- The body of `handle_in_packet` but for the effect of `fst_in_bpdu`. `now` is `qtime()`, and `fresh` is what `malloc` gives for a new address.
unfoldable pub route_in_packet : Switch → ℕ → Option ℕ → ℕ → Frame → Handled
route_in_packet s now fresh port f =
    if is_hub s
    then record { switch = s; sent = hub_loop s f port (s.numports - 1) 1; bpdu = none }
    else elim (admit s port f) [
      | none ↦ nothing_done s
      | some (vlan, tagged) ↦ switch_packet s now fresh port f vlan tagged
    ]
