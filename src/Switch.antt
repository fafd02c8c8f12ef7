-- ===== src/Switch.antt =====
-- vde-2/src/vde_switch/port.c: the ports, the VLAN tables and the way of a packet through the switch,
-- as built without VDE_PQ2, DEBUGOPT and PORTCOUNTERS.
pub mod Frame
pub mod Forward
pub mod Flood
pub mod Wired
pub mod Deliver
pub mod Confine
pub mod Answer
pub mod Hub
pub mod Status
pub mod Rewire
pub mod Alloc
use vde.Common.{
  ℕ, zero, suc, ◌+◌, ◌-◌, ◌/◌, ◌%◌, ◌^◌, bit_and, bit_or, Bool, true, false, ◌&&◌, ◌||◌, not,
  Option, none, some, List, [], ◌∷◌, if◌then◌else◌, ◌==◌, get_or, set,
}
use vde.BitArray.{Bitarray, ba_check, ba_set, ba_clr}
use vde.Hash.{Table}

-- `struct endpoint`. The file descriptors name the endpoint.
pub record Endpoint : Type 0 where
  pub port : ℕ
  pub fd_ctl : ℕ
  pub fd_data : ℕ

-- `struct port`; `none` is the -1 of `user`, `group` and `curuser`. The module of the endpoints, `ms`
-- and `sender`, is a number.
pub record Port : Type 0 where
  pub ep : List Endpoint
  pub flag : ℕ
  pub ms : Option ℕ
  pub vlanuntag : ℕ
  pub user : Option ℕ
  pub group : Option ℕ
  pub curuser : Option ℕ
  pub cost : ℕ

-- An element of `vlant`.
pub record Vlan : Type 0 where
  pub table : Bitarray
  pub bctag : Bitarray
  pub bcuntag : Bitarray
  pub notlearning : Bitarray

abbrev pub novlan : ℕ
novlan = 0xfff

-- The static variables of port.c, with the address table that it uses and the flags of fstp.c.
pub record Switch : Type 0 where
  pub numports : ℕ
  pub portv : List (Option Port)
  pub vlant : List Vlan
  pub validvlan : Bitarray
  pub pflag : ℕ
  pub fst_pflag : ℕ
  pub hash : Table

-- A VLAN that does not exist has NULL for its four sets.
abbrev pub null_vlan : Vlan
null_vlan = record { table = none; bctag = none; bcuntag = none; notlearning = none }

-- `vlant[vlan]` and `portv[i]`
abbrev pub vlan_at : Switch → ℕ → Vlan
vlan_at s vlan = get_or s.vlant vlan null_vlan

abbrev pub port_at : Switch → ℕ → Option Port
port_at s i = get_or s.portv i none

abbrev pub set_vlan : Switch → ℕ → Vlan → Switch
set_vlan s vlan v = record s { vlant = set s.vlant vlan v }

-- `portv[i]->vlanuntag`
abbrev pub untag_of : Option Port → ℕ
untag_of none = novlan
untag_of (some p) = p.vlanuntag

abbrev pub hub_tag : ℕ
hub_tag = 1

abbrev pub fstp_tag : ℕ
fstp_tag = 1

-- `portflag` and `fstflag`, with the operation as its constant.
pub data FlagOp : Type 0 where
  p_getflag p_setflag p_addflag p_clrflag : FlagOp

-- The new flags and the result; `~f` is taken on 32 bits.
unfoldable pub portflag : FlagOp → ℕ → ℕ → ℕ × ℕ
portflag p_getflag f pflag = (pflag, bit_and pflag f)
portflag p_setflag f pflag = (f, pflag)
portflag p_addflag f pflag = (bit_or pflag f, pflag)
portflag p_clrflag f pflag = (bit_and pflag (2 ^ 32 - 1 - f), pflag)

abbrev pub is_hub : Switch → Bool
is_hub s = not (bit_and s.pflag hub_tag == 0)

abbrev pub runs_fstp : Switch → Bool
runs_fstp s = not (bit_and s.fst_pflag fstp_tag == 0)

-- The state of a port in a VLAN.
pub data PortStatus : Type 0 where
  discarding learning forwarding : PortStatus

unfoldable pub port_get_status : ℕ → ℕ → Switch → PortStatus
port_get_status portno vlan s =
    let v = vlan_at s vlan in
    if ba_check v.notlearning portno
    then discarding
    else if ba_check v.bctag portno || ba_check v.bcuntag portno
    then forwarding
    else learning

-- The sets of a VLAN after a port has been given a state, where `untagged` says whether the VLAN is
-- the untagged one of the port.
abbrev pub with_status : ℕ → PortStatus → Bool → Vlan → Vlan
with_status i discarding untagged v = record v {
  notlearning = ba_set v.notlearning i;
  bctag = ba_clr v.bctag i;
  bcuntag = ba_clr v.bcuntag i;
}
with_status i learning untagged v = record v {
  notlearning = ba_clr v.notlearning i;
  bctag = ba_clr v.bctag i;
  bcuntag = ba_clr v.bcuntag i;
}
with_status i forwarding true v = record v {
  notlearning = ba_clr v.notlearning i;
  bcuntag = ba_set v.bcuntag i;
}
with_status i forwarding false v = record v {
  notlearning = ba_clr v.notlearning i;
  bctag = ba_set v.bctag i;
}

unfoldable pub port_set_status : ℕ → ℕ → PortStatus → Switch → Switch
port_set_status portno vlan status s =
    let v = vlan_at s vlan in
    if ba_check v.table portno
    then set_vlan s vlan (with_status portno status (untag_of (port_at s portno) == vlan) v)
    else s
