-- ===== src/Fstp.antt =====
-- vde-2/src/vde_switch/fstp.c: the fast spanning tree protocol, one tree for each VLAN, and the switch
-- of port.c that it opens and shuts the ports of.
pub mod Packets
pub mod Layout
pub mod Priority
pub mod Steps
pub mod Guarded
pub mod Fit
pub mod Wiring
pub mod Upkeep
pub mod Blocked
pub mod Vlans
pub mod Send
pub mod Protocol
pub mod Invariant
pub mod Agreement
pub mod Agreed
pub mod Packet
pub mod Ports
pub mod Incoming
pub mod Takeover
pub mod Wake
pub mod Hello
pub mod Setup
pub mod Receive
use vde.Common.{
  ℕ, zero, suc, ◌+◌, ◌-◌, ◌*◌, ◌/◌, ◌%◌, ◌^◌, Bool, true, false, ◌&&◌, ◌||◌, not, Option, none,
  some, List, [], ◌∷◌, ◌++◌, if◌then◌else◌, ◌==◌, get_or, set, replicate,
}
use vde.Common.Int.{ℤ, pos}
use vde.Timer.{Timers, qtime}
use vde.BitArray.{Bitarray, ba_check}
use vde.Switch.{Switch, PortStatus, port_set_status}
use vde.Switch.Forward.{Sent}
use Prim.Native.Nat.{Ordering, compare}

-- `NUMOFVLAN`
abbrev pub numofvlan : ℕ
numofvlan = 4095

-- `SWITCHID_LEN`
abbrev pub switchid_len : ℕ
switchid_len = 8

-- `STDHELLOPERIOD`, the value of `helloperiod`, and the value of `maxage`.
abbrev pub helloperiod : ℕ
helloperiod = 4

abbrev pub maxage : ℕ
maxage = helloperiod * 10

-- `struct vlst`. `rcvhist0` and `rcvhist1` are the two elements of `rcvhist`.
pub record Vlst : Type 0 where
  pub root : List ℕ
  pub rootcost : List ℕ
  pub dessw : List ℕ
  pub port : List ℕ
  pub rootport : ℕ
  pub bonusport : ℕ
  pub bonuscost : ℤ
  pub tctime : ℕ
  pub roottimestamp : ℕ
  pub untag : Bitarray
  pub tagged : Bitarray
  pub backup : Bitarray
  pub edge : Bitarray
  pub rcvhist0 : Bitarray
  pub rcvhist1 : Bitarray

-- What a read through NULL would see; a fault in C.
abbrev null_vlst : Vlst
null_vlst = record {
  root = [];
  rootcost = [];
  dessw = [];
  port = [];
  rootport = 0;
  bonusport = 0;
  bonuscost = pos 0;
  tctime = 0;
  roottimestamp = 0;
  untag = none;
  tagged = none;
  backup = none;
  edge = none;
  rcvhist0 = none;
  rcvhist1 = none;
}

-- `struct fstbpdu`, from the field `dest` of its header on.
pub record FstBpdu : Type 0 where
  pub dest : List ℕ
  pub src : List ℕ
  pub proto : List ℕ
  pub llc : List ℕ
  pub stp_protocol : List ℕ
  pub stp_version : ℕ
  pub stp_type : ℕ
  pub stp_flags : ℕ
  pub stp_root : List ℕ
  pub stp_rootcost : List ℕ
  pub stp_bridge : List ℕ
  pub stp_port : List ℕ
  pub stp_age : List ℕ
  pub stp_maxage : List ℕ
  pub stp_hello : List ℕ
  pub stp_fwddelay : List ℕ
  pub stp_v1len : ℕ

-- `struct fsttagbpdu`: the fields of `struct fstbpdu`, and two behind the header.
pub record FstTagBpdu : Type 0 where
  pub tag_vlan_bytes : List ℕ
  pub tag_proto : List ℕ
  pub body : FstBpdu

-- The static variables of fstp.c, and the state of the files that it calls. `sent` logs the calls of
-- the ports' `sender`.
pub record Bridge : Type 0 where
  pub switch : Switch
  pub timers : Timers
  pub fsttab : List (Option Vlst)
  pub numports : ℕ
  pub rcvhistindex : ℕ
  pub hellocounter : ℕ
  pub fst_timerno : ℕ
  pub myid : List ℕ
  pub switchmac : List ℕ
  pub outpacket : FstBpdu
  pub outtagpacket : FstTagBpdu
  pub sent : List Sent

-- `memcmp(a, b, n)`
unfoldable pub memcmp : ℕ → List ℕ → List ℕ → Ordering
memcmp zero a b = Ordering.eq
memcmp (suc n) (x ∷ a) (y ∷ b) = elim (compare x y) [
  | Ordering.lt ↦ Ordering.lt
  | Ordering.gt ↦ Ordering.gt
  | Ordering.eq ↦ memcmp n a b
]
memcmp (suc n) _ _ = Ordering.eq

-- `ltonstring`: the low 32 bits, the high byte first.
unfoldable pub ltonstring : ℕ → List ℕ
ltonstring l = (l / 2 ^ 24 % 256) ∷ (l / 2 ^ 16 % 256) ∷ (l / 2 ^ 8 % 256) ∷ (l % 256) ∷ []

-- `nstringtol`, modulo 2^32.
unfoldable pub nstringtol : List ℕ → ℕ
nstringtol s =
    (get_or s 0 0 * 2 ^ 24 + get_or s 1 0 * 2 ^ 16 + get_or s 2 0 * 2 ^ 8 + get_or s 3 0) % 2 ^ 32

-- `fsttab[vlan]`, and what is behind the pointer.
abbrev pub fsttab_at : Bridge → ℕ → Option Vlst
fsttab_at b vlan = get_or b.fsttab vlan none

abbrev pub vlst_of : Option Vlst → Vlst
vlst_of none = null_vlst
vlst_of (some v) = v

abbrev pub vlst_at : Bridge → ℕ → Vlst
vlst_at b vlan = vlst_of (fsttab_at b vlan)

-- A write through `fsttab[vlan]`; through NULL it changes nothing here.
abbrev pub change : (Vlst → Vlst) → Option Vlst → Option Vlst
change f none = none
change f (some v) = some (f v)

abbrev pub change_vlst : ℕ → (Vlst → Vlst) → Bridge → Bridge
change_vlst vlan f b = record b { fsttab = set b.fsttab vlan (change f (fsttab_at b vlan)) }

-- `FSTP_ACTIVE`
abbrev pub is_active : Vlst → ℕ → Bool
is_active v i = ba_check v.rcvhist0 i || ba_check v.rcvhist1 i

-- `port_set_status` of port.c.
abbrev pub set_status : ℕ → ℕ → PortStatus → Bridge → Bridge
set_status i vlan status b = record b { switch = port_set_status i vlan status b.switch }

-- The body of a loop for each of the numbers, in order.
unfoldable pub for_each {ℓ} : {A : Type ℓ} → List ℕ → (ℕ → A → A) → A → A
for_each [] body a = a
for_each (i ∷ is) body a = for_each is body (body i a)

-- `SETFSTID`
unfoldable pub setfstid : List ℕ → ℕ → List ℕ
setfstid mac prio = (prio / 2 ^ 8 % 256) ∷ (prio % 256) ∷ mac

abbrev pub now : Bridge → ℕ
now b = qtime b.timers
