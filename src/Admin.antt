-- ===== src/Admin.antt =====
-- vde-2/src/vde_switch/port.c: the operations that create, change and remove ports, endpoints and
-- VLANs, on the state of port.c and fstp.c together. What `sscanf` reads is an argument, `none` when
-- it fails.
pub mod Endpoints
pub mod Ports
pub mod Vlans
pub mod Removal
pub mod Kept
pub mod Opening
pub mod Access
pub mod Closing
pub mod Guard
use vde.Common.{ℕ, Option, none, some, get_or, set}
use vde.Hash.{hash_delete_port}
use vde.Switch.{Port, Switch, Vlan, vlan_at, port_at, set_vlan}
use vde.Fstp.{Bridge}

-- errno.h
abbrev eperm : ℕ
eperm = 1

abbrev pub eexist : ℕ
eexist = 17

abbrev pub enospc : ℕ
enospc = 28

abbrev pub eaddrinuse : ℕ
eaddrinuse = 98

-- A write through `portv[i]`; through NULL it changes nothing here.
abbrev pub change : (Port → Port) → Option Port → Option Port
change f none = none
change f (some p) = some (f p)

abbrev pub change_port : ℕ → (Port → Port) → Bridge → Bridge
change_port i f b = record b {
  switch = record b.switch { portv = set b.switch.portv i (change f (port_at b.switch i)) };
}

-- Writes to the sets of a VLAN.
abbrev pub change_vlan : ℕ → (Vlan → Vlan) → Bridge → Bridge
change_vlan vlan f b = record b { switch = set_vlan b.switch vlan (f (vlan_at b.switch vlan)) }

-- `hash_delete_port` of hash.c.
abbrev pub forget_port : ℕ → Bridge → Bridge
forget_port i b = record b { switch = record b.switch { hash = hash_delete_port i b.switch.hash } }
