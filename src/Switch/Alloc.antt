-- ===== src/Switch/Alloc.antt =====
-- `alloc_port`: the choice of a port for a new endpoint.
use vde.Common.{
  ℕ, zero, suc, ◌+◌, ◌-◌, ◌≡◌, Bool, false, ◌||◌, not, bit_and, Option, none, some, [],
  if◌then◌else◌, ◌==◌, leb, set,
}
use vde.Common.Int.{ℤ, pos, negsuc}
use vde.Timer.{is_empty}
use vde.BitArray.{ba_set}
use vde.Switch.{Port, Switch, vlan_at, port_at, set_vlan}

abbrev pub notinpool : ℕ
notinpool = 0x8000

-- portv[i] != NULL && (portv[i]->ep != NULL || portv[i]->flag & NOTINPOOL)
abbrev is_taken : Option Port → Bool
is_taken none = false
is_taken (some p) = not (is_empty p.ep) || not (bit_and p.flag notinpool == 0)

-- for (i = ...; left > 0 && is_taken(portv[i]); i++) ;
unfoldable pub take_one : Switch → ℕ → ℕ → ℕ
take_one s zero i = i
take_one s (suc left) i =
    let rest = take_one s left (i + 1) in if is_taken (port_at s i) then rest else i

-- The number that a request stands for: 0 asks for any port, and a negative one for port 0.
abbrev pub wanted : ℤ → Switch → ℕ
wanted (pos zero) s = take_one s (s.numports - 1) 1
wanted (pos (suc n)) s = suc n
wanted (negsuc n) s = 0

abbrev default_cost : ℕ
default_cost = 20000000

-- A new port, in VLAN 0 without a tag. `ms` is not set before an endpoint is.
abbrev pub new_port : Port
new_port = record {
  ep = [];
  flag = 0;
  ms = none;
  vlanuntag = 0;
  user = none;
  group = none;
  curuser = none;
  cost = default_cost;
}

-- The new port in its place, and in VLAN 0.
abbrev with_port : ℕ → Switch → Switch
with_port i s =
    let v = vlan_at s 0 in
    set_vlan (record s { portv = set s.portv i (some new_port) }) 0
      (record v { table = ba_set v.table i })

-- `memory` says whether `malloc` succeeds; `none` is the result -1.
unfoldable pub alloc_port : ℤ → Bool → Switch → Option ℕ × Switch
unfolding take_one
alloc_port portno memory s =
    let i = wanted portno s in
    if leb s.numports i then (none, s) else elim (port_at s i) [
      | some p ↦ (some i, s)
      | none ↦ if memory then (some i, with_port i s) else (none, s)
    ]

-- A place where a new endpoint may go without asking for it: one with no port, or with a port that has
-- no endpoint and whose flags do not keep it out of the pool.
abbrev pub IsFree : Option Port → Type 0
IsFree none = Unit
IsFree (some p) = (p.ep ≡ []) × (bit_and p.flag notinpool ≡ 0)
