-- ===== src/Admin/Ports.antt =====
-- Ports as the commands create, remove and number them, and the start of port.c.
use vde.Common.{
  ℕ, ◌-◌, ◌^◌, bit_and, bit_or, Bool, true, false, not, Option, none, some, List, [], ◌∷◌, ◌++◌,
  map, if◌then◌else◌, ltb, set, take, drop, replicate,
}
use vde.Common.Int.{ℤ, pos, in_range, to_ℕ}
use vde.Timer.{is_empty}
use vde.BitArray.{Bitarray, ba_clr, ba_realloc, bac_forall}
use vde.Switch.{Port, Vlan, FlagOp, p_setflag, p_clrflag, port_at, portflag, hub_tag}
use vde.Switch.Alloc.{alloc_port, notinpool}
use vde.Fstp.{Bridge, numofvlan, for_each}
use vde.Fstp.Vlans.{fstsetnumports}
use vde.Fstp.Setup.{enxio, einval, fstpshutdown}
use vde.Admin.{eexist, enospc, eaddrinuse, change_port, change_vlan}

-- The body of the loop of `free_port`.
abbrev pub leave_vlan : ℕ → ℕ → Bridge → Bridge
leave_vlan portno vlan = change_vlan vlan (λ v. record v { table = ba_clr v.table portno })

abbrev pub drop_port : ℕ → Bridge → Bridge
drop_port portno b = record b {
  switch = record b.switch { portv = set b.switch.portv portno none };
}

unfoldable pub free_port : ℕ → Bridge → Bridge
unfolding for_each
free_port portno b =
    if not (ltb portno b.switch.numports) then b else elim (port_at b.switch portno) [
      | none ↦ b
      | some p ↦
          if is_empty p.ep
          then for_each (bac_forall b.switch.validvlan numofvlan) (leave_vlan portno)
              (drop_port portno b)
          else b
    ]

unfoldable pub portremove : ℤ → Bridge → ℕ × Bridge
unfolding free_port
portremove val b =
    let i = to_ℕ val in
    if not (in_range val b.switch.numports) then (einval, b) else elim (port_at b.switch i) [
      | none ↦ (enxio, b)
      | some p ↦ if is_empty p.ep then (0, free_port i b) else (eaddrinuse, b)
    ]

abbrev reserve : Port → Port
reserve p = record p { flag = bit_or p.flag notinpool }

-- A port is allocated, and kept out of the pool.
abbrev reserve_port : ℤ → Bool → Bridge → Option ℕ × Bridge
reserve_port portno memory b =
    let (r, s) = alloc_port portno memory b.switch in
    elim r [
      | none ↦ (none, record b { switch = s })
      | some i ↦ (some i, change_port i reserve (record b { switch = s }))
    ]

abbrev result_of : Option ℕ → ℕ
result_of none = enospc
result_of (some i) = 0

unfoldable portcreate : ℤ → Bool → Bridge → ℕ × Bridge
unfolding alloc_port
portcreate val memory b =
    if not (in_range val b.switch.numports)
    then (einval, b)
    else elim (port_at b.switch (to_ℕ val)) [
      | some p ↦ (eexist, b)
      | none ↦ let (r, b') = reserve_port val memory b in (result_of r, b')
    ]

unfoldable portcreateauto : Bool → Bridge → ℕ × Bridge
unfolding alloc_port
portcreateauto memory b = let (r, b') = reserve_port (pos 0) memory b in (result_of r, b')

unfoldable portallocatable : Option (ℤ × ℤ) → Bridge → ℕ × Bridge
portallocatable none b = (einval, b)
portallocatable (some (port, value)) b =
    let i = to_ℕ port in
    if not (in_range port b.switch.numports) then (einval, b) else elim (port_at b.switch i) [
      | none ↦ (enxio, b)
      | some p ↦ if in_range value 1 then (0, change_port i reserve b) else (
        0,
        change_port i (λ p. record p { flag = bit_and p.flag (2 ^ 32 - 1 - notinpool) }) b,
      )
    ]

-- A call of `portflag` for its effect.
abbrev change_flags : FlagOp → ℕ → Bridge → Bridge
change_flags op f b = record b {
  switch = record b.switch { pflag = (portflag op f b.switch.pflag).0 };
}

unfoldable portsethub : Bool → Bridge → ℕ × Bridge
unfolding fstpshutdown portflag
portsethub val b =
    if val
    then (0, change_flags p_setflag hub_tag (fstpshutdown b))
    else (0, change_flags p_clrflag hub_tag b)

-- for(i=val;i<numports;i++) if(portv[i] != NULL) return EADDRINUSE;
abbrev all_null : List (Option Port) → Bool
all_null [] = true
all_null (none ∷ ps) = all_null ps
all_null (some p ∷ ps) = false

abbrev resize_set : ℕ → ℕ → ℕ → Bitarray → Bitarray
resize_set junk n m none = none
resize_set junk n m (some ws) = ba_realloc junk (some ws) n m

abbrev resize_vlan : ℕ → ℕ → ℕ → Vlan → Vlan
resize_vlan junk n m v = record {
  table = resize_set junk n m v.table;
  bctag = resize_set junk n m v.bctag;
  bcuntag = resize_set junk n m v.bcuntag;
  notlearning = resize_set junk n m v.notlearning;
}

-- `junk` fills the memory that `realloc` adds. When there is no memory the program ends.
unfoldable portsetnumports : ℕ → ℤ → Bridge → ℕ × Bridge
unfolding fstsetnumports ba_realloc
portsetnumports junk val b =
    let s = b.switch in
    let m = to_ℕ val in
    let n = s.numports in
    if not (ltb 0 m)
    then (einval, b)
    else if not (all_null (drop m (take n s.portv)))
    then (eaddrinuse, b)
    else (
      0,
      fstsetnumports junk m (record b {
        switch = record s {
          numports = m;
          portv = take m (s.portv ++ replicate (m - n) none);
          vlant = map (resize_vlan junk n m) (take numofvlan s.vlant) ++ drop numofvlan s.vlant;
        };
      }),
    )

-- The owner that a command names, by what the system knows of the word: `getpwnam` or `getgrnam` finds
-- it, it is a number, it is NONE or ANY, or neither.
data Owner : Type 0 where
  known : ℕ → Owner
  number : ℕ → Owner
  anyone : Owner
  unknown : Owner

abbrev owner_id : Owner → Option (Option ℕ)
owner_id (known u) = some (some u)
owner_id (number u) = some (some u)
owner_id anyone = some none
owner_id unknown = none

-- A change that the owner's number makes to a port. `arg` is `none` when there is no port number or no
-- word.
abbrev set_owner : (Option ℕ → Port → Port) → Option (ℤ × Owner) → Bridge → ℕ × Bridge
set_owner f none b = (einval, b)
set_owner f (some (port, owner)) b =
    let i = to_ℕ port in
    if not (in_range port b.switch.numports) then (einval, b) else elim (port_at b.switch i) [
      | none ↦ (enxio, b)
      | some p ↦ elim (owner_id owner) [ none ↦ (einval, b) | some u ↦ (0, change_port i (f u) b) ]
    ]

unfoldable portsetuser : Option (ℤ × Owner) → Bridge → ℕ × Bridge
portsetuser = set_owner (λ u p. record p { user = u })

unfoldable portsetgroup : Option (ℤ × Owner) → Bridge → ℕ × Bridge
portsetgroup = set_owner (λ g p. record p { group = g })
