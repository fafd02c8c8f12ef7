-- ===== src/Admin/Vlans.antt =====
-- VLANs as the commands create, remove and populate them, and `port_init`.
use vde.Common.{
  ℕ, ◌+◌, ◌-◌, Bool, true, false, ◌&&◌, ◌||◌, not, Option, none, some, if◌then◌else◌, ◌==◌, ltb,
  replicate,
}
use vde.Common.Int.{ℤ, in_range, to_ℕ}
use vde.Timer.{is_empty}
use vde.BitArray.{ba_alloc, ba_set, ba_clr, ba_forall, bac_alloc, bac_check, bac_set, bac_clr}
use vde.Switch.{Port, Vlan, null_vlan, vlan_at, port_at, untag_of, novlan}
use vde.Fstp.{Bridge, Vlst, numofvlan}
use vde.Fstp.Vlans.{enomem, fstnewvlan, fstremovevlan}
use vde.Fstp.Setup.{enxio, einval}
use vde.Fstp.Protocol.{fstaddport, fstdelport}
use vde.Admin.{eexist, eaddrinuse, change_port, change_vlan, forget_port}

-- `memory` says which of the allocations for the sets succeed, `tree_memory` and `junk` which of
-- those in `fstnewvlan` do and what they hold.
abbrev new_sets : (ℕ → Bool) → ℕ → Vlan
new_sets memory n = record {
  table = ba_alloc (memory 0) n;
  bctag = ba_alloc (memory 1) n;
  bcuntag = ba_alloc (memory 2) n;
  notlearning = ba_alloc (memory 3) n;
}

abbrev validate : ℕ → Bridge → Bridge
validate vlan b = record b {
  switch = record b.switch { validvlan = bac_set b.switch.validvlan numofvlan vlan };
}

unfoldable vlancreate_nocheck : (ℕ → Bool) → (ℕ → Bool) → Vlst → ℕ → Bridge → ℕ × Bridge
unfolding fstnewvlan ba_alloc bac_set
vlancreate_nocheck memory tree_memory junk vlan b =
    let b1 = change_vlan vlan (λ v. new_sets memory b.switch.numports) b in
    if not (memory 0) || not (memory 1) || not (memory 2)
    then (enomem, b1)
    else let (rv, b2) = fstnewvlan tree_memory junk vlan b1 in
      if rv == 0 then (0, validate vlan b2) else (rv, b2)

unfoldable vlancreate : (ℕ → Bool) → (ℕ → Bool) → Vlst → ℤ → Bridge → ℕ × Bridge
unfolding vlancreate_nocheck
vlancreate memory tree_memory junk vlan b =
    let v = to_ℕ vlan in
    if ltb 0 v && ltb v (numofvlan - 1)
    then if bac_check b.switch.validvlan v
      then (eexist, b)
      else vlancreate_nocheck memory tree_memory junk v b
    else (einval, b)

abbrev invalidate : ℕ → Bridge → Bridge
invalidate vlan b = record b {
  switch = record b.switch { validvlan = bac_clr b.switch.validvlan numofvlan vlan };
}

unfoldable vlanremove : ℤ → Bridge → ℕ × Bridge
unfolding fstremovevlan
vlanremove vlan b =
    let v = to_ℕ vlan in
    if not (in_range vlan numofvlan)
    then (einval, b)
    else if not (bac_check b.switch.validvlan v)
    then (enxio, b)
    else if not (is_empty (ba_forall (vlan_at b.switch v).table b.switch.numports))
    then (eaddrinuse, b)
    else (0, (fstremovevlan v (change_vlan v (λ w. null_vlan) (invalidate v b))).1)

-- The tests that `vlanaddport` and `vlandelport` begin with.
abbrev refusal : ℤ → ℤ → Bridge → Option ℕ
refusal vlan port b =
    if not (in_range vlan (numofvlan - 1)) || not (in_range port b.switch.numports)
    then some einval
    else if not (bac_check b.switch.validvlan (to_ℕ vlan))
    then some enxio
    else elim (port_at b.switch (to_ℕ port)) [ none ↦ some enxio | some p ↦ none ]

-- portv[port]->ep != NULL
abbrev is_in_use : Option Port → Bool
is_in_use none = false
is_in_use (some p) = not (is_empty p.ep)

abbrev add_member : ℕ → ℕ → Bridge → Bridge
add_member vlan port b =
    let b1 =
      if is_in_use (port_at b.switch port) && not (untag_of (port_at b.switch port) == vlan)
      then fstaddport vlan port true
          (change_vlan vlan (λ v. record v { bctag = ba_set v.bctag port }) b)
      else b in
    change_vlan vlan (λ v. record v { table = ba_set v.table port }) b1

unfoldable vlanaddport : Option (ℤ × ℤ) → Bridge → ℕ × Bridge
vlanaddport none b = (einval, b)
vlanaddport (some (vlan, port)) b = elim (refusal vlan port b) [
  | some e ↦ (e, b)
  | none ↦ (0, add_member (to_ℕ vlan) (to_ℕ port) b)
]

abbrev drop_member : ℕ → ℕ → Bridge → Bridge
drop_member vlan port b =
    let b1 =
      if is_in_use (port_at b.switch port)
      then fstdelport vlan port (change_vlan vlan (λ v. record v { bctag = ba_clr v.bctag port }) b)
      else b in
    forget_port port (change_vlan vlan (λ v. record v { table = ba_clr v.table port }) b1)

unfoldable vlandelport : Option (ℤ × ℤ) → Bridge → ℕ × Bridge
vlandelport none b = (einval, b)
vlandelport (some (vlan, port)) b = elim (refusal vlan port b) [
  | some e ↦ (e, b)
  | none ↦
      if untag_of (port_at b.switch (to_ℕ port)) == to_ℕ vlan
      then (eaddrinuse, b)
      else (0, drop_member (to_ℕ vlan) (to_ℕ port) b)
]

-- The statements under `if (oldvlan != NOVLAN)` and `if (vlan != NOVLAN)` of `portsetvlan`, for an
-- active port.
abbrev unless_novlan : ℕ → (Bridge → Bridge) → Bridge → Bridge
unless_novlan vlan f b = if vlan == novlan then b else f b

abbrev change_home : ℕ → ℕ → ℕ → Bridge → Bridge
change_home oldvlan vlan port b =
    let b1 =
      unless_novlan oldvlan
        (change_vlan oldvlan (λ v. record v { bcuntag = ba_clr v.bcuntag port })) b in
    let b2 =
      unless_novlan vlan
        (change_vlan vlan
          (λ v. record v { bcuntag = ba_set v.bcuntag port; bctag = ba_clr v.bctag port }))
        b1 in
    unless_novlan vlan (fstaddport vlan port false)
      (unless_novlan oldvlan (fstdelport oldvlan port) b2)

-- `portsetvlan` after its tests.
unfoldable set_home : ℕ → ℕ → Bridge → Bridge
set_home vlan port b =
    let oldvlan = untag_of (port_at b.switch port) in
    let b1 = forget_port port (change_port port (λ p. record p { vlanuntag = novlan }) b) in
    let b2 = if is_in_use (port_at b.switch port) then change_home oldvlan vlan port b1 else b1 in
    let b3 =
      unless_novlan oldvlan (change_vlan oldvlan (λ v. record v { table = ba_clr v.table port }))
        b2 in
    let b4 =
      unless_novlan vlan (change_vlan vlan (λ v. record v { table = ba_set v.table port })) b3 in
    change_port port (λ p. record p { vlanuntag = vlan }) b4

unfoldable portsetvlan : Option (ℤ × ℤ) → Bridge → ℕ × Bridge
unfolding set_home
portsetvlan none b = (einval, b)
portsetvlan (some (port, vlan)) b =
    let v = to_ℕ vlan in
    if not (in_range vlan (numofvlan + 1)) || not (in_range port b.switch.numports)
    then (einval, b)
    else if not (v == novlan) && not (bac_check b.switch.validvlan v)
    then (enxio, b)
    else elim (port_at b.switch (to_ℕ port)) [
      | none ↦ (enxio, b)
      | some p ↦ (0, set_home v (to_ℕ port) b)
    ]

-- `port_init`; `none` is `exit(1)`. `start_memory` says whether the two allocations succeed.
unfoldable port_init : Bool → (ℕ → Bool) → (ℕ → Bool) → Vlst → ℤ → Bridge → Option Bridge
unfolding vlancreate_nocheck bac_alloc
port_init start_memory memory tree_memory junk initnumports b =
    let n = to_ℕ initnumports in
    let b1 = record b {
      switch = record b.switch {
        numports = n;
        portv = replicate n none;
        validvlan = bac_alloc start_memory numofvlan;
      };
    } in
    if not (ltb 0 n) || not start_memory
    then none
    else let (rv, b2) = vlancreate_nocheck memory tree_memory junk 0 b1 in
      if rv == 0 then some b2 else none
