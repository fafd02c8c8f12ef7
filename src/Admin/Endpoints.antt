-- ===== src/Admin/Endpoints.antt =====
-- Endpoints that come and go: `setup_ep`, `close_ep_port_fd`, and the access control of ports.
use vde.Common.{
  ℕ, ◌-◌, ◌^◌, Bool, true, false, ◌&&◌, ◌||◌, not, Option, none, some, List, [], ◌∷◌, if◌then◌else◌,
  ◌==◌, ltb,
}
use vde.Common.Int.{ℤ, in_range, to_ℕ}
use vde.Timer.{is_empty}
use vde.BitArray.{ba_check, ba_set, ba_clr, bac_forall}
use vde.Switch.{Endpoint, Port, Vlan, vlan_at, port_at, novlan}
use vde.Switch.Alloc.{alloc_port}
use vde.Fstp.{Bridge, numofvlan, for_each}
use vde.Fstp.Vlans.{enomem}
use vde.Fstp.Setup.{enxio, einval}
use vde.Fstp.Protocol.{fstaddport, fstdelport}
use vde.Admin.{eaddrinuse, change_port, change_vlan, forget_port}

-- `checkport_ac`, true for 0. `belongs` is `user_belongs_to_group`, which asks the system's database.
unfoldable pub checkport_ac : (ℕ → ℕ → Bool) → Port → ℕ → Bool
checkport_ac belongs p user = elim p.user [
  | none ↦ elim p.group [ none ↦ true | some g ↦ user == 0 || belongs user g ]
  | some u ↦ user == 0 || u == user || elim p.group [ none ↦ false | some g ↦ belongs user g ]
]

-- (uid_t) -1, which tuntap.c and datasock.c pass where there is no user.
abbrev no_user : ℕ
no_user = 2 ^ 32 - 1

-- A `uid_t` as `curuser` holds it, and port->curuser == user, where -1 is equal to -1.
abbrev stored_user : ℕ → Option ℕ
stored_user user = if user == no_user then none else some user

abbrev pub is_user : Option ℕ → ℕ → Bool
is_user none user = user == no_user
is_user (some u) user = u == user

-- if (port->ep == NULL && checkport_ac(port,user)==0) port->curuser=user;
abbrev pub claim : (ℕ → ℕ → Bool) → ℕ → Port → Port
claim belongs user p =
    if is_empty p.ep && checkport_ac belongs p user
    then record p { curuser = stored_user user }
    else p

abbrev pub push_ep : ℕ → Endpoint → Port → Port
push_ep ms e p = record p { ms = some ms; ep = e ∷ p.ep }

-- The body of the loop over the VLANs of a port that becomes active.
abbrev pub activate : ℕ → ℕ → ℕ → Bridge → Bridge
activate portno vlanuntag vlan b =
    if ba_check (vlan_at b.switch vlan).table portno
    then fstaddport vlan portno (not (vlan == vlanuntag))
        (change_vlan vlan (λ v. record v { bctag = ba_set v.bctag portno }) b)
    else b

-- The untagged VLAN of a port that becomes active.
abbrev open_home : ℕ → Vlan → Vlan
open_home portno v = record v {
  bcuntag = ba_set v.bcuntag portno;
  bctag = ba_clr v.bctag portno;
  notlearning = ba_clr v.notlearning portno;
}

unfoldable pub activate_port : ℕ → ℕ → Bridge → Bridge
unfolding for_each
activate_port portno vlanuntag b =
    let b1 = for_each (bac_forall b.switch.validvlan numofvlan) (activate portno vlanuntag) b in
    if vlanuntag == novlan then b1 else change_vlan vlanuntag (open_home portno) b1

-- An endpoint, or the value of `errno` that goes with NULL.
pub data SetUp : Type 0 where
  endpoint : Endpoint → SetUp
  failed : ℕ → SetUp

-- `port_memory` and `ep_memory` say whether `malloc` succeeds, `ms` names the module.
unfoldable pub setup_ep : (ℕ → ℕ → Bool) → Bool → Bool → ℤ → ℕ → ℕ → ℕ → ℕ → Bridge → SetUp × Bridge
unfolding alloc_port activate_port
setup_ep belongs port_memory ep_memory portno fd_ctl fd_data user ms b =
    let (r, s) = alloc_port portno port_memory b.switch in
    let b1 = record b { switch = s } in
    elim r [
      | none ↦ (failed enomem, b1)
      | some i ↦ elim (port_at s i) [
        | none ↦ (failed enomem, b1)
        | some p ↦
            let p' = claim belongs user p in
            let b2 = change_port i (claim belongs user) b1 in
            let e : Endpoint = record { port = i; fd_ctl = fd_ctl; fd_data = fd_data } in
            let b3 = change_port i (push_ep ms e) b2 in
            if not (is_user p'.curuser user)
            then (failed eaddrinuse, b2)
            else if not ep_memory
            then (failed enomem, b2)
            else if is_empty p.ep
            then (endpoint e, activate_port i p.vlanuntag b3)
            else (endpoint e, b3)
      ]
    ]

-- The endpoints that stay, and the one that goes: its module's `delep` gets its descriptors.
unfoldable pub rec_close_ep : List Endpoint → ℕ → Option Endpoint × List Endpoint
rec_close_ep [] fd_ctl = (none, [])
rec_close_ep (e ∷ es) fd_ctl =
    let (gone, rest) = rec_close_ep es fd_ctl in
    if e.fd_ctl == fd_ctl then (some e, es) else (gone, e ∷ rest)

-- The body of the loop over the VLANs of a port that has lost its last endpoint.
abbrev pub deactivate : ℕ → ℕ → Bridge → Bridge
deactivate portno vlan b =
    fstdelport vlan portno (change_vlan vlan (λ v. record v { bctag = ba_clr v.bctag portno }) b)

unfoldable pub deactivate_port : ℕ → ℕ → Bridge → Bridge
unfolding for_each
deactivate_port portno vlanuntag b =
    let b1 =
      change_port portno (λ p. record p { ms = none; curuser = none }) (forget_port portno b) in
    let b2 = for_each (bac_forall b1.switch.validvlan numofvlan) (deactivate portno) b1 in
    if ltb vlanuntag novlan
    then change_vlan vlanuntag (λ v. record v { bcuntag = ba_clr v.bcuntag portno }) b2
    else b2

abbrev found : Option Endpoint → ℕ
found none = enxio
found (some e) = 0

unfoldable pub close_ep_port_fd : ℤ → ℕ → Bridge → ℕ × Bridge
unfolding rec_close_ep deactivate_port
close_ep_port_fd portno fd_ctl b =
    let i = to_ℕ portno in
    if not (in_range portno b.switch.numports) then (einval, b) else elim (port_at b.switch i) [
      | none ↦ (enxio, b)
      | some p ↦
          let (gone, rest) = rec_close_ep p.ep fd_ctl in
          let b1 = change_port i (λ p. record p { ep = rest }) b in
          if is_empty rest then (found gone, deactivate_port i p.vlanuntag b1) else (found gone, b1)
    ]

unfoldable pub close_ep : Endpoint → Bridge → ℕ × Bridge
unfolding close_ep_port_fd
close_ep e b = close_ep_port_fd (ℤ.pos e.port) e.fd_ctl b

-- `epclose`
unfoldable epclose : Option (ℤ × ℕ) → Bridge → ℕ × Bridge
unfolding close_ep_port_fd
epclose none b = (einval, b)
epclose (some (port, id)) b = close_ep_port_fd port id b
