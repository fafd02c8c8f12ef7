-- ===== src/Fstp/Setup.antt =====
-- Starting and stopping the protocol, and its commands: `fst_init`, `fstpsetonoff`, `fstpshutdown`,
-- `fstsetbonus` and `fstsetedge`. What `sscanf` reads is an argument, `none` when it fails.
use vde.Common.{
  ℕ, ◌-◌, ◌/◌, ◌%◌, ◌^◌, bit_and, Bool, ◌||◌, not, Option, none, some, [], ◌∷◌, if◌then◌else◌, ◌==◌,
}
use vde.Common.Int.{ℤ, pos, in_range, to_ℕ}
use vde.Timer.{Added, added, refused, crashed, qtimer_add, qtimer_del}
use vde.BitArray.{ba_check, ba_set, ba_clr, bac_check, bac_forall}
use vde.Switch.{FlagOp, p_setflag, p_clrflag, forwarding, portflag, hub_tag, fstp_tag, runs_fstp}
use vde.Fstp.{
  Vlst, FstBpdu, Bridge, numofvlan, helloperiod, maxage, vlst_at, change_vlst, set_status, for_each,
  setfstid,
}
use vde.Fstp.Vlans.{renew_vlan}

abbrev pub enxio : ℕ
enxio = 6

abbrev pub einval : ℕ
einval = 22

-- `fstflag`: the flags of fstp.c are changed the way `portflag` changes those of port.c.
unfoldable pub fstflag : FlagOp → ℕ → Bridge → ℕ × Bridge
unfolding portflag
fstflag op f b =
    let (flags, result) = portflag op f b.switch.fst_pflag in
    (result, record b { switch = record b.switch { fst_pflag = flags } })

-- The fields that `fstinitpkt` writes to a packet.
abbrev init_packet : Bridge → FstBpdu → FstBpdu
init_packet b p = record p {
  stp_bridge = b.myid;
  src = b.switchmac;
  stp_hello = (helloperiod % 256) ∷ (helloperiod / 2 ^ 8 % 256) ∷ [];
  stp_maxage = (maxage % 256) ∷ (maxage / 2 ^ 8 % 256) ∷ [];
}

abbrev init_packets : Bridge → Bridge
init_packets b = record b {
  outpacket = init_packet b b.outpacket;
  outtagpacket = record b.outtagpacket { body = init_packet b b.outtagpacket.body };
}

-- The callback `fst_hello`, as the timers name it.
abbrev fst_hello_call : ℕ
fst_hello_call = 2

-- The result of `qtimer_add`, -1 in an `int` when it has no memory; `none` when it faults.
abbrev timer_started : Bridge → Added → Option Bridge
timer_started b (added n ts) = some (record b { timers = ts; fst_timerno = n })
timer_started b (refused ts) = some (record b { timers = ts; fst_timerno = 2 ^ 32 - 1 })
timer_started b crashed = none

unfoldable fstinitpkt : Bool → Bool → Bridge → Option Bridge
unfolding qtimer_add
fstinitpkt grow_memory timer_memory b =
    let b1 = init_packets b in
    timer_started b1 (
      qtimer_add (pos helloperiod) (pos 0) (some fst_hello_call) 0 grow_memory timer_memory
        b1.timers)

-- The timer is stopped, the flag cleared, and every VLAN starts again with this switch as its root.
unfoldable stop_fstp : Bridge → Bridge
unfolding fstflag
stop_fstp b =
    let b1 = record b { timers = qtimer_del b.fst_timerno b.timers } in
    let b2 = (fstflag p_clrflag fstp_tag b1).1 in
    for_each (bac_forall b2.switch.validvlan numofvlan) renew_vlan b2

unfoldable pub fstpshutdown : Bridge → Bridge
unfolding stop_fstp
fstpshutdown b = if runs_fstp b.switch then stop_fstp b else b

unfoldable fstpsetonoff : Bool → Bool → Bool → Bridge → Option Bridge
unfolding stop_fstp fstinitpkt fstflag
fstpsetonoff grow_memory timer_memory val b =
    if not (bit_and b.switch.pflag hub_tag == 0)
    then some b
    else if val
    then if runs_fstp b.switch then some b else elim (fstinitpkt grow_memory timer_memory b) [
      | none ↦ none
      | some b1 ↦ some (fstflag p_setflag fstp_tag b1).1
    ]
    else if runs_fstp b.switch
    then some (stop_fstp b)
    else some b

unfoldable fst_init : ℕ → ℕ → Bool → Bool → Bridge → Option Bridge
unfolding fstinitpkt
fst_init initnumports priority grow_memory timer_memory b =
    let b1 = record b { numports = initnumports; myid = setfstid b.switchmac priority } in
    if runs_fstp b.switch then fstinitpkt grow_memory timer_memory b1 else some b1

abbrev set_bonus : ℕ → ℤ → Vlst → Vlst
set_bonus port cost v = record v { bonusport = port; bonuscost = cost }

-- `vlan <0 || vlan >= NUMOFVLAN || port < 0 || port >= numports`
abbrev is_outside : ℤ → ℤ → Bridge → Bool
is_outside vlan port b = not (in_range vlan numofvlan) || not (in_range port b.numports)

unfoldable fstsetbonus : Option (ℤ × ℤ × ℤ) → Bridge → ℕ × Bridge
fstsetbonus none b = (einval, b)
fstsetbonus (some (vlan, port, cost)) b =
    if is_outside vlan port b
    then (einval, b)
    else if not (bac_check b.switch.validvlan (to_ℕ vlan))
    then (enxio, b)
    else (0, change_vlst (to_ℕ vlan) (set_bonus (to_ℕ port) cost) b)

-- The two branches of `fstsetedge`. The source tests `untag` twice.
unfoldable make_edge : ℕ → ℕ → Bridge → Bridge
make_edge vlan port b =
    let b1 = change_vlst vlan (λ v. record v { edge = ba_set v.edge port }) b in
    let v = vlst_at b1 vlan in
    if ba_check v.untag port || ba_check v.untag port
    then set_status port vlan forwarding b1
    else b1

abbrev unmake_edge : ℕ → ℕ → Bridge → Bridge
unmake_edge vlan port =
    change_vlst vlan (λ v. record v { edge = ba_clr v.edge port; backup = ba_clr v.backup port })

unfoldable fstsetedge : Option (ℤ × ℤ × ℤ) → Bridge → ℕ × Bridge
unfolding make_edge
fstsetedge none b = (einval, b)
fstsetedge (some (vlan, port, val)) b =
    if is_outside vlan port b
    then (einval, b)
    else if not (bac_check b.switch.validvlan (to_ℕ vlan))
    then (enxio, b)
    else if in_range val 1
    then (0, unmake_edge (to_ℕ vlan) (to_ℕ port) b)
    else (0, make_edge (to_ℕ vlan) (to_ℕ port) b)
