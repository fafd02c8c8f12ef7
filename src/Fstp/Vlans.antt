-- ===== src/Fstp/Vlans.antt =====
-- The trees of fstp.c: `fstnewvlan`, `fstremovevlan` and `fstsetnumports`.
use vde.Common.{
  ℕ, Bool, true, false, not, Option, none, some, List, if◌then◌else◌, set, map, replicate,
}
use vde.Common.Int.{pos}
use vde.BitArray.{ba_alloc, ba_clr, ba_realloc, ba_forall}
use vde.Switch.{forwarding}
use vde.Fstp.{Vlst, Bridge, switchid_len, fsttab_at, vlst_at, change_vlst, set_status, for_each}

-- errno.h
abbrev enoent : ℕ
enoent = 2

abbrev pub enomem : ℕ
enomem = 12

-- `memory k` says whether allocation `k` succeeds, of which 0 is the structure, whose first contents
-- are `junk`. The Boolean tells whether all did.
unfoldable alloc_vlst : (ℕ → Bool) → Vlst → ℕ → Vlst × Bool
alloc_vlst memory junk n =
    let v1 = record junk { untag = ba_alloc (memory 1) n } in
    let v2 = record v1 { tagged = ba_alloc (memory 2) n } in
    let v3 = record v2 { edge = ba_alloc (memory 3) n } in
    let v4 = record v3 { rcvhist0 = ba_alloc (memory 4) n } in
    let v5 = record v4 { rcvhist1 = ba_alloc (memory 5) n } in
    let v6 = record v5 { backup = ba_alloc (memory 6) n } in
    if not (memory 1)
    then (v1, false)
    else if not (memory 2)
    then (v2, false)
    else if not (memory 3)
    then (v3, false)
    else if not (memory 4)
    then (v4, false)
    else if not (memory 5)
    then (v5, false)
    else (v6, memory 6)

-- A tree of which this switch is the root. The `memset` of four bytes at `port` writes its two bytes
-- and two of padding.
abbrev pub own_root : List ℕ → Bool → Vlst → Vlst
own_root myid newvlan v =
    let w = record v {
      root = myid;
      rootcost = replicate 4 0;
      dessw = replicate switchid_len 0xff;
      port = replicate 2 0;
      rootport = 0;
      roottimestamp = 0;
    } in
    if newvlan then record w { bonusport = 0; bonuscost = pos 0; tctime = 0 } else w

-- ba_clr(fsttab[vlan]->backup,port); port_set_status(port,vlan,FORWARDING);
abbrev pub reopen : ℕ → ℕ → Bridge → Bridge
reopen vlan port b =
    set_status port vlan forwarding
      (change_vlst vlan (λ v. record v { backup = ba_clr v.backup port }) b)

-- The `else` branch of `fstnewvlan`.
unfoldable pub start_vlan : Bool → ℕ → Bridge → Bridge
unfolding for_each
start_vlan newvlan vlan b =
    let b' = change_vlst vlan (own_root b.myid newvlan) b in
    for_each (ba_forall (vlst_at b' vlan).backup b'.numports) (reopen vlan) b'

unfoldable pub fstnewvlan : (ℕ → Bool) → Vlst → ℕ → Bridge → ℕ × Bridge
unfolding start_vlan alloc_vlst
fstnewvlan memory junk vlan b = elim (fsttab_at b vlan) [
  | some v ↦ (0, start_vlan false vlan b)
  | none ↦
      if not (memory 0)
      then (enomem, b)
      else let (v, ok) = alloc_vlst memory junk b.numports in
        let b' = record b { fsttab = set b.fsttab vlan (some v) } in
        if ok then (0, start_vlan true vlan b') else (enomem, b')
]

-- A call for a VLAN whose tree exists, which asks for no memory.
abbrev pub renew_vlan : ℕ → Bridge → Bridge
renew_vlan vlan b = (fstnewvlan (λ k. false) (vlst_at b vlan) vlan b).1

unfoldable pub fstremovevlan : ℕ → Bridge → ℕ × Bridge
fstremovevlan vlan b = elim (fsttab_at b vlan) [
  | none ↦ (enoent, b)
  | some v ↦ (0, record b { fsttab = set b.fsttab vlan none })
]

-- One turn of the loop of `fstsetnumports`; `junk` fills the memory that `realloc` adds. When there is
-- no memory the program ends.
abbrev resize_vlst : ℕ → ℕ → ℕ → Option Vlst → Option Vlst
resize_vlst junk n m none = none
resize_vlst junk n m (some v) = some (record v {
  untag = ba_realloc junk v.untag n m;
  tagged = ba_realloc junk v.tagged n m;
  backup = ba_realloc junk v.backup n m;
  edge = ba_realloc junk v.edge n m;
  rcvhist0 = ba_realloc junk v.rcvhist0 n m;
  rcvhist1 = ba_realloc junk v.rcvhist1 n m;
})

unfoldable pub fstsetnumports : ℕ → ℕ → Bridge → Bridge
fstsetnumports junk val b = record b {
  fsttab = map (resize_vlst junk b.numports val) b.fsttab;
  numports = val;
}
