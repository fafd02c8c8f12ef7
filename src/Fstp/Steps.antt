-- ===== src/Fstp/Steps.antt =====
-- What single steps of the protocol do to the sets of a tree and to the states of the ports.
use vde.Common.{
  ℕ, ◌≡◌, refl, ap, ◌∙◌, Bool, true, false, ◌&&◌, none, if◌then◌else◌, ◌==◌, get_or-set_fix,
  Bool-cases, inl, inr, ==-refl,
}
use vde.BitArray.{ba_check, ba_set, ba_clr}
use vde.BitArray.Sets.{
  Holds, ba_check-ba_set, ba_check-ba_clr_any, ba_check-ba_set_other, Holds-ba_set, Holds-ba_clr,
}
use vde.Switch.{
  Switch, Vlan, PortStatus, discarding, learning, forwarding, vlan_at, port_at, untag_of, null_vlan,
  with_status, port_set_status,
}
use vde.Switch.Wired.{in_table}
use vde.Fstp.{Vlst, Bridge, fsttab_at, vlst_of, vlst_at, change, change_vlst}

-- A change of one tree, seen from any.
vlst_at-change :
    (b : Bridge) (vlan u : ℕ) (f : Vlst → Vlst)
    → vlst_at (change_vlst vlan f b) u
      ≡ (if vlan == u then vlst_of (change f (fsttab_at b vlan)) else vlst_at b u)
vlst_at-change b vlan u f =
    ap vlst_of (get_or-set_fix b.fsttab vlan u (change f) none refl) ∙ split (vlan == u)
  where
    split :
        (c : Bool)
        → vlst_of (if c then change f (fsttab_at b vlan) else fsttab_at b u)
          ≡ (if c then vlst_of (change f (fsttab_at b vlan)) else vlst_at b u)
    split true = refl
    split false = refl

pub vlst_at-here :
    (b : Bridge) (vlan : ℕ) (f : Vlst → Vlst)
    → vlst_at (change_vlst vlan f b) vlan ≡ vlst_of (change f (fsttab_at b vlan))
vlst_at-here b vlan f = vlst_at-change b vlan vlan f ∙ rw (==-refl vlan) refl

pub vlst_at-other :
    (b : Bridge) (vlan u : ℕ) (f : Vlst → Vlst)
    → (vlan == u) ≡ false
    → vlst_at (change_vlst vlan f b) u ≡ vlst_at b u
vlst_at-other b vlan u f ne = vlst_at-change b vlan u f ∙ rw ne refl

with_status-null : (i : ℕ) (st : PortStatus) (h : Bool) → with_status i st h null_vlan ≡ null_vlan
unfolding ba_set ba_clr
with_status-null i discarding h = refl
with_status-null i learning h = refl
with_status-null i forwarding true = refl
with_status-null i forwarding false = refl

-- A port that is given a state, seen from any VLAN.
pub vlan_at-set_status :
    (s : Switch) (i vlan u : ℕ) (st : PortStatus)
    → vlan_at (port_set_status i vlan st s) u ≡ (
        if in_table s vlan i && (vlan == u)
        then with_status i st (untag_of (port_at s i) == vlan) (vlan_at s vlan)
        else vlan_at s u)
unfolding port_set_status
vlan_at-set_status s i vlan u st = elim (Bool-cases (in_table s vlan i)) [
  | inr out ↦ rw out refl
  | inl member ↦
      let home = untag_of (port_at s i) == vlan in
      rw member (
        get_or-set_fix s.vlant vlan u (with_status i st home) null_vlan
          (with_status-null i st home))
]

is_discarding : PortStatus → Bool
is_discarding discarding = true
is_discarding _ = false

pub table-with_status :
    (v : Vlan) (i : ℕ) (st : PortStatus) (home : Bool) → (with_status i st home v).table ≡ v.table
table-with_status v i discarding home = refl
table-with_status v i learning home = refl
table-with_status v i forwarding true = refl
table-with_status v i forwarding false = refl

pub Holds-with_status :
    (v : Vlan) (i k : ℕ) (st : PortStatus) (home : Bool)
    → Holds v.notlearning k
    → Holds (with_status i st home v).notlearning k
Holds-with_status v i k discarding home h = Holds-ba_set v.notlearning i k h
Holds-with_status v i k learning home h = Holds-ba_clr v.notlearning i k h
Holds-with_status v i k forwarding true h = Holds-ba_clr v.notlearning i k h
Holds-with_status v i k forwarding false h = Holds-ba_clr v.notlearning i k h

-- The set of the ports that discard, after a port has been given a state.
pub shut_with :
    (v : Vlan) (i : ℕ) (home : Bool)
    → Holds v.notlearning i
    → ba_check (with_status i discarding home v).notlearning i ≡ true
shut_with v i home h = ba_check-ba_set v.notlearning i i h ∙ rw (==-refl i) refl

pub other_with :
    (v : Vlan) (i k : ℕ) (st : PortStatus) (home : Bool)
    → (i == k) ≡ false
    → ba_check (with_status i st home v).notlearning k ≡ ba_check v.notlearning k
other_with v i k discarding home ne = ba_check-ba_set_other v.notlearning i k ne
other_with v i k learning home ne = ba_check-ba_clr_any v.notlearning i k ∙ rw ne refl
other_with v i k forwarding true ne = ba_check-ba_clr_any v.notlearning i k ∙ rw ne refl
other_with v i k forwarding false ne = ba_check-ba_clr_any v.notlearning i k ∙ rw ne refl
