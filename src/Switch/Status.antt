-- ===== src/Switch/Status.antt =====
-- The state of a port in a VLAN: `port_set_status` and `port_get_status`.
use vde.Common.{
  ℕ, ◌<◌, ◌≡◌, ◌≢◌, refl, sym, ◌∙◌, arith, Bool, true, false, ◌&&◌, ◌||◌, if◌then◌else◌, ◌==◌, set,
  length, get_or, get_or-set, get_or-set_ne, Bool-cases, inl, inr, ==-refl, ==-false,
}
use vde.BitArray.{Bitarray, ba_check, ba_set, ba_clr}
use vde.BitArray.Sets.{Holds, ba_check-ba_set, ba_check-ba_clr}
use vde.Switch.{
  Switch, Vlan, PortStatus, discarding, learning, forwarding, vlan_at, port_at, untag_of, null_vlan,
  with_status, port_get_status, port_set_status,
}

-- The sets of a VLAN have a place for a port.
pub record HasPlace (v : Vlan) (i : ℕ) : Type 0 where
  pub bctag : Holds v.bctag i
  pub bcuntag : Holds v.bcuntag i
  pub notlearning : Holds v.notlearning i

-- The state that the sets of a VLAN give a port.
abbrev status_of : Vlan → ℕ → PortStatus
status_of v i =
    if ba_check v.notlearning i
    then discarding
    else if ba_check v.bctag i || ba_check v.bcuntag i
    then forwarding
    else learning

-- A bit that was written, and another one.
set_here : (x : Bitarray) (i : ℕ) → Holds x i → ba_check (ba_set x i) i ≡ true
set_here x i h = ba_check-ba_set x i i h ∙ rw (==-refl i) refl

clr_here : (x : Bitarray) (i : ℕ) → Holds x i → ba_check (ba_clr x i) i ≡ false
clr_here x i h = ba_check-ba_clr x i i h ∙ rw (==-refl i) refl

set_other : (x : Bitarray) (i j : ℕ) → Holds x i → i ≢ j → ba_check (ba_set x i) j ≡ ba_check x j
set_other x i j h ne = ba_check-ba_set x i j h ∙ rw (==-false i j ne) refl

clr_other : (x : Bitarray) (i j : ℕ) → Holds x i → i ≢ j → ba_check (ba_clr x i) j ≡ ba_check x j
clr_other x i j h ne = ba_check-ba_clr x i j h ∙ rw (==-false i j ne) refl

or_true : (b : Bool) → (b || true) ≡ true
or_true b = ground arith

status-with :
    (v : Vlan) (i : ℕ) (status : PortStatus) (untagged : Bool)
    → HasPlace v i
    → status_of (with_status i status untagged v) i ≡ status
status-with v i discarding untagged h = rw (set_here v.notlearning i h.notlearning) refl
status-with v i learning untagged h =
    rw
      (
        clr_here v.notlearning i h.notlearning,
        clr_here v.bctag i h.bctag,
        clr_here v.bcuntag i h.bcuntag,
      )
      refl
status-with v i forwarding true h =
    rw (clr_here v.notlearning i h.notlearning, set_here v.bcuntag i h.bcuntag)
      (rw (or_true (ba_check v.bctag i)) refl)
status-with v i forwarding false h =
    rw (clr_here v.notlearning i h.notlearning, set_here v.bctag i h.bctag) refl

other-with :
    (v : Vlan) (i j : ℕ) (status : PortStatus) (untagged : Bool)
    → HasPlace v i
    → i ≢ j
    → status_of (with_status i status untagged v) j ≡ status_of v j
other-with v i j discarding untagged h ne =
    rw
      (
        set_other v.notlearning i j h.notlearning ne,
        clr_other v.bctag i j h.bctag ne,
        clr_other v.bcuntag i j h.bcuntag ne,
      )
      refl
other-with v i j learning untagged h ne =
    rw
      (
        clr_other v.notlearning i j h.notlearning ne,
        clr_other v.bctag i j h.bctag ne,
        clr_other v.bcuntag i j h.bcuntag ne,
      )
      refl
other-with v i j forwarding true h ne =
    rw (clr_other v.notlearning i j h.notlearning ne, set_other v.bcuntag i j h.bcuntag ne) refl
other-with v i j forwarding false h ne =
    rw (clr_other v.notlearning i j h.notlearning ne, set_other v.bctag i j h.bctag ne) refl

-- For a VLAN whose sets have a place for the port: on a port that is a member of the VLAN, `port_get_status` gives the state that `port_set_status` has
-- set; the state of every other port in the VLAN, and of every port in another VLAN, is as before. On
-- a port that is no member nothing changes.
pub port_get_status-set :
    (s : Switch) (port vlan : ℕ) (status : PortStatus)
    → vlan < length s.vlant
    → HasPlace (vlan_at s vlan) port
    → let s' = port_set_status port vlan status s in
      (i w : ℕ)
      → port_get_status i w s' ≡ (
          if ba_check (vlan_at s vlan).table port && (port == i) && (vlan == w)
          then status
          else port_get_status i w s)
unfolding port_set_status port_get_status
port_get_status-set s port vlan status h p i w =
    elim (Bool-cases (ba_check (vlan_at s vlan).table port)) [
      | inr out ↦ rw (out, port_set_status) refl
      | inl member ↦
          rw (member, port_set_status)
            (elim (Bool-cases (vlan == w)) [
              | inr other ↦ rw (vlan_other w (ground arith)) (rw other (no_other (port == i)))
              | inl same ↦
                  let e : vlan ≡ w = ground arith in
                  rw (sym e)
                    (rw (vlan_here, ==-refl vlan) (in_vlan (untag_of (port_at s port) == vlan)))
            ])
    ]
  where
    no_other :
        (b : Bool) → port_get_status i w s ≡ (if b && false then status else port_get_status i w s)
    no_other b = ground arith

    in_vlan :
        (b : Bool)
        → status_of (with_status port status b (vlan_at s vlan)) i
          ≡ (if (port == i) && true then status else status_of (vlan_at s vlan) i)
    in_vlan b = elim (Bool-cases (port == i)) [
      | inl here ↦
          let e : port ≡ i = ground arith in
          rw here (rw (sym e) (status-with (vlan_at s vlan) port status b p))
      | inr away ↦ rw away (other-with (vlan_at s vlan) port i status b p (ground arith))
    ]

    v : Vlan
    v = with_status port status (untag_of (port_at s port) == vlan) (vlan_at s vlan)

    vlan_here : get_or (set s.vlant vlan v) vlan null_vlan ≡ v
    vlan_here = get_or-set s.vlant vlan vlan v null_vlan h ∙ rw (==-refl vlan) refl

    vlan_other : (w : ℕ) → vlan ≢ w → get_or (set s.vlant vlan v) w null_vlan ≡ vlan_at s w
    vlan_other w ne = get_or-set_ne s.vlant vlan w v null_vlan ne
