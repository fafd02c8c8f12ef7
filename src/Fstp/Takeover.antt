-- ===== src/Fstp/Takeover.antt =====
-- Trees and time: a root that is no longer heard, and backup ports that hear nothing.
use vde.Common.{ℕ, ◌≡◌, refl, ◌∙◌, arith, false, Option, none, some, ==-refl}
use vde.BitArray.{ba_check, ba_clr}
use vde.BitArray.Sets.{ba_check-ba_clr_any}
use vde.Fstp.{Vlst, Bridge, fsttab_at, vlst_of, vlst_at, change, change_vlst}
use vde.Fstp.Vlans.{own_root, reopen}
use vde.Fstp.Steps.{vlst_at-here}

abbrev pub clear : ℕ → Vlst → Vlst
clear port v = record v { backup = ba_clr v.backup port }

-- The tree after a port has been opened again.
pub reopen-tree :
    (vlan k : ℕ) (b : Bridge) (P : Vlst → Type 0)
    → P (vlst_of (change (clear k) (fsttab_at b vlan)))
    → P (vlst_at (reopen vlan k b) vlan)
reopen-tree vlan k b P h = rw (vlst_at-here b vlan (λ v. record v { backup = ba_clr v.backup k })) h

pub clear-here :
    (k : ℕ) (o : Option Vlst) → ba_check (vlst_of (change (clear k) o)).backup k ≡ false
unfolding ba_check
clear-here k none = refl
clear-here k (some v) = ba_check-ba_clr_any v.backup k k ∙ rw (==-refl k) refl

pub clear-stays :
    (k i : ℕ) (o : Option Vlst)
    → ba_check (vlst_of o).backup i ≡ false
    → ba_check (vlst_of (change (clear k) o)).backup i ≡ false
clear-stays k i none h = h
clear-stays k i (some v) h = ground (arith, ba_check-ba_clr_any v.backup k i)

-- The switch is the root of the VLAN's tree, and there is a tree.
pub record IsOwnRoot (vlan : ℕ) (b : Bridge) : Type 0 where
  pub root : (vlst_at b vlan).root ≡ b.myid
  pub rootport : (vlst_at b vlan).rootport ≡ 0

-- A tree that is started again.
module _ (vlan : ℕ) (b : Bridge) (v : Vlst) (there : fsttab_at b vlan ≡ some v) where
  abbrev started : Bridge
  started = change_vlst vlan (own_root b.myid false) b
