-- ===== src/Fstp/Agreed.antt =====
-- `fastprotocol`: the state in which a new root is agreed to.
use vde.Common.{ℕ, ◌<◌, ◌≡◌, true, false}
use vde.BitArray.{ba_check, ba_forall}
use vde.Switch.Wired.{in_table}
use vde.Fstp.{Bridge, vlst_at, is_active, for_each}
use vde.Fstp.Protocol.{shut}
use vde.Fstp.Guarded.{is_member}

-- What the loops leave: the second set of the tree's ports, the number of ports, the VLAN's table.
record IsKept (vlan : ℕ) (b c : Bridge) : Type 0 where
  tagged : (vlst_at c vlan).tagged ≡ (vlst_at b vlan).tagged
  numports : c.numports ≡ b.numports
  table : (i : ℕ) → in_table c.switch vlan i ≡ in_table b.switch vlan i

-- A port that a tree's `fastprotocol` is about: a member of the tree, active and no edge port.
pub record IsInner (b : Bridge) (vlan i : ℕ) : Type 0 where
  pub below : i < b.numports
  pub member : is_member (vlst_at b vlan) i ≡ true
  pub inner : ba_check (vlst_at b vlan).edge i ≡ false
  pub active : is_active (vlst_at b vlan) i ≡ true

module _ (vlan newrootport : ℕ) (b : Bridge) where
  abbrev first : Bridge
  first = for_each (ba_forall (vlst_at b vlan).untag b.numports) (shut vlan newrootport) b

  abbrev second : Bridge
  second =
      for_each (ba_forall (vlst_at first vlan).tagged first.numports) (shut vlan newrootport) first
