-- ===== src/Fstp/Wake.antt =====
-- `fst_updatebackup`: the backup ports that have heard nothing.
use vde.Common.{ℕ, ◌≡◌, Bool, true}
use vde.BitArray.{ba_check}
use vde.Fstp.{Bridge, vlst_at, is_active}

backup_at : Bridge → ℕ → ℕ → Bool
backup_at b vlan i = ba_check (vlst_at b vlan).backup i

active_at : Bridge → ℕ → ℕ → Bool
active_at b vlan i = is_active (vlst_at b vlan) i

-- A port that is heard stays the backup that it is.
record IsHeard (vlan i : ℕ) (b : Bridge) : Type 0 where
  active : active_at b vlan i ≡ true
  backup : backup_at b vlan i ≡ true
