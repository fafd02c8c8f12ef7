-- ===== src/Admin/Access.antt =====
-- Who gets an endpoint: `checkport_ac` and `setup_ep` of port.c.
use vde.Common.{ℕ, ◌≡◌, ◌⊎◌, Bool, true, Option, none, some, []}
use vde.Switch.{Port, Switch}

-- The user may use the port: as root, as its owner, or as one of its group, or because the port has
-- neither an owner nor a group.
abbrev IsAllowed : (ℕ → ℕ → Bool) → Port → ℕ → Type 0
IsAllowed belongs p user =
    (user ≡ 0)
    ⊎ (((p.user ≡ none) × (p.group ≡ none))
        ⊎ ((p.user ≡ some user) ⊎ ((g : ℕ) × (p.group ≡ some g) × (belongs user g ≡ true))))

-- What follows where the test of `curuser` succeeds.
abbrev pub MayUse : (ℕ → ℕ → Bool) → Port → ℕ → Type 0
MayUse belongs p user = (p.curuser ≡ some user) ⊎ ((p.ep ≡ []) × IsAllowed belongs p user)
