-- ===== src/Fstp/Blocked.antt =====
-- The steps of the protocol that shut a port or open it again, and those that only send.
use vde.Common.{
  ℕ, ◌≡◌, ◌⊎◌, refl, sym, ap, ◌∙◌, arith, Bool, true, false, ◌&&◌, not, Option, none, some, List,
  [], ◌∷◌, ◌==◌, Bool-cases, inl, inr, ==-refl,
}
use mathlib.Core.Bool.{false≢true}
use vde.BitArray.{ba_check, ba_set, ba_clr}
use vde.BitArray.Sets.{Holds, ba_check-ba_clr_any, ba_check-ba_set_other}
use vde.Switch.{
  Switch, discarding, forwarding, vlan_at, port_at, untag_of, runs_fstp, port_set_status,
}
use vde.Switch.Wired.{in_table}
use vde.Fstp.{Vlst, Bridge, fsttab_at, vlst_of, vlst_at, change, change_vlst, set_status, for_each}
use vde.Fstp.Vlans.{reopen}
use vde.Fstp.Send.{fst_sendbpdu, send_untagged, send_tagged, port_send_packet}
use vde.Fstp.Steps.{vlst_at-here, vlan_at-set_status, shut_with}
use vde.Fstp.Guarded.{
  IsGuarded, IsGuarded-same, is_blocked, is_shut, change_vlst-IsGuarded, set_status-IsGuarded,
}

-- The parts of the state that the protocol decides on.
pub record IsQuiet (b c : Bridge) : Type 0 where
  pub switch : c.switch ≡ b.switch
  pub fsttab : c.fsttab ≡ b.fsttab
  pub numports : c.numports ≡ b.numports
  pub timers : c.timers ≡ b.timers
  pub myid : c.myid ≡ b.myid

IsQuiet-refl : (b : Bridge) → IsQuiet b b
IsQuiet-refl b = record {
  switch = refl;
  fsttab = refl;
  numports = refl;
  timers = refl;
  myid = refl;
}

-- Sending a packet of the protocol changes the packets and the log alone.
pub fst_sendbpdu-IsQuiet :
    (vlan port : ℕ) (agr tc tcack : Bool) (b : Bridge)
    → IsQuiet b (fst_sendbpdu vlan port agr tc tcack b)
unfolding fst_sendbpdu send_untagged send_tagged port_send_packet
fst_sendbpdu-IsQuiet vlan port agr tc tcack b = elim (Bool-cases (runs_fstp b.switch)) [
  | inr off ↦ rw off (IsQuiet-refl b)
  | inl on ↦ elim (Bool-cases (ba_check (vlst_at b vlan).untag port)) [
    | inl u ↦ elim (Bool-cases (ba_check (vlst_at b vlan).tagged port)) [
      | inl t ↦
          rw (on, u, t)
            (record { switch = refl; fsttab = refl; numports = refl; timers = refl; myid = refl })
      | inr t ↦
          rw (on, u, t)
            (record { switch = refl; fsttab = refl; numports = refl; timers = refl; myid = refl })
    ]
    | inr u ↦ elim (Bool-cases (ba_check (vlst_at b vlan).tagged port)) [
      | inl t ↦
          rw (on, u, t)
            (record { switch = refl; fsttab = refl; numports = refl; timers = refl; myid = refl })
      | inr t ↦ rw (on, u, t) (IsQuiet-refl b)
    ]
  ]
]

IsQuiet-IsGuarded : (b c : Bridge) → IsQuiet b c → IsGuarded b → IsGuarded c
IsQuiet-IsGuarded b c q g = IsGuarded-same b c (ap (λ s. s.vlant) q.switch) q.fsttab g

pub fst_sendbpdu-IsGuarded :
    (vlan port : ℕ) (agr tc tcack : Bool) (b : Bridge)
    → IsGuarded b
    → IsGuarded (fst_sendbpdu vlan port agr tc tcack b)
fst_sendbpdu-IsGuarded vlan port agr tc tcack b g =
    IsQuiet-IsGuarded b (fst_sendbpdu vlan port agr tc tcack b)
      (fst_sendbpdu-IsQuiet vlan port agr tc tcack b) g

-- A loop whose body keeps a property keeps it.
pub for_each-keeps {ℓ κ} :
    {A : Type ℓ} (P : A → Type κ) (body : ℕ → A → A)
    → ((i : ℕ) (a : A) → P a → P (body i a))
    → (is : List ℕ) (a : A) → P a
    → P (for_each is body a)
unfolding for_each
for_each-keeps P body step [] a p = p
for_each-keeps P body step (i ∷ is) a p = for_each-keeps P body step is (body i a) (step i a p)

-- A port is opened again.
pub reopen-IsGuarded : (vlan port : ℕ) (b : Bridge) → IsGuarded b → IsGuarded (reopen vlan port b)
unfolding ba_check
reopen-IsGuarded vlan port b g =
    set_status-IsGuarded (change_vlst vlan clear b) port vlan forwarding
      (change_vlst-IsGuarded b vlan clear g
        (λ v i. (λ m. inl m, λ m. inl (ground (arith, ba_check-ba_clr_any v.backup port i)))))
      (λ t m. absurd (
        false≢true (
          sym (open_now (fsttab_at b vlan))
          ∙ sym (ap (λ v. is_blocked v port) (vlst_at-here b vlan clear))
          ∙ m)))
  where
    clear : Vlst → Vlst
    clear v = record v { backup = ba_clr v.backup port }

    open_now : (o : Option Vlst) → is_blocked (vlst_of (change clear o)) port ≡ false
    open_now none = refl
    open_now (some v) = rw (ba_check-ba_clr_any v.backup port port, ==-refl port) refl

-- A port of the VLAN is shut.
abbrev pub block : ℕ → ℕ → Bridge → Bridge
block vlan port b =
    change_vlst vlan (λ v. record v { backup = ba_set v.backup port })
      (set_status port vlan discarding b)

shut_now :
    (s : Switch) (port vlan : ℕ)
    → in_table s vlan port ≡ true
    → Holds (vlan_at s vlan).notlearning port
    → is_shut (port_set_status port vlan discarding s) vlan port ≡ true
shut_now s port vlan m h =
    rw (vlan_at-set_status s port vlan vlan discarding, m, ==-refl vlan)
      (shut_with (vlan_at s vlan) port (untag_of (port_at s port) == vlan) h)

pub block-IsGuarded :
    (vlan port : ℕ) (b : Bridge)
    → IsGuarded b
    → in_table b.switch vlan port ≡ true
    → IsGuarded (block vlan port b)
block-IsGuarded vlan port b g m =
    let c = set_status port vlan discarding b in
    change_vlst-IsGuarded c vlan (λ v. record v { backup = ba_set v.backup port })
      (set_status-IsGuarded b port vlan discarding g (λ t n. refl))
      (λ v i. (λ n. inl n, λ n. grow v i n))
  where
    grow :
        (v : Vlst) (i : ℕ)
        → (ba_check (ba_set v.backup port) i && not (ba_check v.edge i)) ≡ true
        → (is_blocked v i ≡ true)
          ⊎ (is_shut (port_set_status port vlan discarding b.switch) vlan i ≡ true)
    grow v i n = elim (Bool-cases (port == i)) [
      | inr away ↦ inl (rw (ba_check-ba_set_other v.backup port i away) at n)
      | inl here ↦
          let e : i ≡ port = ground arith in
          inr (rw e (shut_now b.switch port vlan m (g.placed vlan port m)))
    ]
