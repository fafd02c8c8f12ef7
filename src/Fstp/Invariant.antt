-- ===== src/Fstp/Invariant.antt =====
-- The operations of the protocol and the invariant of Fstp/Guarded.
use vde.Common.{
  ℕ, ◌≡◌, refl, sym, ap, ◌∙◌, arith, Bool, true, false, ◌||◌, List, [], ◌∷◌, All, keep, Bool-cases,
  Option-cases, inl, inr,
}
use vde.BitArray.{Bitarray, ba_check, ba_forall}
use vde.BitArray.Iterate.{ba_forall-keep}
use vde.Switch.{discarding}
use vde.Switch.Wired.{in_table}
use vde.Fstp.{Vlst, Bridge, fsttab_at, vlst_at, change_vlst, for_each, now}
use vde.Fstp.Vlans.{own_root, reopen, start_vlan, fstnewvlan, renew_vlan}
use vde.Fstp.Send.{tell_change, is_designated, topology_change}
use vde.Fstp.Protocol.{shut, fastprotocol}
use vde.Fstp.Guarded.{
  IsGuarded, IsGuarded-same, is_member, is_blocked, change_vlst-IsGuarded, table-set_status,
}
use vde.Fstp.Blocked.{
  fst_sendbpdu-IsQuiet, fst_sendbpdu-IsGuarded, for_each-keeps, reopen-IsGuarded, block,
  block-IsGuarded,
}

-- A change of a tree that leaves its members, backups and edge ports.
pub same-IsGuarded :
    (b : Bridge) (vlan : ℕ) (f : Vlst → Vlst)
    → ((v : Vlst) (i : ℕ)
        → (is_member (f v) i ≡ is_member v i) × (is_blocked (f v) i ≡ is_blocked v i))
    → IsGuarded b
    → IsGuarded (change_vlst vlan f b)
same-IsGuarded b vlan f same g =
    change_vlst-IsGuarded b vlan f g
      (λ v i. (λ m. inl (sym (same v i).0 ∙ m), λ m. inl (sym (same v i).1 ∙ m)))

pub topology_change-IsGuarded :
    (vlan genport : ℕ) (b : Bridge) → IsGuarded b → IsGuarded (topology_change vlan genport b)
unfolding topology_change
topology_change-IsGuarded vlan genport b g =
    for_each-keeps IsGuarded (tell_change vlan genport) tell _ _ (
      for_each-keeps IsGuarded (tell_change vlan genport) tell _ _ (
        IsGuarded-same (change_vlst vlan (λ v. record v { tctime = now b }) b) _ refl refl
          (same-IsGuarded b vlan (λ v. record v { tctime = now b }) (λ v i. (refl, refl)) g)))
  where
    tell : (i : ℕ) (c : Bridge) → IsGuarded c → IsGuarded (tell_change vlan genport i c)
    tell i c h = elim (Bool-cases (is_designated (vlst_at c vlan) genport i)) [
      | inl yes_ ↦ rw yes_ (fst_sendbpdu-IsGuarded vlan i false true false c h)
      | inr no_ ↦ rw no_ h
    ]

start_vlan-IsGuarded : (vlan : ℕ) (b : Bridge) → IsGuarded b → IsGuarded (start_vlan false vlan b)
unfolding start_vlan
start_vlan-IsGuarded vlan b g =
    let b' = change_vlst vlan (own_root b.myid false) b in
    for_each-keeps IsGuarded (reopen vlan) (λ i c h. reopen-IsGuarded vlan i c h)
      (ba_forall (vlst_at b' vlan).backup b'.numports) b'
      (same-IsGuarded b vlan (own_root b.myid false) (λ v i. (refl, refl)) g)

pub renew_vlan-IsGuarded : (vlan : ℕ) (b : Bridge) → IsGuarded b → IsGuarded (renew_vlan vlan b)
unfolding fstnewvlan
renew_vlan-IsGuarded vlan b g = elim (Option-cases (fsttab_at b vlan)) [
  | inl gone ↦ rw (renew_vlan, gone) g
  | inr (v, there) ↦ rw (renew_vlan, there) (start_vlan-IsGuarded vlan b g)
]

-- A loop over numbers that have a property.
for_each-keeps_all {ℓ κ μ} :
    {A : Type ℓ} (P : A → Type κ) (Q : ℕ → Type μ) (body : ℕ → A → A)
    → ((i : ℕ) → Q i → (a : A) → P a → P (body i a))
    → (is : List ℕ) → All Q is
    → (a : A) → P a
    → P (for_each is body a)
unfolding for_each
for_each-keeps_all P Q body step [] q a p = p
for_each-keeps_all P Q body step (i ∷ is) (q, qs) a p =
    for_each-keeps_all P Q body step is qs (body i a) (step i q a p)

keep-All : (p : ℕ → Bool) (xs : List ℕ) → All (λ i. p i ≡ true) (keep p xs)
unfolding keep
keep-All p [] = tt
keep-All p (x ∷ xs) = elim (Bool-cases (p x)) [
  | inl yes_ ↦ rw yes_ (yes_, keep-All p xs)
  | inr no_ ↦ rw no_ (keep-All p xs)
]

ba_forall-All : (x : Bitarray) (n : ℕ) → All (λ i. ba_check x i ≡ true) (ba_forall x n)
ba_forall-All x n = rw (ba_forall-keep x n) (keep-All (ba_check x) _)

All-map {ℓ κ} :
    {P : ℕ → Type ℓ} {Q : ℕ → Type κ} → ((i : ℕ) → P i → Q i) → (is : List ℕ) → All P is → All Q is
All-map f [] h = tt
All-map f (i ∷ is) (h, hs) = (f i h, All-map f is hs)

-- The invariant, with the tables of a state that came before.
record Follows (b c : Bridge) : Type 0 where
  guarded : IsGuarded c
  tables : (u i : ℕ) → in_table c.switch u i ≡ in_table b.switch u i

shut-Follows :
    (b : Bridge) (vlan newrootport i : ℕ)
    → in_table b.switch vlan i ≡ true
    → (c : Bridge) → Follows b c
    → Follows b (shut vlan newrootport i c)
shut-Follows b vlan newrootport i m c f =
    elim (Bool-cases (is_designated (vlst_at c vlan) newrootport i)) [
      | inr no_ ↦ rw no_ f
      | inl yes_ ↦
          let q = fst_sendbpdu-IsQuiet vlan i false false false (block vlan i c) in
          rw yes_ (record {
            guarded =
                fst_sendbpdu-IsGuarded vlan i false false false (block vlan i c)
                  (block-IsGuarded vlan i c f.guarded (f.tables vlan i ∙ m));
            tables = λ u k.
                ap (λ s. in_table s u k) q.switch
                ∙ table-set_status c i vlan discarding f.guarded u k
                ∙ f.tables u k;
          })
    ]

pub fastprotocol-IsGuarded :
    (vlan newrootport : ℕ) (b : Bridge) → IsGuarded b → IsGuarded (fastprotocol vlan newrootport b)
unfolding fastprotocol
fastprotocol-IsGuarded vlan newrootport b g =
    fst_sendbpdu-IsGuarded vlan newrootport true false false (reopen vlan newrootport second)
      (reopen-IsGuarded vlan newrootport second f2.guarded)
  where
    loop : List ℕ → Bridge → Bridge
    loop is c = for_each is (shut vlan newrootport) c

    first : Bridge
    first = loop (ba_forall (vlst_at b vlan).untag b.numports) b

    second : Bridge
    second = loop (ba_forall (vlst_at first vlan).tagged first.numports) first

    f1 : Follows b first
    f1 =
        for_each-keeps_all (Follows b) (λ i. in_table b.switch vlan i ≡ true)
          (shut vlan newrootport) (λ i m c f. shut-Follows b vlan newrootport i m c f) _
          (All-map (λ i m. g.members vlan i (rw m refl)) _
            (ba_forall-All (vlst_at b vlan).untag b.numports))
          b (record { guarded = g; tables = λ u i. refl })

    or_true : (a : Bool) → (a || true) ≡ true
    or_true a = ground arith

    f2 : Follows first second
    f2 =
        for_each-keeps_all (Follows first) (λ i. in_table first.switch vlan i ≡ true)
          (shut vlan newrootport) (λ i m c f. shut-Follows first vlan newrootport i m c f) _
          (All-map (λ i m. f1.guarded.members vlan i (rw m (or_true _))) _
            (ba_forall-All (vlst_at first vlan).tagged first.numports))
          first (record { guarded = f1.guarded; tables = λ u i. refl })
