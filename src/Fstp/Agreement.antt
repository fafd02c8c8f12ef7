-- ===== src/Fstp/Agreement.antt =====
-- `fastprotocol`: the ports that are shut before a new root is agreed to.
use vde.Common.{
  ℕ, ◌≡◌, ◌⊎◌, refl, sym, ap, ◌∙◌, arith, true, false, Option, none, some, List, [], ◌∷◌, ◌==◌, has,
  Bool-cases, inl, inr, ==-refl,
}
use mathlib.Core.Bool.{false≢true}
use vde.BitArray.{ba_check, ba_set}
use vde.BitArray.Sets.{Holds, ba_check-ba_set_other}
use vde.Switch.{
  Switch, PortStatus, discarding, vlan_at, port_at, untag_of, with_status, port_set_status,
}
use vde.Switch.Wired.{in_table}
use vde.Fstp.{Vlst, Bridge, fsttab_at, vlst_of, vlst_at, change, set_status, for_each}
use vde.Fstp.Send.{is_designated}
use vde.Fstp.Protocol.{shut}
use vde.Fstp.Steps.{
  vlst_at-here, vlan_at-set_status, table-with_status, Holds-with_status, shut_with, other_with,
}
use vde.Fstp.Guarded.{is_shut}
use vde.Fstp.Blocked.{IsQuiet, fst_sendbpdu-IsQuiet, block, for_each-keeps}

-- A loop reaches a number of its list: from there on what the body does for it stays.
pub for_each-reaches {ℓ κ μ} :
    {A : Type ℓ} (P : A → Type κ) (Q : A → Type μ) (body : ℕ → A → A) (i : ℕ)
    → ((k : ℕ) (a : A) → P a → P (body k a))
    → ((k : ℕ) (a : A) → Q a → Q (body k a))
    → ((a : A) → P a → Q (body i a))
    → (is : List ℕ) (a : A) → has i is ≡ true
    → P a
    → Q (for_each is body a)
unfolding for_each
for_each-reaches P Q body i keep_p keep_q hit [] a h p = absurd (false≢true h)
for_each-reaches P Q body i keep_p keep_q hit (k ∷ is) a h p = elim (Bool-cases (k == i)) [
  | inl same ↦
      let e : k ≡ i = ground arith in for_each-keeps Q body keep_q is (body k a) (rw e (hit a p))
  | inr other ↦
      for_each-reaches P Q body i keep_p keep_q hit is (body k a) (rw other at h) (keep_p k a p)
]

-- A port and its VLAN's tables when a port is given a state.
module _ (s : Switch) (vlan k : ℕ) (st : PortStatus) where
  abbrev after : Switch
  after = port_set_status k vlan st s

  vlan_cases :
      (vlan_at after vlan ≡ vlan_at s vlan)
      ⊎ (vlan_at after vlan ≡ with_status k st (untag_of (port_at s k) == vlan) (vlan_at s vlan))
  vlan_cases = elim (Bool-cases (in_table s vlan k)) [
    | inr out ↦ inl (vlan_at-set_status s k vlan vlan st ∙ rw out refl)
    | inl member ↦ inr (vlan_at-set_status s k vlan vlan st ∙ rw (member, ==-refl vlan) refl)
  ]

  pub table-after : (i : ℕ) → in_table after vlan i ≡ in_table s vlan i
  table-after i = elim vlan_cases [
    | inl same ↦ ap (λ v. ba_check v.table i) same
    | inr at ↦
        ap (λ v. ba_check v.table i) at
        ∙ ap (λ t. ba_check t i)
            (table-with_status (vlan_at s vlan) k st (untag_of (port_at s k) == vlan))
  ]

  Holds-after :
      (i : ℕ) → Holds (vlan_at s vlan).notlearning i → Holds (vlan_at after vlan).notlearning i
  Holds-after i h = elim vlan_cases [
    | inl same ↦ rw same h
    | inr at ↦ rw at (Holds-with_status (vlan_at s vlan) k i st (untag_of (port_at s k) == vlan) h)
  ]

  pub other-after : (i : ℕ) → (k == i) ≡ false → is_shut after vlan i ≡ is_shut s vlan i
  other-after i away = elim vlan_cases [
    | inl same ↦ ap (λ v. ba_check v.notlearning i) same
    | inr at ↦
        ap (λ v. ba_check v.notlearning i) at
        ∙ other_with (vlan_at s vlan) k i st (untag_of (port_at s k) == vlan) away
  ]

shut-after :
    (s : Switch) (vlan i : ℕ)
    → in_table s vlan i ≡ true
    → Holds (vlan_at s vlan).notlearning i
    → is_shut (port_set_status i vlan discarding s) vlan i ≡ true
shut-after s vlan i m h =
    rw (vlan_at-set_status s i vlan vlan discarding, m, ==-refl vlan)
      (shut_with (vlan_at s vlan) i (untag_of (port_at s i) == vlan) h)

-- Of a port of the VLAN: it is shut, or the loops of `fastprotocol` will shut it.
pub record IsReady (vlan newrootport i : ℕ) (c : Bridge) : Type 0 where
  pub member : in_table c.switch vlan i ≡ true
  pub place : Holds (vlan_at c.switch vlan).notlearning i
  pub ready :
      (is_shut c.switch vlan i ≡ true) ⊎ (is_designated (vlst_at c vlan) newrootport i ≡ true)

-- Blocking another port does not concern it.
designated-block :
    (c : Bridge) (vlan newrootport k i : ℕ)
    → (k == i) ≡ false
    → is_designated (vlst_at (block vlan k c) vlan) newrootport i
      ≡ is_designated (vlst_at c vlan) newrootport i
designated-block c vlan newrootport k i away =
    rw
      (vlst_at-here (set_status k vlan discarding c) vlan
        (λ v. record v { backup = ba_set v.backup k }))
      (by_tree (fsttab_at c vlan))
  where
    by_tree :
        (o : Option Vlst)
        → is_designated
            (vlst_of (change (λ v. record v { backup = ba_set v.backup k }) o))
            newrootport
            i
          ≡ is_designated (vlst_of o) newrootport i
    by_tree none = refl
    by_tree (some v) = rw (ba_check-ba_set_other v.backup k i away) refl

block-IsReady :
    (vlan newrootport i k : ℕ) (c : Bridge)
    → IsReady vlan newrootport i c
    → IsReady vlan newrootport i (block vlan k c)
block-IsReady vlan newrootport i k c r = record {
  member = table-after c.switch vlan k discarding i ∙ r.member;
  place = Holds-after c.switch vlan k discarding i r.place;
  ready = elim (Bool-cases (k == i)) [
    | inl same ↦
        let e : k ≡ i = ground arith in inl (rw e (shut-after c.switch vlan i r.member r.place))
    | inr away ↦ elim r.ready [
      | inl done ↦ inl (other-after c.switch vlan k discarding i away ∙ done)
      | inr waits ↦ inr (designated-block c vlan newrootport k i away ∙ waits)
    ]
  ];
}

quiet-IsReady :
    (vlan newrootport i : ℕ) (b c : Bridge)
    → IsQuiet b c
    → IsReady vlan newrootport i b
    → IsReady vlan newrootport i c
quiet-IsReady vlan newrootport i b c q r = record {
  member = rw q.switch r.member;
  place = rw q.switch r.place;
  ready = rw (q.switch, q.fsttab) r.ready;
}

pub shut-IsReady :
    (vlan newrootport i k : ℕ) (c : Bridge)
    → IsReady vlan newrootport i c
    → IsReady vlan newrootport i (shut vlan newrootport k c)
shut-IsReady vlan newrootport i k c r =
    elim (Bool-cases (is_designated (vlst_at c vlan) newrootport k)) [
      | inr stays ↦ rw stays r
      | inl goes ↦ rw goes (
          quiet-IsReady vlan newrootport i (block vlan k c) _
            (fst_sendbpdu-IsQuiet vlan k false false false (block vlan k c))
            (block-IsReady vlan newrootport i k c r))
    ]

-- Shut, for good.
pub record IsDone (vlan newrootport i : ℕ) (c : Bridge) : Type 0 where
  pub ready : IsReady vlan newrootport i c
  pub done : is_shut c.switch vlan i ≡ true

pub shut_self :
    (vlan newrootport i : ℕ) (c : Bridge)
    → IsReady vlan newrootport i c
    → IsDone vlan newrootport i (shut vlan newrootport i c)
shut_self vlan newrootport i c r = record {
  ready = shut-IsReady vlan newrootport i i c r;
  done = elim (Bool-cases (is_designated (vlst_at c vlan) newrootport i)) [
    | inl goes ↦ rw goes (
        ap (λ s. is_shut s vlan i)
          (fst_sendbpdu-IsQuiet vlan i false false false (block vlan i c)).switch
        ∙ shut-after c.switch vlan i r.member r.place)
    | inr stays ↦
        rw stays
          (elim r.ready [ inl done ↦ done | inr waits ↦ absurd (false≢true (sym stays ∙ waits)) ])
  ];
}

pub shut-IsDone :
    (vlan newrootport i k : ℕ) (c : Bridge)
    → IsDone vlan newrootport i c
    → IsDone vlan newrootport i (shut vlan newrootport k c)
shut-IsDone vlan newrootport i k c d = record {
  ready = shut-IsReady vlan newrootport i k c d.ready;
  done = elim (Bool-cases (is_designated (vlst_at c vlan) newrootport k)) [
    | inr stays ↦ rw stays d.done
    | inl goes ↦ rw goes (
        ap (λ s. is_shut s vlan i)
          (fst_sendbpdu-IsQuiet vlan k false false false (block vlan k c)).switch
        ∙ still)
  ];
}
  where
    still : is_shut (port_set_status k vlan discarding c.switch) vlan i ≡ true
    still = elim (Bool-cases (k == i)) [
      | inl same ↦
          let e : k ≡ i = ground arith in
          rw e (shut-after c.switch vlan i d.ready.member d.ready.place)
      | inr away ↦ other-after c.switch vlan k discarding i away ∙ d.done
    ]
