-- ===== src/Fstp/Fit.antt =====
-- The invariant of Switch/Wired through single steps of the protocol.
use vde.Common.{
  ℕ, ◌<◌, ◌≡◌, ◌⊎◌, refl, sym, ap, ◌∙◌, arith, Bool, true, false, ◌&&◌, Option, none, some, ◌==◌,
  ltb, length, get_or_out, Bool-cases, inl, inr,
}
use mathlib.Core.Bool.{false≢true}
use mathlib.Core.Option.{none-ne-some}
use vde.BitArray.{ba_check}
use vde.BitArray.Sets.{Holds-ba_set, Holds-ba_clr}
use vde.Hash.{Entry, hash_delete_vlan}
use vde.Hash.Chain.{unless}
use vde.Hash.Forget.{for_all_hash-IsHashed, view-for_all_hash}
use vde.Hash.Slots.{view}
use vde.Switch.{
  Switch, Vlan, PortStatus, discarding, learning, forwarding, vlan_at, port_at, untag_of, null_vlan,
  with_status, port_set_status,
}
use vde.Switch.Status.{HasPlace}
use vde.Switch.Wired.{IsWired, in_table}
use vde.Switch.Rewire.{port_set_status-IsWired}
use vde.Fstp.Steps.{vlan_at-set_status, table-with_status}

-- A wired switch on which the sets of a VLAN have a place for each of its members.
pub record IsFit (s : Switch) : Type 0 where
  pub wired : IsWired s
  pub placed : (u i : ℕ) → in_table s u i ≡ true → HasPlace (vlan_at s u) i

-- A switch `c` that is fit and has the ports and the members of VLANs of `s`.
pub record IsKept (s c : Switch) : Type 0 where
  pub fit : IsFit c
  pub portv : c.portv ≡ s.portv
  pub numports : c.numports ≡ s.numports
  pub members : (u i : ℕ) → in_table c u i ≡ in_table s u i

-- A VLAN with members has its entry in the array.
in_table-inside : (s : Switch) (u i : ℕ) → in_table s u i ≡ true → u < length s.vlant
unfolding ba_check
in_table-inside s u i m = elim (Bool-cases (ltb u (length s.vlant))) [
  | inl in_ ↦ ground arith
  | inr out ↦
      let gone = get_or_out s.vlant u null_vlan (ground arith) in
      absurd (false≢true (sym (ap (λ v. ba_check v.table i) gone) ∙ m))
]

HasPlace-with_status :
    (v : Vlan) (i k : ℕ) (st : PortStatus) (home : Bool)
    → HasPlace v k
    → HasPlace (with_status i st home v) k
HasPlace-with_status v i k discarding home h = record {
  bctag = Holds-ba_clr v.bctag i k h.bctag;
  bcuntag = Holds-ba_clr v.bcuntag i k h.bcuntag;
  notlearning = Holds-ba_set v.notlearning i k h.notlearning;
}
HasPlace-with_status v i k learning home h = record {
  bctag = Holds-ba_clr v.bctag i k h.bctag;
  bcuntag = Holds-ba_clr v.bcuntag i k h.bcuntag;
  notlearning = Holds-ba_clr v.notlearning i k h.notlearning;
}
HasPlace-with_status v i k forwarding true h = record {
  bctag = h.bctag;
  bcuntag = Holds-ba_set v.bcuntag i k h.bcuntag;
  notlearning = Holds-ba_clr v.notlearning i k h.notlearning;
}
HasPlace-with_status v i k forwarding false h = record {
  bctag = Holds-ba_set v.bctag i k h.bctag;
  bcuntag = h.bcuntag;
  notlearning = Holds-ba_clr v.notlearning i k h.notlearning;
}

module _ (s : Switch) (i vlan : ℕ) (st : PortStatus) where
  abbrev home : Bool
  home = untag_of (port_at s i) == vlan

  abbrev after : Switch
  after = port_set_status i vlan st s

  status_cases :
      (u : ℕ)
      → (vlan_at after u ≡ vlan_at s u)
        ⊎ ((u ≡ vlan) × (vlan_at after u ≡ with_status i st home (vlan_at s vlan)))
  status_cases u = elim (Bool-cases (in_table s vlan i && (vlan == u))) [
    | inr other ↦ inl (vlan_at-set_status s i vlan u st ∙ rw other refl)
    | inl here ↦ inr (ground arith, vlan_at-set_status s i vlan u st ∙ rw here refl)
  ]

  members-status : (u k : ℕ) → in_table after u k ≡ in_table s u k
  members-status u k = elim (status_cases u) [
    | inl same ↦ ap (λ v. ba_check v.table k) same
    | inr (e, at) ↦
        ap (λ v. ba_check v.table k) at
        ∙ ap (λ t. ba_check t k) (table-with_status (vlan_at s vlan) i st home)
        ∙ ap (λ u. in_table s u k) (sym e)
  ]

  place-status : (h : IsFit s) (u k : ℕ) → in_table after u k ≡ true → HasPlace (vlan_at after u) k
  place-status h u k m =
      let m' = sym (members-status u k) ∙ m in
      elim (status_cases u) [
        | inl same ↦ rw same (h.placed u k m')
        | inr (e, at) ↦
            rw at (HasPlace-with_status (vlan_at s vlan) i k st home (h.placed vlan k (rw e at m')))
      ]

  status-IsWired : IsFit s → IsWired after
  unfolding port_set_status
  status-IsWired h = elim (Bool-cases (in_table s vlan i)) [
    | inr out ↦ rw out h.wired
    | inl member ↦
        port_set_status-IsWired s i vlan st h.wired (in_table-inside s vlan i member)
          (h.placed vlan i member)
  ]

  ports-status : (after.portv ≡ s.portv) × (after.numports ≡ s.numports)
  unfolding port_set_status
  ports-status = elim (Bool-cases (in_table s vlan i)) [
    | inr out ↦ rw out (refl, refl)
    | inl member ↦ rw member (refl, refl)
  ]

pub port_set_status-IsKept :
    (s c : Switch) (i vlan : ℕ) (st : PortStatus)
    → IsKept s c
    → IsKept s (port_set_status i vlan st c)
port_set_status-IsKept s c i vlan st k = record {
  fit = record {
    wired = status-IsWired c i vlan st k.fit;
    placed = place-status c i vlan st k.fit;
  };
  portv = (ports-status c i vlan st).0 ∙ k.portv;
  numports = (ports-status c i vlan st).1 ∙ k.numports;
  members = λ u j. members-status c i vlan st u j ∙ k.members u j;
}

-- The addresses of a VLAN are forgotten.
pub hash_delete_vlan-IsKept :
    (s c : Switch) (vlan : ℕ)
    → IsKept s c
    → IsKept s (record c { hash = hash_delete_vlan vlan c.hash })
unfolding hash_delete_vlan
hash_delete_vlan-IsKept s c vlan k =
    let w = k.fit.wired in
    record {
      fit = record {
        wired = record {
          numbered = w.numbered;
          within = w.within;
          tagged = w.tagged;
          untagged = w.untagged;
          home = w.home;
          hashed = for_all_hash-IsHashed _ w.hashed;
          behind = λ q e found.
              w.behind q e (was _ (view c.hash q) e (sym (view-for_all_hash _ w.hashed q) ∙ found));
        };
        placed = k.fit.placed;
      };
      portv = k.portv;
      numports = k.numports;
      members = k.members;
    }
  where
    was : (p : Entry → Bool) (o : Option Entry) (e : Entry) → unless p o ≡ some e → o ≡ some e
    was p none e h = h
    was p (some d) e h = elim (Bool-cases (p d)) [
      | inl gone ↦ absurd (none-ne-some e (rw gone at h))
      | inr stays ↦ rw stays at h
    ]
