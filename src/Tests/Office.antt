-- ===== src/Tests/Office.antt =====
-- A switch with three ports: port 1 untagged in VLAN 1, port 2 untagged in VLAN 1 and tagged in
-- VLAN 2, and port 3 untagged in VLAN 2.
use mathlib.Core.Bool.{false≢true}
use mathlib.Core.Option.{none-ne-some, some-injective}
use vde.Common.Bits.{bit-zero}
use vde.Common.{
  ltb→lt, get_or_out, sym, ◌∙◌, ◌%◌, ℕ, zero, suc, ◌+◌, ◌/◌, ◌^◌, ◌<◌, ◌≡◌, refl, arith, Bool, true,
  false, not, ◌&&◌, ◌||◌, Option, none, some, [], ◌∷◌, if◌then◌else◌, ◌==◌, ltb, get_or,
  pass_below-at, pass_below, inl, inr, Bool-cases,
}
use vde.BitArray.{ba_check}
use vde.BitArray.Sets.{ba_check-bit}
use vde.Hash.Setup.{hash_alloc-IsHashed}
use vde.Switch.{Port, Vlan, Switch, port_at, untag_of, novlan}
use vde.Switch.Flood.{Numbered}
use vde.Switch.Wired.{IsWired, in_table, in_bctag, in_bcuntag}
use vde.Tests.Learning.{blank, fresh_table, fresh_table-IsHashed}

abbrev one_endpoint : ℕ → ℕ → Option Port
one_endpoint i vlan = some (record {
  ep = record { port = i; fd_ctl = 10 + i; fd_data = 20 + i } ∷ [];
  flag = 0;
  ms = some 0;
  vlanuntag = vlan;
  user = none;
  group = none;
  curuser = none;
  cost = 1;
})

abbrev members : ℕ → ℕ → ℕ → Vlan
members t tagged untagged = record {
  table = some (t ∷ []);
  bctag = some (tagged ∷ []);
  bcuntag = some (untagged ∷ []);
  notlearning = some (0 ∷ []);
}

abbrev pub office : Switch
office = record {
  numports = 4;
  portv = none ∷ one_endpoint 1 1 ∷ one_endpoint 2 1 ∷ one_endpoint 3 2 ∷ [];
  vlant = members 0 0 0 ∷ members 0b0110 0 0b0110 ∷ members 0b1100 0b0100 0b1000 ∷ [];
  validvlan = some (0b111 ∷ []);
  pflag = 0;
  fst_pflag = 0;
  hash = fresh_table;
}

-- A set of one word holds numbers below 64 alone, so a property of its members can be run through.
member-small : (w i : ℕ) → ba_check (some (w ∷ [])) i ≡ true → i < 64
unfolding ba_check
member-small w i h = elim (Bool-cases (ltb i 64)) [
  | inl below ↦ ground arith
  | inr above ↦
      let out : get_or (w ∷ []) (i / 64) 0 ≡ 0 =
        get_or_out {0} (w ∷ []) (i / 64) 0 (ground arith) in
      absurd
        (false≢true (sym (ba_check-bit (some (w ∷ [])) i ∙ rw (out, bit-zero (i % 64)) refl) ∙ h))
]

pub every_member :
    (w : ℕ) (p : ℕ → Bool)
    → pass_below (λ i. not (ba_check (some (w ∷ [])) i) || p i) 64 ≡ true
    → (i : ℕ) → ba_check (some (w ∷ [])) i ≡ true
    → p i ≡ true
every_member w p h i m =
    let c = pass_below-at (λ i. not (ba_check (some (w ∷ [])) i) || p i) (member-small w i m) h in
    rw m at c

pub office-Numbered : Numbered office
office-Numbered zero p h = absurd (none-ne-some _ h)
office-Numbered (suc zero) p h = rw (sym (some-injective _ _ h)) (refl, tt)
office-Numbered (suc (suc zero)) p h = rw (sym (some-injective _ _ h)) (refl, tt)
office-Numbered (suc (suc (suc zero))) p h = rw (sym (some-injective _ _ h)) (refl, tt)
office-Numbered (suc (suc (suc (suc i)))) p h = absurd (none-ne-some _ h)

both : (a b : Bool) → (a && b) ≡ true → (a ≡ true) × (b ≡ true)
both true b h = (refl, h)
both false b h = absurd (false≢true h)

pub office-within : (vlan i : ℕ) → in_table office vlan i ≡ true → i < 4
unfolding ba_check pass_below
office-within zero i h = ltb→lt i 4 (every_member 0 (λ i. ltb i 4) refl i h)
office-within (suc zero) i h = ltb→lt i 4 (every_member 0b0110 (λ i. ltb i 4) refl i h)
office-within (suc (suc zero)) i h = ltb→lt i 4 (every_member 0b1100 (λ i. ltb i 4) refl i h)
office-within (suc (suc (suc n))) i h = absurd (false≢true h)

abbrev sorted : Bool → ℕ → ℕ → Bool
sorted home vlan i =
    in_table office vlan i && (if untag_of (port_at office i) == vlan then home else not home)

is_sorted : (home b : Bool) → (if b then home else not home) ≡ true → b ≡ home
is_sorted true b h = ground arith
is_sorted false b h = ground arith

office-tagged : (vlan i : ℕ) → in_bctag office vlan i ≡ true → sorted false vlan i ≡ true
unfolding ba_check pass_below
office-tagged zero i h = every_member 0 (sorted false 0) refl i h
office-tagged (suc zero) i h = every_member 0 (sorted false 1) refl i h
office-tagged (suc (suc zero)) i h = every_member 0b0100 (sorted false 2) refl i h
office-tagged (suc (suc (suc n))) i h = absurd (false≢true h)

office-untagged : (vlan i : ℕ) → in_bcuntag office vlan i ≡ true → sorted true vlan i ≡ true
unfolding ba_check pass_below
office-untagged zero i h = every_member 0 (sorted true 0) refl i h
office-untagged (suc zero) i h = every_member 0b0110 (sorted true 1) refl i h
office-untagged (suc (suc zero)) i h = every_member 0b1000 (sorted true 2) refl i h
office-untagged (suc (suc (suc n))) i h = absurd (false≢true h)

office-home :
    (i : ℕ)
    → (untag_of (port_at office i) == novlan) ≡ false
    → (in_table office (untag_of (port_at office i)) i ≡ true)
      × (untag_of (port_at office i) < 2 ^ 16)
unfolding ba_check
office-home zero h = absurd (false≢true (sym h))
office-home (suc zero) h = (refl, omega arith)
office-home (suc (suc zero)) h = (refl, omega arith)
office-home (suc (suc (suc zero))) h = (refl, omega arith)
office-home (suc (suc (suc (suc i)))) h = absurd (false≢true (sym h))

pub office-IsWired : IsWired office
office-IsWired = record {
  numbered = office-Numbered;
  within = office-within;
  tagged = λ vlan i h.
      let (member, apart) = both _ _ (office-tagged vlan i h) in (member, is_sorted false _ apart);
  untagged = λ vlan i h.
      let (member, home) = both _ _ (office-untagged vlan i h) in (member, is_sorted true _ home);
  home = office-home;
  hashed = fresh_table-IsHashed;
  behind = λ q e h. absurd (none-ne-some _ (sym ((hash_alloc-IsHashed 2 blank).1 q) ∙ h));
}
