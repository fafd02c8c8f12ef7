-- ===== src/Switch/Wired.antt =====
-- The invariant of the ports, the VLAN tables and the address table, and learning under it.
use vde.Common.{
  ◌⊎◌, ℕ, ◌+◌, ◌*◌, ◌^◌, ◌<◌, ◌≡◌, refl, ap, sym, ◌∙◌, arith, Bool, true, false, Option, none, some,
  ◌==◌, Bool-cases, Option-cases, inl, inr,
}
use mathlib.Core.Option.{some-injective}
use vde.Common.Int.{ℤ}
use vde.Common.Bits.{bit_and_mask}
use vde.BitArray.{ba_check}
use vde.Hash.{Entry, Mac, Table, extmac, emac2vlan, find_in_hash_update}
use vde.Hash.Address.{IsMac, emac2vlan-extmac}
use vde.Hash.Learn.{settled, learned, find_in_hash_update-Learned}
use vde.Hash.Slots.{IsHashed, view}
use vde.Switch.{Switch, vlan_at, port_at, untag_of, novlan}
use vde.Switch.Frame.{Frame, byte, src, dest, tag_vlan, is_broadcast}
use vde.Switch.Flood.{Numbered}
use vde.Switch.Forward.{admit, learn}

-- Port `i` belongs to a VLAN, or forwards in it with a tag or without.
abbrev pub in_table : Switch → ℕ → ℕ → Bool
in_table s vlan i = ba_check (vlan_at s vlan).table i

abbrev pub in_bctag : Switch → ℕ → ℕ → Bool
in_bctag s vlan i = ba_check (vlan_at s vlan).bctag i

abbrev pub in_bcuntag : Switch → ℕ → ℕ → Bool
in_bcuntag s vlan i = ba_check (vlan_at s vlan).bcuntag i

-- The ports, the VLAN tables and the address table agree. Every endpoint knows its port; the members
-- of a VLAN are ports; a port that forwards in a VLAN is a member, and is in the set that its own
-- untagged VLAN asks for; a port is a member of its untagged VLAN; and an address of a VLAN was
-- learned behind a member.
pub record IsWired (s : Switch) : Type 0 where
  pub numbered : Numbered s
  pub within : (vlan i : ℕ) → in_table s vlan i ≡ true → i < s.numports
  pub tagged :
      (vlan i : ℕ)
      → in_bctag s vlan i ≡ true
      → (in_table s vlan i ≡ true) × ((untag_of (port_at s i) == vlan) ≡ false)
  pub untagged :
      (vlan i : ℕ)
      → in_bcuntag s vlan i ≡ true
      → (in_table s vlan i ≡ true) × ((untag_of (port_at s i) == vlan) ≡ true)
  pub home :
      (i : ℕ)
      → (untag_of (port_at s i) == novlan) ≡ false
      → (in_table s (untag_of (port_at s i)) i ≡ true) × (untag_of (port_at s i) < 2 ^ 16)
  pub hashed : IsHashed s.hash
  pub behind : (q : ℕ) (e : Entry) → view s.hash q ≡ some e → in_table s (emac2vlan q) e.port ≡ true

-- The elements of a frame are bytes.
abbrev pub IsBytes : Frame → Type 0
IsBytes f = (i : ℕ) → byte f i < 256

pub src-IsMac : (f : Frame) → IsBytes f → IsMac (src f)
src-IsMac f h = record { b0 = h 6; b1 = h 7; b2 = h 8; b3 = h 9; b4 = h 10; b5 = h 11 }

pub dest-IsMac : (f : Frame) → IsBytes f → IsMac (dest f)
dest-IsMac f h = record { b0 = h 0; b1 = h 1; b2 = h 2; b3 = h 3; b4 = h 4; b5 = h 5 }

-- A frame is admitted to a VLAN of the port.
pub admit-member :
    (s : Switch) (port : ℕ) (f : Frame)
    → IsWired s
    → (vlan : ℕ) (tagged : Bool) → admit s port f ≡ some (vlan, tagged)
    → (in_table s vlan port ≡ true) × (vlan < 2 ^ 16)
unfolding admit tag_vlan
admit-member s port f w vlan tagged h =
    ground (arith, w.home port, bit_and_mask 12 (byte f 14 * 2 ^ 8 + byte f 15))

-- Without memory for a new address learning changes nothing, or it is as with memory.
update_cases :
    (m : Mac) (vlan p now : ℕ) (fresh : Option ℕ) (t : Table)
    → ((find_in_hash_update m vlan p now fresh t).1 ≡ t)
      ⊎ ((junk : ℕ) × (find_in_hash_update m vlan p now fresh t
            ≡ find_in_hash_update m vlan p now (some junk) t))
unfolding find_in_hash_update
update_cases m vlan p now (some junk) t = inr (junk, refl)
update_cases m vlan p now none t = elim (Option-cases (view t (extmac m vlan))) [
  | inl new ↦ inl (rw (new, find_in_hash_update) refl)
  | inr (e, old) ↦ inr (0, rw (old, find_in_hash_update) refl)
]

-- The port of a learned entry is the packet's, or was there before.
learned-port_cases :
    (m : ℤ) (now p key : ℕ) (o : Option Entry)
    → ((learned m now p key o).port ≡ p)
      ⊎ ((e : Entry) × (o ≡ some e) × ((learned m now p key o).port ≡ e.port))
learned-port_cases m now p key none = inl refl
learned-port_cases m now p key (some e) = elim (settled_cases m now p e) [
  | inl new ↦ inl new
  | inr old ↦ inr (e, refl, old)
]
  where
    settled_cases :
        (m : ℤ) (now p : ℕ) (e : Entry)
        → (settled m now p (some e) ≡ p) ⊎ (settled m now p (some e) ≡ e.port)
    settled_cases m now p e = ground arith

module _ (s : Switch) (w : IsWired s) (now : ℕ) (fresh : Option ℕ) (port vlan : ℕ) (f : Frame)
    (bytes : IsBytes f) (member : in_table s vlan port ≡ true) (small : vlan < 2 ^ 16) where
  -- Learning on a member of the VLAN keeps every address behind a member of its VLAN.
  update-behind :
      (t : Table)
      → IsHashed t
      → ((q : ℕ) (e : Entry) → view t q ≡ some e → in_table s (emac2vlan q) e.port ≡ true)
      → (junk : ℕ)
      → let t' = (find_in_hash_update (src f) vlan port now (some junk) t).1 in
        (q : ℕ) (e : Entry) → view t' q ≡ some e → in_table s (emac2vlan q) e.port ≡ true
  update-behind t h behind junk q e found =
      let key = extmac (src f) vlan in
      let l = find_in_hash_update-Learned (src f) vlan port now h junk in
      elim (Bool-cases (key == q)) [
        | inl same ↦
            let at : q ≡ key = ground arith in
            let is : e ≡ learned t.min_persistence now port key (view t key) =
              some-injective _ _ (sym found ∙ ap (view _) at ∙ l.stored) in
            let there : emac2vlan key ≡ vlan =
              emac2vlan-extmac (src f) vlan (src-IsMac f bytes) small in
            rw (at, is)
              (elim (learned-port_cases t.min_persistence now port key (view t key)) [
                | inl new ↦ rw (there, new) member
                | inr (e', old, kept) ↦ rw kept (behind key e' old)
              ])
        | inr other ↦ behind q e (sym (l.others q other) ∙ found)
      ]

  pub learn-cases :
      (learn s now fresh port vlan f ≡ s.hash)
      ⊎ ((junk : ℕ) × (learn s now fresh port vlan f
            ≡ (find_in_hash_update (src f) vlan port now (some junk) s.hash).1))
  unfolding learn
  learn-cases = elim (Bool-cases (is_broadcast (src f))) [
    | inl group ↦ inl (rw group refl)
    | inr single ↦ elim (update_cases (src f) vlan port now fresh s.hash) [
      | inl same ↦ inl (rw single same)
      | inr (junk, same) ↦ inr (junk, rw single (ap (λ r. r.1) same))
    ]
  ]

  learn-behind :
      IsHashed (learn s now fresh port vlan f)
      × ((q : ℕ) (e : Entry)
          → view (learn s now fresh port vlan f) q ≡ some e
          → in_table s (emac2vlan q) e.port ≡ true)
  learn-behind = elim learn-cases [
    | inl same ↦ rw same (w.hashed, w.behind)
    | inr (junk, same) ↦ rw same (
      (find_in_hash_update-Learned (src f) vlan port now w.hashed junk).hashed,
      update-behind s.hash w.hashed w.behind junk,
    )
  ]

  pub learn-IsWired : IsWired (record s { hash = learn s now fresh port vlan f })
  learn-IsWired = record {
    numbered = w.numbered;
    within = w.within;
    tagged = w.tagged;
    untagged = w.untagged;
    home = w.home;
    hashed = learn-behind.0;
    behind = learn-behind.1;
  }
