-- ===== src/Switch/Confine.antt =====
-- The way of a frame through the switch, `route_in_packet`, as a whole: the invariant, and the ports that it sends to.
use vde.Common.{
  ℕ, ◌^◌, ◌<◌, ◌≡◌, ◌≢◌, ◌⊎◌, refl, sym, arith, Bool, true, false, ◌&&◌, not, Option, none, some,
  List, [], if◌then◌else◌, ◌==◌, keep, Bool-cases, Option-cases, inl, inr,
}
use mathlib.Core.Option.{none-ne-some, some-injective}
use vde.BitArray.{ba_check}
use vde.Hash.{find_in_hash, extmac, port_of, Entry}
use vde.Hash.Address.{emac2vlan-extmac}
use vde.Hash.Slots.{view}
use vde.Switch.{Switch, vlan_at, is_hub, runs_fstp}
use vde.Switch.Frame.{Frame, dest, is_broadcast, is_bpdu}
use vde.Switch.Forward.{Sent, send_port, deliver, admit, learn, switch_packet, route_in_packet}
use vde.Switch.Flood.{received}
use vde.Switch.Wired.{IsWired, IsBytes, in_table, in_bctag, admit-member, learn-IsWired, dest-IsMac}
use vde.Switch.Deliver.{known, goes_to, shape, received-deliver}

-- A frame that is switched: it is admitted to a VLAN, is not left to the spanning tree protocol, and
-- the port is not discarding.
pub record IsSwitched (s : Switch) (port : ℕ) (f : Frame) (vlan : ℕ) (tagged : Bool) : Type 0 where
  pub no_hub : is_hub s ≡ false
  pub admitted : admit s port f ≡ some (vlan, tagged)
  pub no_bpdu : (is_bpdu f && runs_fstp s) ≡ false
  pub learns : ba_check (vlan_at s vlan).notlearning port ≡ false

module _ (s : Switch) (now : ℕ) (fresh : Option ℕ) (port : ℕ) (f : Frame) where
  -- The state after learning in a VLAN.
  abbrev pub after_learning : ℕ → Switch
  after_learning vlan = record s { hash = learn s now fresh port vlan f }

  pub switched :
      (vlan : ℕ) (tagged : Bool)
      → IsSwitched s port f vlan tagged
      → route_in_packet s now fresh port f ≡ record {
        switch = after_learning vlan;
        sent = deliver (after_learning vlan) port vlan tagged f;
        bpdu = none;
      }
  unfolding route_in_packet switch_packet
  switched vlan tagged h =
      rw (h.no_hub, h.admitted, route_in_packet) (rw (h.no_bpdu, h.learns) refl)

  -- Without a hub a frame is switched, or it changes nothing and goes to no port.
  IsSwitched-or_quiet :
      is_hub s ≡ false
      → ((vlan : ℕ) × (tagged : Bool) × IsSwitched s port f vlan tagged)
        ⊎ (((route_in_packet s now fresh port f).switch ≡ s)
            × ((route_in_packet s now fresh port f).sent ≡ []))
  unfolding route_in_packet switch_packet
  IsSwitched-or_quiet no_hub = elim (Option-cases (admit s port f)) [
    | inl refused ↦ inr (rw (no_hub, refused, route_in_packet) (refl, refl))
    | inr ((vlan, tagged), admitted) ↦ elim (Bool-cases (is_bpdu f && runs_fstp s)) [
      | inl fst ↦ inr (rw (no_hub, admitted, route_in_packet) (rw fst (refl, refl)))
      | inr plain ↦ elim (Bool-cases (ba_check (vlan_at s vlan).notlearning port)) [
        | inl shut ↦ inr (rw (no_hub, admitted, route_in_packet) (rw (plain, shut) (refl, refl)))
        | inr learns ↦ inl (
          vlan,
          tagged,
          record { no_hub = no_hub; admitted = admitted; no_bpdu = plain; learns = learns },
        )
      ]
    ]
  ]

-- On a wired switch `route_in_packet` with a frame of bytes changes the address table alone, and keeps the
-- switch wired.
pub route_in_packet-IsWired :
    (s : Switch) (now : ℕ) (fresh : Option ℕ) (port : ℕ) (f : Frame)
    → IsWired s
    → IsBytes f
    → let s' = (route_in_packet s now fresh port f).switch in
      IsWired s' × (s' ≡ record s { hash = s'.hash })
unfolding route_in_packet
route_in_packet-IsWired s now fresh port f w b = elim (Bool-cases (is_hub s)) [
  | inl hub ↦ rw (hub, route_in_packet) (w, refl)
  | inr no_hub ↦ elim (IsSwitched-or_quiet s now fresh port f no_hub) [
    | inr (same, _) ↦ rw same (w, refl)
    | inl (vlan, tagged, h) ↦
        let (member, small) = admit-member s port f w vlan tagged h.admitted in
        rw (switched s now fresh port f vlan tagged h)
          (learn-IsWired s w now fresh port vlan f b member small, refl)
  ]
]

-- On a wired switch a frame of bytes that is switched in a VLAN is given to no spanning tree, and
-- reaches each port other than its own at most once: the port
-- behind which its destination is learned, else the ports that forward in the VLAN; and each takes it
-- in its own form.
pub route_in_packet-delivers :
    (s : Switch) (now : ℕ) (fresh : Option ℕ) (port : ℕ) (f : Frame) (vlan : ℕ) (tagged : Bool)
    → IsWired s
    → IsBytes f
    → IsSwitched s port f vlan tagged
    → (i : ℕ)
    → let r = route_in_packet s now fresh port f in
      (r.bpdu ≡ none)
      × (received i r.sent ≡ (
          if goes_to s vlan (known r.switch vlan f) i && not (i == port)
          then send_port s (shape s vlan tagged f i) i
          else []))
unfolding send_port
route_in_packet-delivers s now fresh port f vlan tagged w b h i =
    let (member, small) = admit-member s port f w vlan tagged h.admitted in
    let w' = learn-IsWired s w now fresh port vlan f b member small in
    rw (switched s now fresh port f vlan tagged h)
      (refl, received-deliver (after_learning s now fresh port f vlan) w' port vlan f i tagged)

port_of-some :
    (o : Option Entry) (q : ℕ) → port_of o ≡ some q → (e : Entry) × (o ≡ some e) × (e.port ≡ q)
port_of-some none q h = absurd (none-ne-some _ h)
port_of-some (some e) q h = (e, refl, some-injective _ _ h)

-- A port that a frame goes to is a member of the VLAN.
module _ (s : Switch) (vlan : ℕ) (f : Frame) (i : ℕ) (w : IsWired s) (b : IsBytes f)
    (small : vlan < 2 ^ 16) where
  flood-member : goes_to s vlan none i ≡ true → in_table s vlan i ≡ true
  flood-member h = elim (Bool-cases (in_bctag s vlan i)) [
    | inl member ↦ (w.tagged vlan i member).0
    | inr other ↦ (w.untagged vlan i (rw other at h)).0
  ]

  known-member : (q : ℕ) → known s vlan f ≡ some q → in_table s vlan q ≡ true
  unfolding find_in_hash
  known-member q h = elim (Bool-cases (is_broadcast (dest f))) [
    | inl group ↦ absurd (none-ne-some _ (rw group at h))
    | inr single ↦
        let (e, found, is) = port_of-some (view s.hash (extmac (dest f) vlan)) q (rw single at h) in
        rw (emac2vlan-extmac (dest f) vlan (dest-IsMac f b) small, is) at
          (w.behind (extmac (dest f) vlan) e found)
  ]

  goes_to-member : goes_to s vlan (known s vlan f) i ≡ true → in_table s vlan i ≡ true
  goes_to-member h = elim (Option-cases (known s vlan f)) [
    | inl unknown ↦ flood-member (rw unknown at h)
    | inr (q, is) ↦
        let hit : (q == i) ≡ true = rw is at h in
        let e : q ≡ i = ground arith in rw (sym e) (known-member q is)
  ]

both_tests :
    (a b : Bool) (xs : List Sent) → (if a && not b then xs else []) ≢ [] → (a ≡ true) × (b ≡ false)
both_tests true true xs h = absurd (h refl)
both_tests true false xs h = (refl, refl)
both_tests false b xs h = absurd (h refl)

-- Whatever the bytes of a frame, a wired switch that is no hub sends it only within a VLAN: a port that gets something
-- is a member of the VLAN that the frame was admitted to on its own port, a member too, and is not
-- that port.
pub route_in_packet-confined :
    (s : Switch) (now : ℕ) (fresh : Option ℕ) (port : ℕ) (f : Frame)
    → IsWired s
    → IsBytes f
    → is_hub s ≡ false
    → (i : ℕ) → received i (route_in_packet s now fresh port f).sent ≢ []
    → (vlan : ℕ) × (tagged : Bool) × (admit s port f ≡ some (vlan, tagged))
      × (in_table s vlan port ≡ true)
      × (in_table s vlan i ≡ true)
      × ((i == port) ≡ false)
unfolding keep
route_in_packet-confined s now fresh port f w b no_hub i gets =
    elim (IsSwitched-or_quiet s now fresh port f no_hub) [
      | inr (_, quiet) ↦ absurd (gets (rw quiet refl))
      | inl (vlan, tagged, h) ↦
          let (member, small) = admit-member s port f w vlan tagged h.admitted in
          let w' = learn-IsWired s w now fresh port vlan f b member small in
          let s' = after_learning s now fresh port f vlan in
          let got =
            rw
              (
                switched s now fresh port f vlan tagged h,
                received-deliver s' w' port vlan f i tagged,
              )
              at gets in
          let (there, away) = both_tests _ _ _ got in
          (vlan, tagged, h.admitted, member, goes_to-member s' vlan f i w' b small there, away)
    ]
