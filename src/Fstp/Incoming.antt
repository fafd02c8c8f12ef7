-- ===== src/Fstp/Incoming.antt =====
-- Frames that come in on the switch, and the invariant of Fstp/Guarded.
use vde.Common.{
  ℕ, ◌≡◌, refl, sym, ap, ◌∙◌, Bool, true, ◌&&◌, Option, some, ◌++◌, get_or, Bool-cases,
  Option-cases, inl, inr,
}
use mathlib.Core.Option.{some-injective, none-ne-some}
use vde.BitArray.{ba_check}
use vde.Switch.{Switch, null_vlan, vlan_at, is_hub, runs_fstp}
use vde.Switch.Frame.{Frame, is_bpdu}
use vde.Switch.Forward.{Bpdu, Handled, admit, switch_packet, route_in_packet}
use vde.Switch.Wired.{IsWired, in_table, admit-member}
use vde.Fstp.{Bridge, now}
use vde.Fstp.Receive.{handle_in_packet}
use vde.Fstp.Guarded.{IsGuarded, IsGuarded-same}
use vde.Fstp.Packet.{fst_in_bpdu-IsGuarded}

-- The VLAN tables stay, and what is handed to the protocol came in on a port of its VLAN.
record IsHandled (s : Switch) (h : Handled) : Type 0 where
  tables : h.switch.vlant ≡ s.vlant
  member : (p : Bpdu) → h.bpdu ≡ some p → in_table s p.vlan p.port ≡ true

switch_packet-IsHandled :
    (s : Switch) (t : ℕ) (fresh : Option ℕ) (port : ℕ) (f : Frame) (vlan : ℕ) (tagged : Bool)
    → in_table s vlan port ≡ true
    → IsHandled s (switch_packet s t fresh port f vlan tagged)
unfolding switch_packet
switch_packet-IsHandled s t fresh port f vlan tagged m =
    elim (Bool-cases (is_bpdu f && runs_fstp s)) [
      | inl bpdu ↦ rw bpdu (record {
        tables = refl;
        member = λ p e. ap (λ q. in_table s q.vlan q.port) (sym (some-injective _ p e)) ∙ m;
      })
      | inr frame ↦ elim (Bool-cases (ba_check (vlan_at s vlan).notlearning port)) [
        | inl shut ↦
            rw (frame, shut) (record { tables = refl; member = λ p e. absurd (none-ne-some p e) })
        | inr open_ ↦
            rw (frame, open_) (record { tables = refl; member = λ p e. absurd (none-ne-some p e) })
      ]
    ]

route_in_packet-IsHandled :
    (s : Switch) (t : ℕ) (fresh : Option ℕ) (port : ℕ) (f : Frame)
    → IsWired s
    → IsHandled s (route_in_packet s t fresh port f)
unfolding route_in_packet
route_in_packet-IsHandled s t fresh port f w = elim (Bool-cases (is_hub s)) [
  | inl hub ↦ rw hub (record { tables = refl; member = λ p e. absurd (none-ne-some p e) })
  | inr switch ↦ elim (Option-cases (admit s port f)) [
    | inl refused ↦
        rw (switch, refused, route_in_packet)
          (record { tables = refl; member = λ p e. absurd (none-ne-some p e) })
    | inr ((vlan, tagged), admitted) ↦
        rw (switch, admitted, route_in_packet)
          (switch_packet-IsHandled s t fresh port f vlan tagged
            (admit-member s port f w vlan tagged admitted).0)
  ]
]

-- A frame that comes in on a wired switch, whether it is sent on, dropped or one of the protocol, keeps
-- the invariant: a port that a tree counts as a backup, and that is no edge port, is shut.
pub handle_in_packet-IsGuarded :
    (fresh : Option ℕ) (port : ℕ) (f : Frame) (b : Bridge)
    → IsGuarded b
    → IsWired b.switch
    → IsGuarded (handle_in_packet fresh port f b)
unfolding handle_in_packet
handle_in_packet-IsGuarded fresh port f b g w =
    let h = route_in_packet b.switch (now b) fresh port f in
    let ok = route_in_packet-IsHandled b.switch (now b) fresh port f w in
    let b1 = record b { switch = h.switch; sent = b.sent ++ h.sent } in
    let g1 : IsGuarded b1 = IsGuarded-same b b1 ok.tables refl g in
    elim (Option-cases h.bpdu) [
      | inl nothing ↦ rw (nothing, handle_in_packet) g1
      | inr (p, handed) ↦
          rw (handed, handle_in_packet)
            (fst_in_bpdu-IsGuarded p.port p.frame p.vlan p.tagged b1 g1 (
              ap (λ vs. ba_check (get_or vs p.vlan null_vlan).table p.port) ok.tables
              ∙ ok.member p handed))
    ]
