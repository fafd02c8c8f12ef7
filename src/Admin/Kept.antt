-- ===== src/Admin/Kept.antt =====
-- The ports and their number, which the protocol leaves alone.
use vde.Common.{
  ℕ, ◌≡◌, refl, ap, ◌∙◌, Bool, true, false, List, ◌==◌, Bool-cases, Option-cases, inl, inr,
}
use vde.BitArray.{ba_forall, bac_forall}
use vde.Switch.{Switch, PortStatus, novlan, port_set_status}
use vde.Switch.Wired.{in_table}
use vde.Fstp.{Bridge, numofvlan, fsttab_at, vlst_at, change_vlst, set_status, for_each}
use vde.Fstp.Vlans.{own_root, reopen, start_vlan, fstnewvlan, renew_vlan}
use vde.Fstp.Send.{is_designated, tell_change, fst_sendbpdu, topology_change}
use vde.Fstp.Protocol.{join, fstaddport, leave, fstdelport}
use vde.Fstp.Blocked.{IsQuiet, fst_sendbpdu-IsQuiet, for_each-keeps}
use vde.Admin.Endpoints.{activate, activate_port, deactivate}

-- The ports are those of a switch, or were at some point.
pub record SamePorts (s : Switch) (b : Bridge) : Type 0 where
  pub portv : b.switch.portv ≡ s.portv
  pub numports : b.switch.numports ≡ s.numports

set_status-SamePorts :
    (s : Switch) (i vlan : ℕ) (st : PortStatus) (b : Bridge)
    → SamePorts s b
    → SamePorts s (set_status i vlan st b)
unfolding port_set_status
set_status-SamePorts s i vlan st b h = elim (Bool-cases (in_table b.switch vlan i)) [
  | inl member ↦ rw member (record { portv = h.portv; numports = h.numports })
  | inr out ↦ rw out h
]

quiet-SamePorts : (s : Switch) (b c : Bridge) → IsQuiet b c → SamePorts s b → SamePorts s c
quiet-SamePorts s b c q h = record {
  portv = ap (λ t. t.portv) q.switch ∙ h.portv;
  numports = ap (λ t. t.numports) q.switch ∙ h.numports;
}

reopen-SamePorts :
    (s : Switch) (vlan i : ℕ) (b : Bridge) → SamePorts s b → SamePorts s (reopen vlan i b)
reopen-SamePorts s vlan i b h =
    set_status-SamePorts s i vlan _ _ (record { portv = h.portv; numports = h.numports })

topology_change-SamePorts :
    (s : Switch) (vlan genport : ℕ) (b : Bridge)
    → SamePorts s b
    → SamePorts s (topology_change vlan genport b)
unfolding topology_change
topology_change-SamePorts s vlan genport b h =
    for_each-keeps (SamePorts s) (tell_change vlan genport) tell _ _ (
      for_each-keeps (SamePorts s) (tell_change vlan genport) tell _ _
        (record { portv = h.portv; numports = h.numports }))
  where
    tell : (i : ℕ) (c : Bridge) → SamePorts s c → SamePorts s (tell_change vlan genport i c)
    tell i c k = elim (Bool-cases (is_designated (vlst_at c vlan) genport i)) [
      | inr not_ ↦ rw not_ k
      | inl told ↦
          rw told (quiet-SamePorts s c _ (fst_sendbpdu-IsQuiet vlan i false true false c) k)
    ]

renew_vlan-SamePorts :
    (s : Switch) (vlan : ℕ) (b : Bridge) → SamePorts s b → SamePorts s (renew_vlan vlan b)
unfolding fstnewvlan start_vlan
renew_vlan-SamePorts s vlan b h = elim (Option-cases (fsttab_at b vlan)) [
  | inl gone ↦ rw (renew_vlan, gone) h
  | inr (v, there) ↦
      rw (renew_vlan, there) (started (ba_forall (vlst_at b1 vlan).backup b1.numports))
]
  where
    b1 : Bridge
    b1 = change_vlst vlan (own_root b.myid false) b

    started :
        (is : List ℕ)
        → SamePorts s (for_each is (reopen vlan) (change_vlst vlan (own_root b.myid false) b))
    started is =
        for_each-keeps (SamePorts s) (reopen vlan) (reopen-SamePorts s vlan) is _
          (record { portv = h.portv; numports = h.numports })

fstaddport-SamePorts :
    (s : Switch) (vlan port : ℕ) (tagged : Bool) (b : Bridge)
    → SamePorts s b
    → SamePorts s (fstaddport vlan port tagged b)
unfolding fstaddport
fstaddport-SamePorts s vlan port tagged b h =
    let b1 = change_vlst vlan (join tagged port) b in
    topology_change-SamePorts s vlan port (fst_sendbpdu vlan port false false false b1) (
      quiet-SamePorts s b1 _ (fst_sendbpdu-IsQuiet vlan port false false false b1)
        (record { portv = h.portv; numports = h.numports }))

fstdelport-SamePorts :
    (s : Switch) (vlan port : ℕ) (b : Bridge) → SamePorts s b → SamePorts s (fstdelport vlan port b)
unfolding fstdelport
fstdelport-SamePorts s vlan port b h =
    let b1 = change_vlst vlan (leave port) b in
    let h1 : SamePorts s b1 = record { portv = h.portv; numports = h.numports } in
    elim (Bool-cases (port == (vlst_at b1 vlan).rootport)) [
      | inr other ↦ rw other (topology_change-SamePorts s vlan port b1 h1)
      | inl root ↦ rw root (
          topology_change-SamePorts s vlan port (renew_vlan vlan b1)
            (renew_vlan-SamePorts s vlan b1 h1))
    ]

pub activate_port-SamePorts :
    (port vlanuntag : ℕ) (b : Bridge) → SamePorts b.switch (activate_port port vlanuntag b)
unfolding activate_port
activate_port-SamePorts port vlanuntag b = elim (Bool-cases (vlanuntag == novlan)) [
  | inl tagged_only ↦ rw tagged_only looped
  | inr home ↦ rw home (record { portv = looped.portv; numports = looped.numports })
]
  where
    step :
        (vlan : ℕ) (c : Bridge)
        → SamePorts b.switch c
        → SamePorts b.switch (activate port vlanuntag vlan c)
    step vlan c h = elim (Bool-cases (in_table c.switch vlan port)) [
      | inr out ↦ rw out h
      | inl member ↦ rw member (
          fstaddport-SamePorts b.switch vlan port _ _
            (record { portv = h.portv; numports = h.numports }))
    ]

    looped :
        SamePorts b.switch
          (for_each (bac_forall b.switch.validvlan numofvlan) (activate port vlanuntag) b)
    looped =
        for_each-keeps (SamePorts b.switch) (activate port vlanuntag) step
          (bac_forall b.switch.validvlan numofvlan) b (record { portv = refl; numports = refl })

pub deactivate-SamePorts :
    (port : ℕ) (is : List ℕ) (b : Bridge) → SamePorts b.switch (for_each is (deactivate port) b)
deactivate-SamePorts port is b =
    for_each-keeps (SamePorts b.switch) (deactivate port)
      (λ vlan c h.
        fstdelport-SamePorts b.switch vlan port _
          (record { portv = h.portv; numports = h.numports }))
      is b (record { portv = refl; numports = refl })
