-- ===== src/Fstp/Send.antt =====
-- Sending packets of the protocol: `fst_sendbpdu` and `topology_change`.
use vde.Common.{ℕ, Bool, true, false, ◌&&◌, not, ◌++◌, if◌then◌else◌, ◌==◌}
use vde.BitArray.{ba_check, ba_forall}
use vde.Hash.{hash_delete_vlan}
use vde.Switch.{runs_fstp}
use vde.Switch.Frame.{Frame}
use vde.Switch.Forward.{send_port}
use vde.Fstp.{Vlst, Bridge, vlst_at, change_vlst, is_active, for_each, now}
use vde.Fstp.Packets.{bpdu_frame, tag_bpdu_frame, with_root, addressed, tag_of}

unfoldable pub port_send_packet : ℕ → Frame → Bridge → Bridge
port_send_packet port f b = record b { sent = b.sent ++ send_port b.switch f port }

-- The writes to `outpacket` for a port, and the call that sends it.
unfoldable pub send_untagged : ℕ → ℕ → Bool → Bool → Bool → Bridge → Bridge
unfolding port_send_packet
send_untagged vlan port agr tc tcack b =
    let p = addressed b vlan port agr tc tcack b.outpacket in
    port_send_packet port (bpdu_frame p) (record b { outpacket = p })

-- The same for `outtagpacket`.
unfoldable pub send_tagged : ℕ → ℕ → Bool → Bool → Bool → Bridge → Bridge
unfolding port_send_packet
send_tagged vlan port agr tc tcack b =
    let t = record b.outtagpacket {
      tag_vlan_bytes = tag_of vlan;
      body = addressed b vlan port agr tc tcack b.outtagpacket.body;
    } in
    port_send_packet port (tag_bpdu_frame t) (record b { outtagpacket = t })

-- The writes of the root, its cost and age to the two packets.
abbrev pub root_outpacket : ℕ → Bridge → Bridge
root_outpacket vlan b = record b { outpacket = with_root b vlan b.outpacket }

abbrev pub root_outtagpacket : ℕ → Bridge → Bridge
root_outtagpacket vlan b = record b {
  outtagpacket = record b.outtagpacket { body = with_root b vlan b.outtagpacket.body };
}

unfoldable pub fst_sendbpdu : ℕ → ℕ → Bool → Bool → Bool → Bridge → Bridge
unfolding send_untagged send_tagged
fst_sendbpdu vlan port agr tc tcack b =
    let v = vlst_at b vlan in
    if not (runs_fstp b.switch)
    then b
    else let b1 =
        if ba_check v.untag port
        then send_untagged vlan port agr tc tcack (root_outpacket vlan b)
        else b in
      if ba_check v.tagged port
      then send_tagged vlan port agr tc tcack (root_outtagpacket vlan b1)
      else b1

-- port != genport && !backup && !edge && FSTP_ACTIVE(vlan,port)
abbrev pub is_designated : Vlst → ℕ → ℕ → Bool
is_designated v genport port =
    not (port == genport)
    && not (ba_check v.backup port)
    && not (ba_check v.edge port)
    && is_active v port

-- The body of the loops of `topology_change`.
abbrev pub tell_change : ℕ → ℕ → ℕ → Bridge → Bridge
tell_change vlan genport port b =
    if is_designated (vlst_at b vlan) genport port
    then fst_sendbpdu vlan port false true false b
    else b

unfoldable pub topology_change : ℕ → ℕ → Bridge → Bridge
topology_change vlan genport b =
    let b1 = change_vlst vlan (λ v. record v { tctime = now b }) b in
    let b2 = record b1 {
      switch = record b1.switch { hash = hash_delete_vlan vlan b1.switch.hash };
    } in
    let b3 =
      for_each (ba_forall (vlst_at b2 vlan).untag b2.numports) (tell_change vlan genport) b2 in
    for_each (ba_forall (vlst_at b3 vlan).tagged b3.numports) (tell_change vlan genport) b3
