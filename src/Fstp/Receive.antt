-- ===== src/Fstp/Receive.antt =====
-- `handle_in_packet` of port.c with its call of `fst_in_bpdu`.
use vde.Common.{ℕ, Option, none, some, ◌++◌}
use vde.Switch.Frame.{Frame}
use vde.Switch.Forward.{route_in_packet}
use vde.Fstp.{Bridge, now}
use vde.Fstp.Protocol.{fst_in_bpdu}

-- What goes to the protocol changes nothing before that and sends nothing, so `fst_in_bpdu` is called on
-- the state as it was.
unfoldable pub handle_in_packet : Option ℕ → ℕ → Frame → Bridge → Bridge
unfolding route_in_packet fst_in_bpdu
handle_in_packet fresh port f b =
    let h = route_in_packet b.switch (now b) fresh port f in
    let b1 = record b { switch = h.switch; sent = b.sent ++ h.sent } in
    elim h.bpdu [ none ↦ b1 | some p ↦ fst_in_bpdu p.port p.frame p.vlan p.tagged b1 ]
