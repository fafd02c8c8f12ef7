-- ===== src/Lib.antt =====
-- VDE 2, virtual distributed Ethernet: a model of the core of its switch, vde-2/src/vde_switch,
-- and of the encoding of packets in names of vde-2/src/vde_over_ns.
--
-- vde_switch connects endpoints (virtual machines, tap devices, other switches) to numbered ports. A
-- frame that comes in on a port is handled by `handle_in_packet` of port.c, which chooses its VLAN,
-- learns its source address in the table of hash.c, and sends it on: to one port if the table knows
-- the destination, else to all ports that forward in the VLAN. The sets of ports are the bit arrays of
-- bitarray.h. The table forgets old entries in a callback that the timers of qtimer.c run once in two
-- seconds.
--
-- Files:
--   Common      Booleans, arrays as lists, bits of words, signed integers
--   BitArray    vde-2/src/vde_switch/bitarray.h: `ba_alloc`, `ba_check`, `ba_set`, `ba_clr`, `ba_realloc`,
--               the loops `ba_FORALL` (`ba_forall`) and the `bac_` sets that carry their cardinality
--   Timer       vde-2/src/vde_switch/qtimer.c: `qtimer_add`, `qtimer_del`, and the handler `sig_alarm`, of
--               which `turn` is one round of the loop
--   Hash        vde-2/src/vde_switch/hash.c: `find_in_hash`, `find_in_hash_update`, the deletions, which are
--               calls of `for_all_hash`, `hash_gc`, `hash_resize`, `hash_init`, `hash_set_gc_interval`
--   Switch      vde-2/src/vde_switch/port.c: the ports and VLANs, `alloc_port`, `port_set_status`, and in
--               Switch/Frame and Switch/Forward the frames and `handle_in_packet` up to its call of
--               `fst_in_bpdu` (`route_in_packet`), with the macros `TAG2UNTAG`, `UNTAG2TAG` and
--               `SEND_PACKET_PORT`
--   Fstp        vde-2/src/vde_switch/fstp.c: the trees of the VLANs (`Vlst`), the packets as they are laid out
--               (Fstp/Packets), `fstnewvlan`, `fst_sendbpdu`, `topology_change`, `fastprotocol`,
--               `fst_in_bpdu`, `fst_hello`, the commands, and in Fstp/Receive the whole of
--               `handle_in_packet`, which calls the protocol
--   Admin       vde-2/src/vde_switch/port.c: the endpoints (`setup_ep`, `close_ep`) and the commands that
--               create, change and remove ports and VLANs, on the state of both files
--   Pending     vde-2/src/vde_switch/packetq.c, the queues of unsent packets of a switch built with VDE_PQ2:
--               `vdepq_add`, `vdepq_del`, `vdepq_try`, of which `drop_first` is what a round removes
--   Encode      vde-2/src/vde_over_ns/encode.c: `nstx_encode` and `nstx_decode`, which carry packets in the
--               names of DNS queries
--   Tests       runs of all these at concrete inputs
--
-- State is passed and returned: `Timers`, `Table` and `Switch` hold the static variables of the three
-- files, and `Bridge` all of these with those of fstp.c. The calls that leave the switch are values: a
-- call of a port's `sender` is a `Sent`, a timer's callback a `Call`, and the call of `fst_in_bpdu` that
-- `route_in_packet` comes to a `Bpdu`. What memory allocation gives is an argument, and so is what `sscanf` and
-- the user database say.
--
-- Numbers are natural numbers. Words of bit arrays have 64 bits, `calc_hash` works modulo 2^64, and the
-- counters of timers modulo 2^32; times and the numbers of timers do not wrap. Loops over arrays are
-- recursion on the number of rounds that are left. The loop of `po2round` has 32 rounds of fuel, enough
-- for an `int`, and the loops of encode.c have as many as the length of what they read, enough for a
-- step of 3 or 4. The loops over a queue of packets need one
-- round for each of its elements.
--
-- Not modelled: the calls of packetq.c from port.c and building with DEBUGOPT and PORTCOUNTERS; log lines,
-- the descriptions of endpoints and the commands that print; SIGALRM against the main program, which
-- blocks the signal around each change of the table; that the program ends when the resizing of the
-- tables finds no memory; the other programs of the repository.
pub mod Common
pub mod BitArray
pub mod Timer
pub mod Hash
pub mod Encode
pub mod Pending
pub mod Fstp
pub mod Admin
pub mod Switch
pub mod Tests
