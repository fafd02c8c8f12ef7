-- ===== src/Fstp/Packets.antt =====
-- The layout of the packets of fstp.c, which the source reads and writes as packed structures.
use vde.Common.{
  ℕ, ◌+◌, ◌-◌, ◌*◌, ◌/◌, ◌%◌, ◌^◌, bit_and, bit_or, Bool, true, false, not, List, [], ◌∷◌, ◌++◌,
  if◌then◌else◌, ◌==◌, ltb, ◌&&◌, get_or, take, drop,
}
use vde.BitArray.{ba_check}
use vde.Switch.{PortStatus, discarding, learning, forwarding, port_get_status}
use vde.Switch.Frame.{Frame}
use vde.Fstp.{FstBpdu, FstTagBpdu, Bridge, vlst_at, now}

-- The initial values of `outpacket` and `outtagpacket`.
abbrev bpduaddr : List ℕ
bpduaddr = 0x01 ∷ 0x80 ∷ 0xc2 ∷ 0x00 ∷ 0x00 ∷ 0x00 ∷ []

abbrev zeros_2 : List ℕ
zeros_2 = 0 ∷ 0 ∷ []

abbrev zeros_4 : List ℕ
zeros_4 = 0 ∷ 0 ∷ 0 ∷ 0 ∷ []

abbrev zeros_8 : List ℕ
zeros_8 = zeros_4 ++ zeros_4

abbrev pub initial_outpacket : FstBpdu
initial_outpacket = record {
  dest = bpduaddr;
  src = 0 ∷ 0 ∷ zeros_4;
  proto = 0x00 ∷ 0x27 ∷ [];
  llc = 0x42 ∷ 0x42 ∷ 0x3 ∷ [];
  stp_protocol = zeros_2;
  stp_version = 2;
  stp_type = 2;
  stp_flags = 0;
  stp_root = zeros_8;
  stp_rootcost = zeros_4;
  stp_bridge = zeros_8;
  stp_port = zeros_2;
  stp_age = zeros_2;
  stp_maxage = zeros_2;
  stp_hello = zeros_2;
  stp_fwddelay = zeros_2;
  stp_v1len = 0;
}

abbrev pub initial_outtagpacket : FstTagBpdu
initial_outtagpacket = record {
  tag_vlan_bytes = zeros_2;
  tag_proto = 0x00 ∷ 0x27 ∷ [];
  body = record initial_outpacket { proto = 0x81 ∷ 0x00 ∷ [] };
}

-- The source sends and reads its packed structures where they lie in memory. The four functions that
-- follow are what this does in C: a field of `struct fstbpdu` has the offset that the sizes of the fields
-- before it add up to.

-- The fields behind the header, in order.
unfoldable pub stp_bytes : FstBpdu → List ℕ
stp_bytes p =
    p.llc
    ++ (p.stp_protocol
        ++ ((p.stp_version ∷ p.stp_type ∷ p.stp_flags ∷ [])
            ++ (p.stp_root
                ++ (p.stp_rootcost
                    ++ (p.stp_bridge
                        ++ (p.stp_port
                            ++ (p.stp_age
                                ++ (p.stp_maxage
                                    ++ (p.stp_hello
                                        ++ (p.stp_fwddelay ++ (p.stp_v1len ∷ [])))))))))))

-- `&outpacket` with its size, and `&outtagpacket` with its own.
unfoldable pub bpdu_frame : FstBpdu → Frame
bpdu_frame p = record { bytes = p.dest ++ (p.src ++ (p.proto ++ stp_bytes p)); len = 53 }

unfoldable pub tag_bpdu_frame : FstTagBpdu → Frame
tag_bpdu_frame t =
    let p = t.body in
    record {
      bytes = p.dest ++ (p.src ++ (p.proto ++ (t.tag_vlan_bytes ++ (t.tag_proto ++ stp_bytes p))));
      len = 57;
    }

-- `n` bytes from byte `i` on.
abbrev pub field : List ℕ → ℕ → ℕ → List ℕ
field xs i n = take n (drop i xs)

-- The bytes read as a `struct fstbpdu`.
unfoldable pub read_bpdu : List ℕ → FstBpdu
read_bpdu xs = record {
  dest = field xs 0 6;
  src = field xs 6 6;
  proto = field xs 12 2;
  llc = field xs 14 3;
  stp_protocol = field xs 17 2;
  stp_version = get_or xs 19 0;
  stp_type = get_or xs 20 0;
  stp_flags = get_or xs 21 0;
  stp_root = field xs 22 8;
  stp_rootcost = field xs 30 4;
  stp_bridge = field xs 34 8;
  stp_port = field xs 42 2;
  stp_age = field xs 44 2;
  stp_maxage = field xs 46 2;
  stp_hello = field xs 48 2;
  stp_fwddelay = field xs 50 2;
  stp_v1len = get_or xs 52 0;
}

-- `DISCARDING`, `LEARNING` and `FORWARDING`.
abbrev status_code : PortStatus → ℕ
status_code discarding = 0
status_code learning = 1
status_code forwarding = 3

abbrev bool_bit : Bool → ℕ
bool_bit true = 1
bool_bit false = 0

-- `STP_FLAGS`, from what it reads: whether the port is a backup, whether it is the root port, its
-- state, and the last three arguments.
unfoldable pub stp_flags_of : Bool → Bool → PortStatus → Bool → Bool → Bool → ℕ
stp_flags_of backup is_root status agr tc tcack = bit_or (bool_bit tc) (
    bit_or (bool_bit backup * 2 ^ 1) (
      bit_or (bool_bit (not backup) * 2 ^ 2) (
        bit_or (bool_bit (not is_root) * 2 ^ 3) (
          bit_or (status_code status * 2 ^ 4)
            (bit_or (bool_bit agr * 2 ^ 6) (bool_bit tcack * 2 ^ 7))))))

unfoldable flags_at : Bridge → ℕ → ℕ → Bool → Bool → Bool → ℕ
flags_at b vlan port agr tc tcack =
    let v = vlst_at b vlan in
    stp_flags_of (ba_check v.backup port) (v.rootport == port) (port_get_status port vlan b.switch)
      agr tc tcack

-- `age=nowvlan-roottimestamp; if (age > 0xffff) age=0xffff;` on an `int` of 32 bits, which is not
-- cut when it is negative.
unfoldable pub age_of : ℕ → ℕ → ℕ
age_of nowvlan roottimestamp =
    let age = (nowvlan + 2 ^ 32 - roottimestamp % 2 ^ 32) % 2 ^ 32 in
    if ltb 0xffff age && ltb age (2 ^ 31) then 0xffff else age

-- A packet with the root, its cost and the age of the VLAN's tree.
unfoldable pub with_root : Bridge → ℕ → FstBpdu → FstBpdu
with_root b vlan p =
    let v = vlst_at b vlan in
    let age = age_of (if v.rootport == 0 then 0 else now b) v.roottimestamp in
    record p {
      stp_root = v.root;
      stp_rootcost = v.rootcost;
      stp_age = (age % 256) ∷ (age / 2 ^ 8 % 256) ∷ [];
      stp_fwddelay = zeros_2;
    }

-- A packet with its port and flags.
unfoldable pub addressed : Bridge → ℕ → ℕ → Bool → Bool → Bool → FstBpdu → FstBpdu
unfolding flags_at
addressed b vlan port agr tc tcack p = record p {
  stp_port = (bit_or 0x80 (port / 2 ^ 4) % 256) ∷ (port % 256) ∷ [];
  stp_flags = flags_at b vlan port agr tc tcack;
}

-- The VLAN of a tagged packet.
abbrev pub tag_of : ℕ → List ℕ
tag_of vlan = bit_and (vlan / 2 ^ 8) 0xf ∷ (vlan % 256) ∷ []
