-- ===== src/Fstp/Layout.antt =====
-- What the packets of the protocol say: the root, its cost and its age, and the flags.
use vde.Common.{
  ℕ, ◌+◌, ◌-◌, ◌*◌, ◌%◌, ◌/◌, ◌^◌, ◌<◌, ◌≤◌, ◌≡◌, refl, sym, ap, ◌∙◌, arith, Bool, true, false,
  ◌&&◌, not, bit_and, [], ◌∷◌, ◌++◌, if◌then◌else◌, ◌==◌, ltb, ltb→lt, Bool-cases, inl, inr,
}
use vde.BitArray.{ba_check}
use vde.Switch.{PortStatus, discarding, learning, forwarding, runs_fstp}
use vde.Switch.Forward.{send_port}
use vde.Fstp.{Vlst, FstBpdu, Bridge, vlst_at, ltonstring, nstringtol, now}
use vde.Fstp.Packets.{bpdu_frame, tag_bpdu_frame, stp_flags_of, age_of, with_root, addressed}
use vde.Fstp.Send.{fst_sendbpdu, send_untagged, send_tagged, port_send_packet}

-- A test that holds of both Booleans.
either_way : (Bool → Bool) → Bool
either_way p = p true && p false

either_way-at : (p : Bool → Bool) (b : Bool) → either_way p ≡ true → p b ≡ true
unfolding either_way
either_way-at p true h = ground arith
either_way-at p false h = ground arith

agree : Bool → Bool → Bool
agree true b = b
agree false b = not b

agree-same : (a b : Bool) → agree a b ≡ true → a ≡ b
unfolding agree
agree-same true b h = sym h
agree-same false true h = absurd (ground arith)
agree-same false false h = refl

-- What the receiver tests in the flags.
reads : Bool → Bool → PortStatus → Bool → Bool → Bool → Bool
reads backup is_root st agr tc tcack =
    let flags = stp_flags_of backup is_root st agr tc tcack in
    ltb flags 256
    && agree (bit_and flags 1 == 1) tc
    && agree (bit_and flags 0x0c == 0x04) (not backup && is_root)

all_reads : PortStatus → Bool
unfolding reads either_way
all_reads st = either_way (λ a.
    either_way (λ b. either_way (λ c. either_way (λ d. either_way (λ e. reads a b st c d e)))))

all_reads-hold : (st : PortStatus) → all_reads st ≡ true
unfolding all_reads reads either_way agree stp_flags_of
all_reads-hold discarding = refl
all_reads-hold learning = refl
all_reads-hold forwarding = refl

both : (a b : Bool) → (a && b) ≡ true → (a ≡ true) × (b ≡ true)
both true b h = (refl, h)
both false b h = absurd (ground arith)

-- The flags fit in a byte. The receiver's test of STP_TC finds the topology change that the sender
-- flagged, and its test of the port's role finds STP_ROOT just for the root port that is no backup.
stp_flags_of_read :
    (backup is_root : Bool) (st : PortStatus) (agr tc tcack : Bool)
    → let flags = stp_flags_of backup is_root st agr tc tcack in
      (flags < 256)
      × ((bit_and flags 1 == 1) ≡ tc)
      × ((bit_and flags 0x0c == 0x04) ≡ (not backup && is_root))
unfolding all_reads reads
stp_flags_of_read backup is_root st agr tc tcack =
    let p5 : Bool → Bool → Bool → Bool → Bool → Bool = λ a b c d e. reads a b st c d e in
    let p4 : Bool → Bool → Bool → Bool → Bool = λ a b c d. either_way (p5 a b c d) in
    let p3 : Bool → Bool → Bool → Bool = λ a b c. either_way (p4 a b c) in
    let p2 : Bool → Bool → Bool = λ a b. either_way (p3 a b) in
    let h1 = either_way-at (λ a. either_way (p2 a)) backup (all_reads-hold st) in
    let h2 = either_way-at (p2 backup) is_root h1 in
    let h3 = either_way-at (p3 backup is_root) agr h2 in
    let h4 = either_way-at (p4 backup is_root agr) tc h3 in
    let h5 = either_way-at (p5 backup is_root agr tc) tcack h4 in
    let (rest, role) = both _ _ h5 in
    let (small, change) = both _ _ rest in
    (ltb→lt _ _ small, agree-same _ _ change, agree-same _ _ role)

age_of-elapsed :
    (t heard : ℕ)
    → heard ≤ t
    → t < 2 ^ 31
    → age_of t heard ≡ (if ltb 0xffff (t - heard) then 0xffff else t - heard)
unfolding age_of
age_of-elapsed t heard le lt =
    let e : (t + 2 ^ 32 - heard % 2 ^ 32) % 2 ^ 32 ≡ t - heard = omega arith in rw e (ground arith)

-- For how long the root of a tree has not been heard: not at all where this switch is the root, and
-- 65535 seconds where it is longer.
abbrev pub silence : Vlst → ℕ → ℕ
silence v t =
    if v.rootport == 0
    then 0
    else if ltb 0xffff (t - v.roottimestamp)
    then 0xffff
    else t - v.roottimestamp

-- A packet tells the root of a tree, the cost of the way to it, and its age at a time, in two bytes of
-- which the first is the lower.
pub record TellsRoot (v : Vlst) (t : ℕ) (p : FstBpdu) : Type 0 where
  pub root : p.stp_root ≡ v.root
  pub cost : p.stp_rootcost ≡ v.rootcost
  pub age :
      (low high : ℕ) × (p.stp_age ≡ low ∷ high ∷ [])
      × (low < 256)
      × (high < 256)
      × (low + 256 * high ≡ silence v t)

silence-age :
    (v : Vlst) (t : ℕ)
    → v.roottimestamp ≤ t
    → t < 2 ^ 31
    → ((v.rootport == 0) ≡ true → v.roottimestamp ≡ 0)
    → age_of (if v.rootport == 0 then 0 else t) v.roottimestamp ≡ silence v t
silence-age v t le small own = elim (Bool-cases (v.rootport == 0)) [
  | inl here ↦ rw here (ap (age_of 0) (own here) ∙ age_of-elapsed 0 0 (omega arith) (omega arith))
  | inr away ↦ rw away (age_of-elapsed t v.roottimestamp le small)
]

silence-small : (v : Vlst) (t : ℕ) → silence v t ≤ 0xffff
silence-small v t = ground arith

abbrev When : Bool → Type 0 → Type 0
When true A = A
When false A = Unit

module _ (vlan port : ℕ) (agr tc tcack : Bool) (b : Bridge) where
  abbrev tree : Vlst
  tree = vlst_at b vlan

  with_root-TellsRoot :
      (p : FstBpdu)
      → tree.roottimestamp ≤ now b
      → now b < 2 ^ 31
      → ((tree.rootport == 0) ≡ true → tree.roottimestamp ≡ 0)
      → TellsRoot tree (now b) (with_root b vlan p)
  unfolding with_root
  with_root-TellsRoot p le small own =
      let e = silence-age tree (now b) le small own in
      let s = silence-small tree (now b) in
      record {
        root = refl;
        cost = refl;
        age = (
          silence tree (now b) % 256,
          silence tree (now b) / 2 ^ 8 % 256,
          ap (λ a. (a % 256) ∷ (a / 2 ^ 8 % 256) ∷ []) e,
          omega arith,
          omega arith,
          omega (arith, s),
        );
      }

  addressed-TellsRoot :
      (c : Bridge) (p : FstBpdu)
      → TellsRoot tree (now b) p
      → TellsRoot tree (now b) (addressed c vlan port agr tc tcack p)
  unfolding addressed
  addressed-TellsRoot c p h = record { root = h.root; cost = h.cost; age = h.age }

  -- Where the protocol runs, a call of `fst_sendbpdu` sends the untagged packet, if the port is in the
  -- tree without a tag, and then the tagged one, if it is in it with a tag. What is sent tells the tree's
  -- root, its cost and its age: 0 where this switch is the root, else the seconds since the root was
  -- heard, at most 65535. This holds for times below 2^31 that do not run back, and a tree of
  -- which this switch is the root has the time 0.
  pub fst_sendbpdu-TellsRoot :
      runs_fstp b.switch ≡ true
      → tree.roottimestamp ≤ now b
      → now b < 2 ^ 31
      → ((tree.rootport == 0) ≡ true → tree.roottimestamp ≡ 0)
      → let c = fst_sendbpdu vlan port agr tc tcack b in
        let first =
          if ba_check tree.untag port
          then b.sent ++ send_port b.switch (bpdu_frame c.outpacket) port
          else b.sent in
        (c.sent ≡ (
          if ba_check tree.tagged port
          then first ++ send_port b.switch (tag_bpdu_frame c.outtagpacket) port
          else first))
        × When (ba_check tree.untag port) (TellsRoot tree (now b) c.outpacket)
        × When (ba_check tree.tagged port) (TellsRoot tree (now b) c.outtagpacket.body)
  unfolding fst_sendbpdu send_untagged send_tagged port_send_packet with_root
  fst_sendbpdu-TellsRoot on le small own =
      let u = with_root-TellsRoot b.outpacket le small own in
      let t = with_root-TellsRoot b.outtagpacket.body le small own in
      elim (Bool-cases (ba_check tree.untag port)) [
        | inl untag ↦ elim (Bool-cases (ba_check tree.tagged port)) [
          | inl tag ↦
              rw (on, untag, tag) (refl, addressed-TellsRoot _ _ u, addressed-TellsRoot _ _ t)
          | inr out ↦ rw (on, untag, out) (refl, addressed-TellsRoot _ _ u, tt)
        ]
        | inr out ↦ elim (Bool-cases (ba_check tree.tagged port)) [
          | inl tag ↦ rw (on, out, tag) (refl, tt, addressed-TellsRoot _ _ t)
          | inr out' ↦ rw (on, out, out') (refl, tt, tt)
        ]
      ]

-- A number written as four bytes is read modulo 2^32.
nstringtol-ltonstring : (l : ℕ) → nstringtol (ltonstring l) ≡ l % 2 ^ 32
unfolding nstringtol ltonstring
nstringtol-ltonstring l = omega arith
