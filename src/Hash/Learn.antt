-- ===== src/Hash/Learn.antt =====
-- Learning: `find_in_hash_update` and `find_in_hash` on the abstract map.
use vde.Common.{
  ℕ, ◌^◌, ◌≤◌, ◌<◌, ◌≡◌, refl, ap, ◌∙◌, arith, true, false, Option, none, some, List, ◌∷◌,
  if◌then◌else◌, ◌==◌, Bool-cases, Option-cases, inl, inr, ==-refl, ==-false,
}
use vde.Common.Int.{ℤ, ltb_ℤ, sub_ℕ}
use vde.Hash.{
  Mac, Entry, Table, calc_hash, extmac, chain_find, chain_write, chain_at, port_of, find_in_hash,
  find_in_hash_update, see,
}
use vde.Hash.Chain.{
  chain_count, chain_find-dst, chain_find-write, chain_count-write, chain_count-absent,
}
use vde.Hash.Address.{IsMac, extmac-injective}
use vde.Hash.Slots.{IsHashed, view, with_chain, calc_hash-lt, with_chain-IsHashed, view-with_chain}

see-dst : (m : ℤ) (now p : ℕ) (e : Entry) → (see m now p e).dst ≡ e.dst
unfolding see
see-dst m now p e = ground arith

-- The port that an address is found behind, once a packet from it has come in on port `p`: the new
-- port, unless the address was seen on another one within the persistence time.
abbrev pub settled : ℤ → ℕ → ℕ → Option Entry → ℕ
settled m now p none = p
settled m now p (some e) =
    if e.port == p then p else if ltb_ℤ m (sub_ℕ now e.last_seen) then p else e.port

-- The time an address counts as seen: now, unless the packet came in on a port that is not taken.
abbrev seen_at : ℤ → ℕ → ℕ → Option Entry → ℕ
seen_at m now p none = now
seen_at m now p (some e) = if settled m now p (some e) == p then now else e.last_seen

-- The entry of the address from then on.
abbrev pub learned : ℤ → ℕ → ℕ → ℕ → Option Entry → Entry
learned m now p key o = record {
  last_seen = seen_at m now p o;
  port = settled m now p o;
  dst = key;
}

-- What the end of `find_in_hash_update` makes of an entry of the address.
see-learned :
    (m : ℤ) (now p key : ℕ) (e : Entry) → e.dst ≡ key → see m now p e ≡ learned m now p key (some e)
unfolding see
see-learned m now p key e d = elim (Bool-cases (e.port == p)) [
  | inl same ↦
      let q : e.port ≡ p = ground arith in
      rw (same, ==-refl p) (λ i. record { last_seen = now; port = q i; dst = d i })
  | inr other ↦ elim (Bool-cases (ltb_ℤ m (sub_ℕ now e.last_seen))) [
    | inl late ↦ rw (other, late, ==-refl p) (λ i. record { last_seen = now; port = p; dst = d i })
    | inr soon ↦
        rw (other, soon, other) (λ i. record { last_seen = e.last_seen; port = e.port; dst = d i })
  ]
]

see-new :
    (m : ℤ) (now p key junk : ℕ)
    → see m now p (record { last_seen = junk; port = p; dst = key })
      ≡ record { last_seen = now; port = p; dst = key }
unfolding see
see-new m now p key junk = rw (==-refl p) refl

-- The port of an entry, or the port of the packet where there is none.
abbrev known_port : ℕ → Option Entry → ℕ
known_port p none = p
known_port p (some e) = e.port

-- What learning does: the result is the port so far, the address gets its entry, and every other key
-- keeps what it had.
pub record Learned (t : Table) (key p now : ℕ) (r : Option ℕ × Table) : Type 0 where
  pub returns : r.0 ≡ some (known_port p (view t key))
  pub hashed : IsHashed r.1
  pub stored : view r.1 key ≡ some (learned t.min_persistence now p key (view t key))
  pub others : (q : ℕ) → (key == q) ≡ false → view r.1 q ≡ view t q

module _ (src : Mac) (vlan p now : ℕ) {t : Table} (v : IsHashed t) where
  key : ℕ
  key = extmac src vlan

  slot : ℕ
  slot = calc_hash t key

  chain : List Entry
  chain = chain_at t slot

  -- What holds of the table with the entry `e` in the chain of the address, by the new chain `c`.
  stored-Learned :
      (c : List Entry) (e : Entry) (o : Option ℕ)
      → ((q : ℕ) → chain_count q c ≤ (if calc_hash t q == slot then 1 else 0))
      → ((q : ℕ) → chain_find q c ≡ (if key == q then some e else chain_find q chain))
      → e ≡ learned t.min_persistence now p key (view t key)
      → o ≡ some (known_port p (view t key))
      → Learned t key p now (o, with_chain t slot c)
  unfolding slot chain
  stored-Learned c e o count found is answer =
      let reads = view-with_chain v slot (calc_hash-lt t key) c in
      record {
        returns = answer;
        hashed = with_chain-IsHashed v slot (calc_hash-lt t key) c count;
        stored = reads key ∙ rw (==-refl slot, found key, ==-refl key) (ap some is);
        others = λ q ne. reads q ∙ ground (arith, found q);
      }

  cons_find :
      (e : Entry) (c : List Entry)
      → e.dst ≡ key
      → (q : ℕ) → chain_find q (e ∷ c) ≡ (if key == q then some e else chain_find q c)
  unfolding chain_find
  cons_find e c d q = rw d refl

  cons_count :
      (e : Entry) (c : List Entry)
      → e.dst ≡ key
      → chain_count key c ≡ 0
      → (q : ℕ) → chain_count q c ≤ (if calc_hash t q == slot then 1 else 0)
      → chain_count q (e ∷ c) ≤ (if calc_hash t q == slot then 1 else 0)
  unfolding chain_count slot
  cons_count e c d free q h = elim (Bool-cases (key == q)) [
    | inl same ↦
        let k : key ≡ q = ground arith in
        let hit : (calc_hash t q == calc_hash t key) ≡ true = ground (arith, ap (calc_hash t) k) in
        ground (arith, same, hit, ap (λ x. chain_count x c) k)
    | inr other ↦ ground (arith, other, h)
  ]

  -- With memory for a new entry, whatever it holds, learning in a well-formed table returns the port so
  -- far, or the packet's for a new address. The address then has one entry: its port is the packet's if
  -- it is new, was there already, or was seen elsewhere longer ago than the persistence time, and else
  -- the one it had; it counts as seen now if that port is the packet's, and else as before. All other
  -- entries, and the table's being well formed, are kept.
  pub find_in_hash_update-Learned :
      (junk : ℕ)
      → Learned t (extmac src vlan) p now (find_in_hash_update src vlan p now (some junk) t)
  unfolding find_in_hash_update key slot chain
  find_in_hash_update-Learned junk = elim (Option-cases (chain_find key chain)) [
    | inl new ↦
        let e : Entry = record { last_seen = now; port = p; dst = key } in
        rw (new, find_in_hash_update)
          (rw (see-new t.min_persistence now p key junk) (
            stored-Learned (e ∷ chain) e (some p)
              (λ q. cons_count e chain refl (chain_count-absent key chain new) q (v.placed q slot))
              (λ q. cons_find e chain refl q) (rw new) (rw new)))
    | inr (e, old) ↦
        let u = see t.min_persistence now p e in
        let d : u.dst ≡ key = see-dst t.min_persistence now p e ∙ chain_find-dst key chain e old in
        rw (old, find_in_hash_update)
          (stored-Learned (chain_write key u chain) u (some e.port)
            (λ q. rw (chain_count-write key q u chain d) (v.placed q slot))
            (λ q. chain_find-write key q u chain e old d)
            (rw old (see-learned t.min_persistence now p key e (chain_find-dst key chain e old)))
            (rw old))
  ]

module _ (src : Mac) (vlan p now junk : ℕ) {t : Table} (v : IsHashed t) where
  -- A lookup after learning, in a well-formed table and with memory, for addresses of six bytes and
  -- VLANs of 16 bits: the address itself is found behind its settled port, and any other
  -- address or VLAN where it was before. The call returns the port before it, and the packet's port
  -- for a new address.
  pub find_in_hash-update :
      (dst : Mac) (w : ℕ)
      → IsMac src
      → IsMac dst
      → vlan < 2 ^ 16
      → w < 2 ^ 16
      → let r = find_in_hash_update src vlan p now (some junk) t in
        (r.0 ≡ some (known_port p (view t (extmac src vlan))))
        × (find_in_hash src vlan r.1
            ≡ some (settled t.min_persistence now p (view t (extmac src vlan))))
        × (¬ ((src ≡ dst) × (vlan ≡ w)) → find_in_hash dst w r.1 ≡ find_in_hash dst w t)
  unfolding find_in_hash
  find_in_hash-update dst w hs hd hv hw =
      let l = find_in_hash_update-Learned src vlan p now v junk in
      (
        l.returns,
        ap port_of l.stored,
        λ ne. ap port_of (
            l.others (extmac dst w)
              (==-false _ _ (λ e. ne (extmac-injective src dst vlan w hs hd hv hw e)))),
      )
