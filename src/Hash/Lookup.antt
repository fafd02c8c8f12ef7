-- ===== src/Hash/Lookup.antt =====
-- Lookups after each of the deletions of hash.c.
use vde.Common.{
  ℕ, suc, ltb, ◌+◌, ◌%◌, ◌^◌, ◌<◌, ◌≡◌, refl, ap, sym, ◌∙◌, arith, Bool, true, false, ◌&&◌, Option,
  none, some, if◌then◌else◌, ◌==◌, Bool-cases, Option-cases, inl, inr, ==-refl, ==_iff,
}
use mathlib.Core.Bool.{false≢true}
use vde.Common.Int.{ℤ, pos, negsuc}
use vde.BitArray.{Bitarray, ba_check}
use vde.Hash.{
  Mac, Entry, Table, calc_hash, extmac, emac2vlan, chain_find, chain_delete, chain_at, port_of,
  find_in_hash, delete_hash, hash_delete_port, hash_delete_vlan, hash_delete_vlanport,
  hash_delete_vlanports, hash_flush, hash_gc, is_stale,
}
use vde.Hash.Address.{IsMac, emac2vlan-extmac}
use vde.Hash.Chain.{unless, chain_find-dst, chain_find-delete, chain_count-delete-le}
use vde.Hash.Forget.{for_all_hash-IsHashed, view-for_all_hash}
use vde.Hash.Slots.{IsHashed, view, with_chain, calc_hash-lt, with_chain-IsHashed, view-with_chain}

abbrev is_port : ℕ → Option ℕ → Bool
is_port p none = false
is_port p (some q) = q == p

abbrev in_ports : Bitarray → Option ℕ → Bool
in_ports s none = false
in_ports s (some q) = ba_check s q

-- The lookup `o` made void by a test.
abbrev void_if : Bool → Option ℕ → Option ℕ
void_if b o = if b then none else o

-- A kind of entries that is told by the port, within the entries of one key.
unless-port :
    (kind : Entry → Bool) (test : Option ℕ → Bool) (o : Option Entry)
    → test none ≡ false
    → ((e : Entry) → o ≡ some e → kind e ≡ test (some e.port))
    → port_of (unless kind o) ≡ void_if (test (port_of o)) (port_of o)
unless-port kind test none n h = rw n refl
unless-port kind test (some e) n h = rw (h e refl) (split (test (some e.port)) e)
  where
    split : (b : Bool) (e : Entry) → port_of (if b then none else some e) ≡ void_if b (some e.port)
    split true e = refl
    split false e = refl

-- Entries of the key of an address in VLAN `w` are of VLAN `w`.
vlan_of_entry :
    (t : Table) (dst : Mac) (w : ℕ) (e : Entry)
    → IsMac dst
    → w < 2 ^ 16
    → view t (extmac dst w) ≡ some e
    → emac2vlan e.dst ≡ w
vlan_of_entry t dst w e m h found =
    ap emac2vlan (chain_find-dst (extmac dst w) _ e found) ∙ emac2vlan-extmac dst w m h

-- Whether an entry last seen then has expired, on natural numbers.
abbrev has_expired : ℤ → ℕ → ℕ → Bool
has_expired (pos expire) now seen = ltb (seen + expire) now
has_expired (negsuc n) now seen = ltb seen (now + suc n)

abbrev pub kept_at : ℤ → ℕ → Option Entry → Option Entry
kept_at expire now none = none
kept_at expire now (some e) = if has_expired expire now e.last_seen then none else some e

unless-stale :
    (expire : ℤ) (now : ℕ) (o : Option Entry)
    → unless (is_stale expire now) o ≡ kept_at expire now o
unless-stale expire now none = refl
unless-stale (pos x) now (some e) = ground arith
unless-stale (negsuc n) now (some e) = ground arith

module _ {t : Table} (v : IsHashed t) (dst : Mac) (w : ℕ) where
  -- In a well-formed table, which stays so, after `hash_delete_port` no address is found behind the port, and every other as before.
  pub find_in_hash-delete_port :
      (p : ℕ)
      → IsHashed (hash_delete_port p t)
        × (find_in_hash dst w (hash_delete_port p t)
            ≡ void_if (is_port p (find_in_hash dst w t)) (find_in_hash dst w t))
  unfolding hash_delete_port find_in_hash
  find_in_hash-delete_port p =
      let kind : Entry → Bool = λ e. e.port == p in
      (
        for_all_hash-IsHashed kind v,
        ap port_of (view-for_all_hash kind v (extmac dst w))
            ∙ unless-port kind (is_port p) (view t (extmac dst w)) refl (λ e _. refl),
      )

  -- The deletions within a VLAN.
  module _ (m : IsMac dst) (h : w < 2 ^ 16) (vlan : ℕ) (hv : vlan < 2 ^ 16) where
    same_vlan :
        (e : Entry)
        → view t (extmac dst w) ≡ some e
        → (emac2vlan e.dst == vlan % 2 ^ 16) ≡ (w == vlan)
    same_vlan e found =
        let small : vlan % 2 ^ 16 ≡ vlan = omega arith in
        rw (vlan_of_entry t dst w e m h found, small) refl

    -- In a well-formed table, which stays so, for addresses of six bytes and VLANs of 16 bits, after
    -- `hash_delete_vlan` no address of the VLAN is found, and every other as before.
    find_in_hash-delete_vlan :
        IsHashed (hash_delete_vlan vlan t)
        × (find_in_hash dst w (hash_delete_vlan vlan t)
            ≡ void_if (w == vlan) (find_in_hash dst w t))
    unfolding hash_delete_vlan find_in_hash
    find_in_hash-delete_vlan =
        let kind : Entry → Bool = λ e. emac2vlan e.dst == vlan % 2 ^ 16 in
        (
          for_all_hash-IsHashed kind v,
          ap port_of (view-for_all_hash kind v (extmac dst w))
              ∙ vlan_case (view t (extmac dst w)) same_vlan,
        )
      where
        vlan_case :
            (o : Option Entry)
            → ((e : Entry) → o ≡ some e → (emac2vlan e.dst == vlan % 2 ^ 16) ≡ (w == vlan))
            → port_of (unless (λ e. emac2vlan e.dst == vlan % 2 ^ 16) o)
              ≡ void_if (w == vlan) (port_of o)
        vlan_case none f = ground arith
        vlan_case (some e) f = rw (f e refl) (ground arith)

    -- In a well-formed table, which stays so, for addresses of six bytes and VLANs of 16 bits, after
    -- `hash_delete_vlanport` no address of the VLAN is found behind the port, and every other as
    -- before.
    find_in_hash-delete_vlanport :
        (p : ℕ)
        → IsHashed (hash_delete_vlanport vlan p t)
          × (find_in_hash dst w (hash_delete_vlanport vlan p t)
              ≡ void_if (w == vlan && is_port p (find_in_hash dst w t)) (find_in_hash dst w t))
    unfolding hash_delete_vlanport find_in_hash
    find_in_hash-delete_vlanport p =
        let kind : Entry → Bool = λ e. emac2vlan e.dst == vlan % 2 ^ 16 && e.port == p in
        (
          for_all_hash-IsHashed kind v,
          ap port_of (view-for_all_hash kind v (extmac dst w))
              ∙ unless-port kind (λ o. w == vlan && is_port p o) (view t (extmac dst w))
                  (ground arith) (λ e found. rw (same_vlan e found) refl),
        )

    -- In a well-formed table, which stays so, for addresses of six bytes and VLANs of 16 bits, after
    -- `hash_delete_vlanports` no address of the VLAN is found behind one of the ports, and every
    -- other as before.
    find_in_hash-delete_vlanports :
        (s : Bitarray)
        → IsHashed (hash_delete_vlanports vlan s t)
          × (find_in_hash dst w (hash_delete_vlanports vlan s t)
              ≡ void_if (w == vlan && in_ports s (find_in_hash dst w t)) (find_in_hash dst w t))
    unfolding hash_delete_vlanports find_in_hash
    find_in_hash-delete_vlanports s =
        let kind : Entry → Bool = λ e. emac2vlan e.dst == vlan % 2 ^ 16 && ba_check s e.port in
        (
          for_all_hash-IsHashed kind v,
          ap port_of (view-for_all_hash kind v (extmac dst w))
              ∙ unless-port kind (λ o. w == vlan && in_ports s o) (view t (extmac dst w))
                  (ground arith) (λ e found. rw (same_vlan e found) refl),
        )

  -- In a well-formed table, which stays so, the garbage collector drops exactly the entries whose last
  -- sighting and `gc_expire` seconds lie before now, and keeps the others as they are.
  pub view-hash_gc :
      (now : ℕ)
      → IsHashed (hash_gc now t)
        × ((q : ℕ) → view (hash_gc now t) q ≡ kept_at t.gc_expire now (view t q))
  unfolding hash_gc
  view-hash_gc now = (
    for_all_hash-IsHashed (is_stale t.gc_expire now) v,
    λ q. view-for_all_hash (is_stale t.gc_expire now) v q ∙ unless-stale t.gc_expire now (view t q),
  )

  view-hash_flush : IsHashed (hash_flush t) × ((q : ℕ) → view (hash_flush t) q ≡ none)
  unfolding hash_flush
  view-hash_flush = (
    for_all_hash-IsHashed (λ e. true) v,
    λ q. view-for_all_hash (λ e. true) v q ∙ all_gone (view t q),
  )
    where
      all_gone : (o : Option Entry) → unless (λ e. true) o ≡ none
      all_gone none = refl
      all_gone (some e) = refl

  delete_hash-absent : view t (extmac dst w) ≡ none → delete_hash dst w t ≡ t
  unfolding delete_hash
  delete_hash-absent gone = rw (gone, delete_hash) refl

  delete_hash-present :
      (e : Entry)
      → view t (extmac dst w) ≡ some e
      → let k = calc_hash t (extmac dst w) in
        delete_hash dst w t ≡ with_chain t k (chain_delete (extmac dst w) (chain_at t k))
  unfolding delete_hash
  delete_hash-present e there = rw (there, delete_hash) refl

  -- In a well-formed table, which stays so, `delete_hash` takes out the one address and leaves the rest.
  view-delete_hash :
      IsHashed (delete_hash dst w t)
      × ((q : ℕ) → view (delete_hash dst w t) q ≡ (if extmac dst w == q then none else view t q))
  view-delete_hash =
      let key = extmac dst w in
      let k = calc_hash t key in
      let c = chain_delete key (chain_at t k) in
      elim (Option-cases (view t key)) [
        | inl gone ↦ rw (delete_hash-absent gone) (v, λ q. absent (view t) key q gone)
        | inr (e, there) ↦ rw (delete_hash-present e there) (
          with_chain-IsHashed v k (calc_hash-lt t key) c
              (λ q. ground (arith, v.placed q k, chain_count-delete-le key q (chain_at t k))),
          λ q.
              view-with_chain v k (calc_hash-lt t key) c q
              ∙ here q (chain_find-delete key q (chain_at t k) (ground (arith, v.placed q k))),
        )
      ]
    where
      absent :
          (f : ℕ → Option Entry) (key q : ℕ) → f key ≡ none → f q ≡ (if key == q then none else f q)
      absent f key q gone = elim (Bool-cases (key == q)) [
        | inl same ↦ let e : key ≡ q = ground arith in rw (same, ← e) gone
        | inr other ↦ rw other refl
      ]

      here :
          (q : ℕ)
          → let key = extmac dst w in
            let k = calc_hash t key in
            chain_find q (chain_delete key (chain_at t k))
              ≡ (if key == q then none else chain_find q (chain_at t k))
            → (if calc_hash t q == k
                then chain_find q (chain_delete key (chain_at t k))
                else view t q)
              ≡ (if key == q then none else view t q)
      here q found =
          let key = extmac dst w in
          let k = calc_hash t key in
          elim (Bool-cases (calc_hash t q == k)) [
            | inl hit ↦
                let e : calc_hash t q ≡ k = (==_iff _ _).0 hit in
                rw hit
                  (found ∙ ap (λ i. if key == q then none else chain_find q (chain_at t i)) (sym e))
            | inr miss ↦ elim (Bool-cases (key == q)) [
              | inl same ↦
                  let e : key ≡ q = (==_iff _ _).0 same in
                  absurd (false≢true (sym miss ∙ ap (λ x. calc_hash t x == k) (sym e) ∙ ==-refl k))
              | inr other ↦ rw (miss, other) refl
            ]
          ]
