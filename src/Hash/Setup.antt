-- ===== src/Hash/Setup.antt =====
-- Setting the table up and resizing it.
use vde.Common.{
  ℕ, ◌*◌, ◌^◌, ◌≤◌, ◌<◌, ◌≡◌, refl, ap, arith, true, none, List, [], lt→ltb, length-replicate,
  get_or-replicate,
}
use vde.Common.Int.{pos}
use vde.Hash.{
  Mac, Entry, Table, calc_hash, chain_find, hash_alloc, hash_flush, hash_resize, returned, po2round,
  hash_size, find_in_hash, port_of,
}
use vde.Hash.Chain.{chain_count}
use vde.Hash.Round.{po2round_lem}
use vde.Hash.Slots.{IsHashed, view}

pub hash_alloc-IsHashed :
    (bits : ℕ) (t : Table)
    → IsHashed (hash_alloc bits t) × ((q : ℕ) → view (hash_alloc bits t) q ≡ none)
unfolding hash_alloc chain_count chain_find
hash_alloc-IsHashed bits t = (
  record {
    size = length-replicate (2 ^ bits) [];
    placed = λ q i. rw (get_or-replicate {A = List Entry} (2 ^ bits) i []) (omega arith);
  },
  λ q. rw (get_or-replicate {A = List Entry} (2 ^ bits) (calc_hash (hash_alloc bits t) q) []) refl,
)

-- With memory, resizing to a size from 1 to 2^30 leaves an empty table that is well formed, whose size
-- is the least power of two that is not below the one asked for.
pub hash_resize_lem :
    (size : ℕ) (t : Table)
    → 0 < size
    → size ≤ 2 ^ 30
    → (t' : Table) × (hash_resize (pos size) true t ≡ returned 0 t')
      × IsHashed t'
      × ((dst : Mac) (vlan : ℕ) → find_in_hash dst vlan t' ≡ none)
      × (size ≤ hash_size t')
      × (hash_size t' < 2 * size)
unfolding hash_resize find_in_hash hash_alloc
hash_resize_lem size t p h =
    let t' = hash_alloc (po2round size) (hash_flush t) in
    let (hashed, empty) = hash_alloc-IsHashed (po2round size) (hash_flush t) in
    let (above, below, bits) = po2round_lem size p (omega arith) in
    (t', rw (lt→ltb 0 size p) refl, hashed, λ dst vlan. ap port_of (empty _), above, below)
