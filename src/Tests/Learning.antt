-- ===== src/Tests/Learning.antt =====
-- The address table of hash.c with two stations.
use vde.Common.{ℕ, ◌^◌, ◌<◌, ◌≡◌, ◌≤◌, ◌*◌, keep, refl, arith, true, none, some, []}
use vde.Common.Int.{pos}
use vde.Hash.{
  Mac, Table, returned, extmac, find_in_hash, find_in_hash_update, hash_alloc, hash_resize,
  hash_delete_port, delete_hash, hash_gc, hash_delete_vlan, hash_delete_vlanport,
  hash_delete_vlanports, for_all_hash, for_all_from, chain_delete, chain_find, chain_write, see,
  emac2vlan, po2_loop, hash_flush, calc_hash, hash_size, po2round,
}
use vde.Hash.Address.{IsMac}
use vde.BitArray.{ba_check}
use vde.Hash.Learn.{Learned, find_in_hash_update-Learned, find_in_hash-update}
use vde.Hash.Lookup.{kept_at, find_in_hash-delete_port, view-hash_gc}
use vde.Hash.Round.{po2round_lem}
use vde.Hash.Setup.{hash_alloc-IsHashed, hash_resize_lem}
use vde.Hash.Slots.{IsHashed, view}

abbrev pub station : ℕ → Mac
station n = record { b0 = 2; b1 = 0; b2 = 0; b3 = 0; b4 = 0; b5 = n }

station-IsMac : (n : ℕ) → n < 256 → IsMac (station n)
station-IsMac n h = record {
  b0 = omega arith;
  b1 = omega arith;
  b2 = omega arith;
  b3 = omega arith;
  b4 = omega arith;
  b5 = h;
}

abbrev office : ℕ
office = 5

abbrev pub blank : Table
blank = record {
  h = [];
  hash_bits = 0;
  min_persistence = pos 3;
  gc_interval = pos 2;
  gc_expire = pos 100;
  gc_timerno = 0;
}

-- Four chains; then station 1 in VLAN 5 on port 2, and station 7 in VLAN 6 on port 3.
abbrev pub fresh_table : Table
fresh_table = hash_alloc 2 blank

abbrev one_known : Table
one_known = (find_in_hash_update (station 1) 5 2 10 (some 0) fresh_table).1

abbrev two_known : Table
two_known = (find_in_hash_update (station 7) 6 3 11 (some 99) one_known).1

pub fresh_table-IsHashed : IsHashed fresh_table
fresh_table-IsHashed = (hash_alloc-IsHashed 2 blank).0

one_known-IsHashed : IsHashed one_known
one_known-IsHashed = (find_in_hash_update-Learned (station 1) 5 2 10 fresh_table-IsHashed 0).hashed

two_known-IsHashed : IsHashed two_known
two_known-IsHashed = (find_in_hash_update-Learned (station 7) 6 3 11 one_known-IsHashed 99).hashed

program : Unit {0}
unfolding find_in_hash find_in_hash_update hash_alloc chain_find calc_hash extmac see emac2vlan
    hash_delete_port hash_delete_vlan hash_delete_vlanport hash_delete_vlanports delete_hash hash_gc
    for_all_hash for_all_from chain_delete keep ba_check po2round po2_loop hash_resize hash_flush
    chain_write
program = tt

find_station : find_in_hash (station 1) 5 two_known ≡ some 2
unfolding program
find_station = refl

find_in_hash-update_example :
    let r = find_in_hash_update (station 1) 5 3 12 (some 0) two_known in
    (r.0 ≡ some 2)
    × (find_in_hash (station 1) 5 r.1 ≡ some 2)
    × (¬ ((station 1 ≡ station 7) × (office ≡ 6))
        → find_in_hash (station 7) 6 r.1 ≡ find_in_hash (station 7) 6 two_known)
unfolding program
find_in_hash-update_example =
    find_in_hash-update (station 1) 5 3 12 0 two_known-IsHashed (station 7) 6
      (station-IsMac 1 (omega arith)) (station-IsMac 7 (omega arith)) (omega arith) (omega arith)

find_in_hash_update-Learned_example :
    Learned two_known
      (extmac (station 9) 5)
      1
      12
      (find_in_hash_update (station 9) 5 1 12 (some 4) two_known)
find_in_hash_update-Learned_example =
    find_in_hash_update-Learned (station 9) 5 1 12 two_known-IsHashed 4

find_in_hash-delete_port_example :
    IsHashed (hash_delete_port 2 two_known)
    × (find_in_hash (station 1) 5 (hash_delete_port 2 two_known) ≡ none)
unfolding program
find_in_hash-delete_port_example = find_in_hash-delete_port two_known-IsHashed (station 1) 5 2

view-hash_gc_example :
    IsHashed (hash_gc 111 two_known)
    × ((q : ℕ)
        → view (hash_gc 111 two_known) q ≡ kept_at two_known.gc_expire 111 (view two_known q))
view-hash_gc_example = view-hash_gc two_known-IsHashed (station 1) 5 111

hash_resize_lem_example :
    (t' : Table) × (hash_resize (pos 5) true two_known ≡ returned 0 t')
    × IsHashed t'
    × ((dst : Mac) (vlan : ℕ) → find_in_hash dst vlan t' ≡ none)
    × (5 ≤ hash_size t')
    × (hash_size t' < 2 * 5)
hash_resize_lem_example = hash_resize_lem 5 two_known (omega arith) (omega arith)

po2round_lem_example : (5 ≤ 2 ^ po2round 5) × (2 ^ po2round 5 < 2 * 5) × (po2round 5 ≤ 31)
po2round_lem_example = po2round_lem 5 (omega arith) (omega arith)
