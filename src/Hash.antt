-- ===== src/Hash.antt =====
-- vde-2/src/vde_switch/hash.c: the table that learns which port an Ethernet address of a VLAN sits
-- behind. A chain is the list of its entries from the head; `prev` is the place in the list. Ports
-- are indices, so the -1 of `find_in_hash` is `none`. Times come from `qtime`, which counts up from 0.
pub mod Chain
pub mod Address
pub mod Round
pub mod Slots
pub mod Learn
pub mod Forget
pub mod Lookup
pub mod Setup
pub mod Renew
use vde.Common.{
  ℕ, zero, suc, ◌+◌, ◌-◌, ◌*◌, ◌/◌, ◌%◌, ◌^◌, bit_and, bit_xor, Bool, true, false, ◌&&◌, not,
  Option, none, some, List, [], ◌∷◌, if◌then◌else◌, ◌==◌, ltb, get_or, set, replicate, keep,
}
use vde.Common.Int.{ℤ, pos, negsuc, ◌+ℤ◌, sub_ℕ, ltb_ℤ}
use vde.BitArray.{Bitarray, ba_check}
use vde.Timer.{Timers, Added, added, refused, crashed, qtimer_add, qtimer_del}

-- The six bytes behind an `unsigned char *`.
pub record Mac : Type 0 where
  pub b0 : ℕ
  pub b1 : ℕ
  pub b2 : ℕ
  pub b3 : ℕ
  pub b4 : ℕ
  pub b5 : ℕ

-- `struct hash_entry`
pub record Entry : Type 0 where
  pub last_seen : ℕ
  pub port : ℕ
  pub dst : ℕ

-- The static variables of the file.
pub record Table : Type 0 where
  pub h : List (List Entry)
  pub hash_bits : ℕ
  pub min_persistence : ℤ
  pub gc_interval : ℤ
  pub gc_expire : ℤ
  pub gc_timerno : ℕ

abbrev pub hash_size : Table → ℕ
hash_size t = 2 ^ t.hash_bits

abbrev hash_mask : Table → ℕ
hash_mask t = 2 ^ t.hash_bits - 1

-- On `u_int64_t`, with its wrap-around.
unfoldable pub calc_hash : Table → ℕ → ℕ
calc_hash t src =
    let a = bit_xor src (src / 2 ^ 33) in
    let b = a * 0xff51afd7ed558ccd % 2 ^ 64 in
    let c = bit_xor b (b / 2 ^ 33) in
    let d = c * 0xc4ceb9fe1a85ec53 % 2 ^ 64 in bit_and d (hash_mask t)

-- Little-endian loads of four and two bytes, with the VLAN above them.
unfoldable pub extmac : Mac → ℕ → ℕ
extmac m vlan =
    (m.b0
      + m.b1 * 2 ^ 8
      + m.b2 * 2 ^ 16
      + m.b3 * 2 ^ 24
      + (m.b4 + m.b5 * 2 ^ 8 + vlan * 2 ^ 16) * 2 ^ 32)
    % 2 ^ 64

-- `EMAC2VLAN`
unfoldable pub emac2vlan : ℕ → ℕ
emac2vlan x = x / 2 ^ 48 % 2 ^ 16

-- for(e = h[k]; e && e->dst != (MAC); e = e->next);
unfoldable pub chain_find : ℕ → List Entry → Option Entry
chain_find k [] = none
chain_find k (e ∷ c) = if e.dst == k then some e else chain_find k c

-- The entry that the loop stops at, overwritten.
unfoldable pub chain_write : ℕ → Entry → List Entry → List Entry
chain_write k v [] = []
chain_write k v (e ∷ c) = if e.dst == k then v ∷ c else e ∷ chain_write k v c

-- `delete_hash_entry` at the entry that the loop stops at.
unfoldable pub chain_delete : ℕ → List Entry → List Entry
chain_delete k [] = []
chain_delete k (e ∷ c) = if e.dst == k then c else e ∷ chain_delete k c

-- The chain of a key.
abbrev pub chain_at : Table → ℕ → List Entry
chain_at t i = get_or t.h i []

abbrev pub find_entry : Table → ℕ → Option Entry
find_entry t key = chain_find key (chain_at t (calc_hash t key))

abbrev pub port_of : Option Entry → Option ℕ
port_of none = none
port_of (some e) = some e.port

unfoldable pub find_in_hash : Mac → ℕ → Table → Option ℕ
find_in_hash dst vlan t = port_of (find_entry t (extmac dst vlan))

-- The end of `find_in_hash_update`: a new port is taken only after the persistence time.
unfoldable pub see : ℤ → ℕ → ℕ → Entry → Entry
see persistence now p e =
    if not (e.port == p)
    then if ltb_ℤ persistence (sub_ℕ now e.last_seen)
      then record e { port = p; last_seen = now }
      else e
    else record e { last_seen = now }

-- `fresh` is what `malloc` gives: `none` for NULL, else the value that stands in the memory of
-- `last_seen`. The result is the port before the call, or -1.
unfoldable pub find_in_hash_update : Mac → ℕ → ℕ → ℕ → Option ℕ → Table → Option ℕ × Table
find_in_hash_update src vlan p now fresh t =
    let key = extmac src vlan in
    let k = calc_hash t key in
    let c = chain_at t k in
    elim (chain_find key c) [
      | some e ↦ (
        some e.port,
        record t { h = set t.h k (chain_write key (see t.min_persistence now p e) c) },
      )
      | none ↦ elim fresh [
        | none ↦ (none, t)
        | some junk ↦
            let e : Entry = record { last_seen = junk; port = p; dst = key } in
            (some p, record t { h = set t.h k (see t.min_persistence now p e ∷ c) })
      ]
    ]

unfoldable pub delete_hash : Mac → ℕ → Table → Table
delete_hash dst vlan t =
    let key = extmac dst vlan in
    let k = calc_hash t key in
    elim (chain_find key (chain_at t k)) [
      | none ↦ t
      | some e ↦ record t { h = set t.h k (chain_delete key (chain_at t k)) }
    ]

-- `for_all_hash` with an iterator that deletes the entries of a kind: `left` chains from chain `i`.
unfoldable pub for_all_from : (Entry → Bool) → ℕ → ℕ → List (List Entry) → List (List Entry)
for_all_from p zero i h = h
for_all_from p (suc left) i h =
    for_all_from p left (i + 1) (set h i (keep (λ e. not (p e)) (get_or h i [])))

unfoldable pub for_all_hash : (Entry → Bool) → Table → Table
unfolding for_all_from
for_all_hash p t = record t { h = for_all_from p (hash_size t) 0 t.h }

unfoldable pub hash_delete_port : ℕ → Table → Table
hash_delete_port p t = for_all_hash (λ e. e.port == p) t

-- `(u_int16_t)(*vlan)`
unfoldable pub hash_delete_vlan : ℕ → Table → Table
hash_delete_vlan vlan t = for_all_hash (λ e. emac2vlan e.dst == vlan % 2 ^ 16) t

unfoldable pub hash_delete_vlanport : ℕ → ℕ → Table → Table
hash_delete_vlanport vlan p t =
    for_all_hash (λ e. emac2vlan e.dst == vlan % 2 ^ 16 && e.port == p) t

unfoldable pub hash_delete_vlanports : ℕ → Bitarray → Table → Table
hash_delete_vlanports vlan setofports t =
    for_all_hash (λ e. emac2vlan e.dst == vlan % 2 ^ 16 && ba_check setofports e.port) t

unfoldable pub hash_flush : Table → Table
hash_flush t = for_all_hash (λ e. true) t

-- `gc`: `e->last_seen + gc_expire < t`
abbrev pub is_stale : ℤ → ℕ → Entry → Bool
is_stale expire now e = ltb_ℤ (pos e.last_seen +ℤ expire) (pos now)

unfoldable pub hash_gc : ℕ → Table → Table
hash_gc now t = for_all_hash (is_stale t.gc_expire now) t

-- `while (x) { x>>=1; i++; }` on an `int`, which 32 rounds end.
unfoldable pub po2_loop : ℕ → ℕ → ℕ → ℕ
po2_loop zero x i = i
po2_loop (suc fuel) x i = let rest = po2_loop fuel (x / 2) (i + 1) in if x == 0 then i else rest

-- For `vx` not negative. The warning for a size that is no power of two is only printed.
unfoldable pub po2round : ℕ → ℕ
unfolding po2_loop
po2round vx = if vx == 0 then 0 else po2_loop 32 (vx - 1) 0

-- `HASH_INIT`, when `calloc` succeeds.
unfoldable pub hash_alloc : ℕ → Table → Table
hash_alloc bits t = record t { h = replicate (2 ^ bits) []; hash_bits = bits }

-- The result of a command: a return code with the new state, or the end of the program.
pub data Outcome : Type 0 where
  returned : ℕ → Table → Outcome
  exited : Outcome

abbrev einval : ℕ
einval = 22

-- `memory` says whether `calloc` succeeds.
unfoldable pub hash_resize : ℤ → Bool → Table → Outcome
hash_resize (pos size) memory t =
    if ltb 0 size
    then if memory then returned 0 (hash_alloc (po2round size) (hash_flush t)) else exited
    else returned einval t
hash_resize (negsuc size) memory t = returned einval t

unfoldable hash_set_gc_expire : ℤ → Table → Table
hash_set_gc_expire e t = record t { gc_expire = e }

unfoldable hash_set_minper : ℤ → Table → Table
hash_set_minper e t = record t { min_persistence = e }

-- The number of the function `hash_gc` among the callbacks, and `(unsigned) -1`.
abbrev pub hash_gc_call : ℕ
hash_gc_call = 1

abbrev no_timer : ℕ
no_timer = 2 ^ 32 - 1

-- `gc_timerno = qtimer_add(...)`; `none` is the crash of `qtimer_add`.
abbrev with_timer : Table → Added → Option (Table × Timers)
with_timer t (added n s) = some (record t { gc_timerno = n }, s)
with_timer t (refused s) = some (record t { gc_timerno = no_timer }, s)
with_timer t crashed = none

unfoldable pub hash_set_gc_interval : ℤ → Bool → Bool → Table → Timers → Option (Table × Timers)
hash_set_gc_interval p grow_memory timer_memory t s =
    with_timer (record t { gc_interval = p })
      (qtimer_add p (pos 0) (some hash_gc_call) 0 grow_memory timer_memory
        (qtimer_del t.gc_timerno s))

-- `GC_INTERVAL` and `GC_EXPIRE`
abbrev pub gc_interval_dfl : ℕ
gc_interval_dfl = 2

abbrev pub gc_expire_dfl : ℕ
gc_expire_dfl = 100

-- For a size that is not negative, when `calloc` succeeds.
unfoldable pub hash_init : ℕ → Bool → Bool → Table → Timers → Option (Table × Timers)
hash_init size grow_memory timer_memory t s =
    with_timer
      (record (hash_alloc (po2round size) t) {
        gc_interval = pos gc_interval_dfl;
        gc_expire = pos gc_expire_dfl;
      })
      (qtimer_add (pos gc_interval_dfl) (pos 0) (some hash_gc_call) 0 grow_memory timer_memory s)
