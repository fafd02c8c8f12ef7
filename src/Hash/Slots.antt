-- ===== src/Hash/Slots.antt =====
-- The table as a finite map: where its entries stand, and what a change of one chain does.
use vde.Common.{
  ℕ, ◌^◌, ◌≤◌, ◌<◌, ◌≡◌, refl, ◌∙◌, arith, Option, List, [], if◌then◌else◌, ◌==◌, length,
  length-set, get_or-set, set,
}
use native.Mathlib.Nat.{one-le-pow, mod-lt}
use vde.Common.Bits.{bit_and_mask}
use vde.Hash.{Entry, Table, calc_hash, chain_find, chain_at, find_entry}
use vde.Hash.Chain.{chain_count}

-- A hash is an index of the table.
pub calc_hash-lt : (t : Table) (q : ℕ) → calc_hash t q < 2 ^ t.hash_bits
unfolding calc_hash
calc_hash-lt t q = rw bit_and_mask (mod-lt _ (one-le-pow t.hash_bits 2 (omega arith)))

-- Every entry stands in the chain of its key, and no key stands twice.
pub record IsHashed (t : Table) : Type 0 where
  pub size : length t.h ≡ 2 ^ t.hash_bits
  pub placed : (q i : ℕ) → chain_count q (chain_at t i) ≤ (if calc_hash t q == i then 1 else 0)

-- The abstract map: from keys to entries.
abbrev pub view : Table → ℕ → Option Entry
view t q = find_entry t q

-- The table with one chain changed.
abbrev pub with_chain : Table → ℕ → List Entry → Table
with_chain t k c = record t { h = set t.h k c }

calc_hash-with :
    (t : Table) (k : ℕ) (c : List Entry) (q : ℕ) → calc_hash (with_chain t k c) q ≡ calc_hash t q
unfolding calc_hash
calc_hash-with t k c q = refl

module _ {t : Table} (v : IsHashed t) (k : ℕ) (h : k < 2 ^ t.hash_bits) (c : List Entry) where
  chain_at-with : (i : ℕ) → chain_at (with_chain t k c) i ≡ (if k == i then c else chain_at t i)
  chain_at-with i = get_or-set t.h k i c [] (omega (arith, v.size))

  -- A new chain for slot `k`, with keys of that slot alone, keeps the table well formed.
  pub with_chain-IsHashed :
      ((q : ℕ) → chain_count q c ≤ (if calc_hash t q == k then 1 else 0))
      → IsHashed (with_chain t k c)
  with_chain-IsHashed f = record {
    size = length-set t.h k c ∙ v.size;
    placed =
        λ q i. rw (chain_at-with i, calc_hash-with t k c q) (ground (arith, f q, v.placed q i));
  }

  pub view-with_chain :
      (q : ℕ)
      → view (with_chain t k c) q ≡ (if calc_hash t q == k then chain_find q c else view t q)
  view-with_chain q = rw (calc_hash-with t k c q, chain_at-with) (ground arith)
