-- ===== src/Hash/Forget.antt =====
-- Forgetting: the deletions of single addresses, of ports, of VLANs and of stale entries.
use vde.Common.{
  ℕ, zero, suc, ◌+◌, ◌^◌, ◌≤◌, ◌≡◌, refl, ◌∙◌, arith, Bool, not, ◌&&◌, List, [], if◌then◌else◌,
  ◌==◌, ltb, lt→ltb, keep, Bool-cases, inl, inr, length, length-set, get_or, get_or-set, set,
}
use vde.Hash.{Entry, Table, calc_hash, chain_at, for_all_from, for_all_hash, hash_size}
use vde.Hash.Chain.{unless, chain_count-keep-le, chain_find-keep}
use vde.Hash.Slots.{IsHashed, view, calc_hash-lt}

-- The loop filters the chains from `i` on, `left` of them.
for_all_from-get :
    (p : Entry → Bool) (left i : ℕ) (h : List (List Entry)) (k : ℕ)
    → i + left ≤ length h
    → get_or (for_all_from p left i h) k [] ≡ (
        if not (ltb k i) && ltb k (i + left)
        then keep (λ e. not (p e)) (get_or h k [])
        else get_or h k [])
unfolding for_all_from
for_all_from-get p zero i h k room = ground arith
for_all_from-get p (suc left) i h k room =
    let c = keep (λ e. not (p e)) (get_or h i []) in
    let same = length-set {0} h i c in
    let cell = get_or-set h i k c [] (omega arith) in
    for_all_from-get p left (i + 1) (set h i c) k (omega (arith, same))
    ∙ elim (Bool-cases (i == k)) [
      | inl here ↦ let e : i ≡ k = ground arith in rw (cell, here, e) (ground arith)
      | inr there ↦ rw (cell, there) (ground arith)
    ]

length-for_all_from :
    (p : Entry → Bool) (left i : ℕ) (h : List (List Entry))
    → length (for_all_from p left i h) ≡ length h
unfolding for_all_from
length-for_all_from p zero i h = refl
length-for_all_from p (suc left) i h =
    length-for_all_from p left (i + 1) (set h i _) ∙ length-set h i _

-- `for_all_hash` with a deleting iterator takes out exactly the entries of the kind.
module _ (p : Entry → Bool) {t : Table} (v : IsHashed t) where
  chain_at-for_all :
      (k : ℕ)
      → chain_at (for_all_hash p t) k
        ≡ (if ltb k (2 ^ t.hash_bits) then keep (λ e. not (p e)) (chain_at t k) else chain_at t k)
  unfolding for_all_hash
  chain_at-for_all k =
      for_all_from-get p (hash_size t) 0 t.h k (omega (arith, v.size)) ∙ ground arith

  calc_hash-for_all : (q : ℕ) → calc_hash (for_all_hash p t) q ≡ calc_hash t q
  unfolding for_all_hash calc_hash
  calc_hash-for_all q = refl

  bits-for_all : (for_all_hash p t).hash_bits ≡ t.hash_bits
  unfolding for_all_hash
  bits-for_all = refl

  length-for_all : length (for_all_hash p t).h ≡ length t.h
  unfolding for_all_hash
  length-for_all = length-for_all_from p (hash_size t) 0 t.h

  pub for_all_hash-IsHashed : IsHashed (for_all_hash p t)
  for_all_hash-IsHashed = record {
    size = rw bits-for_all (length-for_all ∙ v.size);
    placed = λ q i.
        rw (calc_hash-for_all q, chain_at-for_all i)
          (ground (arith, v.placed q i, chain_count-keep-le p q (chain_at t i)));
  }

  pub view-for_all_hash : (q : ℕ) → view (for_all_hash p t) q ≡ unless p (view t q)
  view-for_all_hash q =
      let k = calc_hash t q in
      rw (calc_hash-for_all q, chain_at-for_all k, lt→ltb k (2 ^ t.hash_bits) (calc_hash-lt t q))
        (chain_find-keep p q (chain_at t k) (ground (arith, v.placed q k)))
