-- ===== src/Hash/Chain.antt =====
-- One chain of the table: what a search finds after each change.
use vde.Common.{
  ℕ, ◌+◌, ◌≤◌, ◌≡◌, refl, arith, Bool, not, Option, none, some, List, [], ◌∷◌, if◌then◌else◌, ◌==◌,
  keep,
}
use vde.Hash.{Entry, chain_find, chain_write, chain_delete}

-- How often a key stands in a chain.
unfoldable pub chain_count : ℕ → List Entry → ℕ
chain_count q [] = 0
chain_count q (e ∷ c) = (if e.dst == q then 1 else 0) + chain_count q c

-- What a filter leaves of a search's result.
abbrev pub unless : (Entry → Bool) → Option Entry → Option Entry
unless p none = none
unless p (some e) = if p e then none else some e

chain_find-absent : (q : ℕ) (c : List Entry) → chain_count q c ≡ 0 → chain_find q c ≡ none
unfolding chain_count chain_find
chain_find-absent q [] h = refl
chain_find-absent q (e ∷ c) h = ground (arith, chain_find-absent q c)

pub chain_count-absent : (q : ℕ) (c : List Entry) → chain_find q c ≡ none → chain_count q c ≡ 0
unfolding chain_count chain_find
chain_count-absent q [] h = refl
chain_count-absent q (e ∷ c) h = ground (arith, chain_count-absent q c)

pub chain_find-dst : (q : ℕ) (c : List Entry) (e : Entry) → chain_find q c ≡ some e → e.dst ≡ q
unfolding chain_find
chain_find-dst q [] e h = ground arith
chain_find-dst q (x ∷ c) e h = ground (arith, chain_find-dst q c e)

pub chain_find-write :
    (k q : ℕ) (v : Entry) (c : List Entry) (e : Entry)
    → chain_find k c ≡ some e
    → v.dst ≡ k
    → chain_find q (chain_write k v c) ≡ (if k == q then some v else chain_find q c)
unfolding chain_find chain_write
chain_find-write k q v [] e h d = ground arith
chain_find-write k q v (x ∷ c) e h d = ground (arith, chain_find-write k q v c e)

pub chain_count-write :
    (k q : ℕ) (v : Entry) (c : List Entry)
    → v.dst ≡ k
    → chain_count q (chain_write k v c) ≡ chain_count q c
unfolding chain_count chain_write
chain_count-write k q v [] d = refl
chain_count-write k q v (x ∷ c) d = ground (arith, chain_count-write k q v c)

pub chain_find-delete :
    (k q : ℕ) (c : List Entry)
    → chain_count q c ≤ 1
    → chain_find q (chain_delete k c) ≡ (if k == q then none else chain_find q c)
unfolding chain_find chain_delete chain_count
chain_find-delete k q [] h = ground arith
chain_find-delete k q (x ∷ c) h = ground (arith, chain_find-delete k q c, chain_find-absent q c)

pub chain_count-delete-le :
    (k q : ℕ) (c : List Entry) → chain_count q (chain_delete k c) ≤ chain_count q c
unfolding chain_delete chain_count
chain_count-delete-le k q [] = omega arith
chain_count-delete-le k q (x ∷ c) = ground (arith, chain_count-delete-le k q c)

pub chain_count-keep-le :
    (p : Entry → Bool) (q : ℕ) (c : List Entry)
    → chain_count q (keep (λ e. not (p e)) c) ≤ chain_count q c
unfolding chain_count keep
chain_count-keep-le p q [] = omega arith
chain_count-keep-le p q (x ∷ c) = ground (arith, chain_count-keep-le p q c)

pub chain_find-keep :
    (p : Entry → Bool) (q : ℕ) (c : List Entry)
    → chain_count q c ≤ 1
    → chain_find q (keep (λ e. not (p e)) c) ≡ unless p (chain_find q c)
unfolding chain_find chain_count keep
chain_find-keep p q [] h = refl
chain_find-keep p q (x ∷ c) h = ground (
  arith,
  chain_find-keep p q c,
  chain_find-absent q (keep (λ e. not (p e)) c),
  chain_count-keep-le p q c,
)
