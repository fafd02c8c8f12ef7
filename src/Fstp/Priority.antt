-- ===== src/Fstp/Priority.antt =====
-- The comparison of the protocol's packets with what a tree knows, as a comparison of numbers.
use vde.Common.{
  ℕ, zero, suc, ◌+◌, ◌*◌, ◌^◌, ◌<◌, ◌≤◌, ◌≡◌, ◌⊎◌, refl, sym, ap, ◌∙◌, arith, List, [], ◌∷◌, ◌++◌,
  All, length, length-append, inl, inr,
}
use native.Mathlib.Nat.{pow-suc, mul-le-mul_right}
use Prim.Native.Nat.{Ordering, compare}
use vde.Fstp.{Vlst, FstBpdu, memcmp}
use vde.Fstp.Protocol.{compare_bpdu, next_key}

-- Bytes as a number, the high byte first.
abbrev pub number : List ℕ → ℕ
number [] = 0
number (x ∷ xs) = x * 256 ^ length xs + number xs

abbrev AreBytes : List ℕ → Type 0
AreBytes xs = All (λ x. x < 256) xs

less : (m n : ℕ) → m < n → compare m n ≡ Ordering.lt
less m n h = ground arith

more : (m n : ℕ) → n < m → compare m n ≡ Ordering.gt
more m n h = ground arith

compare_self : (m : ℕ) → compare m m ≡ Ordering.eq
compare_self m = ground arith

order_cases : (m n : ℕ) → (m < n) ⊎ ((m ≡ n) ⊎ (n < m))
order_cases m n = ground arith

-- A digit in front decides.
front-lt : (x y r t P : ℕ) → x < y → r < P → x * P + r < y * P + t
front-lt x y r t P h l =
    let e : suc x * P ≤ y * P = mul-le-mul_right P h in
    let f : suc x * P ≡ x * P + P = omega arith in omega arith

number-lt : (xs : List ℕ) → AreBytes xs → number xs < 256 ^ length xs
number-lt [] h = omega arith
number-lt (x ∷ xs) (b, bs) =
    let P = 256 ^ length xs in
    let h : x * P + number xs < 256 * P + 0 = front-lt x 256 (number xs) 0 P b (number-lt xs bs) in
    omega (arith, h, pow-suc 256 (length xs))

-- `memcmp` of byte strings of its length compares the numbers.
memcmp-number :
    (n : ℕ) (a b : List ℕ)
    → length a ≡ n
    → length b ≡ n
    → AreBytes a
    → AreBytes b
    → memcmp n a b ≡ compare (number a) (number b)
unfolding memcmp
memcmp-number zero [] [] la lb ha hb = sym (compare_self 0)
memcmp-number zero (x ∷ a) b la lb ha hb = absurd (omega arith)
memcmp-number zero [] (y ∷ b) la lb ha hb = absurd (omega arith)
memcmp-number (suc n) [] b la lb ha hb = absurd (omega arith)
memcmp-number (suc n) (x ∷ a) [] la lb ha hb = absurd (omega arith)
memcmp-number (suc n) (x ∷ a) (y ∷ b) la lb (hx, ha) (hy, hb) =
    let la' : length a ≡ n = omega arith in
    let lb' : length b ≡ n = omega arith in
    let P = 256 ^ n in
    let ra : number a < P = rw (sym la') (number-lt a ha) in
    let rb : number b < P = rw (sym lb') (number-lt b hb) in
    elim (order_cases x y) [
      | inl lower ↦
          rw (less x y lower, memcmp, la', lb')
            (sym (less _ _ (front-lt x y (number a) (number b) P lower ra)))
      | inr (inr higher) ↦
          rw (more x y higher, memcmp, la', lb')
            (sym (more _ _ (front-lt y x (number b) (number a) P higher rb)))
      | inr (inl same) ↦
          rw (same, compare_self y, memcmp, la', lb')
            (memcmp-number n a b la' lb' ha hb ∙ sym (shift (y * P) (number a) (number b)))
    ]
  where
    shift : (q r t : ℕ) → compare (q + r) (q + t) ≡ compare r t
    shift q r t = elim (order_cases r t) [
      | inl lower ↦ less (q + r) (q + t) (omega arith) ∙ sym (less r t lower)
      | inr (inr higher) ↦ more (q + r) (q + t) (omega arith) ∙ sym (more r t higher)
      | inr (inl same) ↦ rw same (compare_self (q + t) ∙ sym (compare_self t))
    ]

-- One comparison after another is one of the strings put together.
next_key-append :
    (m n : ℕ) (a b c d : List ℕ)
    → length a ≡ m
    → length b ≡ m
    → next_key (memcmp m a b) (memcmp n c d) ≡ memcmp (m + n) (a ++ c) (b ++ d)
unfolding memcmp
next_key-append zero n [] [] c d la lb = ap (λ k. memcmp k c d) (omega arith)
next_key-append zero n (x ∷ a) b c d la lb = absurd (omega arith)
next_key-append zero n [] (y ∷ b) c d la lb = absurd (omega arith)
next_key-append (suc m) n [] b c d la lb = absurd (omega arith)
next_key-append (suc m) n (x ∷ a) [] c d la lb = absurd (omega arith)
next_key-append (suc m) n (x ∷ a) (y ∷ b) c d la lb =
    let s : suc m + n ≡ suc (m + n) = omega arith in
    rw s (elim (order_cases x y) [
      | inl lower ↦ rw (less x y lower, memcmp) refl
      | inr (inr higher) ↦ rw (more x y higher, memcmp) refl
      | inr (inl same) ↦
          rw (same, compare_self y, memcmp)
            (next_key-append m n a b c d (omega arith) (omega arith))
    ])

-- The four fields that are compared, of the lengths that the structures give them.
pub record IsVector (root cost bridge port : List ℕ) : Type 0 where
  pub root_length : length root ≡ 8
  pub cost_length : length cost ≡ 4
  pub bridge_length : length bridge ≡ 8
  pub port_length : length port ≡ 2
  pub root_bytes : AreBytes root
  pub cost_bytes : AreBytes cost
  pub bridge_bytes : AreBytes bridge
  pub port_bytes : AreBytes port

abbrev pub key : List ℕ → List ℕ → List ℕ → List ℕ → List ℕ
key root cost bridge port = root ++ (cost ++ (bridge ++ port))

AreBytes-append : (xs ys : List ℕ) → AreBytes xs → AreBytes ys → AreBytes (xs ++ ys)
AreBytes-append [] ys hx hy = hy
AreBytes-append (x ∷ xs) ys (h, hx) hy = (h, AreBytes-append xs ys hx hy)

key-AreBytes : (a b c d : List ℕ) → IsVector a b c d → AreBytes (key a b c d)
key-AreBytes a b c d v =
    AreBytes-append a _ v.root_bytes
      (AreBytes-append b _ v.cost_bytes (AreBytes-append c d v.bridge_bytes v.port_bytes))

length-key : (a b c d : List ℕ) → IsVector a b c d → length (key a b c d) ≡ 22
length-key a b c d v = omega (
  arith,
  v,
  length-append {0} a (b ++ (c ++ d)),
  length-append {0} b (c ++ d),
  length-append {0} c d,
)

-- The root, the cost, the switch and the port, of what a tree knows and of what a packet says.
abbrev pub known_key : Vlst → List ℕ
known_key v = key v.root v.rootcost v.dessw v.port

abbrev pub told_key : FstBpdu → List ℕ
told_key p = key p.stp_root p.stp_rootcost p.stp_bridge p.stp_port

-- When the fields are bytes and of the lengths of the structures, the four comparisons of
-- `fst_in_bpdu` are one comparison of two numbers: the fields put together, the high byte first.
pub compare_bpdu-number :
    (v : Vlst) (p : FstBpdu)
    → IsVector v.root v.rootcost v.dessw v.port
    → IsVector p.stp_root p.stp_rootcost p.stp_bridge p.stp_port
    → compare_bpdu v p ≡ compare (number (known_key v)) (number (told_key p))
unfolding compare_bpdu
compare_bpdu-number v p hv hp =
    ap
      (λ o. next_key (memcmp 8 v.root p.stp_root) (next_key (memcmp 4 v.rootcost p.stp_rootcost) o))
      (next_key-append 8 2 v.dessw p.stp_bridge v.port p.stp_port hv.bridge_length hp.bridge_length)
    ∙ ap (λ o. next_key (memcmp 8 v.root p.stp_root) o)
        (next_key-append 4 10 v.rootcost p.stp_rootcost (v.dessw ++ v.port)
          (p.stp_bridge ++ p.stp_port) hv.cost_length hp.cost_length)
    ∙ next_key-append 8 14 v.root p.stp_root (v.rootcost ++ (v.dessw ++ v.port))
        (p.stp_rootcost ++ (p.stp_bridge ++ p.stp_port)) hv.root_length hp.root_length
    ∙ memcmp-number 22 (known_key v) (told_key p) (length-key _ _ _ _ hv) (length-key _ _ _ _ hp)
        (key-AreBytes _ _ _ _ hv) (key-AreBytes _ _ _ _ hp)
