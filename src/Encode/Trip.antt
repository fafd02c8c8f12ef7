-- ===== src/Encode/Trip.antt =====
-- `nstx_decode` after `nstx_encode`.
use vde.Common.{
  ℕ, zero, suc, ◌+◌, ◌-◌, ◌*◌, ◌/◌, ◌<◌, ◌≤◌, ◌≡◌, refl, ap, ap₂, ◌∙◌, arith, true, false, List, [],
  ◌∷◌, ◌++◌, ltb, length, length-append, get_or, take, Bool-cases, inl, inr,
}
use vde.Common.Int.{pos, sub_ℕ}
use vde.Encode.{
  map_at, init_revmap, encode_group, encode_loop, cut_of, nstx_encode, decode_group, decode_loop,
  nstx_decode,
}
use vde.Encode.Sextets.{init_revmap-map_at, encode_group-chars, decode_group-chars}

-- The `n` bytes from byte `i` on.
abbrev span : ℕ → ℕ → List ℕ → List ℕ
span zero i xs = []
span (suc n) i xs = get_or xs i 0 ∷ span n (i + 1) xs

-- The rounds that are left at byte `i`.
abbrev rounds : ℕ → ℕ → ℕ
rounds len i = (len - i + 2) / 3

length-encode_group : (a b c : ℕ) → length (encode_group a b c) ≡ 4
unfolding encode_group
length-encode_group a b c = refl

length-encode_loop :
    (fuel i len : ℕ) (bytes : List ℕ)
    → len ≤ i + 3 * fuel
    → length (encode_loop fuel i len bytes) ≡ 4 * rounds len i
unfolding encode_loop
length-encode_loop zero i len bytes h = omega arith
length-encode_loop (suc fuel) i len bytes h = elim (Bool-cases (ltb i len)) [
  | inl more ↦
      let lt : i < len = ground arith in
      let g = encode_group (get_or bytes i 0) (get_or bytes (i + 1) 0) (get_or bytes (i + 2) 0) in
      rw more (
        omega (
          arith,
          length-append {0} g (encode_loop fuel (i + 3) len bytes),
          length-encode_group (get_or bytes i 0) (get_or bytes (i + 1) 0) (get_or bytes (i + 2) 0),
          length-encode_loop fuel (i + 3) len bytes (omega arith),
        ))
  | inr done ↦ let ge : len ≤ i = ground arith in rw done (omega arith)
]

-- A character before the place where decoding starts does not matter.
decode_loop-skip :
    (revmap : List ℕ) (fuel off c : ℕ) (chars : List ℕ)
    → decode_loop revmap fuel (suc off) (c ∷ chars) ≡ decode_loop revmap fuel off chars
unfolding decode_loop
decode_loop-skip revmap zero off c chars = refl
decode_loop-skip revmap (suc fuel) off c chars =
    let e1 : suc off + 1 ≡ suc (off + 1) = omega arith in
    let e2 : suc off + 2 ≡ suc (off + 2) = omega arith in
    let e3 : suc off + 3 ≡ suc (off + 3) = omega arith in
    let e4 : suc off + 4 ≡ suc (off + 4) = omega arith in
    let t : ltb (suc (off + 3)) (suc (length chars)) ≡ ltb (off + 3) (length chars) =
      ground arith in
    rw (e1, e2, e3, e4, decode_loop-skip revmap fuel (off + 4) c chars, t) refl

decode_loop-step :
    (revmap : List ℕ) (fuel p q r s : ℕ) (chars : List ℕ)
    → decode_loop revmap (suc fuel) 0 (p ∷ q ∷ r ∷ s ∷ chars)
      ≡ decode_group revmap p q r s ++ decode_loop revmap fuel 0 chars
unfolding decode_loop
decode_loop-step revmap fuel p q r s chars =
    let t : ltb (0 + 3) (length (p ∷ q ∷ r ∷ s ∷ chars)) ≡ true = ground arith in
    rw t (
      ap (λ rest. decode_group revmap p q r s ++ rest)
        (decode_loop-skip revmap fuel 3 p (q ∷ r ∷ s ∷ chars)
          ∙ decode_loop-skip revmap fuel 2 q (r ∷ s ∷ chars)
          ∙ decode_loop-skip revmap fuel 1 r (s ∷ chars)
          ∙ decode_loop-skip revmap fuel 0 s chars))

decode_loop-nil : (revmap : List ℕ) (fuel : ℕ) → decode_loop revmap fuel 0 [] ≡ []
unfolding decode_loop
decode_loop-nil revmap zero = refl
decode_loop-nil revmap (suc fuel) = refl

module _ (junk len : ℕ) (bytes : List ℕ) (narrow : (i : ℕ) → get_or bytes i 0 < 256) where
  decode_loop-encode_loop :
      (fuel i back : ℕ)
      → len ≤ i + 3 * fuel
      → len ≤ i + 3 * back
      → decode_loop (init_revmap junk) back 0 (encode_loop fuel i len bytes)
        ≡ span (3 * rounds len i) i bytes
  unfolding encode_loop
  decode_loop-encode_loop zero i back h k =
      let e : 3 * rounds len i ≡ 0 = omega arith in rw e (decode_loop-nil (init_revmap junk) back)
  decode_loop-encode_loop (suc fuel) i zero h k =
      let done : ltb i len ≡ false = ground arith in
      let e : 3 * rounds len i ≡ 0 = omega arith in
      rw (done, e) (decode_loop-nil (init_revmap junk) zero)
  decode_loop-encode_loop (suc fuel) i (suc back) h k = elim (Bool-cases (ltb i len)) [
    | inl more ↦
        let lt : i < len = ground arith in
        let e : 3 * rounds len i ≡ suc (suc (suc (3 * rounds len (i + 3)))) = omega arith in
        let two : i + 1 + 1 ≡ i + 2 = omega arith in
        let three : i + 2 + 1 ≡ i + 3 = omega arith in
        let a = get_or bytes i 0 in
        let b = get_or bytes (i + 1) 0 in
        let c = get_or bytes (i + 2) 0 in
        rw (more, e, encode_group-chars a b c (narrow i) (narrow (i + 1)) (narrow (i + 2)))
          (decode_loop-step (init_revmap junk) back _ _ _ _ (encode_loop fuel (i + 3) len bytes)
            ∙ rw (two, three)
                (ap₂ ◌++◌
                  (decode_group-chars a b c (narrow i) (narrow (i + 1)) (narrow (i + 2)) junk)
                  (decode_loop-encode_loop fuel (i + 3) back (omega arith) (omega arith))))
    | inr done ↦
        let ge : len ≤ i = ground arith in
        let e : 3 * rounds len i ≡ 0 = omega arith in
        rw (done, e) (decode_loop-nil (init_revmap junk) (suc back))
  ]

span-skip : (n i x : ℕ) (xs : List ℕ) → span n (suc i) (x ∷ xs) ≡ span n i xs
span-skip zero i x xs = refl
span-skip (suc n) i x xs =
    let e : suc i + 1 ≡ suc (i + 1) = omega arith in
    rw e (ap (λ ys. get_or xs i 0 ∷ ys) (span-skip n (i + 1) x xs))

length-span : (n i : ℕ) (xs : List ℕ) → length (span n i xs) ≡ n
length-span zero i xs = refl
length-span (suc n) i xs = ap suc (length-span n (i + 1) xs)

take-span : (k n : ℕ) (xs : List ℕ) → k ≤ n → k ≤ length xs → take k (span n 0 xs) ≡ take k xs
take-span zero n xs h l = refl
take-span (suc k) zero xs h l = absurd (omega arith)
take-span (suc k) (suc n) [] h l = absurd (omega arith)
take-span (suc k) (suc n) (x ∷ xs) h l =
    ap (λ ys. x ∷ ys)
      (ap (take k) (span-skip n 0 x xs) ∙ take-span k n xs (omega arith) (omega arith))

cut-rounds : (len : ℕ) → sub_ℕ (3 * rounds len 0) (cut_of len) ≡ pos len
cut-rounds len = ground arith

-- Decoding what `nstx_encode` makes of the first `len` bytes of a buffer of bytes, whatever lies behind
-- them and whatever the reverse table's memory held, gives the length `len` and the `len` bytes back.
pub nstx_decode-encode :
    (junk len : ℕ) (bytes : List ℕ)
    → ((i : ℕ) → get_or bytes i 0 < 256)
    → len ≤ length bytes
    → let r = nstx_decode (init_revmap junk) (nstx_encode bytes len) in
      (r.1 ≡ pos len) × (take len r.0 ≡ take len bytes)
unfolding nstx_encode nstx_decode
nstx_decode-encode junk len bytes narrow h =
    let chars = encode_loop len 0 len bytes in
    let size = length-encode_loop len 0 len bytes (omega arith) in
    let buf : decode_loop (init_revmap junk) (suc (length chars)) 1 (map_at (cut_of len) ∷ chars)
        ≡ span (3 * rounds len 0) 0 bytes =
      decode_loop-skip (init_revmap junk) (suc (length chars)) 0 _ chars
      ∙ decode_loop-encode_loop junk len bytes narrow len 0 (suc (length chars)) (omega arith)
          (omega (arith, size)) in
    rw
      (
        buf,
        length-span (3 * rounds len 0) 0 bytes,
        init_revmap-map_at junk (cut_of len) (ground arith),
      )
      (cut-rounds len, take-span len (3 * rounds len 0) bytes (omega arith) h)
