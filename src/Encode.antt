-- ===== src/Encode.antt =====
-- vde-2/src/vde_over_ns/encode.c: packets as names of letters, digits, `-` and `_`, six bits to a
-- character. A string is the list of its characters without the NUL at its end. A read behind the end
-- of a list gives 0; the theorems need none.
pub mod Sextets
pub mod Trip
use vde.Common.{
  ℕ, zero, suc, ◌+◌, ◌-◌, ◌*◌, ◌/◌, ◌%◌, ◌^◌, bit_and, bit_or, Bool, true, false, List, [], ◌∷◌,
  ◌++◌, if◌then◌else◌, ◌==◌, ltb, length, get_or, set, replicate,
}
use vde.Common.Int.{ℤ, sub_ℕ}

-- `map`, the ASCII codes of `a` to `z`, `A` to `Z`, `-`, `_`, `1` to `9` and `0`.
abbrev map_chars : List ℕ
map_chars =
    97 ∷ 98 ∷ 99 ∷ 100 ∷ 101 ∷ 102 ∷ 103 ∷ 104 ∷ 105 ∷ 106 ∷ 107 ∷ 108 ∷ 109 ∷ 110 ∷ 111 ∷ 112 ∷ 113
    ∷ 114 ∷ 115 ∷ 116 ∷ 117 ∷ 118 ∷ 119 ∷ 120 ∷ 121 ∷ 122 ∷ 65 ∷ 66 ∷ 67 ∷ 68 ∷ 69 ∷ 70 ∷ 71 ∷ 72
    ∷ 73 ∷ 74 ∷ 75 ∷ 76 ∷ 77 ∷ 78 ∷ 79 ∷ 80 ∷ 81 ∷ 82 ∷ 83 ∷ 84 ∷ 85 ∷ 86 ∷ 87 ∷ 88 ∷ 89 ∷ 90 ∷ 45
    ∷ 95 ∷ 49 ∷ 50 ∷ 51 ∷ 52 ∷ 53 ∷ 54 ∷ 55 ∷ 56 ∷ 57 ∷ 48 ∷ []

abbrev pub map_at : ℕ → ℕ
map_at i = get_or map_chars i 0

-- for (i = ...; left > 0; i++) revmap[map[i]] = i;
unfoldable revmap_loop : ℕ → ℕ → List ℕ → List ℕ
revmap_loop zero i revmap = revmap
revmap_loop (suc left) i revmap = revmap_loop left (i + 1) (set revmap (map_at i) i)

-- The table that `init_revmap` leaves in 256 bytes of fresh memory, which hold `junk`.
unfoldable pub init_revmap : ℕ → List ℕ
unfolding revmap_loop
init_revmap junk = revmap_loop 64 0 (replicate 256 junk)

-- The four characters that the loop of `nstx_encode` writes for three bytes.
unfoldable pub encode_group : ℕ → ℕ → ℕ → List ℕ
encode_group a b c =
    map_at (bit_and a 252 / 2 ^ 2)
    ∷ map_at (bit_or (bit_and a 3 * 2 ^ 4) (bit_and b 240 / 2 ^ 4))
    ∷ map_at (bit_or (bit_and b 15 * 2 ^ 2) (bit_and c 192 / 2 ^ 6))
    ∷ map_at (bit_and c 63)
    ∷ []

-- while (i < len) { ...; i += 3; off += 4; }
unfoldable pub encode_loop : ℕ → ℕ → ℕ → List ℕ → List ℕ
encode_loop zero i len bytes = []
encode_loop (suc fuel) i len bytes =
    let rest = encode_loop fuel (i + 3) len bytes in
    if ltb i len
    then encode_group (get_or bytes i 0) (get_or bytes (i + 1) 0) (get_or bytes (i + 2) 0) ++ rest
    else []

-- `cut`, the bytes that the last group has too many.
abbrev pub cut_of : ℕ → ℕ
cut_of len = if len % 3 == 0 then 0 else 3 - len % 3

-- For a `realloc` that succeeds; the loop has at most `len` rounds.
unfoldable pub nstx_encode : List ℕ → ℕ → List ℕ
unfolding encode_loop
nstx_encode bytes len = map_at (cut_of len) ∷ encode_loop len 0 len bytes

-- The three bytes that the loop of `nstx_decode` writes for four characters.
unfoldable pub decode_group : List ℕ → ℕ → ℕ → ℕ → ℕ → List ℕ
decode_group revmap p q r s =
    let rev : ℕ → ℕ = λ c. get_or revmap c 0 in
    bit_or (rev p * 2 ^ 2) (bit_and (rev q) 48 / 2 ^ 4) % 2 ^ 8
    ∷ bit_or (bit_and (rev q) 15 * 2 ^ 4) (bit_and (rev r) 60 / 2 ^ 2) % 2 ^ 8
    ∷ bit_or (bit_and (rev r) 3 * 2 ^ 6) (rev s) % 2 ^ 8
    ∷ []

-- while (off+3 < len) { ...; i += 3; off += 4; }
unfoldable pub decode_loop : List ℕ → ℕ → ℕ → List ℕ → List ℕ
decode_loop revmap zero off chars = []
decode_loop revmap (suc fuel) off chars =
    let rest = decode_loop revmap fuel (off + 4) chars in
    if ltb (off + 3) (length chars)
    then decode_group revmap (get_or chars off 0) (get_or chars (off + 1) 0)
        (get_or chars (off + 2) 0) (get_or chars (off + 3) 0)
      ++ rest
    else []

-- The buffer and `*rlen`; the loop has at most `strlen(data)` rounds.
unfoldable pub nstx_decode : List ℕ → List ℕ → List ℕ × ℤ
unfolding decode_loop
nstx_decode revmap chars =
    let buf = decode_loop revmap (length chars) 1 chars in
    (buf, sub_ℕ (length buf) (get_or revmap (get_or chars 0 0) 0))
