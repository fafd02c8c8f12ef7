-- ===== src/Encode/Sextets.antt =====
-- Three bytes and the four characters for them.
use vde.Common.{
  ℕ, ◌+◌, ◌*◌, ◌/◌, ◌%◌, ◌<◌, bit_and, bit_or, ◌≡◌, refl, ap, ap₂, ◌∙◌, arith, Bool, true, [], ◌∷◌,
  ◌==◌, ==_iff, get_or, pass_below, pass_below-at,
}
use vde.Encode.{map_at, init_revmap, encode_group, decode_group}

-- The reverse table gives the place of a character, whatever its memory held.
revmap_table : (junk : ℕ) → pass_below (λ k. get_or (init_revmap junk) (map_at k) 0 == k) 64 ≡ true
unfolding pass_below init_revmap
revmap_table junk = refl

pub init_revmap-map_at : (junk k : ℕ) → k < 64 → get_or (init_revmap junk) (map_at k) 0 ≡ k
init_revmap-map_at junk k h = (==_iff _ _).0 (
    pass_below-at (λ k. get_or (init_revmap junk) (map_at k) 0 == k) {n = 64} {i = k} h
      (revmap_table junk))

-- Fields of a byte, and two fields joined, by running through all bytes.
high : ℕ → ℕ → ℕ → ℕ → Bool
high m d n x = bit_and x m / d == x / d % n

low : ℕ → ℕ → ℕ → Bool
low m n x = bit_and x m == x % n

joined : ℕ → ℕ → Bool
joined n x = bit_or (x / n * n) (x % n) == x

byte_tables :
    (pass_below (high 252 4 64) 256 ≡ true)
    × (pass_below (low 3 4) 256 ≡ true)
    × (pass_below (high 240 16 16) 256 ≡ true)
    × (pass_below (low 15 16) 256 ≡ true)
    × (pass_below (high 192 64 4) 256 ≡ true)
    × (pass_below (low 63 64) 256 ≡ true)
    × (pass_below (high 48 16 4) 256 ≡ true)
    × (pass_below (high 60 4 16) 256 ≡ true)
    × (pass_below (joined 4) 256 ≡ true)
    × (pass_below (joined 16) 256 ≡ true)
    × (pass_below (joined 64) 256 ≡ true)
unfolding pass_below high low joined
byte_tables = (refl, refl, refl, refl, refl, refl, refl, refl, refl, refl, refl)

module _ (x : ℕ) (h : x < 256) where
  by_table : (p : ℕ → Bool) → pass_below p 256 ≡ true → p x ≡ true
  by_table p t = pass_below-at p {n = 256} {i = x} h t

  and_252 : bit_and x 252 / 4 ≡ x / 4
  unfolding high
  and_252 = (==_iff _ _).0 (by_table (high 252 4 64) byte_tables.0) ∙ omega arith

  and_3 : bit_and x 3 ≡ x % 4
  unfolding low
  and_3 = (==_iff _ _).0 (by_table (low 3 4) byte_tables.1)

  and_240 : bit_and x 240 / 16 ≡ x / 16
  unfolding high
  and_240 = (==_iff _ _).0 (by_table (high 240 16 16) byte_tables.2) ∙ omega arith

  and_15 : bit_and x 15 ≡ x % 16
  unfolding low
  and_15 = (==_iff _ _).0 (by_table (low 15 16) byte_tables.3)

  and_192 : bit_and x 192 / 64 ≡ x / 64
  unfolding high
  and_192 = (==_iff _ _).0 (by_table (high 192 64 4) byte_tables.4) ∙ omega arith

  and_63 : bit_and x 63 ≡ x % 64
  unfolding low
  and_63 = (==_iff _ _).0 (by_table (low 63 64) byte_tables.5)

  and_48 : bit_and x 48 / 16 ≡ x / 16 % 4
  unfolding high
  and_48 = (==_iff _ _).0 (by_table (high 48 16 4) byte_tables.6)

  and_60 : bit_and x 60 / 4 ≡ x / 4 % 16
  unfolding high
  and_60 = (==_iff _ _).0 (by_table (high 60 4 16) byte_tables.7)

  join_4 : bit_or (x / 4 * 4) (x % 4) ≡ x
  unfolding joined
  join_4 = (==_iff _ _).0 (by_table (joined 4) byte_tables.8)

  join_16 : bit_or (x / 16 * 16) (x % 16) ≡ x
  unfolding joined
  join_16 = (==_iff _ _).0 (by_table (joined 16) byte_tables.9)

  join_64 : bit_or (x / 64 * 64) (x % 64) ≡ x
  unfolding joined
  join_64 = (==_iff _ _).0 (by_table (joined 64) byte_tables.10)

-- The four sextets of three bytes.
module _ (a b c : ℕ) (ha : a < 256) (hb : b < 256) (hc : c < 256) where
  abbrev pub second : ℕ
  second = a % 4 * 16 + b / 16

  abbrev third : ℕ
  third = b % 16 * 4 + c / 64

  second_bits : bit_or (bit_and a 3 * 16) (bit_and b 240 / 16) ≡ second
  second_bits =
      rw (and_3 a ha, and_240 b hb)
        (ap₂ bit_or (omega arith) (omega arith) ∙ join_16 (a % 4 * 16 + b / 16) (omega arith))

  third_bits : bit_or (bit_and b 15 * 4) (bit_and c 192 / 64) ≡ third
  third_bits =
      rw (and_15 b hb, and_192 c hc)
        (ap₂ bit_or (omega arith) (omega arith) ∙ join_4 (b % 16 * 4 + c / 64) (omega arith))

  pub encode_group-chars :
      encode_group a b c ≡ map_at (a / 4) ∷ map_at second ∷ map_at third ∷ map_at (c % 64) ∷ []
  unfolding encode_group
  encode_group-chars = rw (and_252 a ha, second_bits, third_bits, and_63 c hc) refl

  pub decode_group-chars :
      (junk : ℕ)
      → decode_group
          (init_revmap junk)
          (map_at (a / 4))
          (map_at second)
          (map_at third)
          (map_at (c % 64))
        ≡ a ∷ b ∷ c ∷ []
  unfolding decode_group
  decode_group-chars junk =
      rw
        (
          init_revmap-map_at junk (a / 4) (omega arith),
          init_revmap-map_at junk (a % 4 * 16 + b / 16) (omega arith),
          init_revmap-map_at junk (b % 16 * 4 + c / 64) (omega arith),
          init_revmap-map_at junk (c % 64) (omega arith),
          and_48 (a % 4 * 16 + b / 16) (omega arith),
          and_15 (a % 4 * 16 + b / 16) (omega arith),
          and_60 (b % 16 * 4 + c / 64) (omega arith),
          and_3 (b % 16 * 4 + c / 64) (omega arith),
        )
        (ap₂ (λ x y. x ∷ y) first (ap₂ (λ x y. x ∷ y) middle (ap (λ x. x ∷ []) last)))
    where
      first : bit_or (a / 4 * 4) ((a % 4 * 16 + b / 16) / 16 % 4) % 256 ≡ a
      first = ap (λ t. t % 256) (ap (bit_or (a / 4 * 4)) (omega arith) ∙ join_4 a ha) ∙ omega arith

      middle : bit_or ((a % 4 * 16 + b / 16) % 16 * 16) ((b % 16 * 4 + c / 64) / 4 % 16) % 256 ≡ b
      middle =
          ap (λ t. t % 256) (ap₂ bit_or (omega arith) (omega arith) ∙ join_16 b hb) ∙ omega arith

      last : bit_or ((b % 16 * 4 + c / 64) % 4 * 64) (c % 64) % 256 ≡ c
      last =
          ap (λ t. t % 256) (ap (λ t. bit_or t (c % 64)) (omega arith) ∙ join_64 c hc) ∙ omega arith
