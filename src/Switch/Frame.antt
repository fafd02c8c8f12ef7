-- ===== src/Switch/Frame.antt =====
-- Ethernet frames and their VLAN tags. A frame is the bytes from the destination address on; the
-- buffer has four spare bytes before them.
use vde.Common.{
  ℕ, ◌+◌, ◌-◌, ◌*◌, ◌/◌, ◌%◌, ◌^◌, ◌≤◌, ◌<◌, bit_and, ◌≡◌, refl, ap, ap₂, ◌∙◌, arith, Bool, true,
  ◌&&◌, List, ◌∷◌, ◌++◌, ◌==◌, get_or, take, drop, length, length-take_le, take-append_exact,
  drop-append_past, take-append-drop, get_or-append_left, get_or-append_right, get_or-take,
}
use vde.Common.Bits.{bit_and_mask}
use vde.Hash.{Mac}

-- The bytes and the length that goes with them.
pub record Frame : Type 0 where
  pub bytes : List ℕ
  pub len : ℕ

abbrev pub byte : Frame → ℕ → ℕ
byte f i = get_or f.bytes i 0

abbrev mac_at : Frame → ℕ → Mac
mac_at f i = record {
  b0 = byte f i;
  b1 = byte f (i + 1);
  b2 = byte f (i + 2);
  b3 = byte f (i + 3);
  b4 = byte f (i + 4);
  b5 = byte f (i + 5);
}

-- `packet->header.dest` and `packet->header.src`
abbrev pub dest : Frame → Mac
dest f = mac_at f 0

abbrev pub src : Frame → Mac
src f = mac_at f 6

-- `IS_BROADCAST`: the group bit of the first byte.
unfoldable pub is_broadcast : Mac → Bool
is_broadcast m = bit_and m.b0 1 == 1

-- `packet->header.proto` is 0x8100.
unfoldable pub is_tagged : Frame → Bool
is_tagged f = byte f 12 == 0x81 && byte f 13 == 0

-- `((packet->data[0] << 8) + packet->data[1]) & 0xfff`
unfoldable pub tag_vlan : Frame → ℕ
tag_vlan f = bit_and (byte f 14 * 2 ^ 8 + byte f 15) 0xfff

-- `ISBPDU`: the destination is 01:80:c2:00:00:00.
unfoldable pub is_bpdu : Frame → Bool
is_bpdu f =
    byte f 0 == 0x01
    && byte f 1 == 0x80
    && byte f 2 == 0xc2
    && byte f 3 == 0
    && byte f 4 == 0
    && byte f 5 == 0

-- `TAG2UNTAG`: the two addresses move up by four bytes, over the tag.
unfoldable pub tag2untag : Frame → Frame
tag2untag f = record { bytes = take 12 f.bytes ++ drop 16 f.bytes; len = f.len - 4 }

-- `UNTAG2TAG`: the two addresses move down by four bytes, and the tag is written behind them.
unfoldable pub untag2tag : ℕ → Frame → Frame
untag2tag vlan f = record {
  bytes = take 12 f.bytes ++ 0x81 ∷ 0x00 ∷ (vlan / 2 ^ 8 % 256) ∷ (vlan % 256) ∷ drop 12 f.bytes;
  len = f.len + 4;
}

-- A frame with both addresses.
abbrev HasAddresses : Frame → Type 0
HasAddresses f = 12 ≤ length f.bytes

-- Tagging a frame that has both addresses and untagging it gives the frame back.
pub tag2untag-untag2tag : (vlan : ℕ) (f : Frame) → HasAddresses f → tag2untag (untag2tag vlan f) ≡ f
unfolding tag2untag untag2tag
tag2untag-untag2tag vlan f h =
    let head = take 12 f.bytes in
    let tail = 0x81 ∷ 0x00 ∷ (vlan / 2 ^ 8 % 256) ∷ (vlan % 256) ∷ drop 12 f.bytes in
    let n : length head ≡ 12 = length-take_le 12 f.bytes h in
    let bytes : take 12 (head ++ tail) ++ drop 16 (head ++ tail) ≡ f.bytes =
      ap₂ ◌++◌ (take-append_exact 12 head tail n)
        (drop-append_past 16 head tail (omega (arith, n)) ∙ ap (λ k. drop (16 - k) tail) n)
      ∙ take-append-drop 12 f.bytes in
    λ i. record { bytes = bytes i; len = len i }
  where
    len : f.len + 4 - 4 ≡ f.len
    len = omega arith

-- The bytes of a tagged frame.
module _ (vlan : ℕ) (f : Frame) (h : HasAddresses f) where
  byte-head : (i : ℕ) → i < 12 → byte (untag2tag vlan f) i ≡ byte f i
  unfolding untag2tag
  byte-head i lt =
      get_or-append_left (take 12 f.bytes) _ i 0 (omega (arith, length-take_le {0} 12 f.bytes h))
      ∙ get_or-take 12 f.bytes i 0 lt

  byte-tag :
      (i : ℕ)
      → 12 ≤ i
      → byte (untag2tag vlan f) i
        ≡ get_or (0x81 ∷ 0x00 ∷ (vlan / 2 ^ 8 % 256) ∷ (vlan % 256) ∷ drop 12 f.bytes) (i - 12) 0
  unfolding untag2tag
  byte-tag i le =
      let n : length (take 12 f.bytes) ≡ 12 = length-take_le 12 f.bytes h in
      get_or-append_right (take 12 f.bytes) _ i 0 (omega (arith, n))
      ∙ ap
          (λ k.
            get_or (0x81 ∷ 0x00 ∷ (vlan / 2 ^ 8 % 256) ∷ (vlan % 256) ∷ drop 12 f.bytes) (i - k) 0)
          n

-- A frame with both addresses that is tagged for a VLAN of 12 bits reads as tagged, for that VLAN, and
-- keeps its addresses.
pub untag2tag_lem :
    (vlan : ℕ) (f : Frame)
    → HasAddresses f
    → vlan < 2 ^ 12
    → let g = untag2tag vlan f in
      (is_tagged g ≡ true) × (tag_vlan g ≡ vlan) × (dest g ≡ dest f) × (src g ≡ src f)
unfolding is_tagged tag_vlan
untag2tag_lem vlan f h v =
    let b = byte-tag vlan f h in
    let same = byte-head vlan f h in
    (
      rw (b 12 (omega arith), b 13 (omega arith)) refl,
      rw (b 14 (omega arith), b 15 (omega arith)) (bit_and_mask 12 _ ∙ omega arith),
      λ i.
          mac (same 0 (omega arith) i) (same 1 (omega arith) i) (same 2 (omega arith) i)
            (same 3 (omega arith) i) (same 4 (omega arith) i) (same 5 (omega arith) i),
      λ i.
          mac (same 6 (omega arith) i) (same 7 (omega arith) i) (same 8 (omega arith) i)
            (same 9 (omega arith) i) (same 10 (omega arith) i) (same 11 (omega arith) i),
    )
  where
    mac : ℕ → ℕ → ℕ → ℕ → ℕ → ℕ → Mac
    mac a b c d e f = record { b0 = a; b1 = b; b2 = c; b3 = d; b4 = e; b5 = f }
