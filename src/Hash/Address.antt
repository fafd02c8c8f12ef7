-- ===== src/Hash/Address.antt =====
-- `extmac`, the key of an address in a VLAN, and `EMAC2VLAN`.
use vde.Common.{ℕ, ◌^◌, ◌<◌, ◌≡◌, arith}
use vde.Hash.{Mac, extmac, emac2vlan}

-- Six bytes.
pub record IsMac (m : Mac) : Type 0 where
  pub b0 : m.b0 < 256
  pub b1 : m.b1 < 256
  pub b2 : m.b2 < 256
  pub b3 : m.b3 < 256
  pub b4 : m.b4 < 256
  pub b5 : m.b5 < 256

-- The key of a six-byte address in a 16-bit VLAN gives the VLAN back.
pub emac2vlan-extmac :
    (m : Mac) (vlan : ℕ) → IsMac m → vlan < 2 ^ 16 → emac2vlan (extmac m vlan) ≡ vlan
unfolding emac2vlan extmac
emac2vlan-extmac m vlan h v = omega arith

-- No two addresses of six bytes, or VLANs of 16 bits, share a key.
pub extmac-injective :
    (m n : Mac) (v w : ℕ)
    → IsMac m
    → IsMac n
    → v < 2 ^ 16
    → w < 2 ^ 16
    → extmac m v ≡ extmac n w
    → (m ≡ n) × (v ≡ w)
unfolding extmac
extmac-injective m n v w h k hv hw e = ground arith
