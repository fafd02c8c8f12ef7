-- ===== src/Tests/Naming.antt =====
-- Four bytes as a name.
use vde.Common.{ℕ, ◌≡◌, refl, arith, List, [], ◌∷◌, take}
use vde.Common.Int.{pos}
use vde.Encode.{init_revmap, nstx_encode, encode_loop, encode_group, nstx_decode}
use vde.Encode.Trip.{nstx_decode-encode}
use vde.Tests.Frames.{bytes_below}

abbrev four : List ℕ
four = 77 ∷ 0 ∷ 255 ∷ 3 ∷ []

-- `ctqd0aWaa`: the 2 bytes that the last group has too many, then eight characters.
four_name : nstx_encode four 4 ≡ 99 ∷ 116 ∷ 113 ∷ 100 ∷ 48 ∷ 97 ∷ 87 ∷ 97 ∷ 97 ∷ []
unfolding nstx_encode encode_loop encode_group
four_name = refl

nstx_decode-encode_example :
    let r = nstx_decode (init_revmap 5) (nstx_encode four 4) in
    (r.1 ≡ pos 4) × (take 4 r.0 ≡ take 4 four)
nstx_decode-encode_example =
    nstx_decode-encode 5 4 four
      (bytes_below four (omega arith, (omega arith, (omega arith, (omega arith, tt)))))
      (omega arith)
