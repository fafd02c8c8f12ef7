-- ===== src/Tests/Bridging.antt =====
-- What the office switch tells other switches, and a packet of theirs that comes in on it.
use mathlib.Core.Bool.{false≢true}
use vde.Common.{
  ℕ, zero, suc, ◌<◌, ◌≡◌, refl, arith, Bool, true, false, none, some, ◌&&◌, ltb, List, [], ◌∷◌, All,
  ◌++◌,
}
use vde.Timer.{qtime}
use vde.BitArray.{ba_check}
use vde.Switch.{vlan_at}
use vde.Switch.Status.{HasPlace}
use vde.Switch.Wired.{IsBytes, in_table}
use vde.Switch.Forward.{send_port}
use vde.Fstp.{Bridge, vlst_at}
use vde.Fstp.Packets.{bpdu_frame, stp_bytes}
use vde.Fstp.Send.{fst_sendbpdu}
use vde.Fstp.Layout.{TellsRoot, silence, fst_sendbpdu-TellsRoot}
use vde.Fstp.Receive.{handle_in_packet}
use vde.Fstp.Hello.{fst_hello}
use vde.Fstp.Upkeep.{fst_hello-IsKept}
use vde.Fstp.Fit.{IsFit, IsKept}
use vde.Fstp.Wiring.{handle_in_packet-IsKept}
use vde.Tests.Office.{office-within}
use vde.Tests.Frames.{bytes_below}
use vde.Tests.Tree.{tree, talking, talking-IsWired, offer}

abbrev are_bytes : List ℕ → Bool
are_bytes [] = true
are_bytes (x ∷ xs) = ltb x 256 && are_bytes xs

are_bytes-All : (xs : List ℕ) → are_bytes xs ≡ true → All (λ b. b < 256) xs
are_bytes-All [] h = tt
are_bytes-All (x ∷ xs) h = (ground arith, are_bytes-All xs (ground arith))

offer-IsBytes : IsBytes (bpdu_frame offer)
unfolding bpdu_frame stp_bytes
offer-IsBytes = bytes_below (bpdu_frame offer).bytes (are_bytes-All (bpdu_frame offer).bytes refl)

talking-places :
    (u i : ℕ) → in_table talking.switch u i ≡ true → HasPlace (vlan_at talking.switch u) i
unfolding ba_check
talking-places zero i m =
    let low = office-within 0 i m in
    record {
      bctag = omega (arith, low);
      bcuntag = omega (arith, low);
      notlearning = omega (arith, low);
    }
talking-places (suc zero) i m =
    let low = office-within 1 i m in
    record {
      bctag = omega (arith, low);
      bcuntag = omega (arith, low);
      notlearning = omega (arith, low);
    }
talking-places (suc (suc zero)) i m =
    let low = office-within 2 i m in
    record {
      bctag = omega (arith, low);
      bcuntag = omega (arith, low);
      notlearning = omega (arith, low);
    }
talking-places (suc (suc (suc u))) i m = absurd (false≢true m)

talking-IsFit : IsFit talking.switch
talking-IsFit = record { wired = talking-IsWired; placed = talking-places }

handle_in_packet-IsKept_example :
    IsKept talking.switch (handle_in_packet (some 0) 1 (bpdu_frame offer) talking).switch
handle_in_packet-IsKept_example =
    handle_in_packet-IsKept (some 0) 1 (bpdu_frame offer) talking talking-IsFit offer-IsBytes

fst_hello-IsKept_example : IsKept talking.switch (fst_hello talking).switch
fst_hello-IsKept_example = fst_hello-IsKept talking talking-IsFit

-- The root is behind port 1 and was heard eight seconds ago; port 2 is in the tree without a tag.
abbrev heard : Bridge
heard = record talking {
  fsttab = none ∷ some (record tree { rootport = 1; roottimestamp = 12 }) ∷ none ∷ [];
}

fst_sendbpdu-TellsRoot_example :
    let c = fst_sendbpdu 1 2 false false false heard in
    (c.sent ≡ [] ++ send_port heard.switch (bpdu_frame c.outpacket) 2)
    × TellsRoot (vlst_at heard 1) 20 c.outpacket
    × Unit {0}
unfolding ba_check qtime
fst_sendbpdu-TellsRoot_example =
    fst_sendbpdu-TellsRoot 1 2 false false false heard refl (omega arith) (omega arith)
      (λ e. absurd (false≢true e))

heard-age : silence (vlst_at heard 1) 20 ≡ 8
heard-age = refl
