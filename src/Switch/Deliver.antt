-- ===== src/Switch/Deliver.antt =====
-- Where a frame goes: the ports of its VLAN, by the address table, each in the form it takes.
use vde.Common.{
  ℕ, ◌*◌, ◌<◌, ◌≡◌, refl, ap, ap₂, sym, ◌∙◌, arith, Bool, true, false, ◌&&◌, ◌||◌, not, Option,
  none, some, List, [], ◌++◌, if◌then◌else◌, ◌==◌, keep, keep-append, Bool-cases, Option-cases, inl,
  inr,
}
use mathlib.Core.Bool.{true≢false}
use mathlib.Core.List.{append-nil}
use vde.BitArray.{words_for, ba_forall}
use vde.BitArray.Iterate.{upto, ba_forall-keep}
use vde.Hash.{find_in_hash}
use vde.Switch.{Switch, vlan_at, port_at, untag_of}
use vde.Switch.Frame.{Frame, dest, is_broadcast, tag2untag, untag2tag}
use vde.Switch.Forward.{Sent, send_port, send_others, flood, unicast, deliver}
use vde.Switch.Flood.{received, received-send_past, received-send_others, within}
use vde.Switch.Wired.{IsWired, in_bctag, in_bcuntag}

-- The port behind which the destination of a frame was learned.
abbrev pub known : Switch → ℕ → Frame → Option ℕ
known s vlan f = if is_broadcast (dest f) then none else find_in_hash (dest f) vlan s.hash

-- Whether a frame goes to port `i`: to the one known port, else to all that forward in the VLAN.
abbrev pub goes_to : Switch → ℕ → Option ℕ → ℕ → Bool
goes_to s vlan none i = in_bctag s vlan i || in_bcuntag s vlan i
goes_to s vlan (some q) i = q == i

-- The form in which port `i` takes a frame of a VLAN: untagged in its untagged VLAN, else tagged.
abbrev pub shape : Switch → ℕ → Bool → Frame → ℕ → Frame
shape s vlan tagged f i =
    if untag_of (port_at s i) == vlan
    then if tagged then tag2untag f else f
    else if tagged
    then f
    else untag2tag vlan f

in_words : (n i : ℕ) (b : Bool) → (b ≡ true → i < n) → (within (words_for n * 64) 0 i && b) ≡ b
unfolding within
in_words n i b h = ground arith

-- Two loops of which one at most reaches a port.
two_forms :
    (t u on : Bool) (xs ys zs : List Sent)
    → (t ≡ true → (u ≡ false) × (zs ≡ xs))
    → (u ≡ true → zs ≡ ys)
    → (if t && on then xs else []) ++ (if u && on then ys else [])
      ≡ (if (t || u) && on then zs else [])
two_forms true u true xs ys zs ht hu = rw ((ht refl).0) (append-nil xs ∙ sym (ht refl).1)
two_forms true u false xs ys zs ht hu = rw ((ht refl).0) refl
two_forms false true true xs ys zs ht hu = sym (hu refl)
two_forms false true false xs ys zs ht hu = refl
two_forms false false on xs ys zs ht hu = refl

or_swap : (a b : Bool) → (a || b) ≡ (b || a)
or_swap a b = ground arith

module _ (s : Switch) (w : IsWired s) (port vlan : ℕ) (f : Frame) (i : ℕ) where
  loop_for :
      (x : ℕ → Bool) (g : Frame)
      → (x i ≡ true → i < s.numports)
      → received i (send_others s g port (keep x (upto (words_for s.numports * 64) 0)))
        ≡ (if x i && not (i == port) then send_port s g i else [])
  loop_for x g h =
      received-send_others s w.numbered g x port i (words_for s.numports * 64) 0
      ∙ rw (in_words s.numports i (x i) h) refl

  received-bctag :
      (g : Frame)
      → received i (send_others s g port (ba_forall (vlan_at s vlan).bctag s.numports))
        ≡ (if in_bctag s vlan i && not (i == port) then send_port s g i else [])
  received-bctag g =
      rw (ba_forall-keep (vlan_at s vlan).bctag s.numports)
        (loop_for (in_bctag s vlan) g (λ h. w.within vlan i (w.tagged vlan i h).0))

  received-bcuntag :
      (g : Frame)
      → received i (send_others s g port (ba_forall (vlan_at s vlan).bcuntag s.numports))
        ≡ (if in_bcuntag s vlan i && not (i == port) then send_port s g i else [])
  received-bcuntag g =
      rw (ba_forall-keep (vlan_at s vlan).bcuntag s.numports)
        (loop_for (in_bcuntag s vlan) g (λ h. w.within vlan i (w.untagged vlan i h).0))

  apart : in_bctag s vlan i ≡ true → in_bcuntag s vlan i ≡ false
  apart h = elim (Bool-cases (in_bcuntag s vlan i)) [
    | inl also ↦ absurd (true≢false (sym (w.untagged vlan i also).1 ∙ (w.tagged vlan i h).1))
    | inr not_also ↦ not_also
  ]

  apart' : in_bcuntag s vlan i ≡ true → in_bctag s vlan i ≡ false
  apart' h = elim (Bool-cases (in_bctag s vlan i)) [
    | inl also ↦ absurd (true≢false (sym (w.untagged vlan i h).1 ∙ (w.tagged vlan i also).1))
    | inr not_also ↦ not_also
  ]

  received-flood :
      (tagged : Bool)
      → received i (flood s port vlan tagged f) ≡ (
          if goes_to s vlan none i && not (i == port)
          then send_port s (shape s vlan tagged f i) i
          else [])
  unfolding flood
  received-flood true =
      keep-append (λ x. x.port == i) _ (send_others s (tag2untag f) port _)
      ∙ ap₂ ◌++◌ (received-bctag f) (received-bcuntag (tag2untag f))
      ∙ two_forms (in_bctag s vlan i) (in_bcuntag s vlan i) (not (i == port)) (send_port s f i)
          (send_port s (tag2untag f) i) (send_port s (shape s vlan true f i) i)
          (λ h. (apart h, rw ((w.tagged vlan i h).1) refl)) (λ h. rw ((w.untagged vlan i h).1) refl)
  received-flood false =
      keep-append (λ x. x.port == i) _ (send_others s (untag2tag vlan f) port _)
      ∙ ap₂ ◌++◌ (received-bcuntag f) (received-bctag (untag2tag vlan f))
      ∙ two_forms (in_bcuntag s vlan i) (in_bctag s vlan i) (not (i == port)) (send_port s f i)
          (send_port s (untag2tag vlan f) i) (send_port s (shape s vlan false f i) i)
          (λ h. (apart' h, rw ((w.untagged vlan i h).1) refl))
          (λ h. rw ((w.tagged vlan i h).1) refl)
      ∙ rw (or_swap (in_bctag s vlan i) (in_bcuntag s vlan i)) refl

  unicast-shape :
      (tagged : Bool) (q : ℕ)
      → unicast s port vlan tagged f q
        ≡ (if q == port then [] else send_port s (shape s vlan tagged f q) q)
  unfolding unicast
  unicast-shape tagged q = ground arith

  received-unicast :
      (tagged : Bool) (q : ℕ)
      → received i (unicast s port vlan tagged f q)
        ≡ (if (q == i) && not (i == port) then send_port s (shape s vlan tagged f i) i else [])
  received-unicast tagged q =
      ap (received i) (unicast-shape tagged q)
      ∙ received-send_past s w.numbered (shape s vlan tagged f q) port i q
      ∙ elim (Bool-cases (q == i)) [
        | inl here ↦ let e : q ≡ i = ground arith in rw (here, e) (ground arith)
        | inr other ↦ rw other (ground arith)
      ]

  pub received-deliver :
      (tagged : Bool)
      → received i (deliver s port vlan tagged f) ≡ (
          if goes_to s vlan (known s vlan f) i && not (i == port)
          then send_port s (shape s vlan tagged f i) i
          else [])
  unfolding deliver
  received-deliver tagged = elim (Bool-cases (is_broadcast (dest f))) [
    | inl group ↦ rw (group, deliver) (received-flood tagged)
    | inr single ↦ elim (Option-cases (find_in_hash (dest f) vlan s.hash)) [
      | inl unknown ↦ rw (single, unknown, deliver) (received-flood tagged)
      | inr (q, learned) ↦ rw (single, learned, deliver) (received-unicast tagged q)
    ]
  ]
