-- ===== src/Admin/Closing.antt =====
-- `close_ep` after `setup_ep`.
use vde.Common.{
  ℕ, ◌<◌, ◌≡◌, refl, sym, ap, ◌∙◌, arith, Bool, true, Option, none, some, List, ◌∷◌, if◌then◌else◌,
  ◌==◌, ltb, get_or, Bool-cases, inl, inr, ==-refl,
}
use mathlib.Core.Bool.{false≢true}
use vde.Common.Int.{ℤ, pos, in_range}
use vde.Timer.{is_empty}
use vde.BitArray.{bac_forall}
use vde.Switch.{Endpoint, Port, port_at, novlan}
use vde.Fstp.{Bridge, numofvlan, for_each}
use vde.Admin.{change_port, forget_port}
use vde.Admin.Endpoints.{
  endpoint, setup_ep, rec_close_ep, deactivate, deactivate_port, close_ep_port_fd, close_ep,
}
use vde.Admin.Kept.{deactivate-SamePorts}
use vde.Admin.Opening.{eps_of, eps_at, eps-change, eps-change_same, IsAdded, setup_ep-IsAdded}

-- What closing the first endpoint of a port does.
rec_close_ep-first :
    (e : Endpoint) (es : List Endpoint) → rec_close_ep (e ∷ es) e.fd_ctl ≡ (some e, es)
unfolding rec_close_ep
rec_close_ep-first e es = rw (==-refl e.fd_ctl) refl

module _ (i vlanuntag : ℕ) (c : Bridge) where
  deactivate_port-eps : (k : ℕ) → eps_at (deactivate_port i vlanuntag c) k ≡ eps_at c k
  unfolding deactivate_port
  deactivate_port-eps k =
      let idle = λ (p : Port). record p { ms = none; curuser = none } in
      let c1 = change_port i idle (forget_port i c) in
      let is = bac_forall c1.switch.validvlan numofvlan in
      let same : eps_at (for_each is (deactivate i) c1) k ≡ eps_at c k =
        ap (λ ps. eps_of (get_or ps k none)) (deactivate-SamePorts i is c1).portv
        ∙ eps-change_same i k idle (forget_port i c) (λ p. refl) in
      elim (Bool-cases (ltb vlanuntag novlan)) [
        | inl home ↦ rw home same
        | inr tagged_only ↦ rw tagged_only same
      ]

some_port :
    (o : Option Port) (e : Endpoint) (es : List Endpoint)
    → eps_of o ≡ e ∷ es
    → (p : Port) × (o ≡ some p) × (p.ep ≡ e ∷ es)
some_port none e es h = absurd (false≢true (ap is_empty (sym h)))
some_port (some p) e es h = (p, refl, h)

-- The ports' endpoints after the first endpoint of a port is closed.
close_first :
    (e : Endpoint) (es : List Endpoint) (c : Bridge)
    → e.port < c.switch.numports
    → eps_at c e.port ≡ e ∷ es
    → let (r, d) = close_ep e c in
      (r ≡ 0) × ((k : ℕ) → eps_at d k ≡ (if e.port == k then es else eps_at c k))
unfolding close_ep close_ep_port_fd
close_first e es c lt h =
    let (p, there, first) = some_port (port_at c.switch e.port) e es h in
    let below : in_range (pos e.port) c.switch.numports ≡ true = ground arith in
    let gone = ap (λ es. rec_close_ep es e.fd_ctl) first ∙ rec_close_ep-first e es in
    let shorter = λ (p : Port). record p { ep = es } in
    let eps : (k : ℕ)
        → eps_at (change_port e.port shorter c) k ≡ (if e.port == k then es else eps_at c k) =
      λ k. eps-change e.port k shorter c ∙ elim (Bool-cases (e.port == k)) [
        | inl here ↦ rw (here, there) refl
        | inr other ↦ rw other refl
      ] in
    elim (Bool-cases (is_empty es)) [
      | inl last ↦
          rw (below, there, gone, last, close_ep_port_fd)
            (
              refl,
              λ k. deactivate_port-eps e.port p.vlanuntag (change_port e.port shorter c) k ∙ eps k,
            )
      | inr more ↦ rw (below, there, gone, more, close_ep_port_fd) (refl, eps)
    ]

-- When `setup_ep` gives an endpoint, `close_ep` of it returns 0, and every port then has the endpoints
-- that it had before.
pub close_ep-setup_ep :
    (belongs : ℕ → ℕ → Bool) (port_memory ep_memory : Bool) (portno : ℤ)
    (fd_ctl fd_data user ms : ℕ) (b c : Bridge) (e : Endpoint) (k : ℕ)
    → setup_ep belongs port_memory ep_memory portno fd_ctl fd_data user ms b ≡ (endpoint e, c)
    → ((close_ep e c).0 ≡ 0) × (eps_at (close_ep e c).1 k ≡ eps_at b k)
close_ep-setup_ep belongs port_memory ep_memory portno fd_ctl fd_data user ms b c e k h =
    let a : IsAdded b c e = rw (sym (ap (λ p. p.1) h)) (
      setup_ep-IsAdded belongs port_memory ep_memory portno fd_ctl fd_data user ms b e
        (ap (λ p. p.0) h)) in
    let (r, eps) =
      close_first e (eps_at b e.port) c a.below (a.eps e.port ∙ rw (==-refl e.port) refl) in
    (
      r,
      eps k ∙ elim (Bool-cases (e.port == k)) [
        | inl here ↦ let q : e.port ≡ k = ground arith in rw here (ap (eps_at b) q)
        | inr other ↦ rw other (a.eps k ∙ rw other refl)
      ],
    )
