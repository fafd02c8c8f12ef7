-- ===== src/Admin/Opening.antt =====
-- `setup_ep`: the endpoints of the ports after it.
use vde.Common.{
  ℕ, ◌<◌, ◌≡◌, ◌≢◌, refl, sym, ap, ◌∙◌, arith, Bool, true, false, ◌&&◌, Option, none, some, List,
  [], ◌∷◌, if◌then◌else◌, ◌==◌, ltb, leb, get_or, set, get_or-set_fix, get_or-set_ne, set_out,
  Bool-cases, Option-cases, inl, inr, ==-refl, length, get_or-set,
}
use mathlib.Core.Bool.{false≢true}
use mathlib.Core.Option.{some-injective, none-ne-some}
use vde.Common.Int.{ℤ}
use vde.Timer.{is_empty}
use vde.Switch.{Endpoint, Port, Switch, port_at}
use vde.Switch.Alloc.{alloc_port, wanted, new_port}
use vde.Fstp.{Bridge}
use vde.Admin.{change, change_port}
use vde.Admin.Endpoints.{SetUp, endpoint, failed, checkport_ac, claim, is_user, push_ep, setup_ep}
use vde.Admin.Kept.{SamePorts, activate_port-SamePorts}

-- The endpoints of a port, none of a port that does not exist.
abbrev pub eps_of : Option Port → List Endpoint
eps_of none = []
eps_of (some p) = p.ep

abbrev pub eps_at : Bridge → ℕ → List Endpoint
eps_at b i = eps_of (port_at b.switch i)

-- The endpoints after a change of one port.
pub eps-change :
    (i k : ℕ) (f : Port → Port) (b : Bridge)
    → eps_at (change_port i f b) k
      ≡ eps_of (if i == k then change f (port_at b.switch i) else port_at b.switch k)
eps-change i k f b = ap eps_of (get_or-set_fix b.switch.portv i k (change f) none refl)

-- A change that leaves the endpoints of a port.
pub eps-change_same :
    (i k : ℕ) (f : Port → Port) (b : Bridge)
    → ((p : Port) → (f p).ep ≡ p.ep)
    → eps_at (change_port i f b) k ≡ eps_at b k
eps-change_same i k f b same = eps-change i k f b ∙ elim (Bool-cases (i == k)) [
  | inr other ↦ rw other refl
  | inl here ↦ let e : i ≡ k = ground arith in rw here (rw (sym e) (by_port (port_at b.switch i)))
]
  where
    by_port : (o : Option Port) → eps_of (change f o) ≡ eps_of o
    by_port none = refl
    by_port (some p) = same p

-- `alloc_port` gives a number below the number of ports, keeps that number, and the endpoints of every
-- port.
alloc-eps :
    (portno : ℤ) (memory : Bool) (s : Switch)
    → let (r, t) = alloc_port portno memory s in
      (t.numports ≡ s.numports)
      × ((k : ℕ) → eps_of (port_at t k) ≡ eps_of (port_at s k))
      × ((i : ℕ) → r ≡ some i → i < s.numports)
unfolding alloc_port
alloc-eps portno memory s =
    let i = wanted portno s in
    elim (Bool-cases (leb s.numports i)) [
      | inl full ↦ rw (full, alloc_port) (refl, λ k. refl, λ j e. absurd (none-ne-some j e))
      | inr room ↦ elim (Option-cases (port_at s i)) [
        | inr (p, there) ↦
            rw (room, there, alloc_port)
              (refl, λ k. refl, λ j e. let q = some-injective _ _ e in ground arith)
        | inl gone ↦ elim (Bool-cases memory) [
          | inr no_memory ↦
              rw (room, gone, no_memory, alloc_port)
                (refl, λ k. refl, λ j e. absurd (none-ne-some j e))
          | inl enough ↦
              rw (room, gone, enough, alloc_port)
                (refl, λ k. fresh k gone, λ j e. let q = some-injective _ _ e in ground arith)
        ]
      ]
    ]
  where
    fresh :
        (k : ℕ)
        → port_at s (wanted portno s) ≡ none
        → eps_of (get_or (set s.portv (wanted portno s) (some new_port)) k none)
          ≡ eps_of (port_at s k)
    fresh k gone = elim (Bool-cases (wanted portno s == k)) [
      | inr other ↦
          ap eps_of (get_or-set_ne s.portv (wanted portno s) k (some new_port) none (ground arith))
      | inl same ↦
          let e : wanted portno s ≡ k = ground arith in
          rw (sym e) (
            rw gone (elim (Bool-cases (ltb (wanted portno s) (length s.portv))) [
              | inl inside ↦
                  rw
                    (
                      get_or-set s.portv (wanted portno s) (wanted portno s) (some new_port) none
                          (ground arith),
                      ==-refl (wanted portno s),
                    )
                    refl
              | inr outside ↦
                  rw (set_out s.portv (wanted portno s) (some new_port) (ground arith), gone) refl
            ]))
    ]

is_endpoint : SetUp → Bool
is_endpoint (endpoint e) = true
is_endpoint (failed n) = false

endpoint_of : SetUp → Endpoint
endpoint_of (endpoint e) = e
endpoint_of (failed n) = record { port = 0; fd_ctl = 0; fd_data = 0 }

pub not_failed : (n : ℕ) (e : Endpoint) → failed n ≢ endpoint e
unfolding is_endpoint
not_failed n e h = false≢true (ap is_endpoint h)

pub endpoint-injective : (d e : Endpoint) → endpoint d ≡ endpoint e → d ≡ e
unfolding endpoint_of
endpoint-injective d e h = ap endpoint_of h

-- An endpoint put in front of those of a port that exists.
push-eps :
    (i k ms : ℕ) (e : Endpoint) (p : Port) (b : Bridge)
    → port_at b.switch i ≡ some p
    → eps_at (change_port i (push_ep ms e) b) k ≡ (if i == k then e ∷ eps_at b i else eps_at b k)
push-eps i k ms e p b there =
    eps-change i k (push_ep ms e) b
    ∙ elim (Bool-cases (i == k)) [ inl here ↦ rw (here, there) refl | inr other ↦ rw other refl ]

port_at-change :
    (i : ℕ) (f : Port → Port) (p : Port) (b : Bridge)
    → port_at b.switch i ≡ some p
    → port_at (change_port i f b).switch i ≡ some (f p)
port_at-change i f p b there =
    get_or-set_fix b.switch.portv i i (change f) none refl ∙ rw (==-refl i, there) refl

-- The endpoint is the first of its port, which is one of the ports, and nothing else has come or gone.
pub record IsAdded (b c : Bridge) (e : Endpoint) : Type 0 where
  pub below : e.port < c.switch.numports
  pub eps : (k : ℕ) → eps_at c k ≡ (if e.port == k then e ∷ eps_at b k else eps_at b k)

same-IsAdded :
    (b c c' : Bridge) (e : Endpoint) → SamePorts c.switch c' → IsAdded b c e → IsAdded b c' e
same-IsAdded b c c' e same a = record {
  below = rw same.numports a.below;
  eps = λ k. ap (λ ps. eps_of (get_or ps k none)) same.portv ∙ a.eps k;
}

claim-ep : (belongs : ℕ → ℕ → Bool) (user : ℕ) (p : Port) → (claim belongs user p).ep ≡ p.ep
claim-ep belongs user p = elim (Bool-cases (is_empty p.ep && checkport_ac belongs p user)) [
  | inl free ↦ rw (claim, free) refl
  | inr held ↦ rw (claim, held) refl
]

module _ (belongs : ℕ → ℕ → Bool) (port_memory ep_memory : Bool) (portno : ℤ)
    (fd_ctl fd_data user ms : ℕ) (b : Bridge) (e : Endpoint) where
  abbrev pub result : SetUp × Bridge
  result = setup_ep belongs port_memory ep_memory portno fd_ctl fd_data user ms b

  pushed :
      (i : ℕ) (p : Port)
      → i < b.switch.numports
      → (alloc_port portno port_memory b.switch).0 ≡ some i
      → port_at (alloc_port portno port_memory b.switch).1 i ≡ some p
      → let d : Endpoint = record { port = i; fd_ctl = fd_ctl; fd_data = fd_data } in
        IsAdded b
          (change_port i (push_ep ms d) (
            change_port i
              (claim belongs user)
              (record b { switch = (alloc_port portno port_memory b.switch).1 })))
          d
  pushed i p lt found there =
      let (same, eps, below) = alloc-eps portno port_memory b.switch in
      let b1 = record b { switch = (alloc_port portno port_memory b.switch).1 } in
      let b2 = change_port i (claim belongs user) b1 in
      let d : Endpoint = record { port = i; fd_ctl = fd_ctl; fd_data = fd_data } in
      let old : (k : ℕ) → eps_at b2 k ≡ eps_at b k =
        λ k. eps-change_same i k (claim belongs user) b1 (claim-ep belongs user) ∙ eps k in
      record {
        below = rw same lt;
        eps = λ k.
            push-eps i k ms d (claim belongs user p) b2
              (port_at-change i (claim belongs user) p b1 there)
            ∙ elim (Bool-cases (i == k)) [
              | inl here ↦
                  let q : i ≡ k = ground arith in
                  rw here (ap (λ es. d ∷ es) (old i ∙ ap (eps_at b) q))
              | inr other ↦ rw other (old k)
            ];
      }

  pub setup_ep-IsAdded : result.0 ≡ endpoint e → IsAdded b result.1 e
  unfolding setup_ep
  setup_ep-IsAdded h =
      let t = (alloc_port portno port_memory b.switch).1 in
      let b1 = record b { switch = t } in
      elim (Option-cases (alloc_port portno port_memory b.switch).0) [
        | inl full ↦ absurd (not_failed _ e (rw (full, setup_ep) at h))
        | inr (i, found) ↦ elim (Option-cases (port_at t i)) [
          | inl gone ↦ absurd (not_failed _ e (rw (found, gone, setup_ep) at h))
          | inr (p, there) ↦
              let d : Endpoint = record { port = i; fd_ctl = fd_ctl; fd_data = fd_data } in
              let lt = (alloc-eps portno port_memory b.switch).2 i found in
              let add = pushed i p lt found there in
              elim (Bool-cases (is_user (claim belongs user p).curuser user)) [
                | inr other ↦ absurd (not_failed _ e (rw (found, there, other, setup_ep) at h))
                | inl own ↦ elim (Bool-cases ep_memory) [
                  | inr no_memory ↦
                      absurd (not_failed _ e (rw (found, there, own, no_memory, setup_ep) at h))
                  | inl enough ↦ elim (Bool-cases (is_empty p.ep)) [
                    | inl idle ↦
                        let q =
                          endpoint-injective d e
                            (rw (found, there, own, enough, idle, setup_ep) at h) in
                        rw (found, there, own, enough, idle, sym q, setup_ep)
                          (same-IsAdded b _ _ d (activate_port-SamePorts i p.vlanuntag _) add)
                    | inr used ↦
                        let q =
                          endpoint-injective d e
                            (rw (found, there, own, enough, used, setup_ep) at h) in
                        rw (found, there, own, enough, used, sym q, setup_ep) add
                  ]
                ]
              ]
        ]
      ]
