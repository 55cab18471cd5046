-- ===== src/Proxy/Connected.antt =====
-- The sockets and threads that src/lte_proxy.cc and src/nr_proxy.cc set up.
use oai_lte_5g_multi_ue_prox.Base.{
  dec_lt, ℕ, zero, suc, ◌+◌, ◌*◌, ◌≤◌, ◌<◌, ◌≡◌, ◌≢◌, ◌⊎◌, ◌↔◌, ◌∙◌, refl, ap, subst, inl, inr,
  Bool, true, false, ◌&&◌, Option, none, some, List, [], ◌∷◌, ◌++◌, arith, if◌then◌else◌, ◌==◌, ltb,
  length, get_elem?, get_elem?-cases,
}
use oai_lte_5g_multi_ue_prox.Proxy.{port_delta}
use oai_lte_5g_multi_ue_prox.Proxy.Setup.{
  Socket, SystemCalls, Call, MultiUeProxy, max_ues, socket_of, init_tx_socket, init_oai_socket,
  after, Ports, configure_ues,
}

-- `init_oai_socket` comes to the Tx socket.
abbrev pub reaches_tx : SystemCalls → Bool
reaches_tx sys = elim sys.rx_opened [ none ↦ false | some fd ↦ sys.rx_bound && sys.address_good ]

-- The entries of a UE after its setup, from its entry before.
abbrev pub IsSetUp : SystemCalls → Socket → Socket × Socket → Type 0
IsSetUp sys before (rx, tx) =
    (rx ≡ socket_of sys.rx_opened)
    × (tx ≡ (if reaches_tx sys then socket_of sys.tx_opened else before))

-- The setup of a UE writes its own entries only.
record SetsUp (sys : SystemCalls) (i : ℕ) (p q : MultiUeProxy) : Type 0 where
  own : IsSetUp sys (p.ue_tx_socket i) (q.ue_rx_socket i, q.ue_tx_socket i)
  rx_others : (j : ℕ) → j ≢ i → q.ue_rx_socket j ≡ p.ue_rx_socket j
  tx_others : (j : ℕ) → j ≢ i → q.ue_tx_socket j ≡ p.ue_tx_socket j
  same_addresses : q.oai_ue_ipaddr ≡ p.oai_ue_ipaddr
  same_p7_port : q.pnf_p7port ≡ p.pnf_p7port

init_oai_socket-SetsUp :
    (sys : SystemCalls) (addr : List ℕ) (tx_port rx_port i : ℕ) (p : MultiUeProxy)
    → SetsUp sys i p (init_oai_socket sys addr tx_port rx_port i p).0
unfolding init_oai_socket init_tx_socket
init_oai_socket-SetsUp sys addr tx_port rx_port i p =
    let same : (i == i) ≡ true = ground arith in
    record {
      own = ground (arith, same);
      rx_others = λ j other. ground arith;
      tx_others = λ j other. ground arith;
      same_addresses = ground arith;
      same_p7_port = ground arith;
    }

after-none :
    (calls : List Call) (o : Option (MultiUeProxy × List Call))
    → (after calls o ≡ none) ↔ (o ≡ none)
after-none calls none = ((λ e. refl), (λ e. refl))
after-none calls (some (p, rest)) = ((λ e. cc), (λ e. cc))

module _ (ports : Ports) where
  abbrev pub set_up : ℕ → SystemCalls → List ℕ → MultiUeProxy → MultiUeProxy × Bool × List Call
  set_up k sys addr p =
      init_oai_socket sys addr (ports.tx_base + k * port_delta) (ports.rx_base + k * port_delta) k p

  pub configure_ues-step :
      (k : ℕ) (sys : SystemCalls) (more : List SystemCalls) (p : MultiUeProxy) (addr : List ℕ)
      → get_elem? p.oai_ue_ipaddr k ≡ some addr
      → k < max_ues
      → configure_ues ports k (sys ∷ more) p
        ≡ after (set_up k sys addr p).2 (configure_ues ports (suc k) more (set_up k sys addr p).0)
  unfolding configure_ues
  configure_ues-step k sys more p addr e inside =
      let t : ltb k max_ues ≡ true = ground arith in ground (arith, e, t)

  -- The loop is defined exactly inside the tables and the vector.
  pub configure_ues-none :
      (k : ℕ) (systems : List SystemCalls) (p : MultiUeProxy)
      → k ≤ length p.oai_ue_ipaddr
      → k ≤ max_ues
      → (configure_ues ports k systems p ≡ none)
        ↔ ((length p.oai_ue_ipaddr < k + length systems) ⊎ (max_ues < k + length systems))
  unfolding configure_ues
  configure_ues-none k [] p some_left fits = ((λ e. cc), (λ e. absurd (omega (arith, e))))
  configure_ues-none k (sys ∷ more) p some_left fits = elim (get_elem?-cases p.oai_ue_ipaddr k) [
    | inl (e, beyond) ↦ ground (arith, e, beyond)
    | inr (addr, e, inside) ↦ elim (dec_lt k max_ues) [
      | no full ↦ let t : ltb k max_ues ≡ false = ground arith in ground (arith, e, t, full)
      | yes room ↦
          let p' = (set_up k sys addr p).0 in
          let same =
            (init_oai_socket-SetsUp sys addr (ports.tx_base + k * port_delta)
              (ports.rx_base + k * port_delta) k p).same_addresses in
          let same_length : length p'.oai_ue_ipaddr ≡ length p.oai_ue_ipaddr = ap length same in
          let (from_none, to_none) =
            after-none (set_up k sys addr p).2 (configure_ues ports (suc k) more p') in
          let (there, back) = configure_ues-none (suc k) more p' (omega arith) (omega arith) in
          rw (configure_ues-step k sys more p addr e room) (
            (λ none_later. widen p' same_length (there (from_none none_later))),
            (λ short. to_none (back (narrow p' same_length short))),
          )
    ]
  ]
    where
      widen :
          (p' : MultiUeProxy)
          → length p'.oai_ue_ipaddr ≡ length p.oai_ue_ipaddr
          → (length p'.oai_ue_ipaddr < suc k + length more) ⊎ (max_ues < suc k + length more)
          → (length p.oai_ue_ipaddr < k + suc (length more)) ⊎ (max_ues < k + suc (length more))
      widen p' same short = ground arith

      narrow :
          (p' : MultiUeProxy)
          → length p'.oai_ue_ipaddr ≡ length p.oai_ue_ipaddr
          → (length p.oai_ue_ipaddr < k + suc (length more)) ⊎ (max_ues < k + suc (length more))
          → (length p'.oai_ue_ipaddr < suc k + length more) ⊎ (max_ues < suc k + length more)
      narrow p' same short = ground arith

  -- After the loop, each UE's entries are those of its setup, and earlier ones are as they were.
  pub record SetUpFrom (k : ℕ) (systems : List SystemCalls) (p q : MultiUeProxy) : Type 0 where
    pub own :
        (i : ℕ) (sys : SystemCalls)
        → get_elem? systems i ≡ some sys
        → IsSetUp sys (p.ue_tx_socket (k + i)) (q.ue_rx_socket (k + i), q.ue_tx_socket (k + i))
    pub earlier :
        (j : ℕ)
        → j < k
        → (q.ue_rx_socket j ≡ p.ue_rx_socket j) × (q.ue_tx_socket j ≡ p.ue_tx_socket j)
    pub same_addresses : q.oai_ue_ipaddr ≡ p.oai_ue_ipaddr
    pub same_p7_port : q.pnf_p7port ≡ p.pnf_p7port

  SetUpFrom-cons :
      (k : ℕ) (sys : SystemCalls) (more : List SystemCalls) (p p' q : MultiUeProxy)
      → SetsUp sys k p p'
      → SetUpFrom (suc k) more p' q
      → SetUpFrom k (sys ∷ more) p q
  SetUpFrom-cons k sys more p p' q first later = record {
    own = own;
    earlier = λ j before.
        let (rx, tx) = later.earlier j (omega (arith, before)) in
        let other : j ≢ k = λ e. absurd (omega (arith, e, before)) in
        (rx ∙ first.rx_others j other, tx ∙ first.tx_others j other);
    same_addresses = later.same_addresses ∙ first.same_addresses;
    same_p7_port = later.same_p7_port ∙ first.same_p7_port;
  }
    where
      At : SystemCalls → ℕ → Type 0
      At s j = IsSetUp s (p.ue_tx_socket j) (q.ue_rx_socket j, q.ue_tx_socket j)

      own :
          (i : ℕ) (s : SystemCalls)
          → get_elem? (sys ∷ more) i ≡ some s
          → IsSetUp s (p.ue_tx_socket (k + i)) (q.ue_rx_socket (k + i), q.ue_tx_socket (k + i))
      own zero s e =
          let (rx, tx) = later.earlier k (omega arith) in
          let here : At sys k = (rx ∙ first.own.0, tx ∙ first.own.1) in
          let same : sys ≡ s = cc in
          let place : k ≡ k + 0 = omega arith in
          subst (λ s'. At s' (k + 0)) same (subst (At sys) place here)
      own (suc i) s e =
          let (rx, tx) = later.own i s e in
          let other = first.tx_others (suc k + i) (λ same. absurd (omega (arith, same))) in
          let there : At s (suc k + i) = (
            rx,
            tx ∙ ap (λ before. if reaches_tx s then socket_of s.tx_opened else before) other,
          ) in
          let place : suc k + i ≡ k + suc i = omega arith in subst (At s) place there

  pub configure_ues-SetUpFrom :
      (k : ℕ) (systems : List SystemCalls) (p : MultiUeProxy)
      → k + length systems ≤ length p.oai_ue_ipaddr
      → k + length systems ≤ max_ues
      → (q : MultiUeProxy) × (calls : List Call) × (configure_ues ports k systems p
          ≡ some (q, calls))
        × SetUpFrom k systems p q
  unfolding configure_ues
  configure_ues-SetUpFrom k [] p enough fits = (
    p,
    [],
    refl,
    record {
      own = λ i sys e. cc;
      earlier = λ j before. (refl, refl);
      same_addresses = refl;
      same_p7_port = refl;
    },
  )
  configure_ues-SetUpFrom k (sys ∷ more) p enough fits = elim (get_elem?-cases p.oai_ue_ipaddr k) [
    | inl (e, beyond) ↦ absurd (omega (arith, beyond, enough))
    | inr (addr, e, inside) ↦
        let (p', done, calls) = set_up k sys addr p in
        let first =
          init_oai_socket-SetsUp sys addr (ports.tx_base + k * port_delta)
            (ports.rx_base + k * port_delta) k p in
        let same_length = ap length first.same_addresses in
        let (q, rest, run, later) =
          configure_ues-SetUpFrom (suc k) more p' (omega (arith, same_length, enough))
            (omega (arith, fits)) in
        (
          q,
          calls ++ rest,
          configure_ues-step k sys more p addr e (omega (arith, fits)) ∙ ap (after calls) run,
          SetUpFrom-cons k sys more p p' q first later,
        )
  ]
