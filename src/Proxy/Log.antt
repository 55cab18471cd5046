-- ===== src/Proxy/Log.antt =====
-- The calls that `configure` of src/lte_proxy.cc and src/nr_proxy.cc makes, when all succeed.
use oai_lte_5g_multi_ue_prox.Base.{
  ℕ, zero, suc, ◌+◌, ◌*◌, ◌≤◌, ◌<◌, ◌≡◌, ◌∙◌, refl, ap, sym, subst, inl, inr, true, some, List, [],
  ◌∷◌, ◌++◌, map, arith, length, get_elem?, get_elem?-cases,
}
use oai_lte_5g_multi_ue_prox.Sfn.{word16}
use oai_lte_5g_multi_ue_prox.Proxy.{port_delta}
use oai_lte_5g_multi_ue_prox.Proxy.Setup.{
  Socket, SystemCalls, Call, bind_call, connect_call, MultiUeProxy, max_ues, init_tx_socket,
  init_oai_socket, after, Ports, configure_ues, receivers_from,
}
use oai_lte_5g_multi_ue_prox.Proxy.Connected.{set_up, configure_ues-step}

-- All calls for a UE succeed, with these two descriptors.
abbrev pub succeed : ℕ × ℕ → SystemCalls
succeed (rx, tx) = record {
  rx_opened = some rx;
  rx_bound = true;
  address_good = true;
  tx_opened = some tx;
  tx_connected = true;
}

pub length-succeed : (fds : List (ℕ × ℕ)) → length (map succeed fds) ≡ length fds
length-succeed [] = refl
length-succeed (fd ∷ fds) = ap suc (length-succeed fds)

pub get_elem?-succeed :
    (fds : List (ℕ × ℕ)) (i : ℕ) (fd : ℕ × ℕ)
    → get_elem? fds i ≡ some fd
    → get_elem? (map succeed fds) i ≡ some (succeed fd)
get_elem?-succeed [] i fd e = cc
get_elem?-succeed (f ∷ fds) zero fd e = let same : f ≡ fd = cc in ap (λ g. some (succeed g)) same
get_elem?-succeed (f ∷ fds) (suc i) fd e = get_elem?-succeed fds i fd e

pub length-receivers_from : (table : ℕ → Socket) (k n : ℕ) → length (receivers_from table k n) ≡ n
unfolding receivers_from
length-receivers_from table k zero = refl
length-receivers_from table k (suc n) = ap suc (length-receivers_from table (suc k) n)

pub get_elem?-receivers_from :
    (table : ℕ → Socket) (k n i : ℕ)
    → i < n
    → get_elem? (receivers_from table k n) i ≡ some (k + i, table (k + i))
unfolding receivers_from
get_elem?-receivers_from table k zero i h = absurd (omega arith)
get_elem?-receivers_from table k (suc n) zero h =
    let place : k ≡ k + 0 = omega arith in ap (λ j. some (j, table j)) place
get_elem?-receivers_from table k (suc n) (suc i) h =
    let place : suc k + i ≡ k + suc i = omega arith in
    get_elem?-receivers_from table (suc k) n i (omega arith) ∙ ap (λ j. some (j, table j)) place

module _ (ports : Ports) where
  -- The two calls for UE j, at place i of the log.
  abbrev pub Logged : List Call → ℕ → ℕ → ℕ × ℕ → List ℕ → Type 0
  Logged calls i j (rx, tx) addr =
      (get_elem? calls (i * 2) ≡ some (bind_call rx (word16 (ports.rx_base + j * port_delta))))
      × (get_elem? calls (i * 2 + 1)
          ≡ some (connect_call tx addr (word16 (ports.tx_base + j * port_delta))))

  pub record Log (k : ℕ) (fds : List (ℕ × ℕ)) (ips : List (List ℕ)) (calls : List Call)
      : Type 0 where
    pub two_each : length calls ≡ length fds * 2
    pub logged :
        (i : ℕ) (fd : ℕ × ℕ) (addr : List ℕ)
        → get_elem? fds i ≡ some fd
        → get_elem? ips (k + i) ≡ some addr
        → Logged calls i (k + i) fd addr

  Log-cons :
      (k : ℕ) (rx tx : ℕ) (fds : List (ℕ × ℕ)) (ips : List (List ℕ)) (addr : List ℕ)
      (rest : List Call)
      → get_elem? ips k ≡ some addr
      → Log (suc k) fds ips rest
      → Log k ((rx, tx) ∷ fds) ips (
          bind_call rx (word16 (ports.rx_base + k * port_delta))
          ∷ connect_call tx addr (word16 (ports.tx_base + k * port_delta))
          ∷ rest)
  Log-cons k rx tx fds ips addr rest e later = record {
    two_each = omega (arith, later.two_each);
    logged = logged;
  }
    where
      calls : List Call
      calls =
          bind_call rx (word16 (ports.rx_base + k * port_delta))
          ∷ connect_call tx addr (word16 (ports.tx_base + k * port_delta))
          ∷ rest

      logged :
          (i : ℕ) (fd : ℕ × ℕ) (a : List ℕ)
          → get_elem? ((rx, tx) ∷ fds) i ≡ some fd
          → get_elem? ips (k + i) ≡ some a
          → Logged calls i (k + i) fd a
      logged zero fd a f e' =
          let place : k + 0 ≡ k = omega arith in
          let same_fd : (rx, tx) ≡ fd = cc in
          let same_addr : addr ≡ a = cc (sym e ∙ ap (get_elem? ips) (sym place) ∙ e') in
          subst (λ d. Logged calls 0 (k + 0) d a) same_fd
            (subst (λ b. Logged calls 0 (k + 0) (rx, tx) b) same_addr
              (subst (λ j. Logged calls 0 j (rx, tx) addr) (sym place) (refl, refl)))
      logged (suc i) fd a f e' =
          let place : suc k + i ≡ k + suc i = omega arith in
          let (b, c) = later.logged i fd a f (ap (get_elem? ips) place ∙ e') in
          let even : suc i * 2 ≡ suc (suc (i * 2)) = omega arith in
          let odd : suc i * 2 + 1 ≡ suc (suc (i * 2 + 1)) = omega arith in
          subst (λ j. Logged calls (suc i) j fd a) place
            (ap (get_elem? calls) even ∙ b, ap (get_elem? calls) odd ∙ c)

  pub configure_ues-Log :
      (k : ℕ) (fds : List (ℕ × ℕ)) (p : MultiUeProxy)
      → k + length fds ≤ length p.oai_ue_ipaddr
      → k + length fds ≤ max_ues
      → (q : MultiUeProxy) × (calls : List Call) × (configure_ues ports k (map succeed fds) p
          ≡ some (q, calls))
        × Log k fds p.oai_ue_ipaddr calls
  unfolding configure_ues init_oai_socket init_tx_socket
  configure_ues-Log k [] p enough fits =
      (p, [], refl, record { two_each = refl; logged = λ i fd addr e e'. cc })
  configure_ues-Log k ((rx, tx) ∷ fds) p enough fits = elim (get_elem?-cases p.oai_ue_ipaddr k) [
    | inl (e, beyond) ↦ absurd (omega (arith, beyond, enough))
    | inr (addr, e, inside) ↦
        let sys = succeed (rx, tx) in
        let (p', done, calls) = set_up ports k sys addr p in
        let (q, rest, run, later) =
          configure_ues-Log (suc k) fds p' (omega (arith, enough)) (omega (arith, fits)) in
        (
          q,
          calls ++ rest,
          configure_ues-step ports k sys (map succeed fds) p addr e (omega (arith, fits))
              ∙ ap (after calls) run,
          Log-cons k rx tx fds p.oai_ue_ipaddr addr rest e later,
        )
  ]
