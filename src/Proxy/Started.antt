-- ===== src/Proxy/Started.antt =====
-- What `configure` and `start` of src/lte_proxy.cc and src/nr_proxy.cc leave behind.
use oai_lte_5g_multi_ue_prox.Base.{
  ℕ, ◌+◌, ◌*◌, ◌≤◌, ◌<◌, ◌≡◌, ◌⊎◌, ◌↔◌, ◌∙◌, ap, sym, none, some, List, map, arith, length,
  get_elem?, get_elem?-lt,
}
use oai_lte_5g_multi_ue_prox.Sfn.{word16}
use oai_lte_5g_multi_ue_prox.Start.{SoftmodemMode}
use oai_lte_5g_multi_ue_prox.Proxy.{port_delta}
use oai_lte_5g_multi_ue_prox.Proxy.Setup.{
  Socket, descriptor, SystemCalls, Call, bind_call, connect_call, MultiUeProxy, max_ues, socket_of,
  Ports, configure, initial, start,
}
use oai_lte_5g_multi_ue_prox.Proxy.Connected.{configure_ues-none, configure_ues-SetUpFrom}
use oai_lte_5g_multi_ue_prox.Proxy.Log.{
  succeed, length-succeed, get_elem?-succeed, length-receivers_from, get_elem?-receivers_from,
  configure_ues-Log,
}

-- Every UE is served by its own two sockets.
pub record Connects (ports : Ports) (fds : List (ℕ × ℕ)) (ips : List (List ℕ)) (q : MultiUeProxy)
    (calls : List Call) : Type 0 where
  pub two_each : length calls ≡ length fds * 2
  pub each :
      (i rx tx : ℕ) (addr : List ℕ)
      → get_elem? fds i ≡ some (rx, tx)
      → get_elem? ips i ≡ some addr
      → (q.ue_rx_socket i ≡ descriptor rx)
        × (q.ue_tx_socket i ≡ descriptor tx)
        × (get_elem? calls (i * 2) ≡ some (bind_call rx (ports.rx_base + i * port_delta)))
        × (get_elem? calls (i * 2 + 1)
            ≡ some (connect_call tx addr (ports.tx_base + i * port_delta)))

module _ (ports : Ports) (vnf_ip proxy_ip : List ℕ) (ips : List (List ℕ))
    (rx0 tx0 : ℕ → Socket) where
  abbrev fresh : MultiUeProxy
  fresh = initial ports vnf_ip proxy_ip ips rx0 tx0

  -- `configure` stays inside the vector of addresses and the tables exactly if there are at least
  -- as many addresses as UEs, and at most 100 UEs.
  pub configure-none :
      (systems : List SystemCalls)
      → (configure ports vnf_ip proxy_ip ips systems rx0 tx0 ≡ none)
        ↔ ((length ips < length systems) ⊎ (max_ues < length systems))
  unfolding configure
  configure-none systems =
      let none_iff = configure_ues-none ports 0 systems fresh (omega arith) (omega arith) in
      let start_at : 0 + length systems ≡ length systems = omega arith in rw (← start_at) none_iff

  -- When all system calls succeed, for at most 100 UEs that all have an address, UE i is bound at
  -- the port 2 i above the base of its side, connected to its address at the port 2 i above the
  -- other base, in this order and once each, and the tables have its descriptors.
  pub configure-Connects :
      (fds : List (ℕ × ℕ))
      → ports.rx_base ≤ 4000
      → ports.tx_base ≤ 4000
      → length fds ≤ length ips
      → length fds ≤ max_ues
      → (q : MultiUeProxy) × (calls : List Call) × (configure ports vnf_ip proxy_ip ips
            (map succeed fds)
            rx0
            tx0
          ≡ some (q, calls))
        × Connects ports fds ips q calls
  unfolding configure
  configure-Connects fds rx_low tx_low enough fits =
      let same = length-succeed fds in
      let (q, calls, run, log) =
        configure_ues-Log ports 0 fds fresh (omega (arith, enough)) (omega (arith, fits)) in
      let (q', calls', run', tables) =
        configure_ues-SetUpFrom ports 0 (map succeed fds) fresh (omega (arith, enough, same))
          (omega (arith, fits, same)) in
      let agree : q' ≡ q = cc in
      (
        q,
        calls,
        run,
        record {
          two_each = log.two_each;
          each = λ i rx tx addr f e.
              let inside = get_elem?-lt fds i (rx, tx) f in
              let place : 0 + i ≡ i = omega arith in
              let (b, c) = log.logged i (rx, tx) addr f (ap (get_elem? ips) place ∙ e) in
              let (r, t) = tables.own i (succeed (rx, tx)) (get_elem?-succeed fds i (rx, tx) f) in
              let rx_port : word16 (ports.rx_base + (0 + i) * port_delta)
                  ≡ ports.rx_base + i * port_delta =
                omega (arith, inside, fits, rx_low) in
              let tx_port : word16 (ports.tx_base + (0 + i) * port_delta)
                  ≡ ports.tx_base + i * port_delta =
                omega (arith, inside, fits, tx_low) in
              (
                ap (λ p. p.ue_rx_socket i) (sym agree) ∙ ap q'.ue_rx_socket (sym place) ∙ r,
                ap (λ p. p.ue_tx_socket i) (sym agree) ∙ ap q'.ue_tx_socket (sym place) ∙ t,
                b ∙ ap (λ p. some (bind_call rx p)) rx_port,
                c ∙ ap (λ p. some (connect_call tx addr p)) tx_port,
              );
        },
      )

  -- With at most 100 UEs and an address for each UE, and whatever the system calls find,
  -- `configure` stays inside its tables, and `start` runs a receiving thread for each UE in order,
  -- which reads what `socket` returned for this UE, also if it was -1, or if binding it failed and
  -- it was closed.
  pub start-receives :
      (mode : SoftmodemMode) (systems : List SystemCalls)
      → length systems ≤ length ips
      → length systems ≤ max_ues
      → (q : MultiUeProxy) × (calls : List Call) × (configure ports vnf_ip proxy_ip ips systems rx0
            tx0
          ≡ some (q, calls))
        × (length (start mode (length systems) q).receivers ≡ length systems)
        × ((i : ℕ) (sys : SystemCalls)
            → get_elem? systems i ≡ some sys
            → get_elem? (start mode (length systems) q).receivers i
              ≡ some (i, socket_of sys.rx_opened))
  unfolding configure start
  start-receives mode systems enough fits =
      let (q, calls, run, tables) =
        configure_ues-SetUpFrom ports 0 systems fresh (omega (arith, enough))
          (omega (arith, fits)) in
      (
        q,
        calls,
        run,
        length-receivers_from q.ue_rx_socket 0 (length systems),
        λ i sys e.
            let place : 0 + i ≡ i = omega arith in
            get_elem?-receivers_from q.ue_rx_socket 0 (length systems) i
              (get_elem?-lt systems i sys e)
            ∙ ap (λ j. some (j, q.ue_rx_socket j)) place
            ∙ ap (λ s. some (i, s)) (ap q.ue_rx_socket (sym place) ∙ (tables.own i sys e).0),
      )
