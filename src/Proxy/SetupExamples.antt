-- ===== src/Proxy/SetupExamples.antt =====
-- Tests of the proxies' setup.
use oai_lte_5g_multi_ue_prox.Base.{
  ℕ, ◌≡◌, refl, inr, true, false, Option, none, some, List, [], ◌∷◌, map, arith, length, get_elem?,
  ◌≤◌, ◌<◌, ◌⊎◌,
}
use oai_lte_5g_multi_ue_prox.Start.{
  softmodem_nsa, softmodem_lte, codes, default_settings, accepts, is_numeric, decimal_from, stoi,
  Settings, parse_argument, parse_arguments, main,
}
use oai_lte_5g_multi_ue_prox.Start.Arguments.{has_dot}
use oai_lte_5g_multi_ue_prox.Proxy.Setup.{
  Socket, unset, descriptor, SystemCalls, Call, bind_call, connect_call, close_call, MultiUeProxy,
  socket_of, lte_ports, nr_ports, configure, start, configure_ues, init_oai_socket, init_tx_socket,
  receivers_from,
}
use oai_lte_5g_multi_ue_prox.Proxy.Log.{succeed}
use oai_lte_5g_multi_ue_prox.Proxy.Started.{Connects, configure-Connects, start-receives}
use oai_lte_5g_multi_ue_prox.Proxy.Launch.{IsConstructed, IsOverrun, IsLaunched, main-IsLaunched}

abbrev enb_ip : List ℕ
enb_ip = codes "10.0.0.1"

abbrev proxy_ip : List ℕ
proxy_ip = codes "10.0.0.2"

abbrev ue_ips : List (List ℕ)
ue_ips = codes "10.0.0.3" ∷ codes "10.0.0.4" ∷ []

abbrev nothing : ℕ → Socket
nothing i = unset

abbrev fds : List (ℕ × ℕ)
fds = (5, 6) ∷ (7, 8) ∷ []

configure-Connects_example :
    (q : MultiUeProxy) × (calls : List Call) × (configure nr_ports enb_ip proxy_ip ue_ips
        (map succeed fds)
        nothing
        nothing
      ≡ some (q, calls))
    × Connects nr_ports fds ue_ips q calls
configure-Connects_example =
    configure-Connects nr_ports enb_ip proxy_ip ue_ips nothing nothing fds (omega arith)
      (omega arith) (omega arith) (omega arith)

-- The second UE's port is taken: its descriptor 7 is closed, and stays in the table.
abbrev second_bind_fails : List SystemCalls
second_bind_fails =
    succeed (5, 6)
    ∷ record {
      rx_opened = some 7;
      rx_bound = false;
      address_good = true;
      tx_opened = none;
      tx_connected = false;
    }
    ∷ []

start-receives_example :
    (q : MultiUeProxy) × (calls : List Call) × (configure lte_ports enb_ip proxy_ip ue_ips
        second_bind_fails nothing nothing
      ≡ some (q, calls))
    × (length (start softmodem_lte 2 q).receivers ≡ 2)
    × ((i : ℕ) (sys : SystemCalls)
        → get_elem? second_bind_fails i ≡ some sys
        → get_elem? (start softmodem_lte 2 q).receivers i ≡ some (i, socket_of sys.rx_opened))
start-receives_example =
    start-receives lte_ports enb_ip proxy_ip ue_ips nothing nothing softmodem_lte second_bind_fails
      (omega arith) (omega arith)

abbrev ClosedAndKept : Option (MultiUeProxy × List Call) → Type 0
ClosedAndKept none = ⊥
ClosedAndKept (some (q, calls)) =
    (calls
      ≡ bind_call 5 3211
        ∷ connect_call 6 (codes "10.0.0.3") 3212
        ∷ bind_call 7 3213
        ∷ close_call 7
        ∷ [])
    × ((start softmodem_lte 2 q).receivers ≡ (0, descriptor 5) ∷ (1, descriptor 7) ∷ [])

second_bind_fails_result :
    ClosedAndKept (configure lte_ports enb_ip proxy_ip ue_ips second_bind_fails nothing nothing)
unfolding configure configure_ues init_oai_socket init_tx_socket start receivers_from
second_bind_fails_result = (refl, refl)

abbrev command_line : List (List ℕ)
command_line = codes "--nsa" ∷ codes "2" ∷ enb_ip ∷ enb_ip ∷ proxy_ip ∷ ue_ips

abbrev asked : Settings
asked = record default_settings {
  ues = 2;
  softmodem_mode = softmodem_nsa;
  ipaddrs = enb_ip ∷ enb_ip ∷ proxy_ip ∷ ue_ips;
}

parse_command_line : parse_arguments has_dot default_settings command_line ≡ accepts asked
unfolding parse_arguments parse_argument is_numeric stoi decimal_from
parse_command_line = refl

main-IsLaunched_example :
    ((asked.ues ≤ 64) × IsLaunched IsConstructed (main has_dot command_line))
    ⊎ ((64 < asked.ues) × IsLaunched IsOverrun (main has_dot command_line))
main-IsLaunched_example =
    main-IsLaunched has_dot command_line asked parse_command_line (inr (omega arith, omega arith))
