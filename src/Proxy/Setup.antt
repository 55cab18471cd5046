-- ===== src/Proxy/Setup.antt =====
-- src/lte_proxy.cc and src/nr_proxy.cc: the constructors, `configure`, `init_oai_socket` and
-- `start`. What the system calls of a UE find is given; the calls made are events. `none` stands
-- for an index past the end of an array or vector, where C++ promises nothing.
use oai_lte_5g_multi_ue_prox.Base.{
  ℕ, zero, suc, ◌+◌, ◌*◌, Bool, true, false, Option, none, some, List, [], ◌∷◌, ◌++◌, if◌then◌else◌,
  ◌==◌, ltb, get_elem?,
}
use oai_lte_5g_multi_ue_prox.Sfn.{word16}
use oai_lte_5g_multi_ue_prox.Start.{SoftmodemMode, Started}
use oai_lte_5g_multi_ue_prox.Queue.{Queue}
use oai_lte_5g_multi_ue_prox.Message.{MessageBuffer}
use oai_lte_5g_multi_ue_prox.Uplink.{oai_subframe_init, oai_slot_init}
use oai_lte_5g_multi_ue_prox.Proxy.{port_delta, lte_tx_base, nr_tx_base}

-- An `int` of `ue_rx_socket` or `ue_tx_socket`: not yet written, -1, or a descriptor.
pub data Socket : Type 0 where
  unset failed : Socket
  descriptor : ℕ → Socket

-- What the calls for a UE find: the descriptors, or that they fail.
pub record SystemCalls : Type 0 where
  pub rx_opened : Option ℕ
  pub rx_bound : Bool
  pub address_good : Bool
  pub tx_opened : Option ℕ
  pub tx_connected : Bool

pub data Call : Type 0 where
  bind_call : ℕ → ℕ → Call
  connect_call : ℕ → List ℕ → ℕ → Call
  close_call : ℕ → Call

-- The members of a proxy that the setup writes.
pub record MultiUeProxy : Type 0 where
  pub oai_ue_ipaddr : List (List ℕ)
  pub vnf_ipaddr : List ℕ
  pub pnf_ipaddr : List ℕ
  pub vnf_p5port : ℕ
  pub vnf_p7port : ℕ
  pub pnf_p7port : ℕ
  pub ue_rx_socket : ℕ → Socket
  pub ue_tx_socket : ℕ → Socket

-- The length of `ue_rx_socket` and `ue_tx_socket`.
abbrev pub max_ues : ℕ
max_ues = 100

abbrev pub write_at : (ℕ → Socket) → ℕ → Socket → ℕ → Socket
write_at table i s j = if j == i then s else table j

abbrev pub socket_of : Option ℕ → Socket
socket_of none = failed
socket_of (some fd) = descriptor fd

-- The Tx part of `init_oai_socket`: whether it returned 0, and the calls made.
unfoldable pub init_tx_socket :
    SystemCalls → List ℕ → ℕ → ℕ → MultiUeProxy → MultiUeProxy × Bool × List Call
init_tx_socket sys addr tx_port ue_idx p =
    if sys.address_good
    then (elim sys.tx_opened [
      | none ↦ (opened, false, [])
      | some fd ↦
          let call = connect_call fd addr (word16 tx_port) in
          if sys.tx_connected
          then (opened, true, call ∷ [])
          else (opened, false, call ∷ close_call fd ∷ [])
    ])
    else (p, false, [])
  where
    opened : MultiUeProxy
    opened = record p { ue_tx_socket = write_at p.ue_tx_socket ue_idx (socket_of sys.tx_opened) }

-- `init_oai_socket`, for an index inside the tables.
unfoldable pub init_oai_socket :
    SystemCalls → List ℕ → ℕ → ℕ → ℕ → MultiUeProxy → MultiUeProxy × Bool × List Call
init_oai_socket sys addr tx_port rx_port ue_idx p =
    let p' = record p { ue_rx_socket = write_at p.ue_rx_socket ue_idx (socket_of sys.rx_opened) } in
    elim sys.rx_opened [
      | none ↦ (p', false, [])
      | some fd ↦
          let call = bind_call fd (word16 rx_port) in
          let (p'', done, calls) = init_tx_socket sys addr tx_port ue_idx p' in
          if sys.rx_bound then (p'', done, call ∷ calls) else (p', false, call ∷ close_call fd ∷ [])
    ]

-- What differs between the two proxies.
pub record Ports : Type 0 where
  pub rx_base : ℕ
  pub tx_base : ℕ
  pub p5 : ℕ
  pub p7_of_vnf : ℕ
  pub p7_of_pnf : ℕ

abbrev pub lte_ports : Ports
lte_ports = record {
  rx_base = 3211;
  tx_base = lte_tx_base;
  p5 = 50001;
  p7_of_vnf = 50011;
  p7_of_pnf = 50010;
}

abbrev pub nr_ports : Ports
nr_ports = record {
  rx_base = 3611;
  tx_base = nr_tx_base;
  p5 = 50601;
  p7_of_vnf = 50611;
  p7_of_pnf = 50610;
}

-- The calls of one round of the loop come before those of the later rounds.
abbrev pub after : List Call → Option (MultiUeProxy × List Call) → Option (MultiUeProxy × List Call)
after calls none = none
after calls (some (p, rest)) = some (p, calls ++ rest)

-- The loop of `configure` from `ue_idx` on, over as many UEs as there are system calls. The result
-- of `init_oai_socket` is not looked at.
unfoldable pub configure_ues :
    Ports → ℕ → List SystemCalls → MultiUeProxy → Option (MultiUeProxy × List Call)
configure_ues ports ue_idx [] p = some (p, [])
configure_ues ports ue_idx (sys ∷ more) p = elim (get_elem? p.oai_ue_ipaddr ue_idx) [
  | none ↦ none
  | some addr ↦
      let (p', done, calls) =
        init_oai_socket sys addr (ports.tx_base + ue_idx * port_delta)
          (ports.rx_base + ue_idx * port_delta) ue_idx p in
      if ltb ue_idx max_ues then after calls (configure_ues ports (suc ue_idx) more p') else none
]

-- The members that `configure` writes before its loop.
abbrev pub initial :
    Ports → List ℕ → List ℕ → List (List ℕ) → (ℕ → Socket) → (ℕ → Socket) → MultiUeProxy
initial ports vnf_ip proxy_ip ue_ip rx tx = record {
  oai_ue_ipaddr = ue_ip;
  vnf_ipaddr = vnf_ip;
  pnf_ipaddr = proxy_ip;
  vnf_p5port = ports.p5;
  vnf_p7port = ports.p7_of_vnf;
  pnf_p7port = ports.p7_of_pnf;
  ue_rx_socket = rx;
  ue_tx_socket = tx;
}

-- `configure`, on the tables as the constructor finds them; `num_ues` is the length of the list.
unfoldable pub configure :
    Ports
    → List ℕ
    → List ℕ
    → List (List ℕ)
    → List SystemCalls
    → (ℕ → Socket)
    → (ℕ → Socket)
    → Option (MultiUeProxy × List Call)
configure ports vnf_ip proxy_ip ue_ip systems rx tx =
    configure_ues ports 0 systems (initial ports vnf_ip proxy_ip ue_ip rx tx)

-- The constructors, as `main` calls them: they set `num_ues` and configure the proxy. Their
-- assertion holds, since `main` makes one proxy of a kind. Then they make the UEs' queues.
unfoldable pub construct :
    Started
    → List SystemCalls
    → (ℕ → Socket)
    → (ℕ → Socket)
    → Option (MultiUeProxy × List Call × List (Queue MessageBuffer))
construct p systems rx tx =
    let ports = if p.is_nr then nr_ports else lte_ports in
    elim (configure ports p.vnf_ip p.proxy_ip p.ue_ip systems rx tx) [
      | none ↦ none
      | some (q, calls) ↦
          elim (if p.is_nr then oai_slot_init p.num_of_ues else oai_subframe_init p.num_of_ues) [
            | none ↦ none
            | some queues ↦ some (q, calls, queues)
          ]
    ]

-- The arguments of `configure_nfapi_pnf` and `configure_nr_nfapi_pnf`.
pub record P5Arguments : Type 0 where
  pub vnf_ip_addr : List ℕ
  pub vnf_p5_port : ℕ
  pub pnf_ip_addr : List ℕ
  pub pnf_p7_port : ℕ
  pub vnf_p7_port : ℕ

-- What `start` leaves running: the P5 connection, the subframe or slot task in its mode, and a
-- receiving thread for each UE, with its index and the socket it reads.
pub record Running : Type 0 where
  pub p5_connection : P5Arguments
  pub task_mode : SoftmodemMode
  pub receivers : List (ℕ × Socket)

-- The loop of `start` from UE i on, for n UEs.
unfoldable pub receivers_from : (ℕ → Socket) → ℕ → ℕ → List (ℕ × Socket)
receivers_from table i zero = []
receivers_from table i (suc n) = (i, table i) ∷ receivers_from table (suc i) n

unfoldable pub start : SoftmodemMode → ℕ → MultiUeProxy → Running
start softmodem_mode num_ues p = record {
  p5_connection = record {
    vnf_ip_addr = p.vnf_ipaddr;
    vnf_p5_port = p.vnf_p5port;
    pnf_ip_addr = p.pnf_ipaddr;
    pnf_p7_port = p.pnf_p7port;
    vnf_p7_port = p.vnf_p7port;
  };
  task_mode = softmodem_mode;
  receivers = receivers_from p.ue_rx_socket 0 num_ues;
}
