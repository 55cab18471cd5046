-- ===== src/Pnf/Ports.antt =====
-- The P7 port that the handlers of src/nfapi_pnf.c announce, and the one that they listen on.
use oai_lte_5g_multi_ue_prox.Base.{
  ℕ, ◌≤◌, ◌≡◌, ◌∙◌, refl, ap, some, List, [], ◌∷◌, arith, All, All-append, length,
}
use oai_lte_5g_multi_ue_prox.Start.{SoftmodemMode}
use oai_lte_5g_multi_ue_prox.Proxy.Setup.{
  Socket, SystemCalls, Call, MultiUeProxy, max_ues, nr_ports, initial, configure, start,
}
use oai_lte_5g_multi_ue_prox.Proxy.Connected.{configure_ues-SetUpFrom}
use oai_lte_5g_multi_ue_prox.Pnf.{
  P7Config, P5State, Request, pnf_param_req, pnf_start_req, pnf_stop_req, pnf_config_req, param_req,
  start_req, measurement_req, rssi_req, system_information_schedule_req, nmm_stop_req, config_req,
  cell_search_req, broadcast_detect_req, system_information_req, rat_lte, rat_utran, rat_geran,
  rat_nb_iot, rat_nr,
}
use oai_lte_5g_multi_ue_prox.Pnf.Common.{
  config_phy, pnf_param_request, pnf_nr_param_request, pnf_config_request, pnf_start_request,
  pnf_stop_request, p7_config_of, configure_udp,
}
use oai_lte_5g_multi_ue_prox.Pnf.P4.{
  measurement_request, rssi_request, cell_search_request, broadcast_detect_request,
  system_information_schedule_request, system_information_request, nmm_stop_request,
}
use oai_lte_5g_multi_ue_prox.Pnf.Lte.{
  lte_p7_port, param_request, config_request, start_request, handle, handle_all,
}
use oai_lte_5g_multi_ue_prox.Pnf.Nr.{
  nr_param_tags, configure_nr_nfapi_pnf, nr_param_request, nr_config_request, nr_start_request,
  nr_handle, nr_handle_all,
}
use oai_lte_5g_multi_ue_prox.Pnf.Tells.{
  Agrees, nr_p7_port, release_blocks-TellsPort, nr_param_blocks-TellsPort, start-Agrees,
}
use oai_lte_5g_multi_ue_prox.Pnf.Told.{told_ports, once_each, handle_all-tells, nr_handle_all-tells}

module _ (inet_addr inet_ntoa : List ℕ → List ℕ) (created : P7Config) where
  handle-Agrees :
      (s : P5State) (req : Request)
      → All (Agrees lte_p7_port) (handle inet_addr inet_ntoa created s req).1
  unfolding handle param_request config_request start_request pnf_param_request pnf_nr_param_request
      pnf_config_request pnf_stop_request measurement_request rssi_request cell_search_request
      broadcast_detect_request system_information_schedule_request system_information_request
      nmm_stop_request p7_config_of
  handle-Agrees s pnf_param_req = (
    (
      (λ e. absurd (omega (arith, e))),
      (
        (λ e. absurd (omega (arith, e))),
        ((λ e. absurd (omega (arith, e))), release_blocks-TellsPort lte_p7_port s.pnf),
      ),
    ),
    tt,
  )
  handle-Agrees s pnf_start_req = start-Agrees lte_p7_port s
  handle-Agrees s (param_req i) = (((λ e. absurd (omega (arith, e))), ((λ e. refl), tt)), tt)
  handle-Agrees s (config_req req) = (tt, tt)
  handle-Agrees s (start_req i) = (refl, (tt, (tt, tt)))
  handle-Agrees s (pnf_config_req i) = (tt, tt)
  handle-Agrees s pnf_stop_req = (tt, tt)
  handle-Agrees s (measurement_req i) = (tt, tt)
  handle-Agrees s (rssi_req i) = (tt, (((λ e. absurd (omega (arith, e))), tt), tt))
  handle-Agrees s (nmm_stop_req i) = (tt, tt)
  handle-Agrees s (system_information_schedule_req i) =
      (tt, (((λ e. absurd (omega (arith, e))), tt), tt))
  handle-Agrees s (cell_search_req i rat_lte) =
      (tt, (((λ e. absurd (omega (arith, e))), ((λ e. absurd (omega (arith, e))), tt)), tt))
  handle-Agrees s (cell_search_req i rat_utran) =
      (tt, (((λ e. absurd (omega (arith, e))), ((λ e. absurd (omega (arith, e))), tt)), tt))
  handle-Agrees s (cell_search_req i rat_geran) =
      (tt, (((λ e. absurd (omega (arith, e))), ((λ e. absurd (omega (arith, e))), tt)), tt))
  handle-Agrees s (cell_search_req i rat_nb_iot) =
      (tt, (((λ e. absurd (omega (arith, e))), tt), tt))
  handle-Agrees s (cell_search_req i rat_nr) = (tt, (((λ e. absurd (omega (arith, e))), tt), tt))
  handle-Agrees s (broadcast_detect_req i rat_lte) =
      (tt, (((λ e. absurd (omega (arith, e))), ((λ e. absurd (omega (arith, e))), tt)), tt))
  handle-Agrees s (broadcast_detect_req i rat_utran) =
      (tt, (((λ e. absurd (omega (arith, e))), ((λ e. absurd (omega (arith, e))), tt)), tt))
  handle-Agrees s (broadcast_detect_req i rat_geran) =
      (tt, (((λ e. absurd (omega (arith, e))), tt), tt))
  handle-Agrees s (broadcast_detect_req i rat_nb_iot) =
      (tt, (((λ e. absurd (omega (arith, e))), tt), tt))
  handle-Agrees s (broadcast_detect_req i rat_nr) =
      (tt, (((λ e. absurd (omega (arith, e))), tt), tt))
  handle-Agrees s (system_information_req i rat_lte) =
      (tt, (((λ e. absurd (omega (arith, e))), tt), tt))
  handle-Agrees s (system_information_req i rat_utran) =
      (tt, (((λ e. absurd (omega (arith, e))), tt), tt))
  handle-Agrees s (system_information_req i rat_geran) =
      (tt, (((λ e. absurd (omega (arith, e))), tt), tt))
  handle-Agrees s (system_information_req i rat_nb_iot) = (tt, (tt, tt))
  handle-Agrees s (system_information_req i rat_nr) = (tt, (tt, tt))

  handle_all-Agrees :
      (s : P5State) (reqs : List Request)
      → All (Agrees lte_p7_port) (handle_all inet_addr inet_ntoa created s reqs).1
  unfolding handle_all
  handle_all-Agrees s [] = tt
  handle_all-Agrees s (r ∷ rs) =
      All-append _ _ _ (handle-Agrees s r)
        (handle_all-Agrees (handle inet_addr inet_ntoa created s r).0 rs)

  nr_handle-Agrees :
      (s : P5State) (req : Request)
      → s.pnf.phy.udp.rx_port ≡ nr_p7_port
      → All (Agrees nr_p7_port) (nr_handle inet_addr inet_ntoa created s req).1
  unfolding nr_handle nr_param_request nr_config_request nr_start_request pnf_param_request
      pnf_nr_param_request pnf_config_request pnf_stop_request measurement_request rssi_request
      cell_search_request broadcast_detect_request system_information_schedule_request
      system_information_request nmm_stop_request p7_config_of
  nr_handle-Agrees s pnf_param_req port =
      (((λ e. absurd (omega (arith, e))), ((λ e. absurd (omega (arith, e))), tt)), tt)
  nr_handle-Agrees s pnf_start_req port = start-Agrees nr_p7_port s
  nr_handle-Agrees s (param_req i) port =
      (nr_param_blocks-TellsPort (inet_addr s.pnf.phy.local_addr) nr_param_tags, tt)
  nr_handle-Agrees s (config_req req) port = (tt, tt)
  nr_handle-Agrees s (start_req i) port = (port, (tt, (tt, tt)))
  nr_handle-Agrees s (pnf_config_req i) port = (tt, tt)
  nr_handle-Agrees s pnf_stop_req port = (tt, tt)
  nr_handle-Agrees s (measurement_req i) port = (tt, tt)
  nr_handle-Agrees s (rssi_req i) port = (tt, (((λ e. absurd (omega (arith, e))), tt), tt))
  nr_handle-Agrees s (nmm_stop_req i) port = (tt, tt)
  nr_handle-Agrees s (system_information_schedule_req i) port =
      (tt, (((λ e. absurd (omega (arith, e))), tt), tt))
  nr_handle-Agrees s (cell_search_req i rat_lte) port =
      (tt, (((λ e. absurd (omega (arith, e))), ((λ e. absurd (omega (arith, e))), tt)), tt))
  nr_handle-Agrees s (cell_search_req i rat_utran) port =
      (tt, (((λ e. absurd (omega (arith, e))), ((λ e. absurd (omega (arith, e))), tt)), tt))
  nr_handle-Agrees s (cell_search_req i rat_geran) port =
      (tt, (((λ e. absurd (omega (arith, e))), ((λ e. absurd (omega (arith, e))), tt)), tt))
  nr_handle-Agrees s (cell_search_req i rat_nb_iot) port =
      (tt, (((λ e. absurd (omega (arith, e))), tt), tt))
  nr_handle-Agrees s (cell_search_req i rat_nr) port =
      (tt, (((λ e. absurd (omega (arith, e))), tt), tt))
  nr_handle-Agrees s (broadcast_detect_req i rat_lte) port =
      (tt, (((λ e. absurd (omega (arith, e))), ((λ e. absurd (omega (arith, e))), tt)), tt))
  nr_handle-Agrees s (broadcast_detect_req i rat_utran) port =
      (tt, (((λ e. absurd (omega (arith, e))), ((λ e. absurd (omega (arith, e))), tt)), tt))
  nr_handle-Agrees s (broadcast_detect_req i rat_geran) port =
      (tt, (((λ e. absurd (omega (arith, e))), tt), tt))
  nr_handle-Agrees s (broadcast_detect_req i rat_nb_iot) port =
      (tt, (((λ e. absurd (omega (arith, e))), tt), tt))
  nr_handle-Agrees s (broadcast_detect_req i rat_nr) port =
      (tt, (((λ e. absurd (omega (arith, e))), tt), tt))
  nr_handle-Agrees s (system_information_req i rat_lte) port =
      (tt, (((λ e. absurd (omega (arith, e))), tt), tt))
  nr_handle-Agrees s (system_information_req i rat_utran) port =
      (tt, (((λ e. absurd (omega (arith, e))), tt), tt))
  nr_handle-Agrees s (system_information_req i rat_geran) port =
      (tt, (((λ e. absurd (omega (arith, e))), tt), tt))
  nr_handle-Agrees s (system_information_req i rat_nb_iot) port = (tt, (tt, tt))
  nr_handle-Agrees s (system_information_req i rat_nr) port = (tt, (tt, tt))

  nr_handle-rx_port :
      (s : P5State) (req : Request)
      → (nr_handle inet_addr inet_ntoa created s req).0.pnf.phy.udp ≡ s.pnf.phy.udp
  unfolding nr_handle nr_param_request nr_config_request nr_start_request pnf_start_request
      config_phy pnf_param_request pnf_nr_param_request pnf_config_request pnf_stop_request
      measurement_request rssi_request cell_search_request broadcast_detect_request
      system_information_schedule_request system_information_request nmm_stop_request p7_config_of
  nr_handle-rx_port s req = ground arith

  nr_handle_all-Agrees :
      (s : P5State) (reqs : List Request)
      → s.pnf.phy.udp.rx_port ≡ nr_p7_port
      → All (Agrees nr_p7_port) (nr_handle_all inet_addr inet_ntoa created s reqs).1
  unfolding nr_handle_all
  nr_handle_all-Agrees s [] port = tt
  nr_handle_all-Agrees s (r ∷ rs) port = All-append _ _ _ (nr_handle-Agrees s r port) (
      nr_handle_all-Agrees (nr_handle inet_addr inet_ntoa created s r).0 rs
        (ap (λ u. u.rx_port) (nr_handle-rx_port s r) ∙ port))

  -- Whatever requests come, the LTE side's messages tell P7 port 32123 exactly as often as a PARAM
  -- request came, they tell no other port, and its P7 threads listen there. So it is with port
  -- 50610 for the NR side, once its proxy, within its bounds and whatever the system calls find,
  -- was configured and started.
  pub handle_all-announces :
      (s : P5State) (reqs : List Request) (mode : SoftmodemMode) (vnf_ip proxy_ip : List ℕ)
      (ips : List (List ℕ)) (systems : List SystemCalls) (rx tx : ℕ → Socket)
      → length systems ≤ length ips
      → length systems ≤ max_ues
      → (let actions = (handle_all inet_addr inet_ntoa created s reqs).1 in
          (told_ports actions ≡ once_each 32123 reqs) × All (Agrees 32123) actions)
        × ((q : MultiUeProxy) × (calls : List Call) × (configure nr_ports vnf_ip proxy_ip ips
                systems rx tx
              ≡ some (q, calls))
            × (let nr_actions =
                  (nr_handle_all inet_addr inet_ntoa created
                    (configure_nr_nfapi_pnf (start mode (length systems) q).p5_connection s)
                    reqs).1 in
                (told_ports nr_actions ≡ once_each 50610 reqs) × All (Agrees 50610) nr_actions))
  unfolding configure start configure_nr_nfapi_pnf configure_udp
  handle_all-announces s reqs mode vnf_ip proxy_ip ips systems rx tx enough fits =
      let (q, calls, run, tables) =
        configure_ues-SetUpFrom nr_ports 0 systems (initial nr_ports vnf_ip proxy_ip ips rx tx)
          (omega (arith, enough)) (omega (arith, fits)) in
      (
        (handle_all-tells inet_addr inet_ntoa created s reqs, handle_all-Agrees s reqs),
        (
          q,
          calls,
          run,
          (
            nr_handle_all-tells inet_addr inet_ntoa created _ reqs,
            nr_handle_all-Agrees _ reqs tables.same_p7_port,
          ),
        ),
      )
