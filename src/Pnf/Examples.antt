-- ===== src/Pnf/Examples.antt =====
-- Tests of the configuration handlers.
use oai_lte_5g_multi_ue_prox.Pnf.Tables.{
  Table, store_pdus, pnf_phy_tx_data_req, ReleaseRntis, pnf_phy_ue_release_req,
}
use oai_lte_5g_multi_ue_prox.Base.{
  ℕ, ◌≡◌, refl, Bool, true, false, Option, none, some, List, [], ◌∷◌, ◌++◌, All, pos, arith,
}
use oai_lte_5g_multi_ue_prox.Start.{softmodem_nsa, codes}
use oai_lte_5g_multi_ue_prox.Proxy.Setup.{
  Socket, unset, SystemCalls, Call, MultiUeProxy, nr_ports, configure, start,
}
use oai_lte_5g_multi_ue_prox.Proxy.Log.{succeed}
use oai_lte_5g_multi_ue_prox.Pnf.{
  PhyInfo, null, RfInfo, P7Config, P5State, Tlv, ConfigRequest, Request, pnf_param_req,
  pnf_start_req, pnf_config_req, param_req, start_req, config_req, cell_search_req, rat_utran,
}
use oai_lte_5g_multi_ue_prox.Pnf.Message.{plain}
use oai_lte_5g_multi_ue_prox.Pnf.Lte.{handle, handle_all}
use oai_lte_5g_multi_ue_prox.Pnf.Nr.{configure_nr_nfapi_pnf, nr_handle, nr_handle_all}
use oai_lte_5g_multi_ue_prox.Pnf.Common.{
  pnf_config_request, pnf_start_request, config_phy, p7_config_of,
}
use oai_lte_5g_multi_ue_prox.Pnf.Lte.{config_request, start_request}
use oai_lte_5g_multi_ue_prox.Pnf.Answers.{Answers, handle-Answers}
use oai_lte_5g_multi_ue_prox.Pnf.Flow.{is_configured, handle_all-started}
use oai_lte_5g_multi_ue_prox.Pnf.Linked.{LinkedTo, handle_all-LinkedTo}
use oai_lte_5g_multi_ue_prox.Pnf.Tells.{Agrees}
use oai_lte_5g_multi_ue_prox.Pnf.Told.{told_ports}
use oai_lte_5g_multi_ue_prox.Pnf.Ports.{handle_all-announces}

-- The globals before `main`: all zero.
abbrev zero_rf : RfInfo
zero_rf = record {
  index = 0;
  band = 0;
  max_transmit_power = pos 0;
  min_transmit_power = pos 0;
  num_antennas_supported = 0;
  min_downlink_frequency = 0;
  max_downlink_frequency = 0;
  max_uplink_frequency = 0;
  min_uplink_frequency = 0;
}

abbrev zero_phy : PhyInfo
zero_phy = record {
  index = 0;
  id = 0;
  rf = 0;
  excluded_rf = 0;
  udp = record { enabled = false; rx_port = 0; tx_port = 0; tx_addr = [] };
  local_addr = [];
  remote_addr = null;
  remote_port = 0;
  dl_channel_bw_support = 0;
  ul_channel_bw_support = 0;
  num_dl_layers_supported = 0;
  num_ul_layers_supported = 0;
  release_supported = 0;
  nmm_modes_supported = 0;
  timing_window = 0;
  timing_info_mode = 0;
  timing_info_period = 0;
}

abbrev zero_state : P5State
zero_state = record {
  pnf = record {
    release = 0;
    phy = zero_phy;
    rf_0 = zero_rf;
    rf_1 = zero_rf;
    sync_mode = 0;
    location_mode = 0;
    dl_config_timing = 0;
    ul_config_timing = 0;
    tx_timing = 0;
    hi_dci0_timing = 0;
    max_phys = 0;
    max_total_bw = 0;
    max_total_dl_layers = 0;
    max_total_ul_layers = 0;
    shared_bands = 0;
    shared_pa = 0;
    max_total_power = pos 0;
  };
  p7_config = none;
  ntoa_text = [];
}

-- The library's defaults: the timing information is on.
abbrev created : P7Config
created = record {
  phy_id = 0;
  remote_p7_port = 0;
  remote_p7_addr = null;
  local_p7_port = 0;
  local_p7_addr = [];
  subframe_buffer_size = 8;
  slot_buffer_size = 0;
  timing_info_mode_periodic = true;
  timing_info_mode_aperiodic = true;
  timing_info_period = 32;
  dummy_subframe = none;
}

abbrev as_is : List ℕ → List ℕ
as_is bytes = bytes

abbrev missing : Tlv
missing = record { tag = 0; value = 0 }

-- Mode 0: no timing information.
abbrev silent : ConfigRequest
silent = record {
  timing_window = record { tag = 0x011E; value = 30 };
  timing_info_mode = record { tag = 0x011F; value = 0 };
  timing_info_period = missing;
  dl_bandwidth = missing;
  ul_bandwidth = missing;
  rf_bands = missing;
  p7_vnf_port = 50011;
  p7_vnf_address_ipv4 = 10 ∷ 0 ∷ 0 ∷ 1 ∷ [];
}

-- The same, for another address of the VNF's.
abbrev moved : ConfigRequest
moved = record silent { p7_vnf_address_ipv4 = 10 ∷ 0 ∷ 0 ∷ 9 ∷ [] }

abbrev before : List Request
before = pnf_param_req ∷ pnf_config_req 1 ∷ pnf_start_req ∷ []

abbrev middle : List Request
middle = param_req 1 ∷ []

abbrev session : List Request
session = before ++ (config_req silent ∷ (middle ++ (start_req 1 ∷ [])))

abbrev moved_session : List Request
moved_session = before ++ (config_req silent ∷ (middle ++ (start_req 1 ∷ config_req moved ∷ [])))

handle-Answers_example :
    Answers 0x0204 zero_state
      (cell_search_req 1 rat_utran)
      (handle as_is as_is created zero_state (cell_search_req 1 rat_utran)).1
    × Answers 0x0204 zero_state
        (cell_search_req 1 rat_utran)
        (nr_handle as_is as_is created zero_state (cell_search_req 1 rat_utran)).1
handle-Answers_example = handle-Answers as_is as_is created zero_state (cell_search_req 1 rat_utran)

handle_all-started_example :
    (is_configured (handle_all as_is as_is created zero_state session).0 ≡ true)
    × (is_configured (nr_handle_all as_is as_is created zero_state session).0 ≡ true)
handle_all-started_example = handle_all-started as_is as_is created zero_state session

handle_all-LinkedTo_example :
    LinkedTo created silent 1
      (10 ∷ 0 ∷ 0 ∷ 9 ∷ [])
      (handle_all as_is as_is created zero_state moved_session).0
    × LinkedTo created silent 1
        (10 ∷ 0 ∷ 0 ∷ 9 ∷ [])
        (nr_handle_all as_is as_is created zero_state moved_session).0
handle_all-LinkedTo_example =
    handle_all-LinkedTo as_is as_is created zero_state before middle (config_req moved ∷ []) silent
      1 (refl, tt) (refl, tt)

-- A base station that wants no timing information gets both kinds.
abbrev is_periodic : Option P7Config → Bool
is_periodic none = false
is_periodic (some c) = c.timing_info_mode_periodic

silent-is_periodic :
    is_periodic
      (handle_all as_is as_is created zero_state (config_req silent ∷ start_req 1 ∷ [])).0.p7_config
    ≡ true
unfolding handle_all handle config_request start_request config_phy p7_config_of
silent-is_periodic = refl

-- PNF START is answered once PNF CONFIG has given a phy id.
start_after_config :
    ((handle_all as_is as_is created zero_state (pnf_start_req ∷ [])).1 ≡ [])
    × ((handle_all as_is as_is created zero_state (pnf_config_req 1 ∷ pnf_start_req ∷ [])).1
        ≡ plain 0x0103 0 0 ∷ plain 0x0105 0 0 ∷ [])
unfolding handle_all handle pnf_config_request pnf_start_request
start_after_config = (refl, refl)

abbrev one_ue : List SystemCalls
one_ue = succeed (5, 6) ∷ []

abbrev nothing : ℕ → Socket
nothing i = unset

handle_all-announces_example :
    (let actions = (handle_all as_is as_is created zero_state session).1 in
      (told_ports actions ≡ (pos 32123 ∷ []) ∷ []) × All (Agrees 32123) actions)
    × ((q : MultiUeProxy) × (calls : List Call) × (configure nr_ports
            (codes "10.0.0.1")
            (codes "10.0.0.2")
            (codes "10.0.0.3" ∷ [])
            one_ue
            nothing
            nothing
          ≡ some (q, calls))
        × (let nr_actions =
              (nr_handle_all as_is as_is created
                (configure_nr_nfapi_pnf (start softmodem_nsa 1 q).p5_connection zero_state)
                session).1 in
            (told_ports nr_actions ≡ (pos 50610 ∷ []) ∷ []) × All (Agrees 50610) nr_actions))
handle_all-announces_example =
    handle_all-announces as_is as_is created zero_state session softmodem_nsa (codes "10.0.0.1")
      (codes "10.0.0.2") (codes "10.0.0.3" ∷ []) one_ue nothing nothing (omega arith) (omega arith)

abbrev no_pdus : Table ℕ
no_pdus a b i = none

-- The last frame has no place.
last_frame : pnf_phy_tx_data_req no_pdus 1023 0 (8 ∷ []) ≡ none
unfolding pnf_phy_tx_data_req store_pdus
last_frame = refl

abbrev old_rntis : ReleaseRntis ℕ
old_rntis = record { number_of_tlvs = 0; tlvs = λ i. none }

-- An empty request is refused, and changes nothing.
empty_release : pnf_phy_ue_release_req old_rntis [] ≡ some (old_rntis, false)
unfolding pnf_phy_ue_release_req
empty_release = refl
