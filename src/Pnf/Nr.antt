-- ===== src/Pnf/Nr.antt =====
-- src/nfapi_pnf.c: the P5 handlers of the NR side.
use oai_lte_5g_multi_ue_prox.Base.{ℕ, some, List, [], ◌∷◌, ◌++◌, map, pos, if◌then◌else◌, ◌==◌}
use oai_lte_5g_multi_ue_prox.Proxy.Setup.{P5Arguments}
use oai_lte_5g_multi_ue_prox.Pnf.{
  P7Config, P5State, ConfigRequest, Request, pnf_param_req, pnf_start_req, pnf_stop_req,
  pnf_config_req, param_req, start_req, measurement_req, rssi_req, system_information_schedule_req,
  nmm_stop_req, config_req, cell_search_req, broadcast_detect_req, system_information_req,
}
use oai_lte_5g_multi_ue_prox.Pnf.Message.{
  Block, Action, sends, starts_p7_thread, first_slot_ind, msg_ok, numbers, plain,
}
use oai_lte_5g_multi_ue_prox.Pnf.Common.{
  pnf_nr_param_request, with_phy, pnf_config_request, pnf_start_request, pnf_stop_request,
  config_phy, p7_config_of, configure_udp,
}
use oai_lte_5g_multi_ue_prox.Pnf.P4.{
  measurement_request, rssi_request, cell_search_request, broadcast_detect_request,
  system_information_schedule_request, system_information_request, nmm_stop_request,
}

-- The tags that `nr_param_request` assigns, in order.
abbrev pub nr_param_tags : List ℕ
nr_param_tags =
    0x0001 ∷ 0x0002 ∷ 0x0003 ∷ 0x0004 ∷ 0x0005 ∷ 0x0006 ∷ 0x0007 ∷ 0x0008 ∷ 0x0009 ∷ 0x000A ∷ 0x000B
    ∷ 0x000C ∷ 0x000D ∷ 0x000E ∷ 0x000F ∷ 0x0010 ∷ 0x0011 ∷ 0x0012 ∷ 0x0013 ∷ 0x0019 ∷ 0x0014
    ∷ 0x0015 ∷ 0x0016 ∷ 0x0017 ∷ 0x001B ∷ 0x001D ∷ 0x001E ∷ 0x001F ∷ 0x0020 ∷ 0x0021 ∷ 0x0022
    ∷ 0x0023 ∷ 0x0024 ∷ 0x0025 ∷ 0x0026 ∷ 0x0027 ∷ 0x0028 ∷ 0x0029 ∷ 0x002A ∷ 0x002B ∷ 0x002C
    ∷ 0x002D ∷ 0x002E ∷ 0x002F ∷ 0x0030 ∷ 0x0031 ∷ 0x0032 ∷ 0x0033 ∷ 0x0034 ∷ 0x0035 ∷ 0x0036
    ∷ 0x0100 ∷ 0x0101 ∷ 0x0102 ∷ 0x0103 ∷ 0x0104 ∷ 0x0105 ∷ 0x011E ∷ 0x011F ∷ 0x0120 ∷ []

-- `configure_nr_nfapi_pnf` on `pnf_nr`.
unfoldable pub configure_nr_nfapi_pnf : P5Arguments → P5State → P5State
configure_nr_nfapi_pnf args s = configure_udp args s

-- A TLV of the PARAM response: only the PNF's P7 port and address have a value.
abbrev pub nr_param_block : List ℕ → ℕ → Block
nr_param_block address tag =
    if tag == 0x0105
    then (tag, pos 50610 ∷ [])
    else if tag == 0x0103
    then (tag, numbers address)
    else (tag, [])

module _ (inet_addr inet_ntoa : List ℕ → List ℕ) (created : P7Config) where
  unfoldable pub nr_param_request : P5State → ℕ → P5State × List Action
  nr_param_request s phy_id = (
    s,
    sends (record {
      message_id = 0x0001;
      phy_id = phy_id;
      error_code = 0;
      blocks = map (nr_param_block (inet_addr s.pnf.phy.local_addr)) nr_param_tags;
    })
        ∷ [],
  )

  unfoldable pub nr_config_request : P5State → ConfigRequest → P5State × List Action
  nr_config_request s req =
      let phy = config_phy 0x1001 0x1006 s.pnf.phy req in
      (
        record (with_phy s phy) { ntoa_text = inet_ntoa req.p7_vnf_address_ipv4 },
        plain 0x0003 phy.id 0 ∷ [],
      )

  -- The parameter is the phy id of the library's `phy`.
  unfoldable pub nr_start_request : P5State → ℕ → P5State × List Action
  nr_start_request s phy_id =
      let p7_config = record (p7_config_of created phy_id s.pnf.phy.udp.rx_port s.pnf.phy) {
        slot_buffer_size = s.pnf.phy.timing_window;
      } in
      (
        record s { p7_config = some p7_config },
        starts_p7_thread p7_config ∷ plain 0x010D phy_id msg_ok ∷ first_slot_ind phy_id 0 0 ∷ [],
      )

  -- The callbacks that `configure_nr_nfapi_pnf` registers.
  unfoldable pub nr_handle : P5State → Request → P5State × List Action
  nr_handle s pnf_param_req = pnf_nr_param_request s
  nr_handle s (pnf_config_req phy_id) = pnf_config_request s phy_id
  nr_handle s pnf_start_req = pnf_start_request s
  nr_handle s pnf_stop_req = pnf_stop_request s
  nr_handle s (param_req phy_id) = nr_param_request s phy_id
  nr_handle s (config_req req) = nr_config_request s req
  nr_handle s (start_req phy_id) = nr_start_request s phy_id
  nr_handle s (measurement_req phy_id) = measurement_request s phy_id
  nr_handle s (rssi_req phy_id) = rssi_request s phy_id
  nr_handle s (cell_search_req phy_id rat) = cell_search_request s phy_id rat
  nr_handle s (broadcast_detect_req phy_id rat) = broadcast_detect_request s phy_id rat
  nr_handle s (system_information_schedule_req phy_id) =
      system_information_schedule_request s phy_id
  nr_handle s (system_information_req phy_id rat) = system_information_request s phy_id rat
  nr_handle s (nmm_stop_req phy_id) = nmm_stop_request s phy_id

  -- The requests in the order in which they come.
  unfoldable pub nr_handle_all : P5State → List Request → P5State × List Action
  nr_handle_all s [] = (s, [])
  nr_handle_all s (req ∷ reqs) =
      let (s', actions) = nr_handle s req in
      let (s'', more) = nr_handle_all s' reqs in (s'', actions ++ more)
