-- ===== src/Pnf/Lte.antt =====
-- src/nfapi_pnf.c: the P5 handlers of the LTE side.
use oai_lte_5g_multi_ue_prox.Base.{ℕ, some, List, [], ◌∷◌, ◌++◌, pos, if◌then◌else◌}
use oai_lte_5g_multi_ue_prox.Proxy.Setup.{P5Arguments}
use oai_lte_5g_multi_ue_prox.Pnf.{
  P7Config, P5State, ConfigRequest, Request, pnf_param_req, pnf_start_req, pnf_stop_req,
  pnf_config_req, param_req, start_req, measurement_req, rssi_req, system_information_schedule_req,
  nmm_stop_req, config_req, cell_search_req, broadcast_detect_req, system_information_req,
}
use oai_lte_5g_multi_ue_prox.Pnf.Message.{
  Action, sends, starts_p7_thread, first_subframe_ind, msg_ok, numbers, plain,
}
use oai_lte_5g_multi_ue_prox.Pnf.Common.{
  pnf_param_request, pnf_config_request, pnf_start_request, pnf_stop_request, has_tag, config_phy,
  p7_config_of, configure_udp,
}
use oai_lte_5g_multi_ue_prox.Pnf.P4.{
  measurement_request, rssi_request, cell_search_request, broadcast_detect_request,
  system_information_schedule_request, system_information_request, nmm_stop_request,
}

-- The port that the LTE handlers write down.
abbrev pub lte_p7_port : ℕ
lte_p7_port = 32123

-- `configure_nfapi_pnf` on `pnf`.
unfoldable pub configure_nfapi_pnf : P5Arguments → P5State → P5State
configure_nfapi_pnf args s = configure_udp args s

module _ (inet_addr inet_ntoa : List ℕ → List ℕ) (created : P7Config) where
  unfoldable pub param_request : P5State → ℕ → P5State × List Action
  param_request s phy_id = (
    s,
    sends (record {
      message_id = 0x0109;
      phy_id = phy_id;
      error_code = 0;
      blocks =
          (0x0103, numbers (inet_addr s.pnf.phy.local_addr)) ∷ (0x0105, pos lte_p7_port ∷ []) ∷ [];
    })
        ∷ [],
  )

  -- The other TLVs of the request are only counted, for a trace message.
  unfoldable pub config_request : P5State → ConfigRequest → P5State × List Action
  config_request s req =
      let phy = config_phy 0x000A 0x000B s.pnf.phy req in
      let rf_0 =
        if has_tag req.rf_bands 0x0114
        then record s.pnf.rf_0 { band = req.rf_bands.value }
        else s.pnf.rf_0 in
      (
        record s {
          pnf = record s.pnf { phy = phy; rf_0 = rf_0 };
          ntoa_text = inet_ntoa req.p7_vnf_address_ipv4;
        },
        plain 0x010B phy.id 0 ∷ [],
      )

  -- The parameter is the phy id of the library's `phy`.
  unfoldable pub start_request : P5State → ℕ → P5State × List Action
  start_request s phy_id =
      let p7_config = p7_config_of created phy_id lte_p7_port s.pnf.phy in
      (
        record s { p7_config = some p7_config },
        starts_p7_thread p7_config ∷ plain 0x010D phy_id msg_ok ∷ first_subframe_ind phy_id 0 ∷ [],
      )

  -- The callbacks that `configure_nfapi_pnf` registers.
  unfoldable pub handle : P5State → Request → P5State × List Action
  handle s pnf_param_req = pnf_param_request s
  handle s (pnf_config_req phy_id) = pnf_config_request s phy_id
  handle s pnf_start_req = pnf_start_request s
  handle s pnf_stop_req = pnf_stop_request s
  handle s (param_req phy_id) = param_request s phy_id
  handle s (config_req req) = config_request s req
  handle s (start_req phy_id) = start_request s phy_id
  handle s (measurement_req phy_id) = measurement_request s phy_id
  handle s (rssi_req phy_id) = rssi_request s phy_id
  handle s (cell_search_req phy_id rat) = cell_search_request s phy_id rat
  handle s (broadcast_detect_req phy_id rat) = broadcast_detect_request s phy_id rat
  handle s (system_information_schedule_req phy_id) = system_information_schedule_request s phy_id
  handle s (system_information_req phy_id rat) = system_information_request s phy_id rat
  handle s (nmm_stop_req phy_id) = nmm_stop_request s phy_id

  -- The requests in the order in which they come.
  unfoldable pub handle_all : P5State → List Request → P5State × List Action
  handle_all s [] = (s, [])
  handle_all s (req ∷ reqs) =
      let (s', actions) = handle s req in
      let (s'', more) = handle_all s' reqs in (s'', actions ++ more)
