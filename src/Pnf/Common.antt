-- ===== src/Pnf/Common.antt =====
-- src/nfapi_pnf.c: the handlers that LTE and NR share, and the parts that both repeat.
use Prim.Native.Nat.{bit_and}
use oai_lte_5g_multi_ue_prox.Base.{
  ℕ, Bool, true, some, List, [], ◌∷◌, ◌++◌, ℤ, pos, if◌then◌else◌, ◌==◌, not, leb,
}
use oai_lte_5g_multi_ue_prox.Proxy.Setup.{P5Arguments}
use oai_lte_5g_multi_ue_prox.Pnf.{
  ntoa_buffer, PhyInfo, RfInfo, PnfInfo, DummySubframe, P7Config, P5State, Tlv, ConfigRequest,
}
use oai_lte_5g_multi_ue_prox.Pnf.Message.{Block, Action, sends, msg_ok, numbers, plain}

abbrev general_block : PnfInfo → Block
general_block pnf = (
  0x1000,
  numbers (
        pnf.sync_mode ∷ pnf.location_mode ∷ pnf.dl_config_timing ∷ pnf.tx_timing
        ∷ pnf.ul_config_timing ∷ pnf.hi_dci0_timing ∷ pnf.max_phys ∷ pnf.max_total_bw
        ∷ pnf.max_total_dl_layers ∷ pnf.max_total_ul_layers ∷ pnf.shared_bands ∷ pnf.shared_pa ∷ [])
      ++ (pnf.max_total_power ∷ []),
)

-- One PHY, which says that it has two RFs and gives the index of one, and no excluded ones.
abbrev phy_block : PhyInfo → Block
phy_block phy = (
  0x1001,
  numbers (
      1 ∷ phy.index ∷ phy.dl_channel_bw_support ∷ phy.ul_channel_bw_support
      ∷ phy.num_dl_layers_supported ∷ phy.num_ul_layers_supported ∷ phy.release_supported
      ∷ phy.nmm_modes_supported ∷ 2 ∷ phy.rf ∷ 0 ∷ []),
)

abbrev rf_values : RfInfo → List ℤ
rf_values rf =
    pos rf.index
    ∷ pos rf.band
    ∷ rf.max_transmit_power
    ∷ rf.min_transmit_power
    ∷ numbers (
        rf.num_antennas_supported ∷ rf.min_downlink_frequency ∷ rf.max_downlink_frequency
        ∷ rf.min_uplink_frequency ∷ rf.max_uplink_frequency ∷ [])

abbrev rf_block : PnfInfo → Block
rf_block pnf = (0x1002, pos 2 ∷ (rf_values pnf.rf_0 ++ rf_values pnf.rf_1))

abbrev pub from_release : ℕ → ℕ → List Block → List Block
from_release release n blocks = if leb n release then blocks else []

abbrev pub rel10_blocks : PhyInfo → List Block
rel10_blocks phy = (0x100A, numbers (1 ∷ phy.index ∷ 0 ∷ 1 ∷ 0 ∷ 1 ∷ 0 ∷ 1 ∷ [])) ∷ []

abbrev pub rel11_blocks : PhyInfo → List Block
rel11_blocks phy = (0x100B, numbers (1 ∷ phy.index ∷ 0 ∷ 1 ∷ 0 ∷ 1 ∷ 0 ∷ [])) ∷ []

abbrev pub rel12_blocks : PhyInfo → List Block
rel12_blocks phy = (0x100C, numbers (1 ∷ phy.index ∷ 0 ∷ 2 ∷ 0 ∷ 1 ∷ 0 ∷ 1 ∷ [])) ∷ []

abbrev pub rel13_blocks : PhyInfo → List Block
rel13_blocks phy =
    (0x100D, numbers (1 ∷ phy.index ∷ 0 ∷ 1 ∷ 0 ∷ 1 ∷ 0 ∷ 1 ∷ 0 ∷ 1 ∷ 0 ∷ 1 ∷ []))
    ∷ (
      0x100E,
      numbers (
          1 ∷ phy.index ∷ 1 ∷ phy.rf ∷ 1 ∷ phy.excluded_rf ∷ phy.num_dl_layers_supported
          ∷ phy.num_ul_layers_supported ∷ phy.release_supported ∷ phy.nmm_modes_supported ∷ []),
    )
    ∷ []

-- The blocks for releases 10 to 13, each from its release on.
abbrev pub release_blocks : PnfInfo → List Block
release_blocks pnf =
    from_release pnf.release 10 (rel10_blocks pnf.phy)
    ++ from_release pnf.release 11 (rel11_blocks pnf.phy)
    ++ from_release pnf.release 12 (rel12_blocks pnf.phy)
    ++ from_release pnf.release 13 (rel13_blocks pnf.phy)

unfoldable pub pnf_param_request : P5State → P5State × List Action
pnf_param_request s = (
  s,
  sends (record {
    message_id = 0x0101;
    phy_id = 0;
    error_code = msg_ok;
    blocks = general_block s.pnf ∷ phy_block s.pnf.phy ∷ rf_block s.pnf ∷ release_blocks s.pnf;
  })
      ∷ [],
)

unfoldable pub pnf_nr_param_request : P5State → P5State × List Action
pnf_nr_param_request s = (
  s,
  sends (record {
    message_id = 0x0101;
    phy_id = 0;
    error_code = msg_ok;
    blocks = general_block s.pnf ∷ phy_block s.pnf.phy ∷ [];
  })
      ∷ [],
)

abbrev pub with_phy : P5State → PhyInfo → P5State
with_phy s phy = record s { pnf = record s.pnf { phy = phy } }

-- `pnf_config_request` and `pnf_nr_config_request`, whose messages have the same id.
unfoldable pub pnf_config_request : P5State → ℕ → P5State × List Action
pnf_config_request s phy_id =
    (with_phy s (record s.pnf.phy { id = phy_id }), plain 0x0103 0 msg_ok ∷ [])

-- `pnf_start_request` and `pnf_nr_start_request`.
unfoldable pub pnf_start_request : P5State → P5State × List Action
pnf_start_request s = (s, if not (s.pnf.phy.id == 0) then plain 0x0105 0 msg_ok ∷ [] else [])

unfoldable pub pnf_stop_request : P5State → P5State × List Action
pnf_stop_request s = (s, plain 0x0107 0 msg_ok ∷ [])

abbrev pub has_tag : Tlv → ℕ → Bool
has_tag tlv tag = tlv.tag == tag

-- What a PHY keeps of a configuration, with the tags of the bandwidths. The timing window and the
-- bandwidths stay as they are if they are missing; the mode and the period become 0.
-- `inet_ntoa` returns its buffer; what it writes there is in the handlers.
unfoldable pub config_phy : ℕ → ℕ → PhyInfo → ConfigRequest → PhyInfo
config_phy dl_tag ul_tag phy req = record phy {
  timing_window =
      if has_tag req.timing_window 0x011E then req.timing_window.value else phy.timing_window;
  timing_info_mode = if has_tag req.timing_info_mode 0x011F then req.timing_info_mode.value else 0;
  timing_info_period =
      if has_tag req.timing_info_period 0x0120 then req.timing_info_period.value else 0;
  dl_channel_bw_support =
      if has_tag req.dl_bandwidth dl_tag then req.dl_bandwidth.value else phy.dl_channel_bw_support;
  ul_channel_bw_support =
      if has_tag req.ul_bandwidth ul_tag then req.ul_bandwidth.value else phy.ul_channel_bw_support;
  remote_port = req.p7_vnf_port;
  remote_addr = ntoa_buffer;
}

abbrev dummy_subframe : DummySubframe
dummy_subframe = record {
  number_pdcch_ofdm_symbols = 1;
  number_dci = 0;
  number_pdu = 0;
  number_pdsch_rnti = 0;
  transmission_power_pcfich = 6000;
}

-- The P7 configuration that the start requests make from a created one: the flags of the timing
-- information are set, and never cleared.
unfoldable pub p7_config_of : P7Config → ℕ → ℕ → PhyInfo → P7Config
p7_config_of created phy_id local_port phy =
    let periodic = not (bit_and phy.timing_info_mode 1 == 0) in
    let aperiodic = not (bit_and phy.timing_info_mode 2 == 0) in
    record created {
      phy_id = phy_id;
      remote_p7_port = phy.remote_port;
      remote_p7_addr = phy.remote_addr;
      local_p7_port = local_port;
      local_p7_addr = phy.local_addr;
      subframe_buffer_size = phy.timing_window;
      timing_info_mode_periodic = if periodic then true else created.timing_info_mode_periodic;
      timing_info_period = if periodic then phy.timing_info_period else created.timing_info_period;
      timing_info_mode_aperiodic = if aperiodic then true else created.timing_info_mode_aperiodic;
      dummy_subframe = some dummy_subframe;
    }

-- What `configure_nfapi_pnf` and `configure_nr_nfapi_pnf` write into `phys[0]`.
unfoldable pub configure_udp : P5Arguments → P5State → P5State
configure_udp args s = with_phy s (record s.pnf.phy {
  udp = record {
    enabled = true;
    rx_port = args.pnf_p7_port;
    tx_port = args.vnf_p7_port;
    tx_addr = args.vnf_ip_addr;
  };
  local_addr = args.pnf_ip_addr;
})
