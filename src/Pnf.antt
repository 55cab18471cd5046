-- ===== src/Pnf.antt =====
-- src/nfapi_pnf.c: the handlers of the configuration requests (P4 and P5) that a base station
-- sends, for LTE and for NR. A handler takes the state and gives the new state with what it does,
-- in order. The requests arrive unpacked; `inet_addr`, `inet_ntoa` and what
-- `nfapi_pnf_p7_config_create` gives are parameters of the handlers that use them. Callback
-- pointers and trace messages are left out.
pub mod Message
pub mod Common
pub mod P4
pub mod Lte
pub mod Nr
pub mod Answers
pub mod Tells
pub mod Told
pub mod Ports
pub mod Tables
pub mod Flow
pub mod Buffer
pub mod Linked
mod Examples
use oai_lte_5g_multi_ue_prox.Base.{ℕ, Bool, Option, none, List, ℤ}

-- udp_data
pub record UdpData : Type 0 where
  pub enabled : Bool
  pub rx_port : ℕ
  pub tx_port : ℕ
  pub tx_addr : List ℕ

-- A `char *` that is NULL, or points to the static buffer of `inet_ntoa`.
pub data Remote : Type 0 where
  null : Remote
  ntoa_buffer : Remote

-- phy_info, without the fields that nothing reads or writes.
pub record PhyInfo : Type 0 where
  pub index : ℕ
  pub id : ℕ
  pub rf : ℕ
  pub excluded_rf : ℕ
  pub udp : UdpData
  pub local_addr : List ℕ
  pub remote_addr : Remote
  pub remote_port : ℕ
  pub dl_channel_bw_support : ℕ
  pub ul_channel_bw_support : ℕ
  pub num_dl_layers_supported : ℕ
  pub num_ul_layers_supported : ℕ
  pub release_supported : ℕ
  pub nmm_modes_supported : ℕ
  pub timing_window : ℕ
  pub timing_info_mode : ℕ
  pub timing_info_period : ℕ

-- rf_info
pub record RfInfo : Type 0 where
  pub index : ℕ
  pub band : ℕ
  pub max_transmit_power : ℤ
  pub min_transmit_power : ℤ
  pub num_antennas_supported : ℕ
  pub min_downlink_frequency : ℕ
  pub max_downlink_frequency : ℕ
  pub max_uplink_frequency : ℕ
  pub min_uplink_frequency : ℕ

-- pnf_info: `phy` is `phys[0]`, the only one in use, and `rf_0` and `rf_1` are `rfs`.
pub record PnfInfo : Type 0 where
  pub release : ℕ
  pub phy : PhyInfo
  pub rf_0 : RfInfo
  pub rf_1 : RfInfo
  pub sync_mode : ℕ
  pub location_mode : ℕ
  pub dl_config_timing : ℕ
  pub ul_config_timing : ℕ
  pub tx_timing : ℕ
  pub hi_dci0_timing : ℕ
  pub max_phys : ℕ
  pub max_total_bw : ℕ
  pub max_total_dl_layers : ℕ
  pub max_total_ul_layers : ℕ
  pub shared_bands : ℕ
  pub shared_pa : ℕ
  pub max_total_power : ℤ

-- What the P7 library is given of a subframe without messages.
pub record DummySubframe : Type 0 where
  pub number_pdcch_ofdm_symbols : ℕ
  pub number_dci : ℕ
  pub number_pdu : ℕ
  pub number_pdsch_rnti : ℕ
  pub transmission_power_pcfich : ℕ

-- nfapi_pnf_p7_config_t, as far as the handlers write it.
pub record P7Config : Type 0 where
  pub phy_id : ℕ
  pub remote_p7_port : ℕ
  pub remote_p7_addr : Remote
  pub local_p7_port : ℕ
  pub local_p7_addr : List ℕ
  pub subframe_buffer_size : ℕ
  pub slot_buffer_size : ℕ
  pub timing_info_mode_periodic : Bool
  pub timing_info_mode_aperiodic : Bool
  pub timing_info_period : ℕ
  pub dummy_subframe : Option DummySubframe

-- One side's globals: `pnf` and `p7_config_g`, or `pnf_nr` and `p7_nr_config_g`, and the text in
-- the static buffer of `inet_ntoa`, of which the thread that runs the side's handlers has its own.
pub record P5State : Type 0 where
  pub pnf : PnfInfo
  pub p7_config : Option P7Config
  pub ntoa_text : List ℕ

-- A TLV of a request; a tag that is not the expected one means that it is missing.
pub record Tlv : Type 0 where
  pub tag : ℕ
  pub value : ℕ

-- What the handlers read of nfapi_config_request_t and nfapi_nr_config_request_scf_t.
pub record ConfigRequest : Type 0 where
  pub timing_window : Tlv
  pub timing_info_mode : Tlv
  pub timing_info_period : Tlv
  pub dl_bandwidth : Tlv
  pub ul_bandwidth : Tlv
  pub rf_bands : Tlv
  pub p7_vnf_port : ℕ
  pub p7_vnf_address_ipv4 : List ℕ

pub data RatType : Type 0 where
  rat_lte rat_utran rat_geran rat_nb_iot rat_nr : RatType

-- A request with what its handler reads. The number is the phy id, in the header or, for PNF
-- CONFIG, in the body; for START it is the one of the library's `phy`.
pub data Request : Type 0 where
  pnf_param_req pnf_start_req pnf_stop_req : Request
  pnf_config_req param_req start_req : ℕ → Request
  measurement_req rssi_req system_information_schedule_req nmm_stop_req : ℕ → Request
  config_req : ConfigRequest → Request
  cell_search_req broadcast_detect_req system_information_req : ℕ → RatType → Request
