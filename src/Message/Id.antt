-- ===== src/Message/Id.antt =====
-- Message ids of the nFAPI interface that src/nfapi_pnf.c, src/nfapiutils.c and the two proxies
-- name, LTE's and then NR's.
use oai_lte_5g_multi_ue_prox.Base.{ℕ}

abbrev pub dl_config_request : ℕ
dl_config_request = 0x80

abbrev pub ul_config_request : ℕ
ul_config_request = 0x81

abbrev pub hi_dci0_request : ℕ
hi_dci0_request = 0x83

abbrev pub tx_request : ℕ
tx_request = 0x84

abbrev pub harq_indication : ℕ
harq_indication = 0x85

abbrev pub crc_indication : ℕ
crc_indication = 0x86

abbrev pub rx_ulsch_indication : ℕ
rx_ulsch_indication = 0x87

abbrev pub rach_indication : ℕ
rach_indication = 0x88

abbrev pub rx_sr_indication : ℕ
rx_sr_indication = 0x8a

abbrev pub rx_cqi_indication : ℕ
rx_cqi_indication = 0x8b

abbrev pub nr_dl_tti_request : ℕ
nr_dl_tti_request = 0x80

abbrev pub nr_ul_tti_request : ℕ
nr_ul_tti_request = 0x81

abbrev pub nr_ul_dci_request : ℕ
nr_ul_dci_request = 0x83

abbrev pub nr_tx_data_request : ℕ
nr_tx_data_request = 0x84

abbrev pub nr_rx_data_indication : ℕ
nr_rx_data_indication = 0x85

abbrev pub nr_crc_indication : ℕ
nr_crc_indication = 0x86

abbrev pub nr_uci_indication : ℕ
nr_uci_indication = 0x87

abbrev pub nr_srs_indication : ℕ
nr_srs_indication = 0x88

abbrev pub nr_rach_indication : ℕ
nr_rach_indication = 0x89
