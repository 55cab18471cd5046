-- ===== src/Util/Names.antt =====
-- The names of the message ids, in src/nfapiutils.c.
use Prim.Native.String.{String}
use oai_lte_5g_multi_ue_prox.Base.{ℕ, List, [], ◌∷◌, if◌then◌else◌, ◌==◌}
use oai_lte_5g_multi_ue_prox.Start.{codes}

abbrev pub message_names : List (ℕ × String)
message_names =
    (0x80, "DL_CONFIG_REQUEST")
    ∷ (0x81, "UL_CONFIG_REQUEST")
    ∷ (0x82, "SUBFRAME_INDICATION")
    ∷ (0x83, "HI_DCI0_REQUEST")
    ∷ (0x84, "TX_REQUEST")
    ∷ (0x85, "HARQ_INDICATION")
    ∷ (0x86, "CRC_INDICATION")
    ∷ (0x87, "RX_ULSCH_INDICATION")
    ∷ (0x88, "RACH_INDICATION")
    ∷ (0x89, "SRS_INDICATION")
    ∷ (0x8a, "RX_SR_INDICATION")
    ∷ (0x8b, "RX_CQI_INDICATION")
    ∷ (0x8c, "LBT_DL_CONFIG_REQUEST")
    ∷ (0x8d, "LBT_DL_INDICATION")
    ∷ (0x8e, "NB_HARQ_INDICATION")
    ∷ (0x8f, "NRACH_INDICATION")
    ∷ (0x90, "UE_RELEASE_REQUEST")
    ∷ (0x91, "UE_RELEASE_RESPONSE")
    ∷ (0x100, "PNF_PARAM_REQUEST")
    ∷ (0x101, "PNF_PARAM_RESPONSE")
    ∷ (0x102, "PNF_CONFIG_REQUEST")
    ∷ (0x103, "PNF_CONFIG_RESPONSE")
    ∷ (0x104, "PNF_START_REQUEST")
    ∷ (0x105, "PNF_START_RESPONSE")
    ∷ (0x106, "PNF_STOP_REQUEST")
    ∷ (0x107, "PNF_STOP_RESPONSE")
    ∷ (0x108, "PARAM_REQUEST")
    ∷ (0x109, "PARAM_RESPONSE")
    ∷ (0x10a, "CONFIG_REQUEST")
    ∷ (0x10b, "CONFIG_RESPONSE")
    ∷ (0x10c, "START_REQUEST")
    ∷ (0x10d, "START_RESPONSE")
    ∷ (0x10e, "STOP_REQUEST")
    ∷ (0x10f, "STOP_RESPONSE")
    ∷ (0x110, "MEASUREMENT_REQUEST")
    ∷ (0x111, "MEASUREMENT_RESPONSE")
    ∷ (0x180, "UL_NODE_SYNC")
    ∷ (0x181, "DL_NODE_SYNC")
    ∷ (0x182, "TIMING_INFO")
    ∷ (0x200, "RSSI_REQUEST")
    ∷ (0x201, "RSSI_RESPONSE")
    ∷ (0x202, "RSSI_INDICATION")
    ∷ (0x203, "CELL_SEARCH_REQUEST")
    ∷ (0x204, "CELL_SEARCH_RESPONSE")
    ∷ (0x205, "CELL_SEARCH_INDICATION")
    ∷ (0x206, "BROADCAST_DETECT_REQUEST")
    ∷ (0x207, "BROADCAST_DETECT_RESPONSE")
    ∷ (0x208, "BROADCAST_DETECT_INDICATION")
    ∷ (0x209, "SYSTEM_INFORMATION_SCHEDULE_REQUEST")
    ∷ (0x20a, "SYSTEM_INFORMATION_SCHEDULE_RESPONSE")
    ∷ (0x20b, "SYSTEM_INFORMATION_SCHEDULE_INDICATION")
    ∷ (0x20c, "SYSTEM_INFORMATION_REQUEST")
    ∷ (0x20d, "SYSTEM_INFORMATION_RESPONSE")
    ∷ (0x20e, "SYSTEM_INFORMATION_INDICATION")
    ∷ (0x20f, "NMM_STOP_REQUEST")
    ∷ (0x210, "NMM_STOP_RESPONSE")
    ∷ (0x300, "VENDOR_EXT_MSG_MIN")
    ∷ (0x3ff, "VENDOR_EXT_MSG_MAX")
    ∷ []

-- The `switch`: the first case that matches.
unfoldable pub name_in : List (ℕ × String) → ℕ → List ℕ
name_in [] id = codes "*UNKNOWN ID*"
name_in ((case_id, name) ∷ more) id = if case_id == id then codes name else name_in more id

unfoldable pub nfap_message_id_to_string : ℕ → List ℕ
unfolding name_in
nfap_message_id_to_string id = name_in message_names id
