-- ===== src/Pnf/P4.antt =====
-- src/nfapi_pnf.c: the handlers of the measurement and search requests, for LTE and NR.
use oai_lte_5g_multi_ue_prox.Base.{ℕ, List, [], ◌∷◌, ◌++◌, pos, negsuc, suc}
use oai_lte_5g_multi_ue_prox.Pnf.{P5State, RatType, rat_lte, rat_utran, rat_geran}
use oai_lte_5g_multi_ue_prox.Pnf.Message.{Block, Action, sends, msg_ok, p4_msg_ok, numbers, plain}

unfoldable pub measurement_request : P5State → ℕ → P5State × List Action
measurement_request s phy_id = (s, plain 0x0111 phy_id msg_ok ∷ [])

-- A P4 response, and then an indication with its blocks.
abbrev respond_and_indicate : P5State → ℕ → ℕ → List Block → P5State × List Action
respond_and_indicate s response phy_id blocks = (
  s,
  plain response phy_id p4_msg_ok
      ∷ sends (record {
        message_id = suc response;
        phy_id = phy_id;
        error_code = p4_msg_ok;
        blocks = blocks;
      })
      ∷ [],
)

unfoldable pub rssi_request : P5State → ℕ → P5State × List Action
rssi_request s phy_id = respond_and_indicate s 0x0201 phy_id ((0x3003, pos 1 ∷ negsuc 41 ∷ []) ∷ [])

abbrev cell_search_blocks : RatType → List Block
cell_search_blocks rat_lte = (0x3007, numbers (1 ∷ 123 ∷ 123 ∷ 123 ∷ 123 ∷ [])) ∷ []
cell_search_blocks rat_utran = (0x3008, pos 1 ∷ pos 89 ∷ pos 89 ∷ pos 89 ∷ negsuc 88 ∷ []) ∷ []
cell_search_blocks rat_geran =
    (0x3009, pos 1 ∷ pos 23 ∷ pos 23 ∷ pos 23 ∷ negsuc 22 ∷ pos 230 ∷ []) ∷ []
cell_search_blocks _ = []

unfoldable pub cell_search_request : P5State → ℕ → RatType → P5State × List Action
cell_search_request s phy_id rat_type =
    respond_and_indicate s 0x0204 phy_id
      (cell_search_blocks rat_type ++ ((0x300A, pos 3 ∷ []) ∷ []))

abbrev broadcast_detect_blocks : RatType → List Block
broadcast_detect_blocks rat_lte = (0x300E, numbers (1 ∷ 4 ∷ 77 ∷ [])) ∷ []
broadcast_detect_blocks rat_utran = (0x300F, numbers (4 ∷ [])) ∷ []
broadcast_detect_blocks _ = []

unfoldable pub broadcast_detect_request : P5State → ℕ → RatType → P5State × List Action
broadcast_detect_request s phy_id rat_type =
    respond_and_indicate s 0x0207 phy_id
      (broadcast_detect_blocks rat_type ++ ((0x3010, pos 3 ∷ []) ∷ []))

unfoldable pub system_information_schedule_request : P5State → ℕ → P5State × List Action
system_information_schedule_request s phy_id =
    respond_and_indicate s 0x020A phy_id ((0x3018, numbers (3 ∷ 5 ∷ [])) ∷ [])

abbrev system_information_blocks : RatType → List Block
system_information_blocks rat_lte = (0x3018, numbers (1 ∷ 3 ∷ [])) ∷ []
system_information_blocks rat_utran = (0x3019, numbers (3 ∷ [])) ∷ []
system_information_blocks rat_geran = (0x301A, numbers (3 ∷ [])) ∷ []
system_information_blocks _ = []

unfoldable pub system_information_request : P5State → ℕ → RatType → P5State × List Action
system_information_request s phy_id rat_type =
    respond_and_indicate s 0x020D phy_id (system_information_blocks rat_type)

unfoldable pub nmm_stop_request : P5State → ℕ → P5State × List Action
nmm_stop_request s phy_id = (s, plain 0x0210 phy_id p4_msg_ok ∷ [])
