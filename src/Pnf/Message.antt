-- ===== src/Pnf/Message.antt =====
-- The messages that the P5 handlers of src/nfapi_pnf.c send, and the handlers' other effects.
use oai_lte_5g_multi_ue_prox.Base.{ℕ, List, [], ℤ, pos, map}
use oai_lte_5g_multi_ue_prox.Pnf.{P7Config}

-- A TLV of a response, with the values that the handler assigns, in order.
abbrev pub Block : Type 0
Block = ℕ × List ℤ

-- A message: the fields of the header and of the body that the handler sets; the others are 0.
pub record Message : Type 0 where
  pub message_id : ℕ
  pub phy_id : ℕ
  pub error_code : ℕ
  pub blocks : List Block

pub data Action : Type 0 where
  sends : Message → Action
  starts_p7_thread : P7Config → Action
  -- nfapi_pnf_p7_subframe_ind and nfapi_pnf_p7_slot_ind, with the phy id.
  first_subframe_ind : ℕ → ℕ → Action
  first_slot_ind : ℕ → ℕ → ℕ → Action

abbrev pub msg_ok : ℕ
msg_ok = 0

abbrev pub p4_msg_ok : ℕ
p4_msg_ok = 100

abbrev pub numbers : List ℕ → List ℤ
numbers ns = map pos ns

-- A response or indication without a body.
abbrev pub plain : ℕ → ℕ → ℕ → Action
plain message_id phy_id error_code =
    sends
      (record { message_id = message_id; phy_id = phy_id; error_code = error_code; blocks = [] })
