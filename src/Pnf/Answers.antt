-- ===== src/Pnf/Answers.antt =====
-- What the configuration handlers of src/nfapi_pnf.c send for each request.
use oai_lte_5g_multi_ue_prox.Base.{
  inl, inr, Bool-cases, ℕ, suc, ◌≡◌, refl, Bool, true, false, List, [], ◌∷◌, if◌then◌else◌, ◌==◌,
  All, arith,
}
use oai_lte_5g_multi_ue_prox.Pnf.{
  P7Config, P5State, Request, pnf_param_req, pnf_start_req, pnf_stop_req, pnf_config_req, param_req,
  start_req, measurement_req, rssi_req, system_information_schedule_req, nmm_stop_req, config_req,
  cell_search_req, broadcast_detect_req, system_information_req,
}
use oai_lte_5g_multi_ue_prox.Pnf.Message.{Message, Action, sends}
use oai_lte_5g_multi_ue_prox.Pnf.Common.{
  pnf_param_request, pnf_nr_param_request, pnf_config_request, pnf_start_request, pnf_stop_request,
  config_phy,
}
use oai_lte_5g_multi_ue_prox.Pnf.P4.{
  measurement_request, rssi_request, cell_search_request, broadcast_detect_request,
  system_information_schedule_request, system_information_request, nmm_stop_request,
}
use oai_lte_5g_multi_ue_prox.Pnf.Lte.{param_request, config_request, start_request, handle}
use oai_lte_5g_multi_ue_prox.Pnf.Nr.{
  nr_param_request, nr_config_request, nr_start_request, nr_handle,
}

-- The ids of the requests, LTE's with the nFAPI numbering; NR has its own for PARAM, CONFIG and
-- START.
abbrev pub request_id : Request → ℕ
request_id pnf_param_req = 0x0100
request_id (pnf_config_req i) = 0x0102
request_id pnf_start_req = 0x0104
request_id pnf_stop_req = 0x0106
request_id (param_req i) = 0x0108
request_id (config_req req) = 0x010A
request_id (start_req i) = 0x010C
request_id (measurement_req i) = 0x0110
request_id (rssi_req i) = 0x0200
request_id (cell_search_req i rat) = 0x0203
request_id (broadcast_detect_req i rat) = 0x0206
request_id (system_information_schedule_req i) = 0x0209
request_id (system_information_req i rat) = 0x020C
request_id (nmm_stop_req i) = 0x020F

abbrev pub nr_response_id : Request → ℕ
nr_response_id (param_req i) = 0x01
nr_response_id (config_req req) = 0x03
nr_response_id req = suc (request_id req)

-- The requests whose response is followed by an indication, with the next id.
abbrev pub indicates : Request → Bool
indicates (rssi_req i) = true
indicates (cell_search_req i rat) = true
indicates (broadcast_detect_req i rat) = true
indicates (system_information_schedule_req i) = true
indicates (system_information_req i rat) = true
indicates _ = false

-- NFAPI_P4_MSG_OK for the P4 requests, MEASUREMENT aside, and NFAPI_MSG_OK for the others.
abbrev pub ok_code : Request → ℕ
ok_code (nmm_stop_req i) = 100
ok_code req = if indicates req then 100 else 0

-- The phy id of the answer: none for the PNF requests, and for CONFIG the one that PNF CONFIG gave.
abbrev pub answer_phy : P5State → Request → ℕ
answer_phy s pnf_param_req = 0
answer_phy s (pnf_config_req i) = 0
answer_phy s pnf_start_req = 0
answer_phy s pnf_stop_req = 0
answer_phy s (param_req i) = i
answer_phy s (config_req req) = s.pnf.phy.id
answer_phy s (start_req i) = i
answer_phy s (measurement_req i) = i
answer_phy s (rssi_req i) = i
answer_phy s (cell_search_req i rat) = i
answer_phy s (broadcast_detect_req i rat) = i
answer_phy s (system_information_schedule_req i) = i
answer_phy s (system_information_req i rat) = i
answer_phy s (nmm_stop_req i) = i

-- PNF START before PNF CONFIG has given a phy id other than 0.
abbrev pub is_premature : P5State → Request → Bool
is_premature s pnf_start_req = s.pnf.phy.id == 0
is_premature s _ = false

abbrev pub messages : List Action → List Message
messages [] = []
messages (sends m ∷ actions) = m ∷ messages actions
messages (_ ∷ actions) = messages actions

abbrev pub message_ids : List Message → List ℕ
message_ids [] = []
message_ids (m ∷ ms) = m.message_id ∷ message_ids ms

-- The answers to a request: their ids, and each with the phy id and the code.
pub record Answers (response_id : ℕ) (s : P5State) (req : Request) (actions : List Action)
    : Type 0 where
  pub ids : message_ids (messages actions) ≡ (
      if is_premature s req
      then []
      else if indicates req
      then response_id ∷ suc response_id ∷ []
      else response_id ∷ [])
  pub each :
      All (λ m. (m.phy_id ≡ answer_phy s req) × (m.error_code ≡ ok_code req)) (messages actions)

module _ (inet_addr inet_ntoa : List ℕ → List ℕ) (created : P7Config) where
  start-Answers : (s : P5State) → Answers 0x0105 s pnf_start_req (pnf_start_request s).1
  unfolding pnf_start_request
  start-Answers s = elim (Bool-cases (s.pnf.phy.id == 0)) [
    | inl none_yet ↦ record { ids = ground (arith, none_yet); each = ground (arith, none_yet) }
    | inr given ↦ record { ids = ground (arith, given); each = ground (arith, given) }
  ]

  lte-Answers :
      (s : P5State) (req : Request)
      → Answers (suc (request_id req)) s req (handle inet_addr inet_ntoa created s req).1
  unfolding handle param_request config_request start_request pnf_param_request pnf_config_request
      pnf_stop_request config_phy measurement_request rssi_request cell_search_request
      broadcast_detect_request system_information_schedule_request system_information_request
      nmm_stop_request
  lte-Answers s pnf_param_req = record { ids = refl; each = ((refl, refl), tt) }
  lte-Answers s (pnf_config_req i) = record { ids = refl; each = ((refl, refl), tt) }
  lte-Answers s pnf_start_req = start-Answers s
  lte-Answers s pnf_stop_req = record { ids = refl; each = ((refl, refl), tt) }
  lte-Answers s (param_req i) = record { ids = refl; each = ((refl, refl), tt) }
  lte-Answers s (config_req req) = record { ids = refl; each = ((refl, refl), tt) }
  lte-Answers s (start_req i) = record { ids = refl; each = ((refl, refl), tt) }
  lte-Answers s (measurement_req i) = record { ids = refl; each = ((refl, refl), tt) }
  lte-Answers s (rssi_req i) = record { ids = refl; each = ((refl, refl), ((refl, refl), tt)) }
  lte-Answers s (cell_search_req i rat) = record {
    ids = refl;
    each = ((refl, refl), ((refl, refl), tt));
  }
  lte-Answers s (broadcast_detect_req i rat) = record {
    ids = refl;
    each = ((refl, refl), ((refl, refl), tt));
  }
  lte-Answers s (system_information_schedule_req i) = record {
    ids = refl;
    each = ((refl, refl), ((refl, refl), tt));
  }
  lte-Answers s (system_information_req i rat) = record {
    ids = refl;
    each = ((refl, refl), ((refl, refl), tt));
  }
  lte-Answers s (nmm_stop_req i) = record { ids = refl; each = ((refl, refl), tt) }

  nr-Answers :
      (s : P5State) (req : Request)
      → Answers (nr_response_id req) s req (nr_handle inet_addr inet_ntoa created s req).1
  unfolding nr_handle nr_param_request nr_config_request nr_start_request pnf_nr_param_request
      pnf_config_request pnf_stop_request config_phy measurement_request rssi_request
      cell_search_request broadcast_detect_request system_information_schedule_request
      system_information_request nmm_stop_request
  nr-Answers s pnf_param_req = record { ids = refl; each = ((refl, refl), tt) }
  nr-Answers s (pnf_config_req i) = record { ids = refl; each = ((refl, refl), tt) }
  nr-Answers s pnf_start_req = start-Answers s
  nr-Answers s pnf_stop_req = record { ids = refl; each = ((refl, refl), tt) }
  nr-Answers s (param_req i) = record { ids = refl; each = ((refl, refl), tt) }
  nr-Answers s (config_req req) = record { ids = refl; each = ((refl, refl), tt) }
  nr-Answers s (start_req i) = record { ids = refl; each = ((refl, refl), tt) }
  nr-Answers s (measurement_req i) = record { ids = refl; each = ((refl, refl), tt) }
  nr-Answers s (rssi_req i) = record { ids = refl; each = ((refl, refl), ((refl, refl), tt)) }
  nr-Answers s (cell_search_req i rat) = record {
    ids = refl;
    each = ((refl, refl), ((refl, refl), tt));
  }
  nr-Answers s (broadcast_detect_req i rat) = record {
    ids = refl;
    each = ((refl, refl), ((refl, refl), tt));
  }
  nr-Answers s (system_information_schedule_req i) = record {
    ids = refl;
    each = ((refl, refl), ((refl, refl), tt));
  }
  nr-Answers s (system_information_req i rat) = record {
    ids = refl;
    each = ((refl, refl), ((refl, refl), tt));
  }
  nr-Answers s (nmm_stop_req i) = record { ids = refl; each = ((refl, refl), tt) }

  -- Every request is answered by one response with the next id, or in NR by the one that PARAM and
  -- CONFIG have there, and the P4 requests with an indication by that indication after it. They
  -- carry the success code and the request's phy id, for CONFIG the one that PNF CONFIG gave, and 0
  -- for the PNF requests. Only PNF START gets no answer, exactly while the phy id is 0.
  pub handle-Answers :
      (s : P5State) (req : Request)
      → Answers (suc (request_id req)) s req (handle inet_addr inet_ntoa created s req).1
        × Answers (nr_response_id req) s req (nr_handle inet_addr inet_ntoa created s req).1
  handle-Answers s req = (lte-Answers s req, nr-Answers s req)
