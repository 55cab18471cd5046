-- ===== src/Pnf/Buffer.antt =====
-- The static buffer of `inet_ntoa`, which the CONFIG handlers of src/nfapi_pnf.c write.
use oai_lte_5g_multi_ue_prox.Base.{ap, ℕ, ◌≡◌, ◌∙◌, refl, false, List, [], ◌∷◌, ◌++◌, arith, All}
use oai_lte_5g_multi_ue_prox.Pnf.{P7Config, P5State, Request, config_req}
use oai_lte_5g_multi_ue_prox.Pnf.Common.{
  pnf_param_request, pnf_nr_param_request, pnf_config_request, pnf_start_request, pnf_stop_request,
}
use oai_lte_5g_multi_ue_prox.Pnf.P4.{
  measurement_request, rssi_request, cell_search_request, broadcast_detect_request,
  system_information_schedule_request, system_information_request, nmm_stop_request,
}
use oai_lte_5g_multi_ue_prox.Pnf.Lte.{
  start_request, param_request, config_request, start_request, handle,
}
use oai_lte_5g_multi_ue_prox.Pnf.Nr.{
  nr_start_request, nr_param_request, nr_config_request, nr_start_request, nr_handle,
}
use oai_lte_5g_multi_ue_prox.Pnf.Flow.{is_config, lte_step, nr_step, run_steps}

-- The text in the buffer of `inet_ntoa`, after a request and after requests.
abbrev pub next_text : (List ℕ → List ℕ) → List ℕ → Request → List ℕ
next_text inet_ntoa text (config_req req) = inet_ntoa req.p7_vnf_address_ipv4
next_text inet_ntoa text _ = text

abbrev pub last_text : (List ℕ → List ℕ) → List ℕ → List Request → List ℕ
last_text inet_ntoa text [] = text
last_text inet_ntoa text (req ∷ reqs) = last_text inet_ntoa (next_text inet_ntoa text req) reqs

-- How one side's handlers treat that buffer.
abbrev pub Writes : (List ℕ → List ℕ) → (P5State → Request → P5State) → Type 0
Writes inet_ntoa step =
    (s : P5State) (req : Request) → (step s req).ntoa_text ≡ next_text inet_ntoa s.ntoa_text req

module _ (inet_addr inet_ntoa : List ℕ → List ℕ) (created : P7Config) where
  pub lte_step-Writes : Writes inet_ntoa (lte_step inet_addr inet_ntoa created)
  unfolding handle param_request config_request start_request pnf_param_request pnf_config_request
      pnf_start_request pnf_stop_request measurement_request rssi_request cell_search_request
      broadcast_detect_request system_information_schedule_request system_information_request
      nmm_stop_request
  lte_step-Writes s req = ground arith

  pub nr_step-Writes : Writes inet_ntoa (nr_step inet_addr inet_ntoa created)
  unfolding nr_handle nr_param_request nr_config_request nr_start_request pnf_nr_param_request
      pnf_config_request pnf_start_request pnf_stop_request measurement_request rssi_request
      cell_search_request broadcast_detect_request system_information_schedule_request
      system_information_request nmm_stop_request
  nr_step-Writes s req = ground arith

module _ (inet_ntoa : List ℕ → List ℕ) (step : P5State → Request → P5State)
    (writes : Writes inet_ntoa step) where
  pub run_steps-last_text :
      (s : P5State) (reqs : List Request)
      → (run_steps step s reqs).ntoa_text ≡ last_text inet_ntoa s.ntoa_text reqs
  unfolding run_steps
  run_steps-last_text s [] = refl
  run_steps-last_text s (r ∷ rs) =
      run_steps-last_text (step s r) rs ∙ ap (λ t. last_text inet_ntoa t rs) (writes s r)

pub last_text-append :
    (inet_ntoa : List ℕ → List ℕ) (text : List ℕ) (xs ys : List Request)
    → last_text inet_ntoa text (xs ++ ys) ≡ last_text inet_ntoa (last_text inet_ntoa text xs) ys
last_text-append inet_ntoa text [] ys = refl
last_text-append inet_ntoa text (x ∷ xs) ys =
    last_text-append inet_ntoa (next_text inet_ntoa text x) xs ys

pub last_text-keeps :
    (inet_ntoa : List ℕ → List ℕ) (text : List ℕ) (reqs : List Request)
    → All (λ r. is_config r ≡ false) reqs
    → last_text inet_ntoa text reqs ≡ text
last_text-keeps inet_ntoa text [] other = refl
last_text-keeps inet_ntoa text (r ∷ rs) other =
    last_text-keeps inet_ntoa (next_text inet_ntoa text r) rs other.1 ∙ one r other.0
  where
    one : (r : Request) → is_config r ≡ false → next_text inet_ntoa text r ≡ text
    one r h = ground arith
