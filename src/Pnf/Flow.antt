-- ===== src/Pnf/Flow.antt =====
-- How a configuration reaches the P7 side, through the handlers of src/nfapi_pnf.c.
use oai_lte_5g_multi_ue_prox.Base.{
  ap, Bool-cases, inl, inr, ◌||◌, ℕ, ◌≡◌, ◌∙◌, refl, Bool, true, false, none, some, List, [], ◌∷◌,
  ◌++◌, arith, All,
}
use oai_lte_5g_multi_ue_prox.Pnf.{
  PhyInfo, Remote, P7Config, P5State, Request, start_req, config_req,
}
use oai_lte_5g_multi_ue_prox.Pnf.Common.{
  pnf_param_request, pnf_nr_param_request, pnf_config_request, pnf_start_request, pnf_stop_request,
}
use oai_lte_5g_multi_ue_prox.Pnf.P4.{
  measurement_request, rssi_request, cell_search_request, broadcast_detect_request,
  system_information_schedule_request, system_information_request, nmm_stop_request,
}
use oai_lte_5g_multi_ue_prox.Pnf.Lte.{
  start_request, param_request, config_request, start_request, handle, handle_all,
}
use oai_lte_5g_multi_ue_prox.Pnf.Nr.{
  nr_start_request, nr_param_request, nr_config_request, nr_start_request, nr_handle, nr_handle_all,
}

abbrev pub is_config : Request → Bool
is_config (config_req req) = true
is_config _ = false

abbrev pub is_start : Request → Bool
is_start (start_req i) = true
is_start _ = false

-- `p7_config_g != NULL`, on which `oai_subframe_ind` and `oai_slot_ind` wait.
abbrev pub is_configured : P5State → Bool
is_configured s = elim s.p7_config [ none ↦ false | some c ↦ true ]

-- What a later START takes from a PHY.
abbrev pub link : PhyInfo → Remote × ℕ × ℕ × ℕ × ℕ
link phy = (
  phy.remote_addr, phy.remote_port, phy.timing_window, phy.timing_info_mode, phy.timing_info_period,
)

abbrev pub p7_link : P7Config → Remote × ℕ × ℕ
p7_link c = (c.remote_p7_addr, c.remote_p7_port, c.subframe_buffer_size)

-- How one side's handlers treat the link and the P7 configuration.
pub record Keeps (step : P5State → Request → P5State) : Type 0 where
  pub keeps_link :
      (s : P5State) (req : Request)
      → is_config req ≡ false
      → link (step s req).pnf.phy ≡ link s.pnf.phy
  pub keeps_p7 :
      (s : P5State) (req : Request) → is_start req ≡ false → (step s req).p7_config ≡ s.p7_config

module _ (inet_addr inet_ntoa : List ℕ → List ℕ) (created : P7Config) where
  abbrev pub lte_step : P5State → Request → P5State
  lte_step s req = (handle inet_addr inet_ntoa created s req).0

  abbrev pub nr_step : P5State → Request → P5State
  nr_step s req = (nr_handle inet_addr inet_ntoa created s req).0

  pub lte_step-Keeps : Keeps lte_step
  unfolding handle param_request config_request start_request pnf_param_request pnf_config_request
      pnf_start_request pnf_stop_request measurement_request rssi_request cell_search_request
      broadcast_detect_request system_information_schedule_request system_information_request
      nmm_stop_request
  lte_step-Keeps = record {
    keeps_link = λ s req other. ground arith;
    keeps_p7 = λ s req other. ground arith;
  }

  pub nr_step-Keeps : Keeps nr_step
  unfolding nr_handle nr_param_request nr_config_request nr_start_request pnf_nr_param_request
      pnf_config_request pnf_start_request pnf_stop_request measurement_request rssi_request
      cell_search_request broadcast_detect_request system_information_schedule_request
      system_information_request nmm_stop_request
  nr_step-Keeps = record {
    keeps_link = λ s req other. ground arith;
    keeps_p7 = λ s req other. ground arith;
  }

-- The state after requests.
unfoldable pub run_steps : (P5State → Request → P5State) → P5State → List Request → P5State
run_steps step s [] = s
run_steps step s (req ∷ reqs) = run_steps step (step s req) reqs

module _ (step : P5State → Request → P5State) (keeps : Keeps step) where
  pub run_steps-append :
      (s : P5State) (xs ys : List Request)
      → run_steps step s (xs ++ ys) ≡ run_steps step (run_steps step s xs) ys
  unfolding run_steps
  run_steps-append s [] ys = refl
  run_steps-append s (x ∷ xs) ys = run_steps-append (step s x) xs ys

  pub run_steps-keeps_link :
      (s : P5State) (reqs : List Request)
      → All (λ r. is_config r ≡ false) reqs
      → link (run_steps step s reqs).pnf.phy ≡ link s.pnf.phy
  unfolding run_steps
  run_steps-keeps_link s [] other = refl
  run_steps-keeps_link s (r ∷ rs) other =
      run_steps-keeps_link (step s r) rs other.1 ∙ keeps.keeps_link s r other.0

  pub run_steps-keeps_p7 :
      (s : P5State) (reqs : List Request)
      → All (λ r. is_start r ≡ false) reqs
      → (run_steps step s reqs).p7_config ≡ s.p7_config
  unfolding run_steps
  run_steps-keeps_p7 s [] other = refl
  run_steps-keeps_p7 s (r ∷ rs) other =
      run_steps-keeps_p7 (step s r) rs other.1 ∙ keeps.keeps_p7 s r other.0

abbrev pub has_start : List Request → Bool
has_start [] = false
has_start (r ∷ rs) = is_start r || has_start rs

module _ (step : P5State → Request → P5State) (keeps : Keeps step)
    (starts : (s : P5State) (req : Request)
      → is_start req ≡ true
      → is_configured (step s req) ≡ true) where
  step-started :
      (s : P5State) (req : Request) → is_configured (step s req) ≡ (is_configured s || is_start req)
  step-started s req = elim (Bool-cases (is_start req)) [
    | inl start ↦ ground (arith, start, starts s req start)
    | inr other ↦ ground (arith, other, keeps.keeps_p7 s req other)
  ]

  run_steps-started :
      (s : P5State) (reqs : List Request)
      → is_configured (run_steps step s reqs) ≡ (is_configured s || has_start reqs)
  unfolding run_steps
  run_steps-started s [] = ground arith
  run_steps-started s (r ∷ rs) = ground (arith, run_steps-started (step s r) rs, step-started s r)

module _ (inet_addr inet_ntoa : List ℕ → List ℕ) (created : P7Config) where
  pub run_steps-lte :
      (s : P5State) (reqs : List Request)
      → (handle_all inet_addr inet_ntoa created s reqs).0
        ≡ run_steps (lte_step inet_addr inet_ntoa created) s reqs
  unfolding run_steps handle_all
  run_steps-lte s [] = refl
  run_steps-lte s (r ∷ rs) = run_steps-lte (lte_step inet_addr inet_ntoa created s r) rs

  pub run_steps-nr :
      (s : P5State) (reqs : List Request)
      → (nr_handle_all inet_addr inet_ntoa created s reqs).0
        ≡ run_steps (nr_step inet_addr inet_ntoa created) s reqs
  unfolding run_steps nr_handle_all
  run_steps-nr s [] = refl
  run_steps-nr s (r ∷ rs) = run_steps-nr (nr_step inet_addr inet_ntoa created s r) rs

  lte_starts :
      (s : P5State) (req : Request)
      → is_start req ≡ true
      → is_configured (lte_step inet_addr inet_ntoa created s req) ≡ true
  unfolding handle start_request
  lte_starts s req h = ground arith

  nr_starts :
      (s : P5State) (req : Request)
      → is_start req ≡ true
      → is_configured (nr_step inet_addr inet_ntoa created s req) ≡ true
  unfolding nr_handle nr_start_request
  nr_starts s req h = ground arith

  -- A side sends subframe or slot indications after requests exactly if one of them was a START, or
  -- it did before: nothing else sets the global P7 configuration, and nothing clears it.
  pub handle_all-started :
      (s : P5State) (reqs : List Request)
      → (is_configured (handle_all inet_addr inet_ntoa created s reqs).0
          ≡ (is_configured s || has_start reqs))
        × (is_configured (nr_handle_all inet_addr inet_ntoa created s reqs).0
            ≡ (is_configured s || has_start reqs))
  handle_all-started s reqs = (
    ap is_configured (run_steps-lte s reqs)
        ∙ run_steps-started (lte_step inet_addr inet_ntoa created)
            (lte_step-Keeps inet_addr inet_ntoa created) lte_starts s reqs,
    ap is_configured (run_steps-nr s reqs)
        ∙ run_steps-started (nr_step inet_addr inet_ntoa created)
            (nr_step-Keeps inet_addr inet_ntoa created) nr_starts s reqs,
  )
