-- ===== src/Pnf/Told.antt =====
-- How often the handlers of src/nfapi_pnf.c tell a base station the P7 port.
use oai_lte_5g_multi_ue_prox.Base.{
  ℕ, ◌≡◌, ◌∙◌, refl, ap, ap₂, List, [], ◌∷◌, ◌++◌, ℤ, pos, ◌==◌, leb, arith, Bool-cases, inl, inr,
  if◌then◌else◌, append_assoc, sym,
}
use oai_lte_5g_multi_ue_prox.Pnf.{PnfInfo, P7Config, P5State, Request, pnf_param_req, param_req}
use oai_lte_5g_multi_ue_prox.Pnf.Message.{Block, Action, sends}
use oai_lte_5g_multi_ue_prox.Pnf.Common.{
  rel10_blocks, rel11_blocks, rel12_blocks, rel13_blocks, from_release, release_blocks,
  pnf_param_request, pnf_nr_param_request, pnf_config_request, pnf_start_request, pnf_stop_request,
}
use oai_lte_5g_multi_ue_prox.Pnf.P4.{
  measurement_request, rssi_request, cell_search_request, broadcast_detect_request,
  system_information_schedule_request, system_information_request, nmm_stop_request,
}
use oai_lte_5g_multi_ue_prox.Pnf.Lte.{
  param_request, config_request, start_request, handle, handle_all,
}
use oai_lte_5g_multi_ue_prox.Pnf.Nr.{
  nr_param_request, nr_config_request, nr_start_request, nr_handle, nr_handle_all,
}

-- The values of the blocks that tell the PNF's P7 port, in the order in which they are sent.
abbrev pub ports_in : List Block → List (List ℤ)
ports_in [] = []
ports_in ((tag, values) ∷ blocks) =
    let rest = ports_in blocks in if tag == 0x0105 then values ∷ rest else rest

abbrev pub told_ports : List Action → List (List ℤ)
told_ports [] = []
told_ports (sends m ∷ actions) = ports_in m.blocks ++ told_ports actions
told_ports (_ ∷ actions) = told_ports actions

-- This port, once for each PARAM request.
abbrev pub once_each : ℕ → List Request → List (List ℤ)
once_each port [] = []
once_each port (param_req i ∷ reqs) = (pos port ∷ []) ∷ once_each port reqs
once_each port (_ ∷ reqs) = once_each port reqs

ports_in-append : (xs ys : List Block) → ports_in (xs ++ ys) ≡ ports_in xs ++ ports_in ys
ports_in-append [] ys = refl
ports_in-append ((tag, values) ∷ xs) ys = ground (arith, ports_in-append xs ys)

told_ports-append : (xs ys : List Action) → told_ports (xs ++ ys) ≡ told_ports xs ++ told_ports ys
told_ports-append [] ys = refl
told_ports-append (sends m ∷ xs) ys =
    ap (λ t. ports_in m.blocks ++ t) (told_ports-append xs ys)
    ∙ sym (append_assoc (ports_in m.blocks) (told_ports xs) (told_ports ys))
told_ports-append (_ ∷ xs) ys = told_ports-append xs ys

once_each-step :
    (port : ℕ) (r : Request) (rs : List Request)
    → once_each port (r ∷ []) ++ once_each port rs ≡ once_each port (r ∷ rs)
once_each-step port r rs = ground arith

from_release-tells_none :
    (release n : ℕ) (blocks : List Block)
    → ports_in blocks ≡ []
    → ports_in (from_release release n blocks) ≡ []
from_release-tells_none release n blocks h = elim (Bool-cases (leb n release)) [
  | inl t ↦ ground (arith, t, h)
  | inr t ↦ ground (arith, t, h)
]

neither_tells :
    (xs ys : List Block) → ports_in xs ≡ [] → ports_in ys ≡ [] → ports_in (xs ++ ys) ≡ []
neither_tells xs ys p q = ports_in-append xs ys ∙ ap₂ (λ a b. a ++ b) p q

release_blocks-tells_none : (pnf : PnfInfo) → ports_in (release_blocks pnf) ≡ []
release_blocks-tells_none pnf =
    let rel10 = from_release-tells_none pnf.release 10 (rel10_blocks pnf.phy) refl in
    let rel11 = from_release-tells_none pnf.release 11 (rel11_blocks pnf.phy) refl in
    let rel12 = from_release-tells_none pnf.release 12 (rel12_blocks pnf.phy) refl in
    let rel13 = from_release-tells_none pnf.release 13 (rel13_blocks pnf.phy) refl in
    let r10 = from_release pnf.release 10 (rel10_blocks pnf.phy) in
    let r11 = from_release pnf.release 11 (rel11_blocks pnf.phy) in
    let r12 = from_release pnf.release 12 (rel12_blocks pnf.phy) in
    let r13 = from_release pnf.release 13 (rel13_blocks pnf.phy) in
    neither_tells (r10 ++ r11 ++ r12) r13
      (neither_tells (r10 ++ r11) r12 (neither_tells r10 r11 rel10 rel11) rel12) rel13

module _ (inet_addr inet_ntoa : List ℕ → List ℕ) (created : P7Config) where
  handle-tells :
      (s : P5State) (r : Request)
      → told_ports (handle inet_addr inet_ntoa created s r).1 ≡ once_each 32123 (r ∷ [])
  unfolding handle param_request config_request start_request pnf_param_request pnf_config_request
      pnf_start_request pnf_stop_request measurement_request rssi_request cell_search_request
      broadcast_detect_request system_information_schedule_request system_information_request
      nmm_stop_request
  handle-tells s pnf_param_req = rw release_blocks-tells_none refl
  handle-tells s r = ground arith

  nr_handle-tells :
      (s : P5State) (r : Request)
      → told_ports (nr_handle inet_addr inet_ntoa created s r).1 ≡ once_each 50610 (r ∷ [])
  unfolding nr_handle nr_param_request nr_config_request nr_start_request pnf_nr_param_request
      pnf_config_request pnf_start_request pnf_stop_request measurement_request rssi_request
      cell_search_request broadcast_detect_request system_information_schedule_request
      system_information_request nmm_stop_request
  nr_handle-tells s r = ground arith

  pub handle_all-tells :
      (s : P5State) (reqs : List Request)
      → told_ports (handle_all inet_addr inet_ntoa created s reqs).1 ≡ once_each 32123 reqs
  unfolding handle_all
  handle_all-tells s [] = refl
  handle_all-tells s (r ∷ rs) =
      let (s', actions) = handle inet_addr inet_ntoa created s r in
      told_ports-append actions (handle_all inet_addr inet_ntoa created s' rs).1
      ∙ ap₂ (λ a b. a ++ b) (handle-tells s r) (handle_all-tells s' rs)
      ∙ once_each-step 32123 r rs

  pub nr_handle_all-tells :
      (s : P5State) (reqs : List Request)
      → told_ports (nr_handle_all inet_addr inet_ntoa created s reqs).1 ≡ once_each 50610 reqs
  unfolding nr_handle_all
  nr_handle_all-tells s [] = refl
  nr_handle_all-tells s (r ∷ rs) =
      let (s', actions) = nr_handle inet_addr inet_ntoa created s r in
      told_ports-append actions (nr_handle_all inet_addr inet_ntoa created s' rs).1
      ∙ ap₂ (λ a b. a ++ b) (nr_handle-tells s r) (nr_handle_all-tells s' rs)
      ∙ once_each-step 50610 r rs
