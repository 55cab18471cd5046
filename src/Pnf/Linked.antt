-- ===== src/Pnf/Linked.antt =====
-- From a CONFIG request to the P7 configuration that a START makes, in src/nfapi_pnf.c.
use Prim.Native.Nat.{bit_and}
use oai_lte_5g_multi_ue_prox.Base.{
  subst, ap₂, ℕ, ◌≡◌, ◌∙◌, refl, ap, sym, Bool, true, false, ◌||◌, not, ◌==◌, some, List, ◌∷◌, ◌++◌,
  if◌then◌else◌, arith, All,
}
use oai_lte_5g_multi_ue_prox.Pnf.{
  PhyInfo, P7Config, P5State, ntoa_buffer, ConfigRequest, Request, start_req, config_req,
}
use oai_lte_5g_multi_ue_prox.Pnf.Common.{has_tag, config_phy, p7_config_of}
use oai_lte_5g_multi_ue_prox.Pnf.Lte.{
  lte_p7_port, config_request, start_request, handle, handle_all,
}
use oai_lte_5g_multi_ue_prox.Pnf.Nr.{nr_config_request, nr_start_request, nr_handle, nr_handle_all}
use oai_lte_5g_multi_ue_prox.Pnf.Flow.{
  is_config, is_start, link, Keeps, lte_step, nr_step, lte_step-Keeps, nr_step-Keeps, run_steps,
  run_steps-append, run_steps-keeps_link, run_steps-keeps_p7, run_steps-lte, run_steps-nr,
}
use oai_lte_5g_multi_ue_prox.Pnf.Buffer.{
  last_text, last_text-append, last_text-keeps, run_steps-last_text, lte_step-Writes,
  nr_step-Writes,
}

-- The mode and the period that a request asks for; 0 if it does not say.
abbrev pub asked_mode : ConfigRequest → ℕ
asked_mode req = if has_tag req.timing_info_mode 0x011F then req.timing_info_mode.value else 0

abbrev pub asked_period : ConfigRequest → ℕ
asked_period req = if has_tag req.timing_info_period 0x0120 then req.timing_info_period.value else 0

abbrev pub asks_for : ℕ → ConfigRequest → Bool
asks_for bit req = not (bit_and (asked_mode req) bit == 0)

-- The P7 side has the VNF's port and the buffer size that a CONFIG request gave, points to the
-- buffer of `inet_ntoa` for the address, and has the START request's phy id. The timing information
-- is on if it was in the created configuration, or the request asks for it.
pub record IsLinked (created : P7Config) (req : ConfigRequest) (phy_id : ℕ) (c : P7Config)
    : Type 0 where
  pub for_phy : c.phy_id ≡ phy_id
  pub port : c.remote_p7_port ≡ req.p7_vnf_port
  pub addr : c.remote_p7_addr ≡ ntoa_buffer
  pub window :
      has_tag req.timing_window 0x011E ≡ true → c.subframe_buffer_size ≡ req.timing_window.value
  pub periodic : c.timing_info_mode_periodic ≡ (asks_for 1 req || created.timing_info_mode_periodic)
  pub aperiodic :
      c.timing_info_mode_aperiodic ≡ (asks_for 2 req || created.timing_info_mode_aperiodic)
  pub period :
      c.timing_info_period
      ≡ (if asks_for 1 req then asked_period req else created.timing_info_period)

or_if : (b c : Bool) → (if b then true else c) ≡ (b || c)
or_if true c = refl
or_if false c = refl

module _ (created : P7Config) where
  config_phy-IsLinked :
      (dl_tag ul_tag phy_id local_port : ℕ) (phy phy' : PhyInfo) (req : ConfigRequest)
      → link phy' ≡ link (config_phy dl_tag ul_tag phy req)
      → IsLinked created req phy_id (p7_config_of created phy_id local_port phy')
  unfolding p7_config_of config_phy
  config_phy-IsLinked dl_tag ul_tag phy_id local_port phy phy' req same =
      let addr_same = ap (λ l. l.0) same in
      let port_same = ap (λ l. l.1) same in
      let window_same = ap (λ l. l.2) same in
      let mode_same = ap (λ l. l.3) same in
      let period_same = ap (λ l. l.4) same in
      record {
        for_phy = refl;
        port = port_same;
        addr = addr_same;
        window = λ t. ground (arith, window_same, t);
        periodic =
            or_if _ created.timing_info_mode_periodic
            ∙ ap (λ m. not (bit_and m 1 == 0) || created.timing_info_mode_periodic) mode_same;
        aperiodic =
            or_if _ created.timing_info_mode_aperiodic
            ∙ ap (λ m. not (bit_and m 2 == 0) || created.timing_info_mode_aperiodic) mode_same;
        period =
            ap₂ (λ m p. if not (bit_and m 1 == 0) then p else created.timing_info_period) mode_same
              period_same;
      }

  -- The size of the slot buffer plays no part.
  with_slots-IsLinked :
      {req : ConfigRequest} {phy_id : ℕ} {c : P7Config} (size : ℕ)
      → IsLinked created req phy_id c
      → IsLinked created req phy_id (record c { slot_buffer_size = size })
  with_slots-IsLinked size l = record {
    for_phy = l.for_phy;
    port = l.port;
    addr = l.addr;
    window = l.window;
    periodic = l.periodic;
    aperiodic = l.aperiodic;
    period = l.period;
  }

  -- A side's global P7 configuration, and the text that the address is read as.
  abbrev pub LinkedTo : ConfigRequest → ℕ → List ℕ → P5State → Type 0
  LinkedTo req phy_id text s =
      ((c : P7Config) × (s.p7_config ≡ some c) × IsLinked created req phy_id c)
      × (s.ntoa_text ≡ text)

module _ (step : P5State → Request → P5State) (keeps : Keeps step) where
  -- A property of the P7 configuration that START makes of any state whose link is CONFIG's.
  run_steps-linked :
      (P : P7Config → Type 0) (s : P5State) (before middle after : List Request)
      (req : ConfigRequest) (phy_id : ℕ)
      → ((t u : P5State)
          → link u.pnf.phy ≡ link (step t (config_req req)).pnf.phy
          → (c : P7Config) × ((step u (start_req phy_id)).p7_config ≡ some c) × P c)
      → All (λ r. is_config r ≡ false) middle
      → All (λ r. is_start r ≡ false) after
      → (c : P7Config) × ((run_steps step s
            (before ++ (config_req req ∷ (middle ++ (start_req phy_id ∷ after))))).p7_config
          ≡ some c)
        × P c
  unfolding run_steps
  run_steps-linked P s before middle after req phy_id starts no_config no_start =
      let t = run_steps step s before in
      let u = run_steps step (step t (config_req req)) middle in
      let (c, made, holds) =
        starts t u (run_steps-keeps_link step keeps (step t (config_req req)) middle no_config) in
      let to_t =
        run_steps-append step keeps s before
          (config_req req ∷ (middle ++ (start_req phy_id ∷ after))) in
      let to_u =
        run_steps-append step keeps (step t (config_req req)) middle (start_req phy_id ∷ after) in
      (
        c,
        ap (λ v. v.p7_config) (to_t ∙ to_u)
            ∙ run_steps-keeps_p7 step keeps (step u (start_req phy_id)) after no_start
            ∙ made,
        holds,
      )

module _ (inet_addr inet_ntoa : List ℕ → List ℕ) (created : P7Config) where
  -- The text that the address is read as is that of the last CONFIG request.
  text_of :
      (text : List ℕ) (before middle after : List Request) (req : ConfigRequest) (phy_id : ℕ)
      → All (λ r. is_config r ≡ false) middle
      → last_text inet_ntoa text
          (before ++ (config_req req ∷ (middle ++ (start_req phy_id ∷ after))))
        ≡ last_text inet_ntoa (inet_ntoa req.p7_vnf_address_ipv4) after
  text_of text before middle after req phy_id no_config =
      let own = inet_ntoa req.p7_vnf_address_ipv4 in
      last_text-append inet_ntoa text before
        (config_req req ∷ (middle ++ (start_req phy_id ∷ after)))
      ∙ last_text-append inet_ntoa own middle (start_req phy_id ∷ after)
      ∙ ap (λ t. last_text inet_ntoa t after) (last_text-keeps inet_ntoa own middle no_config)

  -- On either side, after any requests: when a CONFIG request is followed, with no other CONFIG in
  -- between, by a START, the last one, the P7 configuration has the START's phy id, the CONFIG's
  -- port and, if it gives one, its buffer size, and the timing information that it asks for or that
  -- a created configuration has, whatever other requests come before, between and after. For the
  -- address it only points to the buffer of `inet_ntoa`: this holds the address of the last CONFIG
  -- of all, which may come after the START, as far as the handlers write the buffer.
  pub handle_all-LinkedTo :
      (s : P5State) (before middle after : List Request) (req : ConfigRequest) (phy_id : ℕ)
      → All (λ r. is_config r ≡ false) middle
      → All (λ r. is_start r ≡ false) after
      → let reqs = before ++ (config_req req ∷ (middle ++ (start_req phy_id ∷ after))) in
        let text = last_text inet_ntoa (inet_ntoa req.p7_vnf_address_ipv4) after in
        LinkedTo created req phy_id text (handle_all inet_addr inet_ntoa created s reqs).0
        × LinkedTo created req phy_id text (nr_handle_all inet_addr inet_ntoa created s reqs).0
  unfolding handle nr_handle config_request nr_config_request start_request nr_start_request
  handle_all-LinkedTo s before middle after req phy_id no_config no_start =
      let reqs = before ++ (config_req req ∷ (middle ++ (start_req phy_id ∷ after))) in
      let text = last_text inet_ntoa (inet_ntoa req.p7_vnf_address_ipv4) after in
      let to_text = text_of s.ntoa_text before middle after req phy_id no_config in
      let lte = lte_step inet_addr inet_ntoa created in
      let nr = nr_step inet_addr inet_ntoa created in
      (
        subst (LinkedTo created req phy_id text)
            (sym (run_steps-lte inet_addr inet_ntoa created s reqs))
            (
              run_steps-linked lte (lte_step-Keeps inet_addr inet_ntoa created)
                  (IsLinked created req phy_id) s before middle after req phy_id
                  (λ t u same. (
                    p7_config_of created phy_id lte_p7_port u.pnf.phy,
                    refl,
                    config_phy-IsLinked created 0x000A 0x000B phy_id lte_p7_port t.pnf.phy u.pnf.phy
                        req same,
                  ))
                  no_config no_start,
              run_steps-last_text inet_ntoa lte (lte_step-Writes inet_addr inet_ntoa created) s reqs
                  ∙ to_text,
            ),
        subst (LinkedTo created req phy_id text)
            (sym (run_steps-nr inet_addr inet_ntoa created s reqs))
            (
              run_steps-linked nr (nr_step-Keeps inet_addr inet_ntoa created)
                  (IsLinked created req phy_id) s before middle after req phy_id
                  (λ t u same. (
                    record (p7_config_of created phy_id u.pnf.phy.udp.rx_port u.pnf.phy) {
                      slot_buffer_size = u.pnf.phy.timing_window;
                    },
                    refl,
                    with_slots-IsLinked created u.pnf.phy.timing_window (
                        config_phy-IsLinked created 0x1001 0x1006 phy_id u.pnf.phy.udp.rx_port
                          t.pnf.phy u.pnf.phy req same),
                  ))
                  no_config no_start,
              run_steps-last_text inet_ntoa nr (nr_step-Writes inet_addr inet_ntoa created) s reqs
                  ∙ to_text,
            ),
      )
