-- ===== src/Aggregate/EndsNr.antt =====
-- oai_slot_aggregate_message_id of src/nfapi_pnf.c returns, for messages with a time.
use oai_lte_5g_multi_ue_prox.Base.{
  ◌≡◌, refl, inl, inr, true, false, Option, none, some, List, [], ◌∷◌, Outcome, ℕ, take, leb,
  if-Ends, Ends, >>=-Ends, arith, length, All, ◌==◌, ltb, Bool-cases, Option-cases,
}
use oai_lte_5g_multi_ue_prox.Message.{MessageBuffer, data_max, valid_bytes}
use oai_lte_5g_multi_ue_prox.Message.Id
use oai_lte_5g_multi_ue_prox.Batch.Batches.{id_of_message}
use oai_lte_5g_multi_ue_prox.Uplink.Drained.{IsStored}
use oai_lte_5g_multi_ue_prox.Uplink.Times.{nr_time, get_sfnslot-nr_time}
use oai_lte_5g_multi_ue_prox.Aggregate.{NrFrame, Indication, Kind}
use oai_lte_5g_multi_ue_prox.Aggregate.Ends.{All-of_id, IsAccepted, aggregate-Ends}
use oai_lte_5g_multi_ue_prox.Aggregate.Slot.{
  NrLibrary, NrSent, crc_kind, rx_data_kind, uci_kind, srs_kind, send_aggregate, send_nr_rach_inds,
  oai_slot_aggregate_message_id, oai_slot_aggregate_crc_ind, oai_slot_aggregate_rx_data_ind,
  oai_slot_aggregate_uci_ind, oai_slot_aggregate_srs_ind, oai_slot_aggregate_rach_ind,
  oai_nfapi_nr_crc_indication, oai_nfapi_nr_rx_data_indication, oai_nfapi_nr_uci_indication,
  oai_nfapi_nr_srs_indication,
}

module _ {P : Type 0} where
  -- A message that unpacks as what its id says is not empty if it is of RX data or UCI, and for UCI
  -- its first PDU has a known type.
  pub record IsNrAcceptable (lib : NrLibrary P) (msg : MessageBuffer) : Type 0 where
    pub rx_data_counted :
        id_of_message lib.pull16 msg ≡ Id.nr_rx_data_indication
        → IsAccepted rx_data_kind lib.unpack_rx_data msg
    pub uci_known :
        id_of_message lib.pull16 msg ≡ Id.nr_uci_indication → IsAccepted uci_kind lib.unpack_uci msg

  -- The other kinds refuse nothing.
  never_refused :
      (kind : Kind NrFrame P) (unpack : List ℕ → Option (Indication NrFrame P))
      → ((ind : Indication NrFrame P) → kind.refuses ind ≡ false)
      → (msgs : List MessageBuffer) → All (IsAccepted kind unpack) msgs
  never_refused kind unpack never [] = tt
  never_refused kind unpack never (msg ∷ msgs) =
      ((λ ind e. never ind), never_refused kind unpack never msgs)

  send_nr_aggregate-Ends :
      {Q : Type 0} (send : Indication NrFrame Q → List (NrSent P))
      (result : Outcome (Option (Indication NrFrame Q)))
      → Ends result
      → Ends (send_aggregate send result)
  send_nr_aggregate-Ends send result h =
      >>=-Ends result _ h (elim [ none ↦ ([], refl) | some agg ↦ (send agg, refl) ])

  send_nr_rach_inds-Ends :
      (lib : NrLibrary P) (msgs : List MessageBuffer)
      → All IsStored msgs
      → Ends (send_nr_rach_inds lib msgs)
  unfolding send_nr_rach_inds valid_bytes
  send_nr_rach_inds-Ends lib [] h = ([], refl)
  send_nr_rach_inds-Ends lib (msg ∷ msgs) h =
      let (more, run) = send_nr_rach_inds-Ends lib msgs h.1 in
      let short : leb msg.length_field data_max ≡ true = ground (arith, h.0.fits) in
      elim (Option-cases (lib.unpack_rach (take msg.length_field msg.bytes))) [
        | inl e ↦ (more, ground (arith, h.0.fits, e, run))
        | inr (ind, e) ↦ rw (short, run, e) (_, refl)
      ]

  rx_data_ind-Ends :
      (lib : NrLibrary P) (msg : MessageBuffer) (msgs : List MessageBuffer)
      → All (IsAccepted rx_data_kind lib.unpack_rx_data) (msg ∷ msgs)
      → All IsStored (msg ∷ msgs)
      → (at : ℕ) × (nr_time lib.pull16 msg ≡ some at)
      → Ends (oai_slot_aggregate_rx_data_ind lib (msg ∷ msgs))
  unfolding oai_slot_aggregate_rx_data_ind
  rx_data_ind-Ends lib msg msgs ok h (at, timed) =
      let (sent, run) =
        send_nr_aggregate-Ends oai_nfapi_nr_rx_data_indication _
          (aggregate-Ends rx_data_kind lib.unpack_rx_data msg msgs ok h) in
      let read = get_sfnslot-nr_time lib.pull16 msg h.0.fits in
      (
        sent,
        elim (Bool-cases (ltb 1 (length (msg ∷ msgs)))) [
          | inl several ↦ rw (several, read, timed) run
          | inr one ↦ rw one run
        ],
      )

  -- Acceptable stored messages of one id, of which the first one has a time, come to an end.
  pub nr_message_id-Ends :
      (lib : NrLibrary P) (id : ℕ) (msg : MessageBuffer) (msgs : List MessageBuffer)
      → All (IsNrAcceptable lib) (msg ∷ msgs)
      → All (λ m. id_of_message lib.pull16 m ≡ id) (msg ∷ msgs)
      → All IsStored (msg ∷ msgs)
      → (at : ℕ) × (nr_time lib.pull16 msg ≡ some at)
      → Ends (oai_slot_aggregate_message_id lib id (msg ∷ msgs))
  unfolding oai_slot_aggregate_message_id oai_slot_aggregate_crc_ind oai_slot_aggregate_uci_ind
      oai_slot_aggregate_srs_ind oai_slot_aggregate_rach_ind
  nr_message_id-Ends lib id msg msgs ok ids h timed =
      let short : leb msg.length_field data_max ≡ true = ground (arith, h.0.fits) in
      let all : List MessageBuffer = msg ∷ msgs in
      let ident = id_of_message lib.pull16 in
      rw short (
        if-Ends (id == Id.nr_rach_indication) _ _ (λ _. send_nr_rach_inds-Ends lib (msg ∷ msgs) h)
          (if-Ends (id == Id.nr_crc_indication) _ _
            (λ _. send_nr_aggregate-Ends oai_nfapi_nr_crc_indication _ (
              aggregate-Ends crc_kind lib.unpack_crc msg msgs
                (never_refused crc_kind lib.unpack_crc (λ ind. refl) all) h))
            (if-Ends (id == Id.nr_rx_data_indication) _ _
              (λ t.
                rx_data_ind-Ends lib msg msgs
                  (All-of_id ident (IsNrAcceptable lib) (IsAccepted rx_data_kind lib.unpack_rx_data)
                    id Id.nr_rx_data_indication t (λ m a. a.rx_data_counted) all ok ids)
                  h timed)
              (if-Ends (id == Id.nr_uci_indication) _ _
                (λ t. send_nr_aggregate-Ends oai_nfapi_nr_uci_indication _ (
                  aggregate-Ends uci_kind lib.unpack_uci msg msgs
                    (All-of_id ident (IsNrAcceptable lib) (IsAccepted uci_kind lib.unpack_uci) id
                      Id.nr_uci_indication t (λ m a. a.uci_known) all ok ids)
                    h))
                (if-Ends (id == Id.nr_srs_indication) _ _
                  (λ _. send_nr_aggregate-Ends oai_nfapi_nr_srs_indication _ (
                    aggregate-Ends srs_kind lib.unpack_srs msg msgs
                      (never_refused srs_kind lib.unpack_srs (λ ind. refl) all) h))
                  ([], refl))))))
