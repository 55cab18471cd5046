-- ===== src/Aggregate/EndsLte.antt =====
-- oai_subframe_aggregate_message_id of src/nfapi_pnf.c returns, for messages with a time.
use oai_lte_5g_multi_ue_prox.Base.{
  ◌≡◌, refl, inl, inr, true, Option, none, some, List, [], ◌∷◌, Outcome, ℕ, take, leb, if-Ends,
  Ends, >>=-Ends, arith, length, All, ◌==◌, ltb, Bool-cases, Option-cases,
}
use oai_lte_5g_multi_ue_prox.Message.{MessageBuffer, data_max, valid_bytes}
use oai_lte_5g_multi_ue_prox.Message.Id
use oai_lte_5g_multi_ue_prox.Batch.Batches.{id_of_message}
use oai_lte_5g_multi_ue_prox.Uplink.Drained.{IsStored}
use oai_lte_5g_multi_ue_prox.Uplink.Times.{lte_time, get_sfnsf-lte_time}
use oai_lte_5g_multi_ue_prox.Aggregate.{LteFrame, Indication}
use oai_lte_5g_multi_ue_prox.Aggregate.Ends.{All-of_id, IsAccepted, aggregate-Ends}
use oai_lte_5g_multi_ue_prox.Aggregate.Subframe.{
  LteLibrary, LteSent, plain_kind, counted_kind, send_aggregate, send_rach_inds,
  oai_subframe_aggregate_message_id, oai_subframe_aggregate_crc_ind, oai_subframe_aggregate_cqi_ind,
  oai_subframe_aggregate_harq_ind, oai_subframe_aggregate_sr_ind, oai_subframe_aggregate_rx_ind,
  oai_subframe_aggregate_rach_ind, oai_nfapi_crc_indication, oai_nfapi_cqi_indication,
  oai_nfapi_harq_indication, oai_nfapi_sr_indication, oai_nfapi_rx_ind,
}

module _ {P : Type 0} where
  -- A message that unpacks as what its id says has no vendor extension, and is not empty if it is
  -- of RX or CQI.
  pub record IsAcceptable (lib : LteLibrary P) (msg : MessageBuffer) : Type 0 where
    pub crc_plain :
        id_of_message lib.pull16 msg ≡ Id.crc_indication → IsAccepted plain_kind lib.unpack_crc msg
    pub harq_plain :
        id_of_message lib.pull16 msg ≡ Id.harq_indication
        → IsAccepted plain_kind lib.unpack_harq msg
    pub sr_plain :
        id_of_message lib.pull16 msg ≡ Id.rx_sr_indication → IsAccepted plain_kind lib.unpack_sr msg
    pub rx_counted :
        id_of_message lib.pull16 msg ≡ Id.rx_ulsch_indication
        → IsAccepted counted_kind lib.unpack_rx msg
    pub cqi_counted :
        id_of_message lib.pull16 msg ≡ Id.rx_cqi_indication
        → IsAccepted counted_kind lib.unpack_cqi msg

  send_aggregate-Ends :
      (send : Indication LteFrame P → List (LteSent P))
      (result : Outcome (Option (Indication LteFrame P)))
      → Ends result
      → Ends (send_aggregate send result)
  send_aggregate-Ends send result h =
      >>=-Ends result _ h (elim [ none ↦ ([], refl) | some agg ↦ (send agg, refl) ])

  send_rach_inds-Ends :
      (lib : LteLibrary P) (msgs : List MessageBuffer)
      → All IsStored msgs
      → Ends (send_rach_inds lib msgs)
  unfolding send_rach_inds valid_bytes
  send_rach_inds-Ends lib [] h = ([], refl)
  send_rach_inds-Ends lib (msg ∷ msgs) h =
      let (more, run) = send_rach_inds-Ends lib msgs h.1 in
      let short : leb msg.length_field data_max ≡ true = ground (arith, h.0.fits) in
      elim (Option-cases (lib.unpack_rach (take msg.length_field msg.bytes))) [
        | inl e ↦ (more, ground (arith, h.0.fits, e, run))
        | inr (ind, e) ↦ rw (short, run, e) (_, refl)
      ]

  rx_ind-Ends :
      (lib : LteLibrary P) (msg : MessageBuffer) (msgs : List MessageBuffer)
      → All (IsAccepted counted_kind lib.unpack_rx) (msg ∷ msgs)
      → All IsStored (msg ∷ msgs)
      → (at : ℕ) × (lte_time lib.pull16 msg ≡ some at)
      → Ends (oai_subframe_aggregate_rx_ind lib (msg ∷ msgs))
  unfolding oai_subframe_aggregate_rx_ind
  rx_ind-Ends lib msg msgs ok h (at, timed) =
      let (sent, run) =
        send_aggregate-Ends (oai_nfapi_rx_ind lib) _
          (aggregate-Ends counted_kind lib.unpack_rx msg msgs ok h) in
      let read = get_sfnsf-lte_time lib.pull16 msg h.0.fits in
      (
        sent,
        elim (Bool-cases (ltb 1 (length (msg ∷ msgs)))) [
          | inl several ↦ rw (several, read, timed) run
          | inr one ↦ rw one run
        ],
      )

  -- Acceptable stored messages of one id, of which the first one has a time, come to an end.
  pub message_id-Ends :
      (lib : LteLibrary P) (id : ℕ) (msg : MessageBuffer) (msgs : List MessageBuffer)
      → All (IsAcceptable lib) (msg ∷ msgs)
      → All (λ m. id_of_message lib.pull16 m ≡ id) (msg ∷ msgs)
      → All IsStored (msg ∷ msgs)
      → (at : ℕ) × (lte_time lib.pull16 msg ≡ some at)
      → Ends (oai_subframe_aggregate_message_id lib id (msg ∷ msgs))
  unfolding oai_subframe_aggregate_message_id oai_subframe_aggregate_crc_ind
      oai_subframe_aggregate_cqi_ind oai_subframe_aggregate_harq_ind oai_subframe_aggregate_sr_ind
      oai_subframe_aggregate_rach_ind
  message_id-Ends lib id msg msgs ok ids h timed =
      let short : leb msg.length_field data_max ≡ true = ground (arith, h.0.fits) in
      let all : List MessageBuffer = msg ∷ msgs in
      let ident = id_of_message lib.pull16 in
      rw short (
        if-Ends (id == Id.rach_indication) _ _ (λ _. send_rach_inds-Ends lib (msg ∷ msgs) h)
          (if-Ends (id == Id.crc_indication) _ _
            (λ t. send_aggregate-Ends oai_nfapi_crc_indication _ (
              aggregate-Ends plain_kind lib.unpack_crc msg msgs
                (All-of_id ident (IsAcceptable lib) (IsAccepted plain_kind lib.unpack_crc) id
                  Id.crc_indication t (λ m a. a.crc_plain) all ok ids)
                h))
            (if-Ends (id == Id.rx_ulsch_indication) _ _
              (λ t.
                rx_ind-Ends lib msg msgs
                  (All-of_id ident (IsAcceptable lib) (IsAccepted counted_kind lib.unpack_rx) id
                    Id.rx_ulsch_indication t (λ m a. a.rx_counted) all ok ids)
                  h timed)
              (if-Ends (id == Id.rx_cqi_indication) _ _
                (λ t. send_aggregate-Ends oai_nfapi_cqi_indication _ (
                  aggregate-Ends counted_kind lib.unpack_cqi msg msgs
                    (All-of_id ident (IsAcceptable lib) (IsAccepted counted_kind lib.unpack_cqi) id
                      Id.rx_cqi_indication t (λ m a. a.cqi_counted) all ok ids)
                    h))
                (if-Ends (id == Id.harq_indication) _ _
                  (λ t. send_aggregate-Ends oai_nfapi_harq_indication _ (
                    aggregate-Ends plain_kind lib.unpack_harq msg msgs
                      (All-of_id ident (IsAcceptable lib) (IsAccepted plain_kind lib.unpack_harq) id
                        Id.harq_indication t (λ m a. a.harq_plain) all ok ids)
                      h))
                  (if-Ends (id == Id.rx_sr_indication) _ _
                    (λ t. send_aggregate-Ends oai_nfapi_sr_indication _ (
                      aggregate-Ends plain_kind lib.unpack_sr msg msgs
                        (All-of_id ident (IsAcceptable lib) (IsAccepted plain_kind lib.unpack_sr) id
                          Id.rx_sr_indication t (λ m a. a.sr_plain) all ok ids)
                        h))
                    ([], refl)))))))
