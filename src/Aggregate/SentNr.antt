-- ===== src/Aggregate/SentNr.antt =====
-- What oai_slot_aggregate_message_id of src/nfapi_pnf.c hands to the gNB.
use oai_lte_5g_multi_ue_prox.Base.{
  ℕ, ◌≤◌, ◌<◌, ◌≡◌, refl, Option, none, some, List, [], ◌∷◌, ◌++◌, returns, arith, length,
}
use oai_lte_5g_multi_ue_prox.Message.{MessageBuffer, data_max, get_sfnslot}
use oai_lte_5g_multi_ue_prox.Message.Id
use oai_lte_5g_multi_ue_prox.Aggregate.{NrFrame, Indication, Kind, set_ids, aggregate}
use oai_lte_5g_multi_ue_prox.Aggregate.Combine.{pdus_of, Unpacks, unpacks}
use oai_lte_5g_multi_ue_prox.Aggregate.Whole.{IsWhole, aggregate-IsWhole}
use oai_lte_5g_multi_ue_prox.Aggregate.Partial.{Fails, aggregate-none}
use oai_lte_5g_multi_ue_prox.Aggregate.Slot.{
  NrLibrary, NrSent, NrUci, nr_crc_ind, nr_rx_data_ind, nr_uci_ind, nr_srs_ind, crc_kind,
  rx_data_kind, uci_kind, srs_kind, oai_slot_aggregate_message_id, oai_slot_aggregate_crc_ind,
  oai_slot_aggregate_rx_data_ind, oai_slot_aggregate_uci_ind, oai_slot_aggregate_srs_ind,
  oai_nfapi_nr_crc_indication, oai_nfapi_nr_rx_data_indication, oai_nfapi_nr_uci_indication,
  oai_nfapi_nr_srs_indication,
}

-- The NR indications that are combined.
pub data NrCombined : Type 0 where
  nr_crc : NrCombined
  nr_rx_data : NrCombined
  nr_uci : NrCombined
  nr_srs : NrCombined

abbrev pub nr_id_of : NrCombined → ℕ
nr_id_of nr_crc = Id.nr_crc_indication
nr_id_of nr_rx_data = Id.nr_rx_data_indication
nr_id_of nr_uci = Id.nr_uci_indication
nr_id_of nr_srs = Id.nr_srs_indication

module _ (P : Type 0) where
  abbrev pub PduOf : NrCombined → Type 0
  PduOf nr_crc = P
  PduOf nr_rx_data = P
  PduOf nr_uci = NrUci
  PduOf nr_srs = P

  abbrev pub nr_kind_of : (c : NrCombined) → Kind NrFrame (PduOf c)
  nr_kind_of nr_crc = crc_kind
  nr_kind_of nr_rx_data = rx_data_kind
  nr_kind_of nr_uci = uci_kind
  nr_kind_of nr_srs = srs_kind

  abbrev pub nr_unpack_of :
      NrLibrary P → (c : NrCombined) → List ℕ → Option (Indication NrFrame (PduOf c))
  nr_unpack_of lib nr_crc = lib.unpack_crc
  nr_unpack_of lib nr_rx_data = lib.unpack_rx_data
  nr_unpack_of lib nr_uci = lib.unpack_uci
  nr_unpack_of lib nr_srs = lib.unpack_srs

  abbrev pub nr_sent_as : (c : NrCombined) → Indication NrFrame (PduOf c) → NrSent P
  nr_sent_as nr_crc ind = nr_crc_ind (set_ids Id.nr_crc_indication ind)
  nr_sent_as nr_rx_data ind = nr_rx_data_ind (set_ids Id.nr_rx_data_indication ind)
  nr_sent_as nr_uci ind = nr_uci_ind (set_ids Id.nr_uci_indication ind)
  nr_sent_as nr_srs ind = nr_srs_ind (set_ids Id.nr_srs_indication ind)

  nr_wide : (c : NrCombined) → (nr_kind_of c).max_pdu < (nr_kind_of c).count_bound
  nr_wide nr_crc = omega arith
  nr_wide nr_rx_data = omega arith
  nr_wide nr_uci = omega arith
  nr_wide nr_srs = omega arith

  nr_max_100 : (c : NrCombined) → (nr_kind_of c).max_pdu ≡ 100
  nr_max_100 nr_crc = refl
  nr_max_100 nr_rx_data = refl
  nr_max_100 nr_uci = refl
  nr_max_100 nr_srs = refl

  module _ (lib : NrLibrary P) (msg : MessageBuffer) (msgs : List MessageBuffer) (at : ℕ)
      (timed : get_sfnslot lib.pull16 msg ≡ returns (some at)) where
    slot_message_id-sends :
        (c : NrCombined) (out : Indication NrFrame (PduOf c))
        → msg.length_field ≤ data_max
        → aggregate (nr_kind_of c) (nr_unpack_of lib c) (msg ∷ msgs) ≡ returns (some out)
        → oai_slot_aggregate_message_id lib (nr_id_of c) (msg ∷ msgs)
          ≡ returns (nr_sent_as c out ∷ [])
    unfolding oai_slot_aggregate_message_id oai_slot_aggregate_crc_ind
        oai_slot_aggregate_rx_data_ind oai_slot_aggregate_uci_ind oai_slot_aggregate_srs_ind
        oai_nfapi_nr_crc_indication oai_nfapi_nr_rx_data_indication oai_nfapi_nr_uci_indication
        oai_nfapi_nr_srs_indication
    slot_message_id-sends nr_crc out short run = ground (arith, short, run)
    slot_message_id-sends nr_rx_data out short run = ground (arith, short, run, timed)
    slot_message_id-sends nr_uci out short run = ground (arith, short, run)
    slot_message_id-sends nr_srs out short run = ground (arith, short, run)

    slot_message_id-sends_none :
        (c : NrCombined)
        → msg.length_field ≤ data_max
        → aggregate (nr_kind_of c) (nr_unpack_of lib c) (msg ∷ msgs) ≡ returns none
        → oai_slot_aggregate_message_id lib (nr_id_of c) (msg ∷ msgs) ≡ returns []
    unfolding oai_slot_aggregate_message_id oai_slot_aggregate_crc_ind
        oai_slot_aggregate_rx_data_ind oai_slot_aggregate_uci_ind oai_slot_aggregate_srs_ind
    slot_message_id-sends_none nr_crc short run = ground (arith, short, run)
    slot_message_id-sends_none nr_rx_data short run = ground (arith, short, run, timed)
    slot_message_id-sends_none nr_uci short run = ground (arith, short, run)
    slot_message_id-sends_none nr_srs short run = ground (arith, short, run)

    nr_first_short :
        (c : NrCombined) {inds : List (Indication NrFrame (PduOf c))}
        → Unpacks (nr_kind_of c) (nr_unpack_of lib c) (msg ∷ msgs) inds
        → msg.length_field ≤ data_max
    nr_first_short c (unpacks short un num fine us) = short

    -- Messages of one of the four NR ids that are combined, which unpack and which the function
    -- does not refuse, the first one with a readable time, become one indication, which is sent.
    -- Its PDUs are those of the messages in order, cut off at 100; up to 100 it counts exactly
    -- them, and below 100 it has the last message's header, frame and slot.
    pub oai_slot_aggregate_message_id-IsWhole :
        (c : NrCombined) (inds : List (Indication NrFrame (PduOf c)))
        → Unpacks (nr_kind_of c) (nr_unpack_of lib c) (msg ∷ msgs) inds
        → (out : Indication NrFrame (PduOf c)) × (oai_slot_aggregate_message_id lib
              (nr_id_of c)
              (msg ∷ msgs)
            ≡ returns (nr_sent_as c out ∷ []))
          × IsWhole (nr_kind_of c) (nr_unpack_of lib c) inds out
    oai_slot_aggregate_message_id-IsWhole c inds us =
        let (out, run, whole) =
          aggregate-IsWhole (nr_kind_of c) (nr_unpack_of lib c) msg msgs inds (nr_wide c) us in
        (out, slot_message_id-sends c out (nr_first_short c us) run, whole)

    -- If one of those messages cannot be unpacked, and those before it have fewer than 100 PDUs,
    -- nothing is sent for the whole batch.
    pub oai_slot_aggregate_message_id-sends_none :
        (c : NrCombined) (good : List MessageBuffer) (inds : List (Indication NrFrame (PduOf c)))
        (bad : MessageBuffer) (more : List MessageBuffer)
        → msg.length_field ≤ data_max
        → msg ∷ msgs ≡ good ++ (bad ∷ more)
        → Unpacks (nr_kind_of c) (nr_unpack_of lib c) good inds
        → length (pdus_of inds) < 100
        → Fails (nr_kind_of c) (nr_unpack_of lib c) bad
        → oai_slot_aggregate_message_id lib (nr_id_of c) (msg ∷ msgs) ≡ returns []
    oai_slot_aggregate_message_id-sends_none c good inds bad more short e us room fails =
        slot_message_id-sends_none c short (
          aggregate-none (nr_kind_of c) (nr_unpack_of lib c) msg msgs good inds bad more e us
            (rw (nr_max_100 c) room) fails)
