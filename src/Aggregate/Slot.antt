-- ===== src/Aggregate/Slot.antt =====
-- The NR half of the aggregation of src/nfapi_pnf.c, which hands indications to the gNB:
-- oai_slot_aggregate_*_ind, the oai_nfapi_nr_* senders, and the choice among them.
use oai_lte_5g_multi_ue_prox.Base.{
  ℕ, ◌^◌, Bool, true, false, Option, none, some, List, [], ◌∷◌, ◌++◌, Outcome, returns, aborts,
  ◌>>=◌, if◌then◌else◌, ◌==◌, leb, ltb, length,
}
use oai_lte_5g_multi_ue_prox.Message.{MessageBuffer, Pull, data_max, valid_bytes, get_sfnslot}
use oai_lte_5g_multi_ue_prox.Message.Id
use oai_lte_5g_multi_ue_prox.Aggregate.{NrFrame, Indication, Kind, aggregate, set_ids}

-- nfapi_nr_uci_t: its type, and what each member of its union holds as the UE's id; `content` is
-- the rest.
pub record NrUci : Type 0 where
  pub pdu_type : ℕ
  pub pusch_rnti : ℕ
  pub format_0_1_rnti : ℕ
  pub format_2_3_4_rnti : ℕ
  pub content : List ℕ

-- `none` is the return value -1.
abbrev pub get_nr_uci_rnti : NrUci → ℕ → Option ℕ
get_nr_uci_rnti pdu pdu_type =
    if pdu_type == 0
    then some pdu.pusch_rnti
    else if pdu_type == 1
    then some pdu.format_0_1_rnti
    else if pdu_type == 2
    then some pdu.format_2_3_4_rnti
    else none

-- The nFAPI library: the unpacking of each indication. `P` stands for the PDUs other than UCI.
pub record NrLibrary (P : Type 0) : Type 0 where
  pub pull16 : Pull
  pub unpack_rach : List ℕ → Option (Indication NrFrame P)
  pub unpack_crc : List ℕ → Option (Indication NrFrame P)
  pub unpack_rx_data : List ℕ → Option (Indication NrFrame P)
  pub unpack_uci : List ℕ → Option (Indication NrFrame NrUci)
  pub unpack_srs : List ℕ → Option (Indication NrFrame P)

-- A call of the nfapi_pnf_p7_nr_*_ind function of the name.
pub data NrSent (P : Type 0) : Type 0 where
  nr_rach_ind : Indication NrFrame P → NrSent P
  nr_crc_ind : Indication NrFrame P → NrSent P
  nr_rx_data_ind : Indication NrFrame P → NrSent P
  nr_uci_ind : Indication NrFrame NrUci → NrSent P
  nr_srs_ind : Indication NrFrame P → NrSent P

abbrev no_frame : NrFrame
no_frame = record { sfn = 0; slot = 0 }

-- UCI: an empty message, and one whose first PDU has no known type, stop the program.
abbrev pub refuses_uci : Indication NrFrame NrUci → Bool
refuses_uci ind = if ind.number == 0 then true else elim ind.pdus [
  | [] ↦ true
  | pdu ∷ rest ↦ elim (get_nr_uci_rnti pdu pdu.pdu_type) [ none ↦ true | some rnti ↦ false ]
]

abbrev pub uci_kind : Kind NrFrame NrUci
uci_kind = record {
  no_frame = no_frame;
  max_pdu = 100;
  count_bound = 2 ^ 16;
  refuses = refuses_uci;
}

module _ {P : Type 0} where
  abbrev pub crc_kind : Kind NrFrame P
  crc_kind = record {
    no_frame = no_frame;
    max_pdu = 100;
    count_bound = 2 ^ 16;
    refuses = λ ind. false;
  }

  -- RX data: an empty message stops the program.
  abbrev pub rx_data_kind : Kind NrFrame P
  rx_data_kind = record {
    no_frame = no_frame;
    max_pdu = 100;
    count_bound = 2 ^ 16;
    refuses = λ ind. ind.number == 0;
  }

  -- SRS: the count is a `uint8_t`.
  abbrev pub srs_kind : Kind NrFrame P
  srs_kind = record {
    no_frame = no_frame;
    max_pdu = 100;
    count_bound = 2 ^ 8;
    refuses = λ ind. false;
  }

  unfoldable pub oai_nfapi_nr_rx_data_indication : Indication NrFrame P → List (NrSent P)
  oai_nfapi_nr_rx_data_indication ind = nr_rx_data_ind (set_ids Id.nr_rx_data_indication ind) ∷ []

  unfoldable pub oai_nfapi_nr_crc_indication : Indication NrFrame P → List (NrSent P)
  oai_nfapi_nr_crc_indication ind = nr_crc_ind (set_ids Id.nr_crc_indication ind) ∷ []

  unfoldable pub oai_nfapi_nr_srs_indication : Indication NrFrame P → List (NrSent P)
  oai_nfapi_nr_srs_indication ind = nr_srs_ind (set_ids Id.nr_srs_indication ind) ∷ []

  unfoldable pub oai_nfapi_nr_uci_indication : Indication NrFrame NrUci → List (NrSent P)
  oai_nfapi_nr_uci_indication ind = nr_uci_ind (set_ids Id.nr_uci_indication ind) ∷ []

  unfoldable pub oai_nfapi_nr_rach_indication : Indication NrFrame P → List (NrSent P)
  oai_nfapi_nr_rach_indication ind = nr_rach_ind (set_ids Id.nr_rach_indication ind) ∷ []

  -- An aggregate is sent; where the unpacking failed there is none.
  abbrev pub send_aggregate :
      {Q : Type 0}
      → (Indication NrFrame Q → List (NrSent P))
      → Outcome (Option (Indication NrFrame Q))
      → Outcome (List (NrSent P))
  send_aggregate send result = result >>= elim [ none ↦ returns [] | some agg ↦ returns (send agg) ]

  unfoldable pub oai_slot_aggregate_crc_ind :
      NrLibrary P → List MessageBuffer → Outcome (List (NrSent P))
  oai_slot_aggregate_crc_ind lib msgs =
      send_aggregate oai_nfapi_nr_crc_indication (aggregate crc_kind lib.unpack_crc msgs)

  unfoldable pub oai_slot_aggregate_uci_ind :
      NrLibrary P → List MessageBuffer → Outcome (List (NrSent P))
  oai_slot_aggregate_uci_ind lib msgs =
      send_aggregate oai_nfapi_nr_uci_indication (aggregate uci_kind lib.unpack_uci msgs)

  unfoldable pub oai_slot_aggregate_srs_ind :
      NrLibrary P → List MessageBuffer → Outcome (List (NrSent P))
  oai_slot_aggregate_srs_ind lib msgs =
      send_aggregate oai_nfapi_nr_srs_indication (aggregate srs_kind lib.unpack_srs msgs)

  -- With more than one message, the first one must have a time.
  unfoldable pub oai_slot_aggregate_rx_data_ind :
      NrLibrary P → List MessageBuffer → Outcome (List (NrSent P))
  oai_slot_aggregate_rx_data_ind lib [] = aborts
  oai_slot_aggregate_rx_data_ind lib (first_msg ∷ msgs) =
      let sent =
        send_aggregate oai_nfapi_nr_rx_data_indication
          (aggregate rx_data_kind lib.unpack_rx_data (first_msg ∷ msgs)) in
      if ltb 1 (length (first_msg ∷ msgs))
      then (get_sfnslot lib.pull16 first_msg >>= elim [ none ↦ aborts | some sfn_slot_val ↦ sent ])
      else sent

  -- RACH indications are not combined: each is sent.
  unfoldable pub send_nr_rach_inds : NrLibrary P → List MessageBuffer → Outcome (List (NrSent P))
  send_nr_rach_inds lib [] = returns []
  send_nr_rach_inds lib (msg ∷ msgs) = valid_bytes msg >>= λ bytes.
      send_nr_rach_inds lib msgs >>= λ more. elim (lib.unpack_rach bytes) [
        | none ↦ returns more
        | some ind ↦ returns (oai_nfapi_nr_rach_indication ind ++ more)
      ]

  unfoldable pub oai_slot_aggregate_rach_ind :
      NrLibrary P → List MessageBuffer → Outcome (List (NrSent P))
  oai_slot_aggregate_rach_ind lib [] = aborts
  oai_slot_aggregate_rach_ind lib (msg ∷ msgs) = send_nr_rach_inds lib (msg ∷ msgs)

  -- The assertions before the switch are on the first message.
  unfoldable pub oai_slot_aggregate_message_id :
      NrLibrary P → ℕ → List MessageBuffer → Outcome (List (NrSent P))
  oai_slot_aggregate_message_id lib msg_id [] = aborts
  oai_slot_aggregate_message_id lib msg_id (msg ∷ msgs) =
      let all : List MessageBuffer = msg ∷ msgs in
      if leb msg.length_field data_max
      then if msg_id == Id.nr_rach_indication
        then oai_slot_aggregate_rach_ind lib all
        else if msg_id == Id.nr_crc_indication
        then oai_slot_aggregate_crc_ind lib all
        else if msg_id == Id.nr_rx_data_indication
        then oai_slot_aggregate_rx_data_ind lib all
        else if msg_id == Id.nr_uci_indication
        then oai_slot_aggregate_uci_ind lib all
        else if msg_id == Id.nr_srs_indication
        then oai_slot_aggregate_srs_ind lib all
        else returns []
      else aborts
