-- ===== src/Aggregate/Subframe.antt =====
-- The LTE half of the aggregation of src/nfapi_pnf.c, which hands indications to the eNB:
-- oai_subframe_aggregate_*_ind, the oai_nfapi_* senders, and the choice among them.
use oai_lte_5g_multi_ue_prox.Base.{
  ℕ, ◌^◌, false, ◌||◌, Option, none, some, List, [], ◌∷◌, ◌++◌, Outcome, returns, aborts, ◌>>=◌,
  if◌then◌else◌, ◌==◌, leb, ltb, length,
}
use oai_lte_5g_multi_ue_prox.Sfn.{sfn_sf_add}
use oai_lte_5g_multi_ue_prox.Message.{MessageBuffer, Pull, data_max, valid_bytes, get_sfnsf}
use oai_lte_5g_multi_ue_prox.Message.Id
use oai_lte_5g_multi_ue_prox.Aggregate.{LteFrame, Indication, Kind, aggregate, set_phy_id, set_ids}

-- The nFAPI library: the unpacking of each indication, whose PDUs are `P`, and the packing of the
-- RX indication. The element of both lists of a CQI indication is one `P`.
pub record LteLibrary (P : Type 0) : Type 0 where
  pub pull16 : Pull
  pub unpack_rach : List ℕ → Option (Indication LteFrame P)
  pub unpack_crc : List ℕ → Option (Indication LteFrame P)
  pub unpack_rx : List ℕ → Option (Indication LteFrame P)
  pub unpack_cqi : List ℕ → Option (Indication LteFrame P)
  pub unpack_harq : List ℕ → Option (Indication LteFrame P)
  pub unpack_sr : List ℕ → Option (Indication LteFrame P)
  pub pack_rx : Indication LteFrame P → Option (List ℕ)

-- A call of the nfapi_pnf_p7_*_ind function of the name.
pub data LteSent (P : Type 0) : Type 0 where
  rach_ind : Indication LteFrame P → LteSent P
  crc_ind : Indication LteFrame P → LteSent P
  rx_ind : Indication LteFrame P → LteSent P
  cqi_ind : Indication LteFrame P → LteSent P
  harq_ind : Indication LteFrame P → LteSent P
  sr_ind : Indication LteFrame P → LteSent P

abbrev no_frame : LteFrame
no_frame = record { sfn_sf = 0; tag = 0; tl_length = 0; has_vendor_extension = false }

module _ {P : Type 0} where
  -- CRC, HARQ and SR: the array has 100 places, and the program asserts that there is no vendor
  -- extension.
  abbrev pub plain_kind : Kind LteFrame P
  plain_kind = record {
    no_frame = no_frame;
    max_pdu = 100;
    count_bound = 2 ^ 16;
    refuses = λ ind. ind.frame.has_vendor_extension;
  }

  -- RX and CQI: an empty message stops the program too.
  abbrev pub counted_kind : Kind LteFrame P
  counted_kind = record {
    no_frame = no_frame;
    max_pdu = 100;
    count_bound = 2 ^ 16;
    refuses = λ ind. ind.number == 0 || ind.frame.has_vendor_extension;
  }

  unfoldable pub oai_nfapi_rach_ind : Indication LteFrame P → List (LteSent P)
  oai_nfapi_rach_ind ind = rach_ind (set_phy_id ind) ∷ []

  unfoldable pub oai_nfapi_harq_indication : Indication LteFrame P → List (LteSent P)
  oai_nfapi_harq_indication ind = harq_ind (set_ids Id.harq_indication ind) ∷ []

  unfoldable pub oai_nfapi_crc_indication : Indication LteFrame P → List (LteSent P)
  oai_nfapi_crc_indication ind = crc_ind (set_ids Id.crc_indication ind) ∷ []

  unfoldable pub oai_nfapi_cqi_indication : Indication LteFrame P → List (LteSent P)
  oai_nfapi_cqi_indication ind = cqi_ind (set_ids Id.rx_cqi_indication ind) ∷ []

  unfoldable pub oai_nfapi_sr_indication : Indication LteFrame P → List (LteSent P)
  oai_nfapi_sr_indication ind = sr_ind (set_phy_id ind) ∷ []

  -- The indication is sent only if it can be packed and unpacked again.
  unfoldable pub oai_nfapi_rx_ind : LteLibrary P → Indication LteFrame P → List (LteSent P)
  oai_nfapi_rx_ind lib ind =
      let ind' = set_ids Id.rx_ulsch_indication ind in
      elim (lib.pack_rx ind') [
        | none ↦ []
        | some buffer ↦ elim (lib.unpack_rx buffer) [ none ↦ [] | some test_ind ↦ rx_ind ind' ∷ [] ]
      ]

  -- An aggregate is sent; where the unpacking failed there is none.
  abbrev pub send_aggregate :
      (Indication LteFrame P → List (LteSent P))
      → Outcome (Option (Indication LteFrame P))
      → Outcome (List (LteSent P))
  send_aggregate send result = result >>= elim [ none ↦ returns [] | some agg ↦ returns (send agg) ]

  unfoldable pub oai_subframe_aggregate_crc_ind :
      LteLibrary P → List MessageBuffer → Outcome (List (LteSent P))
  oai_subframe_aggregate_crc_ind lib msgs =
      send_aggregate oai_nfapi_crc_indication (aggregate plain_kind lib.unpack_crc msgs)

  unfoldable pub oai_subframe_aggregate_harq_ind :
      LteLibrary P → List MessageBuffer → Outcome (List (LteSent P))
  oai_subframe_aggregate_harq_ind lib msgs =
      send_aggregate oai_nfapi_harq_indication (aggregate plain_kind lib.unpack_harq msgs)

  unfoldable pub oai_subframe_aggregate_sr_ind :
      LteLibrary P → List MessageBuffer → Outcome (List (LteSent P))
  oai_subframe_aggregate_sr_ind lib msgs =
      send_aggregate oai_nfapi_sr_indication (aggregate plain_kind lib.unpack_sr msgs)

  unfoldable pub oai_subframe_aggregate_cqi_ind :
      LteLibrary P → List MessageBuffer → Outcome (List (LteSent P))
  oai_subframe_aggregate_cqi_ind lib msgs =
      send_aggregate oai_nfapi_cqi_indication (aggregate counted_kind lib.unpack_cqi msgs)

  -- With more than one message, the first one must have a time.
  unfoldable pub oai_subframe_aggregate_rx_ind :
      LteLibrary P → List MessageBuffer → Outcome (List (LteSent P))
  oai_subframe_aggregate_rx_ind lib [] = aborts
  oai_subframe_aggregate_rx_ind lib (first_msg ∷ msgs) =
      let sent =
        send_aggregate (oai_nfapi_rx_ind lib)
          (aggregate counted_kind lib.unpack_rx (first_msg ∷ msgs)) in
      if ltb 1 (length (first_msg ∷ msgs))
      then (get_sfnsf lib.pull16 first_msg >>= elim [ none ↦ aborts | some sfn_sf_val ↦ sent ])
      else sent

  -- RACH indications are not combined: each is sent, with its time moved ahead by 5.
  unfoldable pub send_rach_inds : LteLibrary P → List MessageBuffer → Outcome (List (LteSent P))
  send_rach_inds lib [] = returns []
  send_rach_inds lib (msg ∷ msgs) = valid_bytes msg >>= λ bytes. send_rach_inds lib msgs >>= λ more.
      elim (lib.unpack_rach bytes) [
        | none ↦ returns more
        | some ind ↦ returns (
            oai_nfapi_rach_ind
              (record ind { frame = record (ind.frame) { sfn_sf = sfn_sf_add ind.frame.sfn_sf 5 } })
            ++ more)
      ]

  unfoldable pub oai_subframe_aggregate_rach_ind :
      LteLibrary P → List MessageBuffer → Outcome (List (LteSent P))
  oai_subframe_aggregate_rach_ind lib [] = aborts
  oai_subframe_aggregate_rach_ind lib (msg ∷ msgs) = send_rach_inds lib (msg ∷ msgs)

  -- The assertions before the switch are on the first message.
  unfoldable pub oai_subframe_aggregate_message_id :
      LteLibrary P → ℕ → List MessageBuffer → Outcome (List (LteSent P))
  oai_subframe_aggregate_message_id lib msg_id [] = aborts
  oai_subframe_aggregate_message_id lib msg_id (msg ∷ msgs) =
      let all : List MessageBuffer = msg ∷ msgs in
      if leb msg.length_field data_max
      then if msg_id == Id.rach_indication
        then oai_subframe_aggregate_rach_ind lib all
        else if msg_id == Id.crc_indication
        then oai_subframe_aggregate_crc_ind lib all
        else if msg_id == Id.rx_ulsch_indication
        then oai_subframe_aggregate_rx_ind lib all
        else if msg_id == Id.rx_cqi_indication
        then oai_subframe_aggregate_cqi_ind lib all
        else if msg_id == Id.harq_indication
        then oai_subframe_aggregate_harq_ind lib all
        else if msg_id == Id.rx_sr_indication
        then oai_subframe_aggregate_sr_ind lib all
        else returns []
      else aborts
