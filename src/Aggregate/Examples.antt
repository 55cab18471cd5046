-- ===== src/Aggregate/Examples.antt =====
-- Tests of the aggregation, and the libraries that other tests use.
use oai_lte_5g_multi_ue_prox.Base.{
  ℕ, zero, suc, ◌<◌, ◌≡◌, refl, false, Option, none, some, List, [], ◌∷◌, returns, arith, length,
  drop,
}
use oai_lte_5g_multi_ue_prox.Message.{MessageBuffer}
use oai_lte_5g_multi_ue_prox.Message.Id
use oai_lte_5g_multi_ue_prox.Message.Examples.{
  read_word, message, crc_message, nr_crc_message, nr_crc_message_time,
}
use oai_lte_5g_multi_ue_prox.Aggregate.{no_header, LteFrame, NrFrame, Indication}
use oai_lte_5g_multi_ue_prox.Aggregate.Combine.{Unpacks, no_more, unpacks}
use oai_lte_5g_multi_ue_prox.Aggregate.Whole.{IsWhole}
use oai_lte_5g_multi_ue_prox.Aggregate.Subframe.{LteLibrary, oai_subframe_aggregate_message_id}
use oai_lte_5g_multi_ue_prox.Aggregate.Slot.{NrLibrary, oai_slot_aggregate_message_id}
use oai_lte_5g_multi_ue_prox.Aggregate.Sent.{
  crc, id_of, kind_of, unpack_of, sent_as, oai_subframe_aggregate_message_id-IsWhole,
  oai_subframe_aggregate_message_id-sends_none, oai_subframe_aggregate_message_id-overcounts,
}
use oai_lte_5g_multi_ue_prox.Sfn.Subframe.{IsSubframe}
use oai_lte_5g_multi_ue_prox.Aggregate.Subframe.{LteSent}
use oai_lte_5g_multi_ue_prox.Aggregate.SentRx.{
  Rachs, no_rach, fails_to_unpack, unpacks_rach, SentLater,
  oai_subframe_aggregate_rach_ind-SentLater,
}
use oai_lte_5g_multi_ue_prox.Aggregate.SentNr.{
  nr_crc, nr_id_of, nr_kind_of, nr_unpack_of, nr_sent_as, oai_slot_aggregate_message_id-IsWhole,
}

-- A library whose PDUs are the bytes behind the time; there must be a time.
abbrev of_bytes : List ℕ → Option (Indication LteFrame ℕ)
of_bytes [] = none
of_bytes (high ∷ []) = none
of_bytes (high ∷ low ∷ pdus) = some (record {
  header = no_header;
  frame = record { sfn_sf = 0; tag = 0; tl_length = 0; has_vendor_extension = false };
  number = length pdus;
  pdus = pdus;
})

abbrev of_nr_bytes : List ℕ → Option (Indication NrFrame ℕ)
of_nr_bytes [] = none
of_nr_bytes (high ∷ []) = none
of_nr_bytes (high ∷ low ∷ pdus) = some (record {
  header = no_header;
  frame = record { sfn = 0; slot = 0 };
  number = length pdus;
  pdus = pdus;
})

abbrev unpack_any : List ℕ → Option (Indication LteFrame ℕ)
unpack_any bytes = of_bytes (drop 16 bytes)

abbrev unpack_nr_any : List ℕ → Option (Indication NrFrame ℕ)
unpack_nr_any bytes = of_nr_bytes (drop 16 bytes)

abbrev pub lte_library : LteLibrary ℕ
lte_library = record {
  pull16 = read_word;
  unpack_rach = unpack_any;
  unpack_crc = unpack_any;
  unpack_rx = unpack_any;
  unpack_cqi = unpack_any;
  unpack_harq = unpack_any;
  unpack_sr = unpack_any;
  pack_rx = λ ind. none;
}

abbrev pub nr_library : NrLibrary ℕ
nr_library = record {
  pull16 = read_word;
  unpack_rach = unpack_nr_any;
  unpack_crc = unpack_nr_any;
  unpack_rx_data = unpack_nr_any;
  unpack_uci = λ bytes. none;
  unpack_srs = unpack_nr_any;
}

abbrev lte_indication : List ℕ → Indication LteFrame ℕ
lte_indication pdus = record {
  header = no_header;
  frame = record { sfn_sf = 0; tag = 0; tl_length = 0; has_vendor_extension = false };
  number = length pdus;
  pdus = pdus;
}

abbrev nr_indication : List ℕ → Indication NrFrame ℕ
nr_indication pdus = record {
  header = no_header;
  frame = record { sfn = 0; slot = 0 };
  number = length pdus;
  pdus = pdus;
}

abbrev ones : ℕ → List ℕ
ones zero = []
ones (suc n) = 1 ∷ ones n

-- A CRC indication with 101 PDUs, and one that is cut off.
abbrev full_message : MessageBuffer
full_message = message Id.crc_indication (0 ∷ 83 ∷ ones 101)

abbrev short_message : MessageBuffer
short_message = message Id.crc_indication []

crc_message-Unpacks :
    Unpacks
      (kind_of crc)
      (unpack_of lte_library crc)
      (crc_message ∷ [])
      (lte_indication (7 ∷ []) ∷ [])
crc_message-Unpacks = unpacks {ind = lte_indication (7 ∷ [])} (omega arith) refl refl refl no_more

full_message-Unpacks :
    Unpacks
      (kind_of crc)
      (unpack_of lte_library crc)
      (full_message ∷ [])
      (lte_indication (ones 101) ∷ [])
full_message-Unpacks =
    unpacks {ind = lte_indication (ones 101)} (omega arith) refl refl refl no_more

nr_crc_message-Unpacks :
    Unpacks
      (nr_kind_of ℕ nr_crc)
      (nr_unpack_of ℕ nr_library nr_crc)
      (nr_crc_message ∷ [])
      (nr_indication (0 ∷ 3 ∷ 7 ∷ []) ∷ [])
nr_crc_message-Unpacks =
    unpacks {ind = nr_indication (0 ∷ 3 ∷ 7 ∷ [])} (omega arith) refl refl refl no_more

oai_subframe_aggregate_message_id-IsWhole_example :
    (out : Indication LteFrame ℕ) × (oai_subframe_aggregate_message_id lte_library
        (id_of crc)
        (crc_message ∷ crc_message ∷ [])
      ≡ returns (sent_as crc out ∷ []))
    × IsWhole
        (kind_of crc)
        (unpack_of lte_library crc)
        (lte_indication (7 ∷ []) ∷ lte_indication (7 ∷ []) ∷ [])
        out
oai_subframe_aggregate_message_id-IsWhole_example =
    oai_subframe_aggregate_message_id-IsWhole lte_library crc crc_message (crc_message ∷ [])
      (lte_indication (7 ∷ []) ∷ lte_indication (7 ∷ []) ∷ [])
      (unpacks {ind = lte_indication (7 ∷ [])} (omega arith) refl refl refl crc_message-Unpacks)

oai_subframe_aggregate_message_id-sends_none_example :
    oai_subframe_aggregate_message_id lte_library
      (id_of crc)
      (crc_message ∷ short_message ∷ crc_message ∷ [])
    ≡ returns []
oai_subframe_aggregate_message_id-sends_none_example =
    oai_subframe_aggregate_message_id-sends_none lte_library crc crc_message
      (short_message ∷ crc_message ∷ []) (crc_message ∷ []) (lte_indication (7 ∷ []) ∷ [])
      short_message (crc_message ∷ []) (omega arith) refl crc_message-Unpacks (omega arith)
      (omega arith, refl)

-- 1 + 101 PDUs are counted, and 100 are there.
oai_subframe_aggregate_message_id-overcounts_example :
    (out : Indication LteFrame ℕ) × (oai_subframe_aggregate_message_id lte_library
        (id_of crc)
        (crc_message ∷ full_message ∷ [])
      ≡ returns (sent_as crc out ∷ []))
    × (length out.pdus ≡ 100)
    × (length out.pdus < out.number)
oai_subframe_aggregate_message_id-overcounts_example =
    oai_subframe_aggregate_message_id-overcounts lte_library crc crc_message (full_message ∷ [])
      (crc_message ∷ []) (lte_indication (7 ∷ []) ∷ []) full_message [] (lte_indication (ones 101))
      (omega arith) refl crc_message-Unpacks full_message-Unpacks (omega arith) (omega arith)
      (omega arith)

oai_slot_aggregate_message_id-IsWhole_example :
    (out : Indication NrFrame ℕ) × (oai_slot_aggregate_message_id nr_library
        (nr_id_of nr_crc)
        (nr_crc_message ∷ [])
      ≡ returns (nr_sent_as ℕ nr_crc out ∷ []))
    × IsWhole
        (nr_kind_of ℕ nr_crc)
        (nr_unpack_of ℕ nr_library nr_crc)
        (nr_indication (0 ∷ 3 ∷ 7 ∷ []) ∷ [])
        out
oai_slot_aggregate_message_id-IsWhole_example =
    oai_slot_aggregate_message_id-IsWhole ℕ nr_library nr_crc_message [] 323 nr_crc_message_time
      nr_crc (nr_indication (0 ∷ 3 ∷ 7 ∷ []) ∷ []) nr_crc_message-Unpacks

-- Two RX messages; the library of the tests cannot pack the aggregate.
abbrev rx_message : MessageBuffer
rx_message = message Id.rx_ulsch_indication (0 ∷ 83 ∷ 7 ∷ [])

-- A RACH message between two that do not unpack.
abbrev rach_message : MessageBuffer
rach_message = message Id.rach_indication (0 ∷ 83 ∷ 7 ∷ [])

zero-IsSubframe : IsSubframe 0
zero-IsSubframe = record { frame_in = omega arith; subframe_in = omega arith }

rach_messages-Rachs :
    Rachs lte_library
      (short_message ∷ rach_message ∷ short_message ∷ [])
      (lte_indication (7 ∷ []) ∷ [])
rach_messages-Rachs = fails_to_unpack (omega arith) refl (
    unpacks_rach {ind = lte_indication (7 ∷ [])} (omega arith) refl zero-IsSubframe
      (fails_to_unpack (omega arith) refl no_rach))

oai_subframe_aggregate_rach_ind-SentLater_example :
    (sent : List (LteSent ℕ)) × (oai_subframe_aggregate_message_id lte_library Id.rach_indication
        (short_message ∷ rach_message ∷ short_message ∷ [])
      ≡ returns sent)
    × SentLater lte_library (lte_indication (7 ∷ []) ∷ []) sent
oai_subframe_aggregate_rach_ind-SentLater_example =
    oai_subframe_aggregate_rach_ind-SentLater lte_library short_message
      (rach_message ∷ short_message ∷ []) (lte_indication (7 ∷ []) ∷ []) (omega arith)
      rach_messages-Rachs
