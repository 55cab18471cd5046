-- ===== src/Aggregate.antt =====
-- The aggregation of src/nfapi_pnf.c: the messages of one id become one indication, whose PDUs are
-- theirs. The loops over the messages differ in the limits and in what they refuse, which
-- `Kind` holds. The unpacking of a message, of the nFAPI library, is the parameter `unpack`; it
-- gives nothing where the library reports an error. Trace output is left out, and so are the
-- loops that only look for something to trace.
pub mod Combine
pub mod Whole
pub mod Partial
pub mod Ends
pub mod EndsLte
pub mod EndsNr
pub mod Subframe
pub mod Slot
pub mod Sent
pub mod SentNr
pub mod SentRx
pub mod Examples
use oai_lte_5g_multi_ue_prox.Base.{
  ℕ, ◌+◌, ◌%◌, Bool, true, false, Option, none, some, List, [], ◌∷◌, ◌++◌, Outcome, returns, aborts,
  if◌then◌else◌, ◌==◌, leb, length, take,
}
use oai_lte_5g_multi_ue_prox.Message.{MessageBuffer, data_max}

-- nfapi_p7_message_header_t
pub record Header : Type 0 where
  pub phy_id : ℕ
  pub message_id : ℕ
  pub message_length : ℕ
  pub m_segment_sequence : ℕ
  pub checksum : ℕ
  pub transmit_timestamp : ℕ

abbrev pub no_header : Header
no_header = record {
  phy_id = 0;
  message_id = 0;
  message_length = 0;
  m_segment_sequence = 0;
  checksum = 0;
  transmit_timestamp = 0;
}

-- What an LTE indication has besides its header and its PDUs, and what an NR one has.
pub record LteFrame : Type 0 where
  pub sfn_sf : ℕ
  pub tag : ℕ
  pub tl_length : ℕ
  pub has_vendor_extension : Bool

pub record NrFrame : Type 0 where
  pub sfn : ℕ
  pub slot : ℕ

-- An indication of PDUs `P`; `number` is its field that counts them.
pub record Indication (W P : Type 0) : Type 0 where
  pub header : Header
  pub frame : W
  pub number : ℕ
  pub pdus : List P

-- What differs between the aggregating functions: the zeroed frame that `memset` leaves, the size
-- of the array of PDUs, 2 ^ w for the width w of the count, and the messages on which the loop
-- stops the program.
pub record Kind (W P : Type 0) : Type 0 where
  pub no_frame : W
  pub max_pdu : ℕ
  pub count_bound : ℕ
  pub refuses : Indication W P → Bool

module _ {W P : Type 0} (kind : Kind W P) where
  -- The loop over the PDUs of one message.
  unfoldable pub copy_pdus : List P → List P → List P
  copy_pdus pdus [] = pdus
  copy_pdus pdus (pdu ∷ rest) =
      let copied = copy_pdus (pdus ++ pdu ∷ []) rest in
      if length pdus == kind.max_pdu then pdus else copied

  unfoldable pub add_indication : Indication W P → Indication W P → Indication W P
  add_indication agg ind = record {
    header = ind.header;
    frame = ind.frame;
    number = (agg.number + ind.number) % kind.count_bound;
    pdus = copy_pdus agg.pdus (take ind.number ind.pdus);
  }

  module _ (unpack : List ℕ → Option (Indication W P)) where
    -- The loop over the messages. `none` is the return before anything is sent.
    unfoldable pub add_messages :
        Indication W P → List MessageBuffer → Outcome (Option (Indication W P))
    add_messages agg [] = returns (some agg)
    add_messages agg (msg ∷ msgs) =
        if leb msg.length_field data_max
        then elim (unpack (take msg.length_field msg.bytes)) [
          | none ↦ returns none
          | some ind ↦
              let agg' = add_indication agg ind in
              let rest = add_messages agg' msgs in
              if kind.refuses ind
              then aborts
              else if length agg'.pdus == kind.max_pdu
              then returns (some agg')
              else rest
        ]
        else aborts

    unfoldable pub aggregate : List MessageBuffer → Outcome (Option (Indication W P))
    aggregate [] = aborts
    aggregate (msg ∷ msgs) =
        add_messages (record { header = no_header; frame = kind.no_frame; number = 0; pdus = [] })
          (msg ∷ msgs)

-- `header.phy_id = 1`, and `header.message_id = id`.
abbrev pub set_phy_id : {W P : Type 0} → Indication W P → Indication W P
set_phy_id ind = record ind { header = record (ind.header) { phy_id = 1 } }

abbrev pub set_ids : {W P : Type 0} → ℕ → Indication W P → Indication W P
set_ids id ind = record ind { header = record (ind.header) { phy_id = 1; message_id = id } }
