-- ===== src/Aggregate/Sent.antt =====
-- What oai_subframe_aggregate_message_id of src/nfapi_pnf.c hands to the eNB.
use oai_lte_5g_multi_ue_prox.Base.{
  ℕ, ◌+◌, ◌≤◌, ◌<◌, ◌≡◌, ◌^◌, refl, ◌∙◌, Option, none, some, List, [], ◌∷◌, ◌++◌, returns, arith,
  length,
}
use oai_lte_5g_multi_ue_prox.Message.{MessageBuffer, data_max}
use oai_lte_5g_multi_ue_prox.Message.Id
use oai_lte_5g_multi_ue_prox.Aggregate.{LteFrame, Indication, Kind, set_phy_id, set_ids, aggregate}
use oai_lte_5g_multi_ue_prox.Aggregate.Combine.{pdus_of, Unpacks, unpacks}
use oai_lte_5g_multi_ue_prox.Aggregate.Whole.{IsWhole, aggregate-IsWhole}
use oai_lte_5g_multi_ue_prox.Aggregate.Partial.{Fails, aggregate-none, aggregate-overfull}
use oai_lte_5g_multi_ue_prox.Aggregate.Subframe.{
  LteLibrary, LteSent, crc_ind, cqi_ind, harq_ind, sr_ind, plain_kind, counted_kind,
  oai_subframe_aggregate_message_id, oai_subframe_aggregate_crc_ind, oai_subframe_aggregate_cqi_ind,
  oai_subframe_aggregate_harq_ind, oai_subframe_aggregate_sr_ind, oai_nfapi_crc_indication,
  oai_nfapi_cqi_indication, oai_nfapi_harq_indication, oai_nfapi_sr_indication,
}

-- The LTE indications that are always combined.
pub data Combined : Type 0 where
  crc : Combined
  cqi : Combined
  harq : Combined
  sr : Combined

abbrev pub id_of : Combined → ℕ
id_of crc = Id.crc_indication
id_of cqi = Id.rx_cqi_indication
id_of harq = Id.harq_indication
id_of sr = Id.rx_sr_indication

module _ {P : Type 0} where
  abbrev pub kind_of : Combined → Kind LteFrame P
  kind_of crc = plain_kind
  kind_of cqi = counted_kind
  kind_of harq = plain_kind
  kind_of sr = plain_kind

  abbrev pub unpack_of : LteLibrary P → Combined → List ℕ → Option (Indication LteFrame P)
  unpack_of lib crc = lib.unpack_crc
  unpack_of lib cqi = lib.unpack_cqi
  unpack_of lib harq = lib.unpack_harq
  unpack_of lib sr = lib.unpack_sr

  -- The call that sends an aggregate: an SR indication keeps the id that the messages have.
  abbrev pub sent_as : Combined → Indication LteFrame P → LteSent P
  sent_as crc ind = crc_ind (set_ids Id.crc_indication ind)
  sent_as cqi ind = cqi_ind (set_ids Id.rx_cqi_indication ind)
  sent_as harq ind = harq_ind (set_ids Id.harq_indication ind)
  sent_as sr ind = sr_ind (set_phy_id ind)

  max_100 : (lib : LteLibrary P) (c : Combined) → (kind_of c).max_pdu ≡ 100
  max_100 lib crc = refl
  max_100 lib cqi = refl
  max_100 lib harq = refl
  max_100 lib sr = refl

  bound_16 : (lib : LteLibrary P) (c : Combined) → (kind_of c).count_bound ≡ 2 ^ 16
  bound_16 lib crc = refl
  bound_16 lib cqi = refl
  bound_16 lib harq = refl
  bound_16 lib sr = refl

  wide : (lib : LteLibrary P) (c : Combined) → (kind_of c).max_pdu < (kind_of c).count_bound
  wide lib c = omega (arith, max_100 lib c, bound_16 lib c)

  module _ (lib : LteLibrary P) (c : Combined) (msg : MessageBuffer)
      (msgs : List MessageBuffer) where
    message_id-sends :
        (out : Indication LteFrame P)
        → msg.length_field ≤ data_max
        → aggregate (kind_of c) (unpack_of lib c) (msg ∷ msgs) ≡ returns (some out)
        → oai_subframe_aggregate_message_id lib (id_of c) (msg ∷ msgs)
          ≡ returns (sent_as c out ∷ [])
    unfolding oai_subframe_aggregate_message_id oai_subframe_aggregate_crc_ind
        oai_subframe_aggregate_cqi_ind oai_subframe_aggregate_harq_ind oai_subframe_aggregate_sr_ind
        oai_nfapi_crc_indication oai_nfapi_cqi_indication oai_nfapi_harq_indication
        oai_nfapi_sr_indication
    message_id-sends out short run =
        elim c
            as (λ c.
              aggregate (kind_of c) (unpack_of lib c) (msg ∷ msgs) ≡ returns (some out)
              → oai_subframe_aggregate_message_id lib (id_of c) (msg ∷ msgs)
                ≡ returns (sent_as c out ∷ [])) [
                  | crc ↦ λ run. ground (arith, short, run)
                  | cqi ↦ λ run. ground (arith, short, run)
                  | harq ↦ λ run. ground (arith, short, run)
                  | sr ↦ λ run. ground (arith, short, run)
                ]
          run

    message_id-sends_none :
        msg.length_field ≤ data_max
        → aggregate (kind_of c) (unpack_of lib c) (msg ∷ msgs) ≡ returns none
        → oai_subframe_aggregate_message_id lib (id_of c) (msg ∷ msgs) ≡ returns []
    unfolding oai_subframe_aggregate_message_id oai_subframe_aggregate_crc_ind
        oai_subframe_aggregate_cqi_ind oai_subframe_aggregate_harq_ind oai_subframe_aggregate_sr_ind
    message_id-sends_none short run =
        elim c
            as (λ c.
              aggregate (kind_of c) (unpack_of lib c) (msg ∷ msgs) ≡ returns none
              → oai_subframe_aggregate_message_id lib (id_of c) (msg ∷ msgs) ≡ returns []) [
                | crc ↦ λ run. ground (arith, short, run)
                | cqi ↦ λ run. ground (arith, short, run)
                | harq ↦ λ run. ground (arith, short, run)
                | sr ↦ λ run. ground (arith, short, run)
              ]
          run

    first_short :
        {inds : List (Indication LteFrame P)}
        → Unpacks (kind_of c) (unpack_of lib c) (msg ∷ msgs) inds
        → msg.length_field ≤ data_max
    first_short (unpacks short un num fine us) = short

    -- Messages of one of the four ids that unpack, and that the function does not refuse, become
    -- one indication, which is sent. Its PDUs are those of the messages in order, cut off at 100;
    -- up to 100 it counts exactly them, and below 100 it has the last message's header and time.
    pub oai_subframe_aggregate_message_id-IsWhole :
        (inds : List (Indication LteFrame P))
        → Unpacks (kind_of c) (unpack_of lib c) (msg ∷ msgs) inds
        → (out : Indication LteFrame P) × (oai_subframe_aggregate_message_id lib
              (id_of c)
              (msg ∷ msgs)
            ≡ returns (sent_as c out ∷ []))
          × IsWhole (kind_of c) (unpack_of lib c) inds out
    oai_subframe_aggregate_message_id-IsWhole inds us =
        let (out, run, whole) =
          aggregate-IsWhole (kind_of c) (unpack_of lib c) msg msgs inds (wide lib c) us in
        (out, message_id-sends out (first_short us) run, whole)

    -- For the ids of CRC, CQI, HARQ and SR: if one message of a batch cannot be unpacked, and those
    -- before it unpack, are not refused and have fewer than 100 PDUs, nothing is sent for the whole
    -- batch.
    pub oai_subframe_aggregate_message_id-sends_none :
        (good : List MessageBuffer) (inds : List (Indication LteFrame P)) (bad : MessageBuffer)
        (more : List MessageBuffer)
        → msg.length_field ≤ data_max
        → msg ∷ msgs ≡ good ++ (bad ∷ more)
        → Unpacks (kind_of c) (unpack_of lib c) good inds
        → length (pdus_of inds) < 100
        → Fails (kind_of c) (unpack_of lib c) bad
        → oai_subframe_aggregate_message_id lib (id_of c) (msg ∷ msgs) ≡ returns []
    oai_subframe_aggregate_message_id-sends_none good inds bad more short e us room fails =
        message_id-sends_none short (
          aggregate-none (kind_of c) (unpack_of lib c) msg msgs good inds bad more e us
            (rw (max_100 lib c) room) fails)

    -- If a message has more PDUs than there is room for, and the count does not pass 2 ^ 16, the
    -- indication that is sent counts all its PDUs, but holds only 100: the count exceeds the list.
    pub oai_subframe_aggregate_message_id-overcounts :
        (good : List MessageBuffer) (inds : List (Indication LteFrame P)) (full : MessageBuffer)
        (more : List MessageBuffer) (ind : Indication LteFrame P)
        → msg.length_field ≤ data_max
        → msg ∷ msgs ≡ good ++ (full ∷ more)
        → Unpacks (kind_of c) (unpack_of lib c) good inds
        → Unpacks (kind_of c) (unpack_of lib c) (full ∷ []) (ind ∷ [])
        → length (pdus_of inds) < 100
        → 100 < length (pdus_of inds) + length ind.pdus
        → length (pdus_of inds) + length ind.pdus < 2 ^ 16
        → (out : Indication LteFrame P) × (oai_subframe_aggregate_message_id lib
              (id_of c)
              (msg ∷ msgs)
            ≡ returns (sent_as c out ∷ []))
          × (length out.pdus ≡ 100)
          × (length out.pdus < out.number)
    oai_subframe_aggregate_message_id-overcounts good inds full more ind short e us last room over
          narrow =
        let (out, run, size, number) =
          aggregate-overfull (kind_of c) (unpack_of lib c) msg msgs good inds full more ind e us
            last (rw (max_100 lib c) room) (rw (max_100 lib c) over) (rw (bound_16 lib c) narrow) in
        (
          out,
          message_id-sends out short run,
          size ∙ max_100 lib c,
          omega (arith, size, max_100 lib c, number, over),
        )
