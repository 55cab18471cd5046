-- ===== src/Aggregate/SentRx.antt =====
-- What oai_subframe_aggregate_message_id of src/nfapi_pnf.c hands to the eNB for RX and RACH
-- indications.
use oai_lte_5g_multi_ue_prox.Base.{
  ℕ, ◌+◌, ◌%◌, ◌≤◌, ◌≡◌, refl, Bool, true, false, none, some, List, [], ◌∷◌, returns, arith, take,
}
use oai_lte_5g_multi_ue_prox.Sfn.{sfn_sf_add}
use oai_lte_5g_multi_ue_prox.Sfn.Subframe.{IsSubframe, subframes, position, sfn_sf_add-moves}
use oai_lte_5g_multi_ue_prox.Message.{MessageBuffer, data_max, valid_bytes}
use oai_lte_5g_multi_ue_prox.Message.Id
use oai_lte_5g_multi_ue_prox.Aggregate.{LteFrame, Indication, set_phy_id}
use oai_lte_5g_multi_ue_prox.Aggregate.Subframe.{
  LteLibrary, LteSent, rach_ind, rx_ind, oai_subframe_aggregate_message_id,
  oai_subframe_aggregate_rach_ind, send_rach_inds, oai_nfapi_rach_ind,
}

module _ {P : Type 0} (lib : LteLibrary P) where
  -- The aggregate can be packed, and unpacked again.
  pub data IsPackable (ind : Indication LteFrame P) : Bool → Type 0 where
    packs :
        (buffer : List ℕ) (test_ind : Indication LteFrame P)
        → lib.pack_rx ind ≡ some buffer
        → lib.unpack_rx buffer ≡ some test_ind
        → IsPackable ind true
    no_packing : lib.pack_rx ind ≡ none → IsPackable ind false
    no_unpacking :
        (buffer : List ℕ)
        → lib.pack_rx ind ≡ some buffer
        → lib.unpack_rx buffer ≡ none
        → IsPackable ind false

  abbrev pub sent_if : Bool → Indication LteFrame P → List (LteSent P)
  sent_if true ind = rx_ind ind ∷ []
  sent_if false ind = []

  -- Which of the messages unpack to RACH indications of a valid time.
  pub data Rachs : List MessageBuffer → List (Indication LteFrame P) → Type 0 where
    no_rach : Rachs [] []
    fails_to_unpack :
        {msg : MessageBuffer} {msgs : List MessageBuffer} {inds : List (Indication LteFrame P)}
        → msg.length_field ≤ data_max
        → lib.unpack_rach (take msg.length_field msg.bytes) ≡ none
        → Rachs msgs inds
        → Rachs (msg ∷ msgs) inds
    unpacks_rach :
        {msg : MessageBuffer} {msgs : List MessageBuffer} {ind : Indication LteFrame P}
        {inds : List (Indication LteFrame P)}
        → msg.length_field ≤ data_max
        → lib.unpack_rach (take msg.length_field msg.bytes) ≡ some ind
        → IsSubframe ind.frame.sfn_sf
        → Rachs msgs inds
        → Rachs (msg ∷ msgs) (ind ∷ inds)

  -- Each indication was sent once, in order, with its PDUs, and for five subframes later.
  pub data SentLater : List (Indication LteFrame P) → List (LteSent P) → Type 0 where
    none_sent : SentLater [] []
    one_sent :
        {ind out : Indication LteFrame P} {inds : List (Indication LteFrame P)}
        {sent : List (LteSent P)}
        → out.pdus ≡ ind.pdus
        → out.number ≡ ind.number
        → IsSubframe out.frame.sfn_sf
        → position out.frame.sfn_sf ≡ (position ind.frame.sfn_sf + 5) % subframes
        → SentLater inds sent
        → SentLater (ind ∷ inds) (rach_ind out ∷ sent)

  send_rach_inds-SentLater :
      (msgs : List MessageBuffer) (inds : List (Indication LteFrame P))
      → Rachs msgs inds
      → (sent : List (LteSent P)) × (send_rach_inds lib msgs ≡ returns sent) × SentLater inds sent
  unfolding send_rach_inds oai_nfapi_rach_ind valid_bytes
  send_rach_inds-SentLater msgs inds no_rach = ([], refl, none_sent)
  send_rach_inds-SentLater msgs inds (fails_to_unpack {msgs = msgs'} short un rs) =
      let (sent, run, later) = send_rach_inds-SentLater msgs' inds rs in
      (sent, ground (arith, short, un, run), later)
  send_rach_inds-SentLater msgs inds
        (unpacks_rach {msgs = msgs'} {ind} {inds = inds'} short un valid rs) =
      let (sent, run, later) = send_rach_inds-SentLater msgs' inds' rs in
      let moved =
        sfn_sf_add-moves ind.frame.sfn_sf 5 valid
          (omega (arith, valid.frame_in, valid.subframe_in)) in
      let out : Indication LteFrame P =
        set_phy_id
          (record ind { frame = record (ind.frame) { sfn_sf = sfn_sf_add ind.frame.sfn_sf 5 } }) in
      (
        rach_ind out ∷ sent,
        ground (arith, short, un, run),
        one_sent refl refl moved.0 moved.1 later,
      )

  -- A batch of RACH indications is not combined: each one that unpacks is sent, in order, with its
  -- PDUs and their count, for the subframe five later round the cycle; the others are skipped.
  pub oai_subframe_aggregate_rach_ind-SentLater :
      (msg : MessageBuffer) (msgs : List MessageBuffer) (inds : List (Indication LteFrame P))
      → msg.length_field ≤ data_max
      → Rachs (msg ∷ msgs) inds
      → (sent : List (LteSent P)) × (oai_subframe_aggregate_message_id lib Id.rach_indication
            (msg ∷ msgs)
          ≡ returns sent)
        × SentLater inds sent
  unfolding oai_subframe_aggregate_message_id oai_subframe_aggregate_rach_ind
  oai_subframe_aggregate_rach_ind-SentLater msg msgs inds short rs =
      let (sent, run, later) = send_rach_inds-SentLater (msg ∷ msgs) inds rs in
      (sent, ground (arith, short, run), later)
