-- ===== src/Task/Ids.antt =====
-- A message whose time can be read has an uplink id, so that the aggregation loops of
-- src/nfapi_pnf.c, for which an id of 0 stands for  find it.
use oai_lte_5g_multi_ue_prox.Base.{
  ℕ, ◌≤◌, ◌≡◌, ◌≢◌, inl, inr, sym, ap, ◌∙◌, true, false, some, List, arith, take, Option-cases,
  Bool-cases,
}
use oai_lte_5g_multi_ue_prox.Message.{
  MessageBuffer, Pull, data_max, valid_bytes, message_id_of, pulled_id, get_sfnsf, get_sfnslot,
  is_uplink_id, is_nr_uplink_id,
}
use oai_lte_5g_multi_ue_prox.Batch.Batches.{id_of_message}
use oai_lte_5g_multi_ue_prox.Uplink.Times.{lte_time, nr_time}

message_id_of-pulled_id :
    (pull16 : Pull) (bytes : List ℕ) (id : ℕ)
    → pulled_id pull16 bytes ≡ some id
    → message_id_of pull16 bytes ≡ id
unfolding message_id_of pulled_id
message_id_of-pulled_id pull16 bytes id e = ground arith

pub lte_time-ident :
    (pull16 : Pull) (msg : MessageBuffer) (at : ℕ)
    → msg.length_field ≤ data_max
    → lte_time pull16 msg ≡ some at
    → is_uplink_id (id_of_message pull16 msg) ≡ true
unfolding get_sfnsf valid_bytes
lte_time-ident pull16 msg at h e =
    let bytes : List ℕ = take msg.length_field msg.bytes in
    elim (Option-cases (pulled_id pull16 bytes)) [
      | inl n ↦ absurd (ground (arith, e, n))
      | inr (id, p) ↦ elim (Bool-cases (is_uplink_id id)) [
        | inl t ↦ ap is_uplink_id (message_id_of-pulled_id pull16 bytes id p) ∙ t
        | inr t ↦ absurd (ground (arith, e, p, t))
      ]
    ]

pub nr_time-ident :
    (pull16 : Pull) (msg : MessageBuffer) (at : ℕ)
    → msg.length_field ≤ data_max
    → nr_time pull16 msg ≡ some at
    → is_nr_uplink_id (id_of_message pull16 msg) ≡ true
unfolding get_sfnslot valid_bytes
nr_time-ident pull16 msg at h e =
    let bytes : List ℕ = take msg.length_field msg.bytes in
    elim (Option-cases (pulled_id pull16 bytes)) [
      | inl n ↦ absurd (ground (arith, e, n))
      | inr (id, p) ↦ elim (Bool-cases (is_nr_uplink_id id)) [
        | inl t ↦ ap is_nr_uplink_id (message_id_of-pulled_id pull16 bytes id p) ∙ t
        | inr t ↦ absurd (ground (arith, e, p, t))
      ]
    ]

-- Such a message has an id other than 0.
pub lte_time-ident_ne :
    (pull16 : Pull) (msg : MessageBuffer) (at : ℕ)
    → msg.length_field ≤ data_max
    → lte_time pull16 msg ≡ some at
    → id_of_message pull16 msg ≢ 0
lte_time-ident_ne pull16 msg at h e zero_id =
    true_ne_false (sym (lte_time-ident pull16 msg at h e) ∙ ap is_uplink_id zero_id)
  where
    true_ne_false : true ≢ false
    true_ne_false t = cc

pub nr_time-ident_ne :
    (pull16 : Pull) (msg : MessageBuffer) (at : ℕ)
    → msg.length_field ≤ data_max
    → nr_time pull16 msg ≡ some at
    → id_of_message pull16 msg ≢ 0
nr_time-ident_ne pull16 msg at h e zero_id =
    true_ne_false (sym (nr_time-ident pull16 msg at h e) ∙ ap is_nr_uplink_id zero_id)
  where
    true_ne_false : true ≢ false
    true_ne_false t = cc
