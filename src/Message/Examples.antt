-- ===== src/Message/Examples.antt =====
-- Tests of the readers of messages, and the messages that other tests use.
use oai_lte_5g_multi_ue_prox.Base.{
  ℕ, ◌+◌, ◌*◌, ◌^◌, ◌<◌, ◌≡◌, refl, none, some, List, [], ◌∷◌, ◌++◌, returns, arith, length,
  if◌then◌else◌,
}
use oai_lte_5g_multi_ue_prox.Message.{
  MessageBuffer, message_buffer_magic, Pull, get_sfnsf, get_sfnslot, is_uplink_id, message_id_of,
  pulled_id, valid_bytes, nfapi_get_message_id,
}
use oai_lte_5g_multi_ue_prox.Message.Id
use oai_lte_5g_multi_ue_prox.Message.Decode.{big_endian, framed, get_sfnsf-framed}

-- A reader of big-endian words.
abbrev pub read_word : Pull
read_word [] = none
read_word (high ∷ []) = none
read_word (high ∷ low ∷ rest) = some (high * 256 + low, rest)

pub read_word-big_endian :
    (w : ℕ) (rest : List ℕ) → w < 2 ^ 16 → read_word (big_endian w ++ rest) ≡ some (w, rest)
read_word-big_endian w rest h = ground arith

-- The twelve bytes of a header behind its ids.
abbrev pub others : List ℕ
others = 0 ∷ 0 ∷ 0 ∷ 0 ∷ 0 ∷ 0 ∷ 0 ∷ 0 ∷ 0 ∷ 0 ∷ 0 ∷ 0 ∷ []

-- A buffer with an indication of the id, with what stands behind the header.
abbrev pub message : ℕ → List ℕ → MessageBuffer
message id body = record {
  magic = message_buffer_magic;
  length_field = length (framed 1 id others body);
  bytes = framed 1 id others body;
}

-- Subframe 5.3, and slot 5.3.
abbrev pub crc_message : MessageBuffer
crc_message = message Id.crc_indication (0 ∷ 83 ∷ 7 ∷ [])

abbrev pub nr_crc_message : MessageBuffer
nr_crc_message = message Id.nr_crc_indication (0 ∷ 5 ∷ 0 ∷ 3 ∷ 7 ∷ [])

crc_message_time : get_sfnsf read_word crc_message ≡ returns (some 83)
unfolding get_sfnsf valid_bytes pulled_id
crc_message_time = refl

crc_message_name : nfapi_get_message_id read_word crc_message.bytes ≡ "CRC"
unfolding nfapi_get_message_id message_id_of
crc_message_name = refl

pub nr_crc_message_time : get_sfnslot read_word nr_crc_message ≡ returns (some 323)
unfolding get_sfnslot valid_bytes pulled_id
nr_crc_message_time = refl

get_sfnsf-framed_example :
    get_sfnsf read_word crc_message
    ≡ returns (if is_uplink_id Id.crc_indication then some 83 else none)
get_sfnsf-framed_example =
    get_sfnsf-framed read_word read_word-big_endian crc_message 1 Id.crc_indication others
      (0 ∷ 83 ∷ 7 ∷ []) [] (omega arith) (omega arith) refl refl refl (omega arith) 83 (7 ∷ [])
      (omega arith) refl
