-- ===== src/Message.antt =====
-- Uplink messages: message_buffer_t of src/nfapi_pnf.h, and the functions of src/nfapi_pnf.c and
-- src/nfapiutils.c that read a message's id and time from its bytes. `pull16` of the nFAPI library
-- is a parameter: from the bytes between `*in` and `end` it gives a 16-bit value and the bytes
-- left, or fails and leaves `*in` and `*out` alone.
pub mod Decode
pub mod Examples
use Prim.Native.String.{String}
use oai_lte_5g_multi_ue_prox.Base.{
  ℕ, ◌+◌, ◌*◌, ◌%◌, ◌^◌, Bool, true, false, ◌||◌, not, Option, none, some, List, [], ◌∷◌, Outcome,
  returns, aborts, ◌>>=◌, if◌then◌else◌, ◌==◌, leb, length, take, drop, bit_or,
}
use oai_lte_5g_multi_ue_prox.Sfn.{word16}
-- The ids of the nFAPI interface that the proxy tells apart.
pub mod Id
use Id

pub record MessageBuffer : Type 0 where
  pub magic : ℕ
  pub length_field : ℕ
  pub bytes : List ℕ

abbrev pub message_buffer_magic : ℕ
message_buffer_magic = 0x45504953

-- NFAPI_RX_IND_DATA_MAX, the size of `data`.
abbrev pub data_max : ℕ
data_max = 8192

-- sizeof(nfapi_p7_message_header_t)
abbrev pub header_size : ℕ
header_size = 16

-- `~0` in a `uint16_t`
abbrev pub all_ones : ℕ
all_ones = 65535

abbrev pub is_uplink_id : ℕ → Bool
is_uplink_id id =
    id == Id.rach_indication
    || id == Id.crc_indication
    || id == Id.rx_ulsch_indication
    || id == Id.rx_cqi_indication
    || id == Id.harq_indication
    || id == Id.rx_sr_indication

abbrev pub is_nr_uplink_id : ℕ → Bool
is_nr_uplink_id id =
    id == Id.nr_rach_indication
    || id == Id.nr_crc_indication
    || id == Id.nr_rx_data_indication
    || id == Id.nr_uci_indication
    || id == Id.nr_srs_indication

-- NFAPI_SFNSLOT2HEX, stored in a `uint16_t`.
abbrev pub sfnslot2hex : ℕ → ℕ → ℕ
sfnslot2hex sfn slot = word16 (bit_or (sfn * 2 ^ 6) (slot % 64))

abbrev pub Pull : Type 0
Pull = List ℕ → Option (ℕ × List ℕ)

-- The bytes between `data` and `data + length`; the assertion on `end`.
unfoldable pub valid_bytes : MessageBuffer → Outcome (List ℕ)
valid_bytes msg =
    if leb msg.length_field data_max then returns (take msg.length_field msg.bytes) else aborts

module _ (pull16 : Pull) where
  -- A pull whose result is not looked at: the variable keeps its value on a failure.
  pull_into : List ℕ → ℕ → ℕ × List ℕ
  pull_into bytes old = elim (pull16 bytes) [ none ↦ (old, bytes) | some (v, rest) ↦ (v, rest) ]

  -- The id that `phy_id` and `message_id` pulls leave behind, starting from `~0`.
  unfoldable pub message_id_of : List ℕ → ℕ
  unfolding pull_into
  message_id_of bytes =
      let (phy_id, rest) = pull_into bytes all_ones in
      let (message_id, rest') = pull_into rest all_ones in message_id

  -- The id, if both pulls succeed.
  unfoldable pub pulled_id : List ℕ → Option ℕ
  pulled_id bytes = elim (pull16 bytes) [
    | none ↦ none
    | some (phy_id, rest) ↦ elim (pull16 rest) [
      | none ↦ none
      | some (message_id, rest') ↦ some message_id
    ]
  ]

  unfoldable pub get_message_id : MessageBuffer → Outcome ℕ
  unfolding valid_bytes
  get_message_id msg = valid_bytes msg >>= λ bytes. returns (message_id_of bytes)

  sfn_sf_field : List ℕ → Option ℕ
  sfn_sf_field bytes = elim (pull16 (drop header_size bytes)) [
    | none ↦ none
    | some (sfn_sf, rest) ↦ some sfn_sf
  ]

  sfn_slot_field : List ℕ → Option ℕ
  sfn_slot_field bytes = elim (pull16 (drop header_size bytes)) [
    | none ↦ none
    | some (sfn, rest) ↦ elim (pull16 rest) [
      | none ↦ none
      | some (slot, rest') ↦ some (sfnslot2hex sfn slot)
    ]
  ]

  -- `none` is the return value false.
  unfoldable pub get_sfnsf : MessageBuffer → Outcome (Option ℕ)
  unfolding valid_bytes sfn_sf_field
  get_sfnsf msg = valid_bytes msg >>= λ bytes. returns (elim (pulled_id bytes) [
    | none ↦ none
    | some id ↦ if is_uplink_id id then sfn_sf_field bytes else none
  ])

  unfoldable pub get_sfnslot : MessageBuffer → Outcome (Option ℕ)
  unfolding valid_bytes sfn_slot_field
  get_sfnslot msg = valid_bytes msg >>= λ bytes. returns (elim (pulled_id bytes) [
    | none ↦ none
    | some id ↦ if is_nr_uplink_id id then sfn_slot_field bytes else none
  ])

  or_all_ones : Option ℕ → ℕ
  or_all_ones none = all_ones
  or_all_ones (some w) = w

  -- The bytes are those between `msg` and `msg + length`.
  unfoldable pub nfapi_get_sfnsf : List ℕ → ℕ
  unfolding sfn_sf_field or_all_ones
  nfapi_get_sfnsf bytes = elim (pulled_id bytes) [
    | none ↦ all_ones
    | some id ↦ if is_uplink_id id || id == 0 then or_all_ones (sfn_sf_field bytes) else all_ones
  ]

  unfoldable pub nfapi_get_sfnslot : List ℕ → ℕ
  unfolding sfn_slot_field or_all_ones
  nfapi_get_sfnslot bytes = elim (pulled_id bytes) [
    | none ↦ all_ones
    | some id ↦
        if is_nr_uplink_id id || id == 0 then or_all_ones (sfn_slot_field bytes) else all_ones
  ]

  unfoldable pub nfapi_get_message_id : List ℕ → String
  unfolding message_id_of
  nfapi_get_message_id bytes =
      let id = message_id_of bytes in
      if id == Id.rach_indication
      then "RACH"
      else if id == Id.crc_indication
      then "CRC"
      else if id == Id.rx_ulsch_indication
      then "RX"
      else if id == Id.rx_cqi_indication
      then "CQI"
      else if id == Id.harq_indication
      then "HARQ"
      else if id == Id.rx_sr_indication
      then "SR"
      else if id == 0
      then "Dummy"
      else "Unknown"

  unfoldable pub nfapi_nr_get_message_id : List ℕ → String
  unfolding message_id_of
  nfapi_nr_get_message_id bytes =
      let id = message_id_of bytes in
      if id == Id.nr_rach_indication
      then "RACH_NR"
      else if id == Id.nr_crc_indication
      then "CRC_NR"
      else if id == Id.nr_rx_data_indication
      then "RX_DATA_NR"
      else if id == Id.nr_uci_indication
      then "UCI_NR"
      else if id == Id.nr_srs_indication
      then "SRS_NR"
      else if id == 0
      then "Dummy"
      else "Unknown"
