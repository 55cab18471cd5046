-- ===== src/Message/Decode.antt =====
-- What the readers of a message agree on, and that a well-formed message is read back.
use oai_lte_5g_multi_ue_prox.Base.{
  ℕ, ◌+◌, ◌*◌, ◌/◌, ◌%◌, ◌^◌, ◌≤◌, ◌<◌, ◌≡◌, true, none, some, List, [], ◌∷◌, ◌++◌, returns, arith,
  length, take-append, drop-append, take, if◌then◌else◌, ap, bit_or-shift, drop,
}
use oai_lte_5g_multi_ue_prox.Message.{
  MessageBuffer, Pull, data_max, is_uplink_id, is_nr_uplink_id, message_id_of, pulled_id,
  valid_bytes, get_message_id, get_sfnsf, get_sfnslot, nfapi_get_sfnsf, nfapi_get_sfnslot,
  sfn_sf_field, sfn_slot_field,
}

module _ (pull16 : Pull) where
  -- A message whose time `get_sfnsf` reads is at most 8192 bytes long, has the id of an LTE uplink
  -- indication, which `get_message_id` returns, and `nfapi_get_sfnsf` reads the same time.
  pub get_sfnsf-agrees :
      (msg : MessageBuffer) (sfn_sf : ℕ)
      → get_sfnsf pull16 msg ≡ returns (some sfn_sf)
      → (id : ℕ) × (msg.length_field ≤ data_max)
        × (get_message_id pull16 msg ≡ returns id)
        × (is_uplink_id id ≡ true)
        × (nfapi_get_sfnsf pull16 (take msg.length_field msg.bytes) ≡ sfn_sf)
  unfolding get_sfnsf get_message_id nfapi_get_sfnsf pulled_id message_id_of
  get_sfnsf-agrees msg sfn_sf h = (
    message_id_of pull16 (take msg.length_field msg.bytes),
    ground arith,
    ground arith,
    ground arith,
    ground arith,
  )

  -- A message whose time `get_sfnslot` reads is at most 8192 bytes long, has the id of an NR uplink
  -- indication, which `get_message_id` returns, and `nfapi_get_sfnslot` reads the same time.
  pub get_sfnslot-agrees :
      (msg : MessageBuffer) (sfn_slot : ℕ)
      → get_sfnslot pull16 msg ≡ returns (some sfn_slot)
      → (id : ℕ) × (msg.length_field ≤ data_max)
        × (get_message_id pull16 msg ≡ returns id)
        × (is_nr_uplink_id id ≡ true)
        × (nfapi_get_sfnslot pull16 (take msg.length_field msg.bytes) ≡ sfn_slot)
  unfolding get_sfnslot get_message_id nfapi_get_sfnslot pulled_id message_id_of
  get_sfnslot-agrees msg sfn_slot h = (
    message_id_of pull16 (take msg.length_field msg.bytes),
    ground arith,
    ground arith,
    ground arith,
    ground arith,
  )

-- Two bytes, the high one first.
abbrev pub big_endian : ℕ → List ℕ
big_endian w = w / 256 ∷ w % 256 ∷ []

-- A message on the wire: the ids, the twelve other bytes of the header, and what follows it.
abbrev pub framed : ℕ → ℕ → List ℕ → List ℕ → List ℕ
framed phy_id message_id others body =
    big_endian phy_id ++ (big_endian message_id ++ (others ++ body))

module _ (pull16 : Pull)
    (reads : (w : ℕ) (rest : List ℕ)
      → w < 2 ^ 16
      → pull16 (big_endian w ++ rest) ≡ some (w, rest)) where
  framed-id :
      (phy_id message_id : ℕ) (others body : List ℕ)
      → phy_id < 2 ^ 16
      → message_id < 2 ^ 16
      → pulled_id pull16 (framed phy_id message_id others body) ≡ some message_id
  unfolding pulled_id
  framed-id phy_id message_id others body h k = ground (
    arith,
    reads phy_id (big_endian message_id ++ (others ++ body)) h,
    reads message_id (others ++ body) k,
  )

  framed-body :
      (phy_id message_id : ℕ) (others body : List ℕ)
      → length others ≡ 12
      → drop 16 (framed phy_id message_id others body) ≡ body
  framed-body phy_id message_id others body h = drop-append 12 others body h

  module _ (msg : MessageBuffer) (phy_id message_id : ℕ) (others body unused : List ℕ)
      (phy_in : phy_id < 2 ^ 16) (id_in : message_id < 2 ^ 16) (header : length others ≡ 12)
      (stored : msg.bytes ≡ framed phy_id message_id others body ++ unused)
      (counted : msg.length_field ≡ length (framed phy_id message_id others body))
      (fits : msg.length_field ≤ data_max) where
    stored_bytes : valid_bytes msg ≡ returns (framed phy_id message_id others body)
    unfolding valid_bytes
    stored_bytes = ground (
      arith,
      take-append msg.length_field (framed phy_id message_id others body) unused,
      ap (take msg.length_field) stored,
    )

    -- If the library's `pull16` reads two bytes as a big-endian number, `get_sfnsf` reads back the
    -- time of a complete LTE uplink indication in a buffer, whatever else the message holds, and
    -- rejects every other id.
    pub get_sfnsf-framed :
        (sfn_sf : ℕ) (rest : List ℕ)
        → sfn_sf < 2 ^ 16
        → body ≡ big_endian sfn_sf ++ rest
        → get_sfnsf pull16 msg ≡ returns (if is_uplink_id message_id then some sfn_sf else none)
    unfolding get_sfnsf sfn_sf_field
    get_sfnsf-framed sfn_sf rest h e = ground (
      arith,
      stored_bytes,
      framed-id phy_id message_id others body phy_in id_in,
      framed-body phy_id message_id others body header,
      reads sfn_sf rest h,
    )

    -- `get_sfnslot` likewise packs the frame and the slot of a complete NR uplink indication, if
    -- they are below 1024 and 64, and rejects every other id.
    pub get_sfnslot-framed :
        (sfn slot : ℕ) (rest : List ℕ)
        → sfn < 1024
        → slot < 64
        → body ≡ big_endian sfn ++ (big_endian slot ++ rest)
        → get_sfnslot pull16 msg
          ≡ returns (if is_nr_uplink_id message_id then some (sfn * 64 + slot) else none)
    unfolding get_sfnslot sfn_slot_field
    get_sfnslot-framed sfn slot rest h k e = ground (
      arith,
      stored_bytes,
      framed-id phy_id message_id others body phy_in id_in,
      framed-body phy_id message_id others body header,
      reads sfn (big_endian slot ++ rest) (omega arith),
      reads slot rest (omega arith),
      bit_or-shift 6 sfn (slot % 64) (omega arith),
    )
