-- ===== src/Proxy.antt =====
-- src/lte_proxy.cc and src/nr_proxy.cc: the threads that receive from each UE, and the sending of
-- downlink messages and times to all UEs. The calls of `recvfrom` come as the list of what they
-- find; a call of `sendto` is an event, whatever it returns. The nFAPI library's packing and
-- unpacking are parameters. Setup and the modules on it are about the constructors, `configure`
-- and `start`.
pub mod Receiving
pub mod Sending
pub mod Setup
pub mod Connected
pub mod Log
pub mod Started
pub mod Launch
mod Examples
mod SetupExamples
use oai_lte_5g_multi_ue_prox.Base.{
  ℕ, zero, suc, ◌+◌, ◌*◌, Bool, true, false, ◌||◌, Option, none, some, List, [], ◌∷◌, Outcome,
  returns, aborts, ◌>>=◌, if◌then◌else◌, ◌==◌, ltb, length, take,
}
use oai_lte_5g_multi_ue_prox.Queue.{Queue}
use oai_lte_5g_multi_ue_prox.Sfn.{word16}
use oai_lte_5g_multi_ue_prox.Message.{MessageBuffer}
use oai_lte_5g_multi_ue_prox.Message.Id
use oai_lte_5g_multi_ue_prox.Uplink.{oai_subframe_handle_msg_from_ue, oai_slot_handle_msg_from_ue}

-- NFAPI_MAX_PACKED_MESSAGE_SIZE
abbrev pub packed_max : ℕ
packed_max = 8192

-- What a call of `recvfrom` finds: an error, or a datagram, of which it gives what the buffer
-- holds.
pub data Receipt : Type 0 where
  fails : Receipt
  datagram : List ℕ → Receipt

module _ (unpacks_header : List ℕ → Bool) where
  -- The `while(true)` of a receiving thread; `handler` puts a message into the queue of a UE.
  unfoldable pub receive_messages :
      (List (Queue MessageBuffer) → List ℕ → ℕ → Outcome (List (Queue MessageBuffer)))
      → ℕ
      → List (Queue MessageBuffer)
      → List Receipt
      → Outcome (List (Queue MessageBuffer))
  receive_messages handler ue_idx queues [] = returns queues
  receive_messages handler ue_idx queues (fails ∷ rs) = returns queues
  receive_messages handler ue_idx queues (datagram bytes ∷ rs) =
      let buffer = take packed_max bytes in
      let ignored = receive_messages handler ue_idx queues rs in
      if length buffer == 4
      then ignored
      else if unpacks_header buffer
      then (handler queues buffer (ue_idx + 2) >>= λ queues'.
          receive_messages handler ue_idx queues' rs)
      else returns queues

  unfoldable pub receive_message_from_ue :
      ℕ → List (Queue MessageBuffer) → List Receipt → Outcome (List (Queue MessageBuffer))
  receive_message_from_ue ue_idx queues rs =
      receive_messages oai_subframe_handle_msg_from_ue ue_idx queues rs

  unfoldable pub receive_message_from_nr_ue :
      ℕ → List (Queue MessageBuffer) → List Receipt → Outcome (List (Queue MessageBuffer))
  receive_message_from_nr_ue ue_idx queues rs =
      receive_messages oai_slot_handle_msg_from_ue ue_idx queues rs

-- A UE as the proxy keeps it: `oai_ue_ipaddr[i]` and `ue_tx_socket[i]`.
pub record Ue : Type 0 where
  pub ipaddr : List ℕ
  pub tx_socket : ℕ

-- A call of `sendto`.
pub record Sendto : Type 0 where
  pub socket : ℕ
  pub ipaddr : List ℕ
  pub port : ℕ
  pub bytes : List ℕ

abbrev pub port_delta : ℕ
port_delta = 2

-- `htons(base + ue_idx * port_delta)`
abbrev pub ue_port : ℕ → ℕ → ℕ
ue_port base ue_idx = word16 (base + ue_idx * port_delta)

abbrev pub lte_tx_base : ℕ
lte_tx_base = 3212

abbrev pub nr_tx_base : ℕ
nr_tx_base = 3612

-- The loop over the UEs from `ue_idx` on, with its assertion on the socket.
unfoldable pub send_to_ues : ℕ → List ℕ → ℕ → List Ue → Outcome (List Sendto)
send_to_ues base bytes ue_idx [] = returns []
send_to_ues base bytes ue_idx (ue ∷ ues) =
    if ltb 2 ue.tx_socket
    then (send_to_ues base bytes (suc ue_idx) ues >>= λ more. returns (
        record {
          socket = ue.tx_socket;
          ipaddr = ue.ipaddr;
          port = ue_port base ue_idx;
          bytes = bytes;
        }
        ∷ more))
    else aborts

abbrev pub forwards_lte : ℕ → Bool
forwards_lte id =
    id == Id.dl_config_request
    || id == Id.tx_request
    || id == Id.ul_config_request
    || id == Id.hi_dci0_request

abbrev pub forwards_nr : ℕ → Bool
forwards_nr id =
    id == Id.nr_dl_tti_request
    || id == Id.nr_tx_data_request
    || id == Id.nr_ul_dci_request
    || id == Id.nr_ul_tti_request

module _ {M : Type 0} (pack : M → Option (List ℕ)) (unpack_id : List ℕ → Option ℕ)
    (ues : List Ue) where
  -- The downlink task over a choice of ids; the packed message has an id once it can be unpacked.
  unfoldable pub downlink_task : ℕ → (ℕ → Bool) → M → Outcome (List Sendto)
  downlink_task base forwards msg_org = elim (pack msg_org) [
    | none ↦ returns []
    | some buffer ↦ elim (unpack_id buffer) [
      | none ↦ returns []
      | some id ↦ if forwards id then send_to_ues base buffer 0 ues else returns []
    ]
  ]

  unfoldable pub oai_enb_downlink_nfapi_task : M → Outcome (List Sendto)
  oai_enb_downlink_nfapi_task msg_org = downlink_task lte_tx_base forwards_lte msg_org

  unfoldable pub oai_gnb_downlink_nfapi_task : M → Outcome (List Sendto)
  oai_gnb_downlink_nfapi_task msg_org = downlink_task nr_tx_base forwards_nr msg_org

-- The word goes out as its two bytes in the machine's order, which `host_bytes` gives.
unfoldable pub pack_and_send_downlink_sfn_sf_msg :
    (ℕ → List ℕ) → List Ue → ℕ → Outcome (List Sendto)
pack_and_send_downlink_sfn_sf_msg host_bytes ues sfn_sf =
    send_to_ues lte_tx_base (host_bytes sfn_sf) 0 ues

unfoldable pub pack_and_send_downlink_sfn_slot_msg :
    (ℕ → List ℕ) → List Ue → ℕ → Outcome (List Sendto)
pack_and_send_downlink_sfn_slot_msg host_bytes ues sfn_slot =
    send_to_ues nr_tx_base (host_bytes sfn_slot) 0 ues
