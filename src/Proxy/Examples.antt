-- ===== src/Proxy/Examples.antt =====
-- Tests of the proxies' receiving and sending.
use oai_lte_5g_multi_ue_prox.Base.{
  ℕ, zero, suc, ◌≡◌, refl, inl, inr, ◌%◌, ◌/◌, Bool, true, false, Option, none, some, List, [], ◌∷◌,
  ◌++◌, returns, aborts, arith, ltb, length,
}
use oai_lte_5g_multi_ue_prox.Queue.{Queue}
use oai_lte_5g_multi_ue_prox.Message.{MessageBuffer}
use oai_lte_5g_multi_ue_prox.Message.Id
use oai_lte_5g_multi_ue_prox.Message.Examples.{crc_message}
use oai_lte_5g_multi_ue_prox.Uplink.Sweep.{Hold}
use oai_lte_5g_multi_ue_prox.Uplink.Examples.{queue_with, one_message-Hold, crc_message-IsStored}
use oai_lte_5g_multi_ue_prox.Proxy.{
  Receipt, datagram, receive_message_from_ue, receive_message_from_nr_ue, Ue, forwards_lte,
  forwards_nr, oai_enb_downlink_nfapi_task, oai_gnb_downlink_nfapi_task,
}
use oai_lte_5g_multi_ue_prox.Proxy.Receiving.{
  enqueue_all, datagrams, receive_message-enqueues, receive_message-aborts, receive_message-broken,
}
use oai_lte_5g_multi_ue_prox.Proxy.Sending.{SendsAll, downlink_task-SendsAll}

-- A header unpacks from sixteen bytes.
abbrev has_header : List ℕ → Bool
has_header bytes = ltb 15 (length bytes)

abbrev queues : List (Queue MessageBuffer)
queues = queue_with crc_message ∷ []

abbrev dummy : List ℕ
dummy = 0 ∷ 0 ∷ 0 ∷ 0 ∷ []

abbrev zeros : ℕ → List ℕ
zeros zero = []
zeros (suc n) = 0 ∷ zeros n

receive_message-enqueues_example :
    ((qs' : List (Queue MessageBuffer)) × (receive_message_from_ue has_header 0 queues
          (datagrams (dummy ∷ crc_message.bytes ∷ []))
        ≡ returns qs')
      × Hold qs' (enqueue_all ((crc_message ∷ []) ∷ []) 0 (dummy ∷ crc_message.bytes ∷ [])))
    × ((qs' : List (Queue MessageBuffer)) × (receive_message_from_nr_ue has_header 0 queues
            (datagrams (dummy ∷ crc_message.bytes ∷ []))
          ≡ returns qs')
        × Hold qs' (enqueue_all ((crc_message ∷ []) ∷ []) 0 (dummy ∷ crc_message.bytes ∷ [])))
receive_message-enqueues_example =
    receive_message-enqueues has_header 0 queues ((crc_message ∷ []) ∷ [])
      (dummy ∷ crc_message.bytes ∷ []) (one_message-Hold crc_message crc_message-IsStored)
      (omega arith) ((omega arith, inl refl), ((omega arith, inr refl), tt))

abbrev too_large : List ℕ
too_large = zeros 8192

receive_message-aborts_example :
    (receive_message_from_ue has_header 0 queues (datagram too_large ∷ []) ≡ aborts)
    × (receive_message_from_nr_ue has_header 0 queues (datagram too_large ∷ []) ≡ aborts)
receive_message-aborts_example =
    receive_message-aborts has_header 0 queues ((crc_message ∷ []) ∷ []) too_large []
      (one_message-Hold crc_message crc_message-IsStored) (omega arith) (omega arith) refl

abbrev later : List Receipt
later = datagram crc_message.bytes ∷ []

receive_message-broken_example :
    (receive_message_from_ue has_header 0 queues
        (datagrams (dummy ∷ []) ++ (datagram (1 ∷ []) ∷ later))
      ≡ receive_message_from_ue has_header 0 queues (datagrams (dummy ∷ [])))
    × (receive_message_from_nr_ue has_header 0 queues
          (datagrams (dummy ∷ []) ++ (datagram (1 ∷ []) ∷ later))
        ≡ receive_message_from_nr_ue has_header 0 queues (datagrams (dummy ∷ [])))
receive_message-broken_example =
    receive_message-broken has_header 0 queues (dummy ∷ []) (1 ∷ []) later
      ((omega arith, inl refl), tt) (omega arith) (omega arith) refl

abbrev two_ues : List Ue
two_ues =
    record { ipaddr = 10 ∷ 0 ∷ 0 ∷ 1 ∷ []; tx_socket = 5 }
    ∷ record { ipaddr = 10 ∷ 0 ∷ 0 ∷ 2 ∷ []; tx_socket = 6 }
    ∷ []

abbrev pack_id : ℕ → Option (List ℕ)
pack_id id = some (id ∷ [])

abbrev id_of_packed : List ℕ → Option ℕ
id_of_packed [] = none
id_of_packed (id ∷ rest) = some id

downlink_task-SendsAll_example :
    (forwards_lte Id.tx_request ≡ true
      → SendsAll 3212 two_ues
          (Id.tx_request ∷ [])
          (oai_enb_downlink_nfapi_task pack_id id_of_packed two_ues Id.tx_request))
    × (forwards_lte Id.tx_request ≡ false
        → oai_enb_downlink_nfapi_task pack_id id_of_packed two_ues Id.tx_request ≡ returns [])
    × (forwards_nr Id.tx_request ≡ true
        → SendsAll 3612 two_ues
            (Id.tx_request ∷ [])
            (oai_gnb_downlink_nfapi_task pack_id id_of_packed two_ues Id.tx_request))
    × (forwards_nr Id.tx_request ≡ false
        → oai_gnb_downlink_nfapi_task pack_id id_of_packed two_ues Id.tx_request ≡ returns [])
downlink_task-SendsAll_example =
    downlink_task-SendsAll pack_id id_of_packed two_ues (omega arith, (omega arith, tt))
      (omega arith) Id.tx_request (Id.tx_request ∷ []) refl Id.tx_request refl

abbrev low_byte_first : ℕ → List ℕ
low_byte_first w = w % 256 ∷ w / 256 ∷ []
