-- ===== src/Proxy/Receiving.antt =====
-- The receiving threads of src/lte_proxy.cc and src/nr_proxy.cc.
use oai_lte_5g_multi_ue_prox.Base.{
  ℕ, ◌+◌, ◌-◌, ◌≤◌, ◌<◌, ◌≡◌, ◌≢◌, ◌⊎◌, refl, subst, inl, inr, Bool, true, false, List, [], ◌∷◌,
  ◌++◌, Outcome, returns, aborts, arith, length, All, take, take_all, length-take, ℕ_discrete,
  Outcome-cases, if◌then◌else◌, ◌==◌,
}
use oai_lte_5g_multi_ue_prox.Queue.{Queue}
use oai_lte_5g_multi_ue_prox.Message.{MessageBuffer}
use oai_lte_5g_multi_ue_prox.Uplink.{
  handle_msg_from_ue, oai_subframe_handle_msg_from_ue, oai_slot_handle_msg_from_ue, new_buffer,
  min_ue_nem_id,
}
use oai_lte_5g_multi_ue_prox.Uplink.Sweep.{Hold}
use oai_lte_5g_multi_ue_prox.Uplink.Receive.{
  enqueue_at, handle_msg_from_ue-aborts, handle_msg_from_ue-accepts, length-Hold, length-enqueue_at,
}
use oai_lte_5g_multi_ue_prox.Proxy.{
  packed_max, Receipt, datagram, receive_messages, receive_message_from_ue,
  receive_message_from_nr_ue,
}

-- The messages of several datagrams are put into the queue of UE i, dummy ones left out.
abbrev pub enqueue_all : List (List MessageBuffer) → ℕ → List (List ℕ) → List (List MessageBuffer)
enqueue_all xss i [] = xss
enqueue_all xss i (bytes ∷ more) =
    let skipped = enqueue_all xss i more in
    let queued = enqueue_all (enqueue_at xss i (new_buffer bytes)) i more in
    if length bytes == 4 then skipped else queued

abbrev pub datagrams : List (List ℕ) → List Receipt
datagrams [] = []
datagrams (bytes ∷ more) = datagram bytes ∷ datagrams more

module _ (unpacks_header : List ℕ → Bool) where
  -- A datagram that the threads take: shorter than the buffer, and with a header unless it is a
  -- dummy.
  abbrev pub IsProper : List ℕ → Type 0
  IsProper bytes =
      (length bytes < packed_max) × ((length bytes ≡ 4) ⊎ (unpacks_header bytes ≡ true))

  -- Such datagrams before a broken one: the thread ends there.
  receive_messages-broken :
      (handler : List (Queue MessageBuffer) → List ℕ → ℕ → Outcome (List (Queue MessageBuffer)))
      (ue_idx : ℕ) (qs : List (Queue MessageBuffer)) (proper : List (List ℕ)) (broken : List ℕ)
      (more : List Receipt)
      → All IsProper proper
      → length broken < packed_max
      → length broken ≢ 4
      → unpacks_header broken ≡ false
      → receive_messages unpacks_header handler ue_idx qs
          (datagrams proper ++ (datagram broken ∷ more))
        ≡ receive_messages unpacks_header handler ue_idx qs (datagrams proper)
  unfolding receive_messages
  receive_messages-broken handler ue_idx qs [] broken more ok short long bad =
      ground (arith, take_all packed_max broken (omega arith), bad)
  receive_messages-broken handler ue_idx qs (bytes ∷ proper) broken more ok short long bad =
      let whole = take_all packed_max bytes (omega (arith, ok.0.0)) in
      let ih = λ (qs' : List (Queue MessageBuffer)).
        receive_messages-broken handler ue_idx qs' proper broken more ok.1 short long bad in
      elim (ℕ_discrete (length bytes) 4) [
        | yes dummy ↦ ground (arith, whole, dummy, ih qs)
        | no full ↦
            let header : unpacks_header bytes ≡ true = elim ok.0.1 [
              | inl dummy ↦ absurd (full dummy)
              | inr h ↦ h
            ] in
            elim (Outcome-cases (handler qs bytes (ue_idx + 2))) [
              | inl a ↦ ground (arith, whole, full, header, a)
              | inr (qs', e) ↦ ground (arith, whole, full, header, e, ih qs')
            ]
      ]

  module _
      (handler : List (Queue MessageBuffer) → List ℕ → ℕ → Outcome (List (Queue MessageBuffer)))
      (same : (qs : List (Queue MessageBuffer)) (msg : List ℕ) (nem_id : ℕ)
        → handler qs msg nem_id ≡ handle_msg_from_ue qs msg nem_id)
      (ue_idx : ℕ) where
    receive_messages-enqueues :
        (qs : List (Queue MessageBuffer)) (xss : List (List MessageBuffer)) (proper : List (List ℕ))
        → Hold qs xss
        → ue_idx < length qs
        → All IsProper proper
        → (qs' : List (Queue MessageBuffer)) × (receive_messages unpacks_header handler ue_idx qs
              (datagrams proper)
            ≡ returns qs')
          × Hold qs' (enqueue_all xss ue_idx proper)
    unfolding receive_messages
    receive_messages-enqueues qs xss [] h there ok = (qs, refl, h)
    receive_messages-enqueues qs xss (bytes ∷ proper) h there ok =
        elim (ℕ_discrete (length bytes) 4) [
          | yes dummy ↦
              let (qs', run, hold) = receive_messages-enqueues qs xss proper h there ok.1 in
              let t : (length bytes == 4) ≡ true = ground (arith, dummy) in
              let whole = take_all packed_max bytes (omega (arith, ok.0.0)) in
              (qs', ground (arith, whole, dummy, run), rw t hold)
          | no full ↦
              let t : (length bytes == 4) ≡ false = ground (arith, full) in
              let whole = take_all packed_max bytes (omega (arith, ok.0.0)) in
              let header : unpacks_header bytes ≡ true = elim ok.0.1 [
                | inl dummy ↦ absurd (full dummy)
                | inr h ↦ h
              ] in
              let slot : ue_idx + 2 - min_ue_nem_id ≡ ue_idx = omega arith in
              let (next, put, stored) =
                handle_msg_from_ue-accepts qs xss bytes (ue_idx + 2) h full ok.0.0 (omega arith)
                  (omega (arith, there)) in
              let grown : List (List MessageBuffer) = enqueue_at xss ue_idx (new_buffer bytes) in
              let hold : Hold next grown =
                subst (λ i. Hold next (enqueue_at xss i (new_buffer bytes))) slot stored in
              let there' : ue_idx < length next = omega (
                arith,
                there,
                length-Hold h,
                length-Hold hold,
                length-enqueue_at xss ue_idx (new_buffer bytes),
              ) in
              let (qs', run, held) = receive_messages-enqueues next grown proper hold there' ok.1 in
              (
                qs',
                ground (arith, whole, full, header, same qs bytes (ue_idx + 2), put, run),
                rw t held,
              )
        ]

    receive_messages-aborts :
        (qs : List (Queue MessageBuffer)) (xss : List (List MessageBuffer)) (large : List ℕ)
        (more : List Receipt)
        → Hold qs xss
        → ue_idx < length qs
        → packed_max ≤ length large
        → unpacks_header (take packed_max large) ≡ true
        → receive_messages unpacks_header handler ue_idx qs (datagram large ∷ more) ≡ aborts
    unfolding receive_messages
    receive_messages-aborts qs xss large more h there size header =
        let full : length (take packed_max large) ≡ packed_max =
          omega (arith, length-take packed_max large, size) in
        let stops =
          handle_msg_from_ue-aborts qs xss (take packed_max large) (ue_idx + 2) h
            (omega (arith, full)) (omega arith) (omega (arith, there)) in
        ground (arith, full, header, same qs (take packed_max large) (ue_idx + 2), stops)

  lte_handler :
      (qs : List (Queue MessageBuffer)) (msg : List ℕ) (nem_id : ℕ)
      → oai_subframe_handle_msg_from_ue qs msg nem_id ≡ handle_msg_from_ue qs msg nem_id
  unfolding oai_subframe_handle_msg_from_ue
  lte_handler qs msg nem_id = refl

  nr_handler :
      (qs : List (Queue MessageBuffer)) (msg : List ℕ) (nem_id : ℕ)
      → oai_slot_handle_msg_from_ue qs msg nem_id ≡ handle_msg_from_ue qs msg nem_id
  unfolding oai_slot_handle_msg_from_ue
  nr_handler qs msg nem_id = refl

  -- A receiving thread whose UE has a queue puts each datagram shorter than 8192 bytes, with a
  -- header that unpacks, behind the UE's messages, in the order of arrival, as long as there is
  -- room, and leaves out those of length 4. It touches no other UE's queue.
  pub receive_message-enqueues :
      (ue_idx : ℕ) (qs : List (Queue MessageBuffer)) (xss : List (List MessageBuffer))
      (proper : List (List ℕ))
      → Hold qs xss
      → ue_idx < length qs
      → All IsProper proper
      → ((qs' : List (Queue MessageBuffer)) × (receive_message_from_ue unpacks_header ue_idx qs
              (datagrams proper)
            ≡ returns qs')
          × Hold qs' (enqueue_all xss ue_idx proper))
        × ((qs' : List (Queue MessageBuffer)) × (receive_message_from_nr_ue unpacks_header ue_idx qs
                (datagrams proper)
              ≡ returns qs')
            × Hold qs' (enqueue_all xss ue_idx proper))
  unfolding receive_message_from_ue receive_message_from_nr_ue
  receive_message-enqueues ue_idx qs xss proper h there ok = (
    receive_messages-enqueues oai_subframe_handle_msg_from_ue lte_handler ue_idx qs xss proper h
        there ok,
    receive_messages-enqueues oai_slot_handle_msg_from_ue nr_handler ue_idx qs xss proper h there
        ok,
  )

  -- A datagram of at least 8192 bytes, with a header that unpacks, stops the whole program: what
  -- `recvfrom` reads of it fills the buffer, and the assertion on the length fails.
  pub receive_message-aborts :
      (ue_idx : ℕ) (qs : List (Queue MessageBuffer)) (xss : List (List MessageBuffer))
      (large : List ℕ) (more : List Receipt)
      → Hold qs xss
      → ue_idx < length qs
      → packed_max ≤ length large
      → unpacks_header (take packed_max large) ≡ true
      → (receive_message_from_ue unpacks_header ue_idx qs (datagram large ∷ more) ≡ aborts)
        × (receive_message_from_nr_ue unpacks_header ue_idx qs (datagram large ∷ more) ≡ aborts)
  unfolding receive_message_from_ue receive_message_from_nr_ue
  receive_message-aborts ue_idx qs xss large more h there size header = (
    receive_messages-aborts oai_subframe_handle_msg_from_ue lte_handler ue_idx qs xss large more h
        there size header,
    receive_messages-aborts oai_slot_handle_msg_from_ue nr_handler ue_idx qs xss large more h there
        size header,
  )

  -- After datagrams that the threads take, one shorter than 8192 bytes and not of length 4, whose
  -- header does not unpack, ends the receiving thread: what comes after it is not received.
  pub receive_message-broken :
      (ue_idx : ℕ) (qs : List (Queue MessageBuffer)) (proper : List (List ℕ)) (broken : List ℕ)
      (more : List Receipt)
      → All IsProper proper
      → length broken < packed_max
      → length broken ≢ 4
      → unpacks_header broken ≡ false
      → (receive_message_from_ue unpacks_header ue_idx qs
            (datagrams proper ++ (datagram broken ∷ more))
          ≡ receive_message_from_ue unpacks_header ue_idx qs (datagrams proper))
        × (receive_message_from_nr_ue unpacks_header ue_idx qs
              (datagrams proper ++ (datagram broken ∷ more))
            ≡ receive_message_from_nr_ue unpacks_header ue_idx qs (datagrams proper))
  unfolding receive_message_from_ue receive_message_from_nr_ue
  receive_message-broken ue_idx qs proper broken more ok short long bad = (
    receive_messages-broken oai_subframe_handle_msg_from_ue ue_idx qs proper broken more ok short
        long bad,
    receive_messages-broken oai_slot_handle_msg_from_ue ue_idx qs proper broken more ok short long
        bad,
  )
