-- ===== src/Proxy/Sending.antt =====
-- What src/lte_proxy.cc and src/nr_proxy.cc send to the UEs.
use oai_lte_5g_multi_ue_prox.Base.{
  ℕ, zero, suc, ◌+◌, ◌*◌, ◌≤◌, ◌<◌, ◌≡◌, refl, sym, subst, ap, ◌∙◌, Bool, true, false, Option, some,
  List, [], ◌∷◌, Outcome, returns, arith, length, All, get_elem?, get_elem?-lt,
}
use oai_lte_5g_multi_ue_prox.Proxy.{
  Ue, Sendto, port_delta, ue_port, lte_tx_base, nr_tx_base, forwards_lte, forwards_nr, send_to_ues,
  downlink_task, oai_enb_downlink_nfapi_task, oai_gnb_downlink_nfapi_task,
  pack_and_send_downlink_sfn_sf_msg, pack_and_send_downlink_sfn_slot_msg,
}

-- The UE's socket was opened.
abbrev pub IsOpen : Ue → Type 0
IsOpen ue = 2 < ue.tx_socket

-- Each UE is sent the bytes once, through its socket, at its address and the port of its place.
pub record SendsAll (base : ℕ) (ues : List Ue) (bytes : List ℕ) (out : Outcome (List Sendto))
    : Type 0 where
  pub calls : List Sendto
  pub done : out ≡ returns calls
  pub once : length calls ≡ length ues
  pub each :
      (i : ℕ) (ue : Ue)
      → get_elem? ues i ≡ some ue
      → get_elem? calls i
        ≡ some (record {
          socket = ue.tx_socket;
          ipaddr = ue.ipaddr;
          port = base + i * port_delta;
          bytes = bytes;
        })

SendsFrom : ℕ → List ℕ → ℕ → List Ue → Type 0
SendsFrom base bytes k ues =
    (calls : List Sendto) × (send_to_ues base bytes k ues ≡ returns calls)
    × (length calls ≡ length ues)
    × ((i : ℕ) (ue : Ue)
        → get_elem? ues i ≡ some ue
        → get_elem? calls i
          ≡ some (record {
            socket = ue.tx_socket;
            ipaddr = ue.ipaddr;
            port = ue_port base (k + i);
            bytes = bytes;
          }))

send_to_ues_lem :
    (base : ℕ) (bytes : List ℕ) (k : ℕ) (ues : List Ue)
    → All IsOpen ues
    → SendsFrom base bytes k ues
unfolding send_to_ues SendsFrom
send_to_ues_lem base bytes k [] ok = ([], refl, refl, λ i ue e. cc)
send_to_ues_lem base bytes k (u ∷ ues) ok =
    let (calls, run, once, each) = send_to_ues_lem base bytes (suc k) ues ok.1 in
    let first : Sendto = record {
      socket = u.tx_socket;
      ipaddr = u.ipaddr;
      port = ue_port base k;
      bytes = bytes;
    } in
    (first ∷ calls, ground (arith, ok.0, run), ap suc once, places calls each)
  where
    call : Ue → ℕ → Sendto
    call ue p = record {
      socket = ue.tx_socket;
      ipaddr = ue.ipaddr;
      port = ue_port base p;
      bytes = bytes;
    }

    places :
        (calls : List Sendto)
        → ((i : ℕ) (ue : Ue)
            → get_elem? ues i ≡ some ue
            → get_elem? calls i ≡ some (call ue (suc k + i)))
        → (i : ℕ) (ue : Ue) → get_elem? (u ∷ ues) i ≡ some ue
        → get_elem? (call u k ∷ calls) i ≡ some (call ue (k + i))
    places calls each zero ue e =
        let same : u ≡ ue = cc in
        let here : k ≡ k + 0 = omega arith in
        ap (λ v. some (call v k)) same ∙ ap (λ p. some (call ue p)) here
    places calls each (suc i) ue e =
        let later : suc k + i ≡ k + suc i = omega arith in
        each i ue e ∙ ap (λ p. some (call ue p)) later

-- With at most 64 UEs no port wraps round.
send_to_ues-SendsAll :
    (base : ℕ) (bytes : List ℕ) (ues : List Ue)
    → All IsOpen ues
    → length ues ≤ 64
    → base ≤ 4000
    → SendsAll base ues bytes (send_to_ues base bytes 0 ues)
unfolding SendsFrom
send_to_ues-SendsAll base bytes ues ok few low =
    let (calls, run, once, each) = send_to_ues_lem base bytes 0 ues ok in
    record {
      calls = calls;
      done = run;
      once = once;
      each = λ i ue e.
          let inside = get_elem?-lt ues i ue e in
          let port_eq : ue_port base (0 + i) ≡ base + i * port_delta =
            omega (arith, few, low, inside) in
          each i ue e
          ∙ ap
              (λ p.
                some
                  (record { socket = ue.tx_socket; ipaddr = ue.ipaddr; port = p; bytes = bytes }))
              port_eq;
    }

module _ {M : Type 0} (pack : M → Option (List ℕ)) (unpack_id : List ℕ → Option ℕ) (ues : List Ue)
    (opened : All IsOpen ues) (few : length ues ≤ 64) (msg : M) (bytes : List ℕ)
    (packed : pack msg ≡ some bytes) (id : ℕ) (unpacked : unpack_id bytes ≡ some id) where
  downlink_task-forwards :
      (base : ℕ) (forwards : ℕ → Bool)
      → forwards id ≡ true
      → downlink_task pack unpack_id ues base forwards msg ≡ send_to_ues base bytes 0 ues
  unfolding downlink_task
  downlink_task-forwards base forwards e = ground (arith, packed, unpacked, e)

  downlink_task-skips :
      (base : ℕ) (forwards : ℕ → Bool)
      → forwards id ≡ false
      → downlink_task pack unpack_id ues base forwards msg ≡ returns []
  unfolding downlink_task
  downlink_task-skips base forwards e = ground (arith, packed, unpacked, e)

  -- With at most 64 UEs, whose sockets are open, a downlink message that can be packed and unpacked
  -- is sent, packed, once to every UE, at port 3212 + 2 i (LTE) or 3612 + 2 i (NR) of UE i, if it
  -- is one of the four requests of its side, and to nobody otherwise.
  pub downlink_task-SendsAll :
      (forwards_lte id ≡ true
        → SendsAll 3212 ues bytes (oai_enb_downlink_nfapi_task pack unpack_id ues msg))
      × (forwards_lte id ≡ false → oai_enb_downlink_nfapi_task pack unpack_id ues msg ≡ returns [])
      × (forwards_nr id ≡ true
          → SendsAll 3612 ues bytes (oai_gnb_downlink_nfapi_task pack unpack_id ues msg))
      × (forwards_nr id ≡ false → oai_gnb_downlink_nfapi_task pack unpack_id ues msg ≡ returns [])
  unfolding oai_enb_downlink_nfapi_task oai_gnb_downlink_nfapi_task
  downlink_task-SendsAll = (
    λ yes_lte.
        subst (SendsAll 3212 ues bytes)
          (sym (downlink_task-forwards lte_tx_base forwards_lte yes_lte))
          (send_to_ues-SendsAll 3212 bytes ues opened few (omega arith)),
    λ no_lte. downlink_task-skips lte_tx_base forwards_lte no_lte,
    λ yes_nr.
        subst (SendsAll 3612 ues bytes) (sym (downlink_task-forwards nr_tx_base forwards_nr yes_nr))
          (send_to_ues-SendsAll 3612 bytes ues opened few (omega arith)),
    λ no_nr. downlink_task-skips nr_tx_base forwards_nr no_nr,
  )

-- With at most 64 UEs, whose sockets are open, every UE is sent the subframe word once, at port
-- 3212 + 2 i, and the slot word once, at port 3612 + 2 i.
pub pack_and_send_downlink-SendsAll :
    (host_bytes : ℕ → List ℕ) (ues : List Ue) (time : ℕ)
    → All IsOpen ues
    → length ues ≤ 64
    → SendsAll 3212 ues (host_bytes time) (pack_and_send_downlink_sfn_sf_msg host_bytes ues time)
      × SendsAll 3612 ues
          (host_bytes time)
          (pack_and_send_downlink_sfn_slot_msg host_bytes ues time)
unfolding pack_and_send_downlink_sfn_sf_msg pack_and_send_downlink_sfn_slot_msg
pack_and_send_downlink-SendsAll host_bytes ues time ok few = (
  send_to_ues-SendsAll 3212 (host_bytes time) ues ok few (omega arith),
  send_to_ues-SendsAll 3612 (host_bytes time) ues ok few (omega arith),
)
