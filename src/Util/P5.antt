-- ===== src/Util/P5.antt =====
-- The sockets of P5, and what src/nfapiutils.c asks of a message's id. A socket of -1, and the
-- return value -1 of a call that opens or connects one, are `none`. `inet_addr` is a parameter.
use oai_lte_5g_multi_ue_prox.Base.{
  ℕ, Bool, Option, none, some, List, [], ◌∷◌, Outcome, returns, aborts, ℤ, pos, negsuc,
  if◌then◌else◌, ◌==◌, ◌||◌,
}
use oai_lte_5g_multi_ue_prox.Sfn.{word16}
use oai_lte_5g_multi_ue_prox.Message.Id
use oai_lte_5g_multi_ue_prox.Util.Phys.{Event, closes, binds}

-- The members of pnf_config_t for P5; `p5_tx_sockaddr` is an address with a port.
pub record P5Config : Type 0 where
  pub vnf_p5_addr : List ℕ
  pub vnf_p5_port : ℕ
  pub p5_tx_sockaddr : ℕ × ℕ
  pub p5_sock : Option ℕ

module _ (inet_addr : List ℕ → ℕ) where
  abbrev with_address : P5Config → P5Config
  with_address config = record config {
    p5_tx_sockaddr = (inet_addr config.vnf_p5_addr, word16 config.vnf_p5_port);
  }

  -- A socket of its own, which `p5_sock` does not hold.
  unfoldable pub create_p5_listen_socket :
      Option ℕ → Bool → P5Config → Outcome (Option ℕ × P5Config × List Event)
  create_p5_listen_socket none bound config = aborts
  create_p5_listen_socket (some sd) bound config =
      let config' = with_address config in
      let call = binds sd config'.p5_tx_sockaddr.1 in
      if bound
      then returns (some sd, config', call ∷ [])
      else returns (none, config', call ∷ closes sd ∷ [])

  unfoldable pub pnf_create_p5_sock : Option ℕ → P5Config → Outcome P5Config
  pnf_create_p5_sock none config = aborts
  pnf_create_p5_sock (some sd) config = returns (with_address (record config { p5_sock = some sd }))

-- Whether `connect` works out; it gives 0, not the socket.
unfoldable pub pnf_p5_connect : Bool → Option ℕ
pnf_p5_connect connected = if connected then some 0 else none

unfoldable pub check_msg_type : ℕ → ℕ
check_msg_type header =
    if header == 0x180
      || header == 0x182
      || header == Id.harq_indication
      || header == Id.crc_indication
      || header == Id.rx_ulsch_indication
      || header == Id.rach_indication
      || header == 0x89
      || header == Id.rx_sr_indication
      || header == Id.rx_cqi_indication
      || header == 0x8d
      || header == 0x8e
      || header == 0x8f
      || header == 0x91
    then 0
    else 1

-- The unpacked message is only traced; `unpacks` is whether it can be unpacked.
unfoldable pub get_p7_rnti : (List ℕ → Bool) → ℕ → List ℕ → ℤ
get_p7_rnti unpacks message_id buffer =
    if unpacks buffer
    then if message_id == Id.dl_config_request
      then negsuc 1
      else if message_id == Id.ul_config_request
      then pos 0
      else if message_id == Id.rach_indication
      then pos 0
      else negsuc 0
    else negsuc 0
