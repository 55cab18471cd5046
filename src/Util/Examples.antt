-- ===== src/Util/Examples.antt =====
-- Tests of the utilities.
use oai_lte_5g_multi_ue_prox.Base.{
  ℕ, ◌≡◌, refl, true, false, Option, none, some, List, [], ◌∷◌, ◌++◌, returns, arith, take,
}
use oai_lte_5g_multi_ue_prox.Start.{codes}
use oai_lte_5g_multi_ue_prox.Start.Numerals.{digits, decimal}
use oai_lte_5g_multi_ue_prox.Util.Names.{nfap_message_id_to_string}
use oai_lte_5g_multi_ue_prox.Util.Hexdump.{
  hexdump, dump_bytes, heading, hexdump_p5, hexdump_p7, whole_dump, hexdumps-cut,
}
use oai_lte_5g_multi_ue_prox.Util.P5.{P5Config, create_p5_listen_socket}
use oai_lte_5g_multi_ue_prox.Util.Phys.{
  ConfigPhy, RxCalls, binds, closes, create_p7_rx_socket, open_rx, close_pnf_p7_socket,
  close_pnf_p5_socket,
}

abbrev two_bytes : List ℕ
two_bytes = 0x0A ∷ 0xF1 ∷ []

dump_two : hexdump two_bytes 100 ≡ codes "[2] 0A F1"
unfolding hexdump dump_bytes decimal digits
dump_two = refl

-- The buffer is full in the middle of a byte; there is no ellipsis.
dump_cut : hexdump two_bytes 9 ≡ codes "[2] 0A F"
unfolding hexdump dump_bytes decimal digits
dump_cut = refl

abbrev id_of : List ℕ → Option ℕ
id_of [] = none
id_of (b ∷ bytes) = some 0x0104

dump_p5 : hexdump_p5 id_of two_bytes 100 ≡ codes "P5 PNF_START_REQUEST [2] 0A F1"
unfolding hexdump_p5 hexdump dump_bytes decimal digits nfap_message_id_to_string
dump_p5 = refl

hexdumps-cut_example :
    (hexdump two_bytes 9 ≡ take 8 (whole_dump two_bytes))
    × (hexdump_p5 id_of two_bytes 9
        ≡ take 8 (heading (codes "P5") (some 0x0104) ++ whole_dump two_bytes))
    × (hexdump_p7 id_of two_bytes 9
        ≡ take 8 (heading (codes "P7") (some 0x0104) ++ whole_dump two_bytes))
hexdumps-cut_example = hexdumps-cut id_of two_bytes 9 (omega arith)

abbrev phy_1 : ConfigPhy
phy_1 = record {
  started = false;
  phy_id = 1;
  p7_rx_port = 0;
  p7_rx_sock = none;
  p7_tx_sock = some 7;
}

abbrev phys : List ConfigPhy
phys = record phy_1 { phy_id = 2; p7_rx_sock = some 5; started = true } ∷ phy_1 ∷ []

-- A socket in two places is closed, and stays in the other one.
close_shared : close_pnf_p7_socket phys 7 ≡ (
  record phy_1 { phy_id = 2; p7_rx_sock = some 5; p7_tx_sock = none; started = true } ∷ phy_1 ∷ [],
  closes 7 ∷ [],
)
unfolding close_pnf_p7_socket
close_shared = refl

abbrev fails : RxCalls
fails = record { opened = none; reusable = false }

abbrev works : RxCalls
works = record { opened = some 9; reusable = true }

abbrev opened : List ConfigPhy
opened = (create_p7_rx_socket fails phys 1 50010).0

create_works : (create_p7_rx_socket works phys 1 50010).1 ≡ binds 9 50010 ∷ []
unfolding create_p7_rx_socket open_rx
create_works = refl

abbrev p5_config : P5Config
p5_config = record {
  vnf_p5_addr = [];
  vnf_p5_port = 50001;
  p5_tx_sockaddr = (0, 0);
  p5_sock = none;
}

-- A listening socket that cannot be bound is closed.
listen_fails :
    create_p5_listen_socket (λ addr. 7) (some 4) false p5_config
    ≡ returns
        (none, record p5_config { p5_tx_sockaddr = (7, 50001) }, binds 4 50001 ∷ closes 4 ∷ [])
unfolding create_p5_listen_socket
listen_fails = refl

-- A P5 socket is closed once: the second call finds another one.
closed_once :
    (close_pnf_p5_socket (some 4) 4 ≡ (none, closes 4 ∷ []))
    × (close_pnf_p5_socket none 4 ≡ (none, []))
unfolding close_pnf_p5_socket
closed_once = (refl, refl)
