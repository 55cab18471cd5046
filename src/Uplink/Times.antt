-- ===== src/Uplink/Times.antt =====
-- The time that `get_sfnsf` and `get_sfnslot` of src/nfapi_pnf.c read in a message.
use oai_lte_5g_multi_ue_prox.Base.{ℕ, ◌≤◌, ◌≡◌, Option, none, Outcome, returns, aborts, arith}
use oai_lte_5g_multi_ue_prox.Message.{MessageBuffer, Pull, data_max, get_sfnsf, get_sfnslot}

abbrev pub answer : Outcome (Option ℕ) → Option ℕ
answer (returns t) = t
answer aborts = none

abbrev pub lte_time : Pull → MessageBuffer → Option ℕ
lte_time pull16 msg = answer (get_sfnsf pull16 msg)

abbrev pub nr_time : Pull → MessageBuffer → Option ℕ
nr_time pull16 msg = answer (get_sfnslot pull16 msg)

pub get_sfnsf-lte_time :
    (pull16 : Pull) (msg : MessageBuffer)
    → msg.length_field ≤ data_max
    → get_sfnsf pull16 msg ≡ returns (lte_time pull16 msg)
unfolding get_sfnsf
get_sfnsf-lte_time pull16 msg h = ground arith

pub get_sfnslot-nr_time :
    (pull16 : Pull) (msg : MessageBuffer)
    → msg.length_field ≤ data_max
    → get_sfnslot pull16 msg ≡ returns (nr_time pull16 msg)
unfolding get_sfnslot
get_sfnslot-nr_time pull16 msg h = ground arith
