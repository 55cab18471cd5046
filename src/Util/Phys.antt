-- ===== src/Util/Phys.antt =====
-- The lookups of a PHY and the opening and closing of its sockets, in src/nfapiutils.c.
-- `config->phys` is the list of its PHYs; a socket of -1 is `none`. The calls of the system are
-- events.
use oai_lte_5g_multi_ue_prox.Base.{
  ℕ, suc, ◌≡◌, ◌≢◌, ◌⊎◌, refl, inl, inr, Bool, true, false, Option, none, some, List, [], ◌∷◌,
  arith, if◌then◌else◌, ◌==◌, Bool-cases,
}

-- pnf_config_phy_t, without the addresses.
pub record ConfigPhy : Type 0 where
  pub started : Bool
  pub phy_id : ℕ
  pub p7_rx_port : ℕ
  pub p7_rx_sock : Option ℕ
  pub p7_tx_sock : Option ℕ

-- What the calls that open a receiving socket find; whether `bind` fails makes no difference here.
pub record RxCalls : Type 0 where
  pub opened : Option ℕ
  pub reusable : Bool

pub data Event : Type 0 where
  binds : ℕ → ℕ → Event
  closes : ℕ → Event

unfoldable pub find_pnf_phy_config : List ConfigPhy → ℕ → Option ConfigPhy
find_pnf_phy_config [] phy_id = none
find_pnf_phy_config (phy ∷ phys) phy_id =
    if phy.phy_id == phy_id then some phy else find_pnf_phy_config phys phy_id

abbrev pub holds : Option ℕ → ℕ → Bool
holds none sd = false
holds (some fd) sd = fd == sd

unfoldable pub get_pnf_phy_from_p7_rx_socket : List ConfigPhy → ℕ → Option ConfigPhy
get_pnf_phy_from_p7_rx_socket [] sd = none
get_pnf_phy_from_p7_rx_socket (phy ∷ phys) sd =
    if holds phy.p7_rx_sock sd then some phy else get_pnf_phy_from_p7_rx_socket phys sd

-- The PHY that was found, after `create_p7_rx_socket`, which tries only once.
unfoldable pub open_rx : RxCalls → ℕ → ConfigPhy → ConfigPhy × List Event
open_rx sys port phy =
    let tried = record phy { p7_rx_port = port; started = true; p7_rx_sock = sys.opened } in
    if phy.started then (phy, []) else (elim sys.opened [
      | none ↦ (tried, [])
      | some fd ↦ if sys.reusable then (tried, binds fd port ∷ []) else (tried, [])
    ])

-- `create_p7_rx_socket` on the first PHY with the id.
unfoldable pub create_p7_rx_socket : RxCalls → List ConfigPhy → ℕ → ℕ → List ConfigPhy × List Event
create_p7_rx_socket sys [] phy_id port = ([], [])
create_p7_rx_socket sys (phy ∷ phys) phy_id port =
    let (opened, events) = open_rx sys port phy in
    let (rest, later) = create_p7_rx_socket sys phys phy_id port in
    if phy.phy_id == phy_id then (opened ∷ phys, events) else (phy ∷ rest, later)

-- `create_p7_tx_socket`, which opens a new socket each time and forgets the old one.
unfoldable pub create_p7_tx_socket : Option ℕ → List ConfigPhy → ℕ → List ConfigPhy
create_p7_tx_socket opened [] phy_id = []
create_p7_tx_socket opened (phy ∷ phys) phy_id =
    let rest = create_p7_tx_socket opened phys phy_id in
    let replaced : ConfigPhy = elim opened [
      | none ↦ phy
      | some fd ↦ record phy { p7_tx_sock = some fd }
    ] in
    if phy.phy_id == phy_id then replaced ∷ phys else phy ∷ rest

-- The first PHY whose receiving socket, or else whose sending socket, this is.
unfoldable pub close_pnf_p7_socket : List ConfigPhy → ℕ → List ConfigPhy × List Event
close_pnf_p7_socket [] sd = ([], [])
close_pnf_p7_socket (phy ∷ phys) sd =
    let (rest, events) = close_pnf_p7_socket phys sd in
    if holds phy.p7_rx_sock sd
    then (record phy { p7_rx_sock = none } ∷ phys, closes sd ∷ [])
    else if holds phy.p7_tx_sock sd
    then (record phy { p7_tx_sock = none } ∷ phys, closes sd ∷ [])
    else (phy ∷ rest, events)

-- `config->p5_sock` after `close_pnf_p5_socket`.
unfoldable pub close_pnf_p5_socket : Option ℕ → ℕ → Option ℕ × List Event
close_pnf_p5_socket p5_sock sd = if holds p5_sock sd then (none, closes sd ∷ []) else (p5_sock, [])

-- The number of places that hold a socket.
abbrev pub count_held : List ConfigPhy → ℕ → ℕ
count_held [] sd = 0
count_held (phy ∷ phys) sd =
    let rest = count_held phys sd in
    let with_tx = if holds phy.p7_tx_sock sd then suc rest else rest in
    if holds phy.p7_rx_sock sd then suc with_tx else with_tx

-- Closing a socket takes it from one place, and closes it once, if any place holds it; otherwise
-- nothing happens. Other sockets stay where they are.
pub close_pnf_p7_socket-releases :
    (phys : List ConfigPhy) (sd : ℕ)
    → ((count_held phys sd ≡ 0) × (close_pnf_p7_socket phys sd ≡ (phys, [])))
      ⊎ ((count_held phys sd ≡ suc (count_held (close_pnf_p7_socket phys sd).0 sd))
          × ((close_pnf_p7_socket phys sd).1 ≡ closes sd ∷ [])
          × ((other : ℕ)
              → other ≢ sd
              → count_held (close_pnf_p7_socket phys sd).0 other ≡ count_held phys other))
unfolding close_pnf_p7_socket
close_pnf_p7_socket-releases [] sd = inl (refl, refl)
close_pnf_p7_socket-releases (phy ∷ phys) sd = elim (Bool-cases (holds phy.p7_rx_sock sd)) [
  | inl rx ↦ inr (ground (arith, rx), ground (arith, rx), λ other apart. ground (arith, rx))
  | inr no_rx ↦ elim (Bool-cases (holds phy.p7_tx_sock sd)) [
    | inl tx ↦ inr (
      ground (arith, no_rx, tx),
      ground (arith, no_rx, tx),
      λ other apart. ground (arith, no_rx, tx),
    )
    | inr no_tx ↦ elim (close_pnf_p7_socket-releases phys sd) [
      | inl (e, same) ↦ inl (ground (arith, no_rx, no_tx, e), ground (arith, no_rx, no_tx, same))
      | inr (fewer, once, rest) ↦ inr (
        ground (arith, no_rx, no_tx, fewer),
        ground (arith, no_rx, no_tx, once),
        λ other apart. ground (arith, no_rx, no_tx, rest other apart),
      )
    ]
  ]
]

open_rx-started :
    (sys : RxCalls) (port : ℕ) (phy : ConfigPhy) → (open_rx sys port phy).0.started ≡ true
unfolding open_rx
open_rx-started sys port phy = ground arith

open_rx-phy_id :
    (sys : RxCalls) (port : ℕ) (phy : ConfigPhy) → (open_rx sys port phy).0.phy_id ≡ phy.phy_id
unfolding open_rx
open_rx-phy_id sys port phy = ground arith

open_rx-again :
    (sys : RxCalls) (port : ℕ) (phy : ConfigPhy)
    → phy.started ≡ true
    → open_rx sys port phy ≡ (phy, [])
unfolding open_rx
open_rx-again sys port phy h = ground (arith, h)

-- Opening the receiving socket of a PHY a second time, at any port and whatever the calls find,
-- changes nothing and calls nothing, also if the first time failed. Other PHYs are found as before.
pub create_p7_rx_socket-once :
    (sys sys' : RxCalls) (phys : List ConfigPhy) (phy_id port port' : ℕ)
    → let created = (create_p7_rx_socket sys phys phy_id port).0 in
      (create_p7_rx_socket sys' created phy_id port' ≡ (created, []))
      × ((other : ℕ)
          → other ≢ phy_id
          → find_pnf_phy_config created other ≡ find_pnf_phy_config phys other)
unfolding create_p7_rx_socket find_pnf_phy_config
create_p7_rx_socket-once sys sys' [] phy_id port port' = (refl, λ other apart. refl)
create_p7_rx_socket-once sys sys' (phy ∷ phys) phy_id port port' =
    let (again, others) = create_p7_rx_socket-once sys sys' phys phy_id port port' in
    let same_id = open_rx-phy_id sys port phy in
    elim (Bool-cases (phy.phy_id == phy_id)) [
      | inl found ↦
          let still : ((open_rx sys port phy).0.phy_id == phy_id) ≡ true =
            ground (arith, same_id, found) in
          let idle =
            open_rx-again sys' port' (open_rx sys port phy).0 (open_rx-started sys port phy) in
          (ground (arith, found, still, idle), λ other apart. ground (arith, found, same_id, apart))
      | inr skipped ↦ (
        ground (arith, skipped, again),
        λ other apart. ground (arith, skipped, others other apart),
      )
    ]
