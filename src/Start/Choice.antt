-- ===== src/Start/Choice.antt =====
-- The choice of the addresses and the start of the proxies in src/proxy.cc.
use oai_lte_5g_multi_ue_prox.Base.{
  All, ◌≢◌, Bool, All, ℕ, zero, suc, ◌+◌, ◌≤◌, ◌≡◌, ◌≢◌, ◌⊎◌, ◌↔◌, refl, ap, Bool, List, [], ◌∷◌,
  arith, length,
}
use oai_lte_5g_multi_ue_prox.Start.Accepted.{parse_arguments-IsProper}
use oai_lte_5g_multi_ue_prox.Start.{
  ◌>>=◌, Failure, dies, wrong_number_of_addresses, shows_usage, throws, softmodem_lte, softmodem_nr,
  main, parse_arguments, default_settings, Started, start_proxies, main, parse_arguments,
  default_settings, SoftmodemMode, softmodem_lte, softmodem_nr, softmodem_nsa, codes, Parsed,
  accepts, dies, resize, Addresses, choose_addresses, Started, Settings, start_proxies,
}

pub length-resize : (n : ℕ) (value : List ℕ) → length (resize n value) ≡ n
length-resize zero value = refl
length-resize (suc n) value = ap suc (length-resize n value)

-- The addresses are accepted, and every UE has one: the loop of `configure` reads `ue_ipaddr[0]` to
-- `ue_ipaddr[ues - 1]`.
abbrev pub Serves : ℕ → Parsed Addresses → Type 0
Serves ues (accepts a) = ues ≤ length a.ue_ipaddr
Serves ues _ = ⊥

-- The numbers of addresses with which that is so.
abbrev pub IsServed : SoftmodemMode → ℕ → ℕ → Type 0
IsServed softmodem_nsa ues n = (n ≡ 0) ⊎ ((4 ≤ n) × (ues + 3 ≤ n))
IsServed _ ues n = (n ≡ 0) ⊎ ((n ≡ 3) × (ues ≡ 1)) ⊎ ((n ≡ 4) × (ues ≡ 2))

choose_addresses-Serves :
    (mode : SoftmodemMode) (ues : ℕ) (ips : List (List ℕ))
    → 1 ≤ ues
    → Serves ues (choose_addresses mode ues ips) ↔ IsServed mode ues (length ips)
unfolding choose_addresses
choose_addresses-Serves mode ues [] h = ground (arith, length-resize ues (codes "127.0.0.1"))
choose_addresses-Serves mode ues (a ∷ []) h = ground arith
choose_addresses-Serves mode ues (a ∷ b ∷ []) h = ground arith
choose_addresses-Serves mode ues (a ∷ b ∷ c ∷ []) h = ground arith
choose_addresses-Serves mode ues (a ∷ b ∷ c ∷ d ∷ []) h = ground arith
choose_addresses-Serves mode ues (a ∷ b ∷ c ∷ d ∷ e ∷ more) h = ground arith

-- The numbers of addresses that are refused.
abbrev pub IsRefused : SoftmodemMode → ℕ → ℕ → Type 0
IsRefused softmodem_nsa ues n = (1 ≤ n) × (n ≤ 3)
IsRefused _ ues n = (n ≡ 1) ⊎ (n ≡ 2) ⊎ ((n ≡ 4) × (ues ≢ 2))

choose_addresses-refuses :
    (mode : SoftmodemMode) (ues : ℕ) (ips : List (List ℕ))
    → (choose_addresses mode ues ips ≡ dies wrong_number_of_addresses)
      ↔ IsRefused mode ues (length ips)
unfolding choose_addresses
choose_addresses-refuses mode ues [] = ground arith
choose_addresses-refuses mode ues (a ∷ []) = ground arith
choose_addresses-refuses mode ues (a ∷ b ∷ []) = ground arith
choose_addresses-refuses mode ues (a ∷ b ∷ c ∷ []) = ground arith
choose_addresses-refuses mode ues (a ∷ b ∷ c ∷ d ∷ []) = ground arith
choose_addresses-refuses mode ues (a ∷ b ∷ c ∷ d ∷ e ∷ more) = ground arith

-- A started proxy has the number of UEs asked for, and an address for each.
abbrev pub HasAddresses : ℕ → Started → Type 0
HasAddresses ues p = (p.num_of_ues ≡ ues) × (ues ≤ length p.ue_ip)

start_proxies-HasAddresses :
    (s : Settings) (a : Addresses)
    → All (HasAddresses s.ues) (start_proxies s a) ↔ (s.ues ≤ length a.ue_ipaddr)
unfolding start_proxies
start_proxies-HasAddresses s a = by_mode s.softmodem_mode refl
  where
    by_mode :
        (m : SoftmodemMode)
        → s.softmodem_mode ≡ m
        → All (HasAddresses s.ues) (start_proxies s a) ↔ (s.ues ≤ length a.ue_ipaddr)
    by_mode softmodem_lte e = rw e (ground arith)
    by_mode softmodem_nr e = rw e (ground arith)
    by_mode softmodem_nsa e = rw e (ground arith)

-- `main` starts its proxies with the settings.
abbrev pub IsStartedWith : Settings → Parsed (ℕ × List Started) → Type 0
IsStartedWith s (accepts (seconds, proxies)) =
    (seconds ≡ s.max_seconds) × All (HasAddresses s.ues) proxies
IsStartedWith s _ = ⊥

module _ (s : Settings) where
  abbrev finish : Parsed Addresses → Parsed (ℕ × List Started)
  finish m = m >>= λ a. accepts (s.max_seconds, start_proxies s a)

  finish-Serves : (m : Parsed Addresses) → IsStartedWith s (finish m) ↔ Serves s.ues m
  finish-Serves (accepts a) =
      let (there, back) = start_proxies-HasAddresses s a in
      ((λ v. there v.1), (λ v. (refl, back v)))
  finish-Serves shows_usage = ((λ v. v), (λ v. v))
  finish-Serves throws = ((λ v. v), (λ v. v))
  finish-Serves (dies e) = ((λ v. v), (λ v. v))

  finish-refuses : (m : Parsed Addresses) (e : Failure) → (finish m ≡ dies e) ↔ (m ≡ dies e)
  finish-refuses (accepts a) e = ((λ v. cc), (λ v. cc))
  finish-refuses shows_usage e = ((λ v. cc), (λ v. cc))
  finish-refuses throws e = ((λ v. cc), (λ v. cc))
  finish-refuses (dies d) e = ((λ v. cc), (λ v. cc))

module _ (is_ipaddress : List ℕ → Bool) where
  -- With accepted settings, `main` starts proxies that have an address for each of the UEs asked
  -- for exactly if there is no address; or in NSA mode from four addresses on, as many as the UEs
  -- and three more; or in the other modes three addresses and one UE, or four and two UEs. It
  -- refuses exactly one to three addresses in NSA mode, and in the others one, two, or four without
  -- two UEs.
  pub main-IsServed :
      (argv : List (List ℕ)) (s : Settings)
      → parse_arguments is_ipaddress default_settings argv ≡ accepts s
      → (IsStartedWith s (main is_ipaddress argv)
          ↔ IsServed s.softmodem_mode s.ues (length s.ipaddrs))
        × ((main is_ipaddress argv ≡ dies wrong_number_of_addresses)
            ↔ IsRefused s.softmodem_mode s.ues (length s.ipaddrs))
  unfolding main
  main-IsServed argv s e =
      let chosen = choose_addresses s.softmodem_mode s.ues s.ipaddrs in
      let served =
        choose_addresses-Serves s.softmodem_mode s.ues s.ipaddrs
          (parse_arguments-IsProper is_ipaddress argv s e).some_ue in
      let refused = choose_addresses-refuses s.softmodem_mode s.ues s.ipaddrs in
      let (to_serve, from_serve) = finish-Serves s chosen in
      let (to_refuse, from_refuse) = finish-refuses s chosen wrong_number_of_addresses in
      rw e (
        ((λ v. served.0 (to_serve v)), (λ v. from_serve (served.1 v))),
        ((λ v. refused.0 (to_refuse v)), (λ v. from_refuse (refused.1 v))),
      )
