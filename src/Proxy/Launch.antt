-- ===== src/Proxy/Launch.antt =====
-- From the command line to the sockets: src/proxy.cc with src/lte_proxy.cc and src/nr_proxy.cc.
use oai_lte_5g_multi_ue_prox.Base.{
  ℕ, ◌≤◌, ◌≡◌, ◌≢◌, inl, inr, Bool, none, List, [], ◌∷◌, arith, if◌then◌else◌, length, All, leb,
  true, Option-cases, Bool-cases, ◌<◌, ◌⊎◌, false, dec_lt,
}
use oai_lte_5g_multi_ue_prox.Start.{
  Settings, default_settings, Parsed, accepts, shows_usage, throws, dies, Started, parse_arguments,
  main,
}
use oai_lte_5g_multi_ue_prox.Start.Choice.{HasAddresses, IsStartedWith, IsServed, main-IsServed}
use oai_lte_5g_multi_ue_prox.Uplink.{max_ue_queues, oai_subframe_init, oai_slot_init}
use oai_lte_5g_multi_ue_prox.Proxy.Setup.{
  Socket, SystemCalls, lte_ports, nr_ports, configure, construct,
}
use oai_lte_5g_multi_ue_prox.Proxy.Started.{configure-none}

-- The constructor finishes without leaving a table or vector, whatever the system calls find.
abbrev pub IsConstructed : Started → Type 0
IsConstructed p =
    (systems : List SystemCalls) (rx tx : ℕ → Socket)
    → length systems ≡ p.num_of_ues
    → construct p systems rx tx ≢ none

construct-IsConstructed :
    (ues : ℕ) (p : Started) → ues ≤ max_ue_queues → HasAddresses ues p → IsConstructed p
unfolding construct oai_subframe_init oai_slot_init
construct-IsConstructed ues p few (same, enough) systems rx tx count undefined =
    let ports = if p.is_nr then nr_ports else lte_ports in
    let queues : leb p.num_of_ues max_ue_queues ≡ true = ground (arith, same, few) in
    elim (Option-cases (configure ports p.vnf_ip p.proxy_ip p.ue_ip systems rx tx)) [
      | inl fails ↦
          elim ((configure-none ports p.vnf_ip p.proxy_ip p.ue_ip rx tx systems).0 fails) [
            | inl short ↦ absurd (omega (arith, same, enough, count, short))
            | inr many ↦ absurd (omega (arith, same, few, count, many))
          ]
      | inr (q, made) ↦ elim (Bool-cases p.is_nr) [
        | inl t ↦ ground (arith, t, queues, made, undefined)
        | inr t ↦ ground (arith, t, queues, made, undefined)
      ]
    ]

-- The constructor leaves a table, whatever the system calls find.
abbrev pub IsOverrun : Started → Type 0
IsOverrun p = (systems : List SystemCalls) (rx tx : ℕ → Socket) → construct p systems rx tx ≡ none

construct-IsOverrun :
    (ues : ℕ) (p : Started) → max_ue_queues < ues → HasAddresses ues p → IsOverrun p
unfolding construct oai_subframe_init oai_slot_init
construct-IsOverrun ues p many (same, enough) systems rx tx =
    let ports = if p.is_nr then nr_ports else lte_ports in
    let queues : leb p.num_of_ues max_ue_queues ≡ false = ground (arith, same, many) in
    elim (Option-cases (configure ports p.vnf_ip p.proxy_ip p.ue_ip systems rx tx)) [
      | inl fails ↦ ground (arith, fails)
      | inr (q, made) ↦ elim (Bool-cases p.is_nr) [
        | inl t ↦ ground (arith, t, queues, made)
        | inr t ↦ ground (arith, t, queues, made)
      ]
    ]

All-map :
    (P Q : Started → Type 0) (ps : List Started) → ((p : Started) → P p → Q p) → All P ps → All Q ps
All-map P Q [] get h = tt
All-map P Q (p ∷ ps) get h = (get p h.0, All-map P Q ps get h.1)

-- `main` starts proxies, of which all satisfy `P`.
abbrev pub IsLaunched : (Started → Type 0) → Parsed (ℕ × List Started) → Type 0
IsLaunched P (accepts (seconds, ps)) = All P ps
IsLaunched P _ = ⊥

IsStartedWith-IsLaunched :
    (P : Started → Type 0) (s : Settings) (m : Parsed (ℕ × List Started))
    → ((p : Started) → HasAddresses s.ues p → P p)
    → IsStartedWith s m
    → IsLaunched P m
IsStartedWith-IsLaunched P s (accepts (seconds, ps)) get h =
    All-map (HasAddresses s.ues) P ps get h.1
IsStartedWith-IsLaunched P s shows_usage get h = elim h [ ]
IsStartedWith-IsLaunched P s throws get h = elim h [ ]
IsStartedWith-IsLaunched P s (dies e) get h = elim h [ ]

-- With accepted settings and a number of addresses that serves them, `main` starts its proxies. With
-- at most 64 UEs the constructor of each stays inside the tables of its sockets and of the UEs'
-- queues and inside its vector of addresses, whatever the system calls find; with more than 64 it
-- leaves one of them.
pub main-IsLaunched :
    (is_ipaddress : List ℕ → Bool) (argv : List (List ℕ)) (s : Settings)
    → parse_arguments is_ipaddress default_settings argv ≡ accepts s
    → IsServed s.softmodem_mode s.ues (length s.ipaddrs)
    → ((s.ues ≤ max_ue_queues) × IsLaunched IsConstructed (main is_ipaddress argv))
      ⊎ ((max_ue_queues < s.ues) × IsLaunched IsOverrun (main is_ipaddress argv))
main-IsLaunched is_ipaddress argv s e served =
    let started = (main-IsServed is_ipaddress argv s e).0.1 served in
    elim (dec_lt max_ue_queues s.ues) [
      | yes many ↦ inr (
        many,
        IsStartedWith-IsLaunched IsOverrun s (main is_ipaddress argv)
            (λ p. construct-IsOverrun s.ues p many) started,
      )
      | no few ↦ inl (
        omega (arith, few),
        IsStartedWith-IsLaunched IsConstructed s (main is_ipaddress argv)
            (λ p. construct-IsConstructed s.ues p (omega (arith, few))) started,
      )
    ]
