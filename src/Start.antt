-- ===== src/Start.antt =====
-- src/proxy.cc: the command line, the addresses it stands for, and the proxies that `main` starts.
-- An argument is the list of its bytes. `inet_pton` is a parameter.
pub mod Numerals
pub mod Arguments
pub mod Accepted
pub mod Choice
mod Examples
use Prim.Native.Char.{code}
use Prim.Native.String.{String}
use oai_lte_5g_multi_ue_prox.Base.{
  ℕ, zero, suc, ◌+◌, ◌-◌, ◌*◌, ◌^◌, Bool, true, false, ◌&&◌, Option, none, some, List, [], ◌∷◌,
  ◌++◌, if◌then◌else◌, ◌==◌, ltb, leb, length, drop,
}

-- softmodem_mode_t
pub data SoftmodemMode : Type 0 where
  softmodem_lte softmodem_nr softmodem_nsa : SoftmodemMode

abbrev pub codes : String → List ℕ
codes String.[] = []
codes (String.◌∷◌ c s) = code c ∷ codes s

-- `arg == "..."`
abbrev pub same_text : List ℕ → List ℕ → Bool
same_text [] [] = true
same_text [] (d ∷ t) = false
same_text (c ∷ s) [] = false
same_text (c ∷ s) (d ∷ t) = c == d && same_text s t

abbrev pub is_digit : ℕ → Bool
is_digit c = leb 48 c && leb c 57

unfoldable pub is_numeric : List ℕ → Bool
is_numeric [] = true
is_numeric (c ∷ s) = is_digit c && is_numeric s

-- The value of decimal digits after those that make up `acc`.
unfoldable pub decimal_from : ℕ → List ℕ → ℕ
decimal_from acc [] = acc
decimal_from acc (c ∷ s) = decimal_from (acc * 10 + (c - 48)) s

-- `std::stoi` on digits: it throws on the empty text and on what an int cannot hold.
unfoldable pub stoi : List ℕ → Option ℕ
unfolding decimal_from
stoi [] = none
stoi (c ∷ s) = let n = decimal_from 0 (c ∷ s) in if ltb n (2 ^ 31) then some n else none

-- The variables of `main`.
pub record Settings : Type 0 where
  pub ues : ℕ
  pub max_seconds : ℕ
  pub softmodem_mode : SoftmodemMode
  pub ipaddrs : List (List ℕ)

abbrev pub default_settings : Settings
default_settings = record {
  ues = 1;
  max_seconds = 600;
  softmodem_mode = softmodem_lte;
  ipaddrs = [];
}

pub data Failure : Type 0 where
  invalid_number expected_integer unexpected_argument wrong_number_of_addresses : Failure

-- How a part of `main` ends: with a value, with the usage text and EXIT_SUCCESS, in `die` with
-- EXIT_FAILURE, or with an exception that nothing catches.
pub data Parsed {ℓ} (A : Type ℓ) : Type ℓ where
  accepts : A → Parsed A
  shows_usage throws : Parsed A
  dies : Failure → Parsed A

infixl 5 ◌>>=◌
abbrev pub ◌>>=◌ {ℓ κ} : {A : Type ℓ} {B : Type κ} → Parsed A → (A → Parsed B) → Parsed B
accepts a >>= f = f a
shows_usage >>= f = shows_usage
throws >>= f = throws
dies e >>= f = dies e

abbrev pub from_stoi : List ℕ → (ℕ → Parsed Settings) → Parsed Settings
from_stoi s f = elim (stoi s) [ none ↦ throws | some n ↦ f n ]

module _ (is_ipaddress : List ℕ → Bool) where
  -- What one argument other than `--max-seconds` does.
  unfoldable pub parse_argument : Settings → List ℕ → Parsed Settings
  parse_argument s arg =
      let number =
        from_stoi arg
          (λ n. if ltb n 1 then dies invalid_number else accepts (record s { ues = n })) in
      if same_text arg (codes "--help")
      then shows_usage
      else if is_numeric arg
      then number
      else if same_text arg (codes "--lte")
      then accepts (record s { softmodem_mode = softmodem_lte })
      else if same_text arg (codes "--nr")
      then accepts (record s { softmodem_mode = softmodem_nr })
      else if same_text arg (codes "--nsa")
      then accepts (record s { softmodem_mode = softmodem_nsa })
      else if is_ipaddress arg
      then accepts (record s { ipaddrs = s.ipaddrs ++ (arg ∷ []) })
      else dies unexpected_argument

  -- The test for `--max-seconds` comes before that for an address.
  abbrev pub takes_value : List ℕ → Bool
  takes_value arg = same_text arg (codes "--max-seconds")

  abbrev pub parse_seconds : Settings → List ℕ → Parsed Settings
  parse_seconds s value =
      if is_numeric value
      then from_stoi value (λ n. accepts (record s { max_seconds = n }))
      else dies expected_integer

  unfoldable pub parse_arguments : Settings → List (List ℕ) → Parsed Settings
  parse_arguments s [] = accepts s
  parse_arguments s (arg ∷ []) =
      if takes_value arg then dies expected_integer else parse_argument s arg
  parse_arguments s (arg ∷ value ∷ args) =
      let seconds = parse_seconds s value >>= λ s'. parse_arguments s' args in
      let other = parse_argument s arg >>= λ s'. parse_arguments s' (value ∷ args) in
      if takes_value arg then seconds else other

-- The addresses that `main` settles on.
pub record Addresses : Type 0 where
  pub enb_ipaddr : List ℕ
  pub gnb_ipaddr : List ℕ
  pub proxy_ipaddr : List ℕ
  pub ue_ipaddr : List (List ℕ)

-- `ue_ipaddr.resize(ues, "127.0.0.1")`
abbrev pub resize : ℕ → List ℕ → List (List ℕ)
resize zero value = []
resize (suc n) value = value ∷ resize n value

abbrev pub default_addresses : List (List ℕ) → Addresses
default_addresses ues = record {
  enb_ipaddr = codes "127.0.0.1";
  gnb_ipaddr = codes "127.0.0.2";
  proxy_ipaddr = codes "127.0.0.1";
  ue_ipaddr = ues;
}

-- The `switch` on the number of addresses. The mode cannot be both NR and LTE, so from five
-- addresses on, these modes leave the defaults and the empty list of UEs.
unfoldable pub choose_addresses : SoftmodemMode → ℕ → List (List ℕ) → Parsed Addresses
choose_addresses mode ues [] = accepts (default_addresses (resize ues (codes "127.0.0.1")))
choose_addresses mode ues (a ∷ []) = dies wrong_number_of_addresses
choose_addresses mode ues (a ∷ b ∷ []) = dies wrong_number_of_addresses
choose_addresses softmodem_nsa ues (a ∷ b ∷ c ∷ []) = dies wrong_number_of_addresses
choose_addresses mode ues (a ∷ b ∷ c ∷ []) =
    accepts (record { enb_ipaddr = a; gnb_ipaddr = a; proxy_ipaddr = b; ue_ipaddr = c ∷ [] })
choose_addresses softmodem_nsa ues (a ∷ b ∷ c ∷ d ∷ more) =
    accepts (record { enb_ipaddr = a; gnb_ipaddr = b; proxy_ipaddr = c; ue_ipaddr = d ∷ more })
choose_addresses mode ues (a ∷ b ∷ c ∷ d ∷ []) =
    if ues == 2
    then accepts
        (record { enb_ipaddr = a; gnb_ipaddr = a; proxy_ipaddr = b; ue_ipaddr = c ∷ d ∷ [] })
    else dies wrong_number_of_addresses
choose_addresses mode ues (a ∷ b ∷ c ∷ d ∷ e ∷ more) = accepts (default_addresses [])

-- The constructor's arguments of a proxy, and the mode it is started with.
pub record Started : Type 0 where
  pub is_nr : Bool
  pub num_of_ues : ℕ
  pub vnf_ip : List ℕ
  pub proxy_ip : List ℕ
  pub ue_ip : List (List ℕ)
  pub mode : SoftmodemMode

-- The `switch` on the mode at the end of `main`: the proxies, in the order they are made.
unfoldable pub start_proxies : Settings → Addresses → List Started
start_proxies s a =
    let lte : Started = record {
      is_nr = false;
      num_of_ues = s.ues;
      vnf_ip = a.enb_ipaddr;
      proxy_ip = a.proxy_ipaddr;
      ue_ip = a.ue_ipaddr;
      mode = s.softmodem_mode;
    } in
    let nr : Started = record lte { is_nr = true; vnf_ip = a.gnb_ipaddr } in
    elim s.softmodem_mode [
      | softmodem_lte ↦ lte ∷ []
      | softmodem_nr ↦ nr ∷ []
      | softmodem_nsa ↦ lte ∷ nr ∷ []
    ]

-- `main`: the proxies it starts and the seconds after which the alarm ends the program.
unfoldable pub main : (List ℕ → Bool) → List (List ℕ) → Parsed (ℕ × List Started)
main is_ipaddress argv = parse_arguments is_ipaddress default_settings argv >>= λ s.
    choose_addresses s.softmodem_mode s.ues s.ipaddrs >>= λ a.
    accepts (s.max_seconds, start_proxies s a)
