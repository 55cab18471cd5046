-- ===== src/Start/Accepted.antt =====
-- The settings that the loop of `main` over the arguments accepts, in src/proxy.cc.
use oai_lte_5g_multi_ue_prox.Base.{
  ltb, none, some, Option, subst, some, if◌then◌else◌, All-append, ℕ, ◌^◌, ◌≤◌, ◌<◌, ◌≡◌, refl,
  Bool, true, false, some, List, [], ◌∷◌, ◌++◌, arith, if◌then◌else◌, Bool-cases, inl, inr, All,
  All-append,
}
use oai_lte_5g_multi_ue_prox.Start.Arguments.{option_of}
use oai_lte_5g_multi_ue_prox.Start.{
  expected_integer, takes_value, Failure, takes_value, invalid_number, default_settings,
  shows_usage, throws, dies, Parsed, stoi, from_stoi, parse_seconds, ◌>>=◌, SoftmodemMode,
  softmodem_lte, softmodem_nr, softmodem_nsa, same_text, is_numeric, stoi, Settings, Parsed,
  accepts, shows_usage, throws, dies, ◌>>=◌, from_stoi, parse_argument, takes_value, parse_seconds,
  parse_arguments,
}

-- What holds of the settings that the loop accepts.
pub record IsProper (is_ipaddress : List ℕ → Bool) (s : Settings) : Type 0 where
  pub some_ue : 1 ≤ s.ues
  pub ues_fit : s.ues < 2 ^ 31
  pub seconds_fit : s.max_seconds < 2 ^ 31
  pub addresses : All (λ a. is_ipaddress a ≡ true) s.ipaddrs

stoi-lt : (s : List ℕ) (n : ℕ) → stoi s ≡ some n → n < 2 ^ 31
unfolding stoi
stoi-lt [] n h = cc
stoi-lt (c ∷ s) n h = ground arith

module _ (is_ipaddress : List ℕ → Bool) where
  -- An outcome whose settings, if there are any, are proper.
  data Accepts : Parsed Settings → Type 0 where
    accepted : {s : Settings} → IsProper is_ipaddress s → Accepts (accepts s)
    usage_shown : Accepts shows_usage
    thrown : Accepts throws
    died : {e : Failure} → Accepts (dies e)

  accepted-IsProper : (s : Settings) → Accepts (accepts s) → IsProper is_ipaddress s
  accepted-IsProper s (accepted p) = p

  if-Accepts :
      {x y : Parsed Settings} (b : Bool)
      → (b ≡ true → Accepts x)
      → Accepts y
      → Accepts (if b then x else y)
  if-Accepts true hx hy = hx refl
  if-Accepts false hx hy = hy

  >>=-Accepts :
      {f : Settings → Parsed Settings} (m : Parsed Settings)
      → Accepts m
      → ((s : Settings) → IsProper is_ipaddress s → Accepts (f s))
      → Accepts (m >>= f)
  >>=-Accepts (accepts s) hm hf = hf s (accepted-IsProper s hm)
  >>=-Accepts shows_usage hm hf = usage_shown
  >>=-Accepts throws hm hf = thrown
  >>=-Accepts (dies e) hm hf = died

  from_stoi-Accepts :
      {f : ℕ → Parsed Settings} (s : List ℕ)
      → ((n : ℕ) → n < 2 ^ 31 → Accepts (f n))
      → Accepts (from_stoi s f)
  from_stoi-Accepts {f} s h = by_value (stoi s) refl
    where
      by_value : (o : Option ℕ) → stoi s ≡ o → Accepts (elim o [ none ↦ throws | some n ↦ f n ])
      by_value none e = thrown
      by_value (some n) e = h n (stoi-lt s n e)

  -- A number of UEs below 1 is refused.
  number-Accepts :
      (s : Settings) (n : ℕ)
      → IsProper is_ipaddress s
      → n < 2 ^ 31
      → Accepts (if ltb n 1 then dies invalid_number else accepts (record s { ues = n }))
  number-Accepts s n proper few = elim (Bool-cases (ltb n 1)) [
    | inl none_asked ↦ rw none_asked died
    | inr some_asked ↦ rw some_asked (
        accepted {s = record s { ues = n }} (record {
          some_ue = ground (arith, some_asked);
          ues_fit = few;
          seconds_fit = proper.seconds_fit;
          addresses = proper.addresses;
        }))
  ]

  mode-Accepts :
      (s : Settings) (m : SoftmodemMode)
      → IsProper is_ipaddress s
      → Accepts (accepts (record s { softmodem_mode = m }))
  mode-Accepts s m proper = accepted (ground (arith, proper))

  address-Accepts :
      (s : Settings) (a : List ℕ)
      → IsProper is_ipaddress s
      → is_ipaddress a ≡ true
      → Accepts (accepts (record s { ipaddrs = s.ipaddrs ++ (a ∷ []) }))
  address-Accepts s a proper ip = accepted (record {
    some_ue = proper.some_ue;
    ues_fit = proper.ues_fit;
    seconds_fit = proper.seconds_fit;
    addresses = All-append _ s.ipaddrs (a ∷ []) proper.addresses (ip, tt);
  })

  seconds-Accepts :
      (s : Settings) (value : List ℕ)
      → IsProper is_ipaddress s
      → Accepts (parse_seconds is_ipaddress s value)
  seconds-Accepts s value proper =
      if-Accepts (is_numeric value)
        (λ t. from_stoi-Accepts value (λ n few.
          accepted {s = record s { max_seconds = n }} (record {
            some_ue = proper.some_ue;
            ues_fit = proper.ues_fit;
            seconds_fit = few;
            addresses = proper.addresses;
          })))
        died

  parse_argument-Accepts :
      (s : Settings) (arg : List ℕ)
      → IsProper is_ipaddress s
      → Accepts (parse_argument is_ipaddress s arg)
  unfolding parse_argument
  parse_argument-Accepts s arg proper =
      let address = if-Accepts _ (address-Accepts s arg proper) died in
      let mode =
        λ (m : SoftmodemMode) (t : same_text arg (option_of m) ≡ true). mode-Accepts s m proper in
      let number = from_stoi-Accepts arg (λ n. number-Accepts s n proper) in
      if-Accepts _ (λ t. usage_shown)
        (if-Accepts _ (λ t. number)
          (if-Accepts _ (mode softmodem_lte)
            (if-Accepts _ (mode softmodem_nr) (if-Accepts _ (mode softmodem_nsa) address))))

  parse_arguments-Accepts :
      (s : Settings) (args : List (List ℕ))
      → IsProper is_ipaddress s
      → Accepts (parse_arguments is_ipaddress s args)
  unfolding parse_arguments
  parse_arguments-Accepts s [] proper = accepted proper
  parse_arguments-Accepts s (arg ∷ []) proper =
      if-Accepts (takes_value is_ipaddress arg) (λ t. died {e = expected_integer})
        (parse_argument-Accepts s arg proper)
  parse_arguments-Accepts s (arg ∷ value ∷ args) proper =
      if-Accepts _
        (λ t.
          >>=-Accepts (parse_seconds is_ipaddress s value) (seconds-Accepts s value proper)
            (λ s'. parse_arguments-Accepts s' args))
        (>>=-Accepts (parse_argument is_ipaddress s arg) (parse_argument-Accepts s arg proper)
          (λ s'. parse_arguments-Accepts s' (value ∷ args)))

  -- Whatever the arguments are, settings that are accepted have at least one UE, numbers that an
  -- int holds, and only addresses that the library accepts.
  pub parse_arguments-IsProper :
      (args : List (List ℕ)) (s : Settings)
      → parse_arguments is_ipaddress default_settings args ≡ accepts s
      → IsProper is_ipaddress s
  parse_arguments-IsProper args s e = accepted-IsProper s (
      subst Accepts e (
        parse_arguments-Accepts default_settings args (record {
          some_ue = omega arith;
          ues_fit = omega arith;
          seconds_fit = omega arith;
          addresses = tt;
        })))
