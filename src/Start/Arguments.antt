-- ===== src/Start/Arguments.antt =====
-- The loop of `main` over the arguments, in src/proxy.cc.
use oai_lte_5g_multi_ue_prox.Base.{
  ℕ, ◌^◌, ◌≤◌, ◌<◌, ◌≡◌, ◌∙◌, refl, ap, sym, Bool, true, false, ◌||◌, List, [], ◌∷◌, ◌++◌, arith,
  ◌==◌, Bool-cases, inl, inr, All,
}
use oai_lte_5g_multi_ue_prox.Start.{
  takes_value, SoftmodemMode, softmodem_lte, softmodem_nr, softmodem_nsa, codes, same_text,
  is_numeric, Settings, accepts, parse_argument, takes_value, parse_arguments,
}
use oai_lte_5g_multi_ue_prox.Start.Numerals.{
  decimal, is_numeric-decimal, decimal-cons, stoi-decimal,
}

-- What a user can ask for.
pub data Request : Type 0 where
  number_of_ues max_seconds_of : ℕ → Request
  mode_of : SoftmodemMode → Request
  address : List ℕ → Request

abbrev pub option_of : SoftmodemMode → List ℕ
option_of softmodem_lte = codes "--lte"
option_of softmodem_nr = codes "--nr"
option_of softmodem_nsa = codes "--nsa"

-- The requests as a command line.
abbrev pub render : List Request → List (List ℕ)
render [] = []
render (number_of_ues n ∷ rs) = decimal n ∷ render rs
render (max_seconds_of n ∷ rs) = codes "--max-seconds" ∷ decimal n ∷ render rs
render (mode_of m ∷ rs) = option_of m ∷ render rs
render (address a ∷ rs) = a ∷ render rs

-- The settings that the requests come to: the last of a kind counts, and addresses add up.
abbrev pub ask : Settings → List Request → Settings
ask s [] = s
ask s (number_of_ues n ∷ rs) = ask (record s { ues = n }) rs
ask s (max_seconds_of n ∷ rs) = ask (record s { max_seconds = n }) rs
ask s (mode_of m ∷ rs) = ask (record s { softmodem_mode = m }) rs
ask s (address a ∷ rs) = ask (record s { ipaddrs = s.ipaddrs ++ (a ∷ []) }) rs

abbrev pub has_dot : List ℕ → Bool
has_dot [] = false
has_dot (c ∷ s) = c == 46 || has_dot s

has_dot-is_numeric : (s : List ℕ) → has_dot s ≡ true → is_numeric s ≡ false
unfolding is_numeric
has_dot-is_numeric [] h = cc
has_dot-is_numeric (c ∷ s) h = ground (arith, has_dot-is_numeric s)

same_text-eq : (s t : List ℕ) → same_text s t ≡ true → s ≡ t
same_text-eq [] [] h = refl
same_text-eq [] (d ∷ t) h = cc
same_text-eq (c ∷ s) [] h = cc
same_text-eq (c ∷ s) (d ∷ t) h = ground (arith, same_text-eq s t)

-- A text with a dot is not one without.
has_dot-same_text : (s t : List ℕ) → has_dot s ≡ true → has_dot t ≡ false → same_text s t ≡ false
has_dot-same_text s t hs ht = elim (Bool-cases (same_text s t)) [
  | inl same ↦ cc (sym hs ∙ ap has_dot (same_text-eq s t same) ∙ ht)
  | inr other ↦ other
]

-- A text that begins with a digit is none that begins with a dash.
same_text-digit : (c : ℕ) (s t : List ℕ) → 48 ≤ c → same_text (c ∷ s) (45 ∷ t) ≡ false
same_text-digit c s t h = ground arith

module _ (is_ipaddress : List ℕ → Bool)
    (dotted : (a : List ℕ) → is_ipaddress a ≡ true → has_dot a ≡ true) where
  -- What the command line can say: a number of UEs from 1 on, numbers that an int holds, addresses.
  abbrev pub IsSayable : Request → Type 0
  IsSayable (number_of_ues n) = (1 ≤ n) × (n < 2 ^ 31)
  IsSayable (max_seconds_of n) = n < 2 ^ 31
  IsSayable (mode_of m) = Unit
  IsSayable (address a) = is_ipaddress a ≡ true

  -- The argument is not `--max-seconds`.
  parse_arguments-other :
      (s s' : Settings) (arg : List ℕ) (args : List (List ℕ))
      → takes_value is_ipaddress arg ≡ false
      → parse_argument is_ipaddress s arg ≡ accepts s'
      → parse_arguments is_ipaddress s (arg ∷ args) ≡ parse_arguments is_ipaddress s' args
  unfolding parse_arguments
  parse_arguments-other s s' arg [] t h = rw (t, h) refl
  parse_arguments-other s s' arg (value ∷ args) t h = rw (t, h) refl

  parse_arguments-number :
      (s : Settings) (n : ℕ) (args : List (List ℕ))
      → 1 ≤ n
      → n < 2 ^ 31
      → parse_arguments is_ipaddress s (decimal n ∷ args)
        ≡ parse_arguments is_ipaddress (record s { ues = n }) args
  unfolding parse_argument
  parse_arguments-number s n args some_ue few =
      let (c, t, e, low, high) = decimal-cons n in
      let number = is_numeric-decimal n in
      let value = stoi-decimal n few in
      parse_arguments-other s _ (decimal n) args (rw e (ground arith))
        (ground (arith, number, value, e))

  parse_arguments-seconds :
      (s : Settings) (n : ℕ) (args : List (List ℕ))
      → n < 2 ^ 31
      → parse_arguments is_ipaddress s (codes "--max-seconds" ∷ decimal n ∷ args)
        ≡ parse_arguments is_ipaddress (record s { max_seconds = n }) args
  unfolding parse_arguments
  parse_arguments-seconds s n args few = ground (arith, is_numeric-decimal n, stoi-decimal n few)

  parse_arguments-mode :
      (s : Settings) (m : SoftmodemMode) (args : List (List ℕ))
      → parse_arguments is_ipaddress s (option_of m ∷ args)
        ≡ parse_arguments is_ipaddress (record s { softmodem_mode = m }) args
  unfolding parse_argument is_numeric
  parse_arguments-mode s softmodem_lte args = parse_arguments-other s _ _ args refl refl
  parse_arguments-mode s softmodem_nr args = parse_arguments-other s _ _ args refl refl
  parse_arguments-mode s softmodem_nsa args = parse_arguments-other s _ _ args refl refl

  parse_arguments-address :
      (s : Settings) (a : List ℕ) (args : List (List ℕ))
      → is_ipaddress a ≡ true
      → parse_arguments is_ipaddress s (a ∷ args)
        ≡ parse_arguments is_ipaddress (record s { ipaddrs = s.ipaddrs ++ (a ∷ []) }) args
  unfolding parse_argument
  parse_arguments-address s a args h =
      let dot = dotted a h in
      let other = λ (t : List ℕ) (plain : has_dot t ≡ false). has_dot-same_text a t dot plain in
      parse_arguments-other s _ a args (other (codes "--max-seconds") refl) (
        rw
          (
            other (codes "--help") refl,
            has_dot-is_numeric a dot,
            other (codes "--lte") refl,
            other (codes "--nr") refl,
            other (codes "--nsa") refl,
            h,
          )
          refl)

  -- Requests written as a command line, and read back, are the settings that they come to: the last
  -- number of UEs, time and mode count, and the addresses add up in their order, wherever they
  -- stand. The library's reader of addresses accepts only texts with a dot.
  pub parse_arguments-render :
      (s : Settings) (rs : List Request)
      → All IsSayable rs
      → parse_arguments is_ipaddress s (render rs) ≡ accepts (ask s rs)
  unfolding parse_arguments
  parse_arguments-render s [] ok = refl
  parse_arguments-render s (number_of_ues n ∷ rs) ok =
      parse_arguments-number s n (render rs) ok.0.0 ok.0.1 ∙ parse_arguments-render _ rs ok.1
  parse_arguments-render s (max_seconds_of n ∷ rs) ok =
      parse_arguments-seconds s n (render rs) ok.0 ∙ parse_arguments-render _ rs ok.1
  parse_arguments-render s (mode_of m ∷ rs) ok =
      parse_arguments-mode s m (render rs) ∙ parse_arguments-render _ rs ok.1
  parse_arguments-render s (address a ∷ rs) ok =
      parse_arguments-address s a (render rs) ok.0 ∙ parse_arguments-render _ rs ok.1
