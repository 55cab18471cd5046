-- ===== src/Start/Examples.antt =====
-- Tests of the command line.
use oai_lte_5g_multi_ue_prox.Base.{ℕ, ◌≡◌, ◌↔◌, refl, false, List, [], ◌∷◌, arith}
use oai_lte_5g_multi_ue_prox.Start.{
  softmodem_lte, softmodem_nr, codes, is_numeric, decimal_from, stoi, Settings, default_settings,
  accepts, dies, wrong_number_of_addresses, throws, parse_argument, parse_arguments, main,
  choose_addresses, start_proxies,
}
use oai_lte_5g_multi_ue_prox.Start.Numerals.{digits, decimal}
use oai_lte_5g_multi_ue_prox.Start.Arguments.{
  Request, number_of_ues, max_seconds_of, mode_of, address, render, ask, has_dot,
  parse_arguments-render,
}
use oai_lte_5g_multi_ue_prox.Start.Accepted.{IsProper, parse_arguments-IsProper}
use oai_lte_5g_multi_ue_prox.Start.Choice.{IsStartedWith, IsServed, IsRefused, main-IsServed}

-- A reader of addresses that accepts every text with a dot.
abbrev ip_a : List ℕ
ip_a = codes "10.0.0.1"

abbrev requests : List Request
requests = address ip_a ∷ number_of_ues 12 ∷ mode_of softmodem_nr ∷ max_seconds_of 5 ∷ []

abbrev command_line : List (List ℕ)
command_line = ip_a ∷ codes "12" ∷ codes "--nr" ∷ codes "--max-seconds" ∷ codes "5" ∷ []

render-requests : render requests ≡ command_line
unfolding decimal digits
render-requests = refl

parse_arguments-render_example :
    parse_arguments has_dot default_settings (render requests)
    ≡ accepts (ask default_settings requests)
parse_arguments-render_example =
    parse_arguments-render has_dot (λ a h. h) default_settings requests
      (refl, ((omega arith, omega arith), (tt, (omega arith, tt))))

abbrev asked : Settings
asked = ask default_settings requests

parse_command_line : parse_arguments has_dot default_settings command_line ≡ accepts asked
unfolding parse_arguments parse_argument is_numeric stoi decimal_from
parse_command_line = refl

parse_arguments-IsProper_example : IsProper has_dot asked
parse_arguments-IsProper_example =
    parse_arguments-IsProper has_dot command_line asked parse_command_line

main-IsServed_example :
    (IsStartedWith asked (main has_dot command_line) ↔ IsServed softmodem_nr 12 1)
    × ((main has_dot command_line ≡ dies wrong_number_of_addresses) ↔ IsRefused softmodem_nr 12 1)
main-IsServed_example = main-IsServed has_dot command_line asked parse_command_line

-- Five addresses in LTE mode are accepted, and no UE gets one.
abbrev five : List (List ℕ)
five = ip_a ∷ ip_a ∷ ip_a ∷ ip_a ∷ ip_a ∷ []

five_without_ues :
    main has_dot five
    ≡ accepts (
      600,
      record {
        is_nr = false;
        num_of_ues = 1;
        vnf_ip = codes "127.0.0.1";
        proxy_ip = codes "127.0.0.1";
        ue_ip = [];
        mode = softmodem_lte;
      }
          ∷ [],
    )
unfolding main parse_arguments parse_argument is_numeric choose_addresses start_proxies
five_without_ues = refl

-- An empty argument counts as a number, and `std::stoi` throws.
empty_argument : main has_dot ([] ∷ []) ≡ throws
unfolding main parse_arguments parse_argument is_numeric stoi
empty_argument = refl
