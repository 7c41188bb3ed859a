-- ===== src/Tests/Command.antt =====
-- main.c on arguments, with a program and without one.
use hierarchical_monitors.Prelude.{
  ◌≡◌, refl, ℕ, Bool, true, false, none, some, List, [], ◌∷◌, length, codes, arith,
}
use hierarchical_monitors.Prelude.Int.{ℤ, pos}
use hierarchical_monitors.CommandLine.{parsed, read_options, all_options, Settings}
use hierarchical_monitors.CommandLine.Arguments.{
  Choice, choose_input, choose_frequency, choose_restrict, choose_display, options_of, choose_all,
  defaults, all_arguments, read_arguments,
}
use hierarchical_monitors.CommandLine.Run.{Call, World, run}
use hierarchical_monitors.CommandLine.Run.Protocol.{fresh, finished, follow, run_follows}

abbrev atoi : List ℕ → ℤ
atoi text = pos (length text)

-- hmon -i m.txt --frequency 500 -d
abbrev chosen : List (Bool × Choice)
chosen =
    (true, choose_input (codes "m.txt"))
    ∷ (false, choose_frequency (codes "500"))
    ∷ (true, choose_display)
    ∷ []

abbrev program : List (List ℕ)
program = codes "ls" ∷ codes "-i" ∷ []

read_arguments_example :
    (read_options atoi all_options (all_arguments chosen (codes "--" ∷ program))
      ≡ parsed (options_of (choose_all atoi defaults chosen)) program)
    × (read_options atoi all_options (all_arguments chosen [])
        ≡ parsed (options_of (choose_all atoi defaults chosen)) [])
read_arguments_example = read_arguments atoi chosen program

abbrev world : World
world = record {
  atoi = atoi;
  loaded = record { perf_plugins = []; stat_plugins = [] };
  dlsym = λ handle name. none;
  events_list = λ function. [];
  location_parse = λ text. some 4;
  n_monitors = 2;
  child = 12;
  sigaction_works = true;
  rounds = 3;
  display_fails = λ i. false;
  interrupted = 1;
}

abbrev restricted : Settings
restricted = choose_all atoi defaults ((true, choose_restrict (codes "NUMANode:0")) ∷ chosen)

run_follows_example :
    (calls : List Call) × (run world restricted program ≡ some calls)
    × (follow calls fresh ≡ some finished)
run_follows_example =
    run_follows world restricted program refl refl refl refl (λ h e. ground (arith, e)) refl
