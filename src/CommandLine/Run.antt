-- ===== src/CommandLine/Run.antt =====
-- main.c: what `hmon` does with its options, as the calls it makes in order.
pub mod Protocol
use hierarchical_monitors.Prelude.{
  ℕ, zero, suc, ◌+◌, Bool, true, false, not, ◌&&◌, Option, none, some, List, [], ◌∷◌, ◌++◌, ◌==◌,
  if◌then◌else◌, codes, map,
}
use hierarchical_monitors.Prelude.Int.{ℤ, pos, negsuc}
use hierarchical_monitors.Plugin.{Plugins, perf_type, hmon_plugin_lookup, hmon_plugin_load_fun}
use hierarchical_monitors.CommandLine.{
  all_options, Value, int_value, str_value, Parsed, parsed, bad_option, read_options, Setting,
  Settings, settings_of,
}

-- The calls of `main` on the library, on the display, on the program it runs, and what it prints.
pub data Call : Type 0 where
  usage stat_plugins_list perf_plugins_list no_such_plugin : Call
  print_event : List ℕ → Call
  lib_init start update lib_finalize : Call
  restrict_to : ℕ → Call
  import_from : Option (List ℕ) → Call
  execute : List (List ℕ) → Call
  bind_child wait_child : Call
  display_init display_finalize : Call
  display_refresh : Bool → Call
  sleep : ℤ → Call
  sampling_start : ℤ → Call
  sampling_stop display_start display_stop : Call

-- What the calls give: the plugins loaded, the functions of each, the events that a function lists, the
-- object that a text names, how many monitors there are after an import, the process of a program that is
-- run, whether the handlers of signals can be set, how many rounds there are until a signal, whether the
-- display fails in a round, and how often waiting is interrupted.
pub record World : Type 0 where
  pub atoi : List ℕ → ℤ
  pub loaded : Plugins
  pub dlsym : ℕ → List ℕ → Option ℕ
  pub events_list : ℕ → List (List ℕ)
  pub location_parse : List ℕ → Option ℕ
  pub n_monitors : ℕ
  pub child : ℕ
  pub sigaction_works : Bool
  pub rounds : ℕ
  pub display_fails : ℕ → Bool
  pub interrupted : ℕ

abbrev pub text_of : Value → Option (List ℕ)
text_of (int_value n) = none
text_of (str_value text) = text

abbrev pub number_of : Value → ℤ
number_of (int_value n) = n
number_of (str_value text) = pos 0

abbrev pub only_if : Bool → List Call → List Call
only_if b calls = if b then calls else []

module _ (world : World) where
  -- The events of a plugin. The function is looked up in the plugin also where there is none: `none`.
  unfoldable pub list_events : List ℕ → Option (List Call)
  list_events name = elim (hmon_plugin_lookup name perf_type world.loaded) [
    | none ↦ none
    | some plugin ↦ elim (hmon_plugin_load_fun world.dlsym plugin (codes "hmonitor_events_list")) [
      | none ↦ some (no_such_plugin ∷ [])
      | some function ↦ some (map print_event (world.events_list function))
    ]
  ]

  unfoldable pub list_perf : Setting → Option (List Call)
  list_perf perf = elim (text_of perf.value) [ none ↦ some [] | some name ↦ list_events name ]

  -- The option `--restrict`; `none` is a text that is not there.
  unfoldable pub restrict_calls : Setting → Option (List Call)
  restrict_calls restrict =
      if restrict.is_set
      then elim (text_of restrict.value) [
        | none ↦ none
        | some text ↦ elim (world.location_parse text) [
          | none ↦ some []
          | some obj ↦ some (restrict_to obj ∷ [])
        ]
      ]
      else some []

  abbrev pub delay : Settings → ℤ
  delay s = if s.frequency.is_set then number_of s.frequency.value else world.atoi (codes "100000")

  -- The loop until a signal comes, `n` rounds from round `i` on.
  unfoldable pub monitor_rounds : Settings → ℕ → ℕ → List Call
  monitor_rounds s zero i = []
  monitor_rounds s (suc n) i =
      let rest = sleep (delay s) ∷ monitor_rounds s n (i + 1) in
      let shown = if world.display_fails i then [] else rest in
      update ∷ (if s.display.is_set then display_refresh false ∷ shown else rest)

  unfoldable pub wait_again : ℕ → List Call
  wait_again zero = wait_child ∷ []
  wait_again (suc n) = wait_child ∷ wait_again n

  -- Waiting for the process, with one update before and one after or with sampling.
  unfoldable pub monitor_process : Settings → List Call
  monitor_process s =
      if s.frequency.is_set
      then sampling_start (delay s)
        ∷ (only_if s.display.is_set (display_start ∷ [])
            ++ (wait_again world.interrupted
                ++ sampling_stop ∷ only_if s.display.is_set (display_stop ∷ [])))
      else update ∷ wait_child ∷ update ∷ only_if s.display.is_set (display_refresh true ∷ [])

  unfoldable pub cleanup : Settings → List Call
  cleanup s = only_if s.display.is_set (display_finalize ∷ []) ++ lib_finalize ∷ []

  -- By the process: 0 is none, and a negative one neither waited for nor the user's.
  unfoldable pub monitor_pid : Settings → ℤ → List Call
  monitor_pid s (pos zero) =
      if world.sigaction_works then monitor_rounds s world.rounds 0 ++ cleanup s else []
  monitor_pid s (pos (suc n)) = monitor_process s ++ cleanup s
  monitor_pid s (negsuc n) = cleanup s

  unfoldable pub start_program : Settings → List (List ℕ) → List Call
  start_program s [] = monitor_pid s (if s.pid.is_set then number_of s.pid.value else pos 0)
  start_program s (name ∷ args) =
      execute (name ∷ args)
      ∷ (only_if s.restrict.is_set (bind_child ∷ []) ++ monitor_pid s (pos world.child))

  unfoldable pub after_import : Settings → List (List ℕ) → List Call
  after_import s program =
      if not s.input.is_set
      then []
      else if world.n_monitors == 0
      then lib_finalize ∷ []
      else only_if s.display.is_set (display_init ∷ []) ++ start ∷ start_program s program

  unfoldable pub monitor_calls : Settings → List (List ℕ) → Option (List Call)
  monitor_calls s program = elim (restrict_calls s.restrict) [
    | none ↦ none
    | some restricts ↦
        some
          (lib_init ∷ (restricts ++ import_from (text_of s.input.value) ∷ after_import s program))
  ]

  -- From the tests of the options that only print on.
  unfoldable pub run : Settings → List (List ℕ) → Option (List Call)
  run s program =
      if s.help.is_set
      then some (usage ∷ [])
      else if s.plugins.is_set
      then some (stat_plugins_list ∷ perf_plugins_list ∷ [])
      else if s.perf.is_set
      then list_perf s.perf
      else monitor_calls s program

  -- The calls, or `none` where a pointer is used that is NULL.
  unfoldable pub hmon_main : List (List ℕ) → Option (List Call)
  hmon_main args = elim (read_options world.atoi all_options args) [
    | bad_option arg ↦ some (usage ∷ [])
    | parsed opts program ↦ elim (settings_of opts) [ none ↦ none | some s ↦ run s program ]
  ]
