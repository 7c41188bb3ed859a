-- ===== src/CommandLine/Run/Protocol.antt =====
-- main.c: the order of the calls on the library.
use hierarchical_monitors.Prelude.{
  ℕ, zero, suc, ◌+◌, ◌≡◌, ◌≢◌, refl, ap, ◌∙◌, Bool, true, false, Option, none, some, List, [], ◌∷◌,
  ◌++◌, Bool-cases, Option-cases, inl, inr, arith,
}
use hierarchical_monitors.Prelude.Int.{ℤ, pos, negsuc}
use hierarchical_monitors.CommandLine.{Settings}
use hierarchical_monitors.CommandLine.Run.{
  Call, usage, stat_plugins_list, perf_plugins_list, no_such_plugin, print_event, lib_init, start,
  update, lib_finalize, restrict_to, import_from, execute, bind_child, wait_child, display_init,
  display_finalize, display_refresh, sleep, sampling_start, sampling_stop, display_start,
  display_stop, World, text_of, restrict_calls, monitor_rounds, wait_again, monitor_process,
  cleanup, monitor_pid, start_program, after_import, monitor_calls, run, run,
}

-- Where the library is: not initialised, initialised, its monitors started, with the timers of sampling
-- and of the display set or not, and finalised.
pub data Stage : Type 0 where
  fresh initialised finished : Stage
  started : Bool → Bool → Stage

-- The stage after a call, none where the call is out of order.
abbrev pub after_call : Call → Stage → Option Stage
after_call lib_init fresh = some initialised
after_call (restrict_to obj) initialised = some initialised
after_call (import_from path) initialised = some initialised
after_call start initialised = some (started false false)
after_call lib_finalize initialised = some finished
after_call lib_finalize (started false false) = some finished
after_call update (started sampling displaying) = some (started sampling displaying)
after_call (display_refresh verbose) (started sampling displaying) =
    some (started sampling displaying)
after_call (sampling_start us) (started false displaying) = some (started true displaying)
after_call sampling_stop (started true displaying) = some (started false displaying)
after_call display_start (started sampling false) = some (started sampling true)
after_call display_stop (started sampling true) = some (started sampling false)
after_call usage stage = some stage
after_call stat_plugins_list stage = some stage
after_call perf_plugins_list stage = some stage
after_call no_such_plugin stage = some stage
after_call (print_event name) stage = some stage
after_call (execute program) (started sampling displaying) = some (started sampling displaying)
after_call bind_child (started sampling displaying) = some (started sampling displaying)
after_call wait_child (started sampling displaying) = some (started sampling displaying)
after_call display_init initialised = some initialised
after_call display_finalize (started sampling displaying) = some (started sampling displaying)
after_call (sleep us) (started sampling displaying) = some (started sampling displaying)
after_call _ _ = none

abbrev pub follow : List Call → Stage → Option Stage
follow [] stage = some stage
follow (call ∷ calls) stage = elim (after_call call stage) [
  | none ↦ none
  | some next ↦ follow calls next
]

follow-append :
    (xs ys : List Call) (stage next : Stage)
    → follow xs stage ≡ some next
    → follow (xs ++ ys) stage ≡ follow ys next
follow-append [] ys stage next h = let same : stage ≡ next = cc h in ap (follow ys) same
follow-append (x ∷ xs) ys stage next h = elim (Option-cases (after_call x stage)) [
  | inl e ↦ ground (arith, e, h)
  | inr (after, e) ↦
      let rest : follow xs after ≡ some next = ground (arith, e, h) in
      let more : follow (xs ++ ys) after ≡ follow ys next = follow-append xs ys after next rest in
      ground (arith, e, more)
]

module _ (world : World) where
  follow-monitor_rounds :
      (s : Settings) (n i : ℕ)
      → follow (monitor_rounds world s n i) (started false false) ≡ some (started false false)
  unfolding monitor_rounds
  follow-monitor_rounds s zero i = refl
  follow-monitor_rounds s (suc n) i = ground (arith, follow-monitor_rounds s n (i + 1))

  follow-wait_again :
      (n : ℕ) (sampling displaying : Bool)
      → follow (wait_again world n) (started sampling displaying)
        ≡ some (started sampling displaying)
  unfolding wait_again
  follow-wait_again zero sampling displaying = refl
  follow-wait_again (suc n) sampling displaying = follow-wait_again n sampling displaying

  follow-monitor_process :
      (s : Settings)
      → follow (monitor_process world s) (started false false) ≡ some (started false false)
  unfolding monitor_process
  follow-monitor_process s = elim (Bool-cases s.frequency.is_set) [
    | inr f ↦ ground (arith, f)
    | inl f ↦ elim (Bool-cases s.display.is_set) [
      | inl d ↦
          let waited =
            follow-append (wait_again world world.interrupted) (sampling_stop ∷ display_stop ∷ [])
              (started true true) (started true true)
              (follow-wait_again world.interrupted true true) in
          ground (arith, f, d, waited)
      | inr d ↦
          let waited =
            follow-append (wait_again world world.interrupted) (sampling_stop ∷ [])
              (started true false) (started true false)
              (follow-wait_again world.interrupted true false) in
          ground (arith, f, d, waited)
    ]
  ]

  follow-cleanup : (s : Settings) → follow (cleanup world s) (started false false) ≡ some finished
  unfolding cleanup
  follow-cleanup s = ground arith

  follow-monitor_pid :
      (s : Settings) (pid : ℤ)
      → world.sigaction_works ≡ true
      → follow (monitor_pid world s pid) (started false false) ≡ some finished
  unfolding monitor_pid
  follow-monitor_pid s (pos zero) h =
      let ended =
        follow-append (monitor_rounds world s world.rounds 0) (cleanup world s)
          (started false false) (started false false) (follow-monitor_rounds s world.rounds 0)
        ∙ follow-cleanup s in
      ground (arith, h, ended)
  follow-monitor_pid s (pos (suc n)) h =
      follow-append (monitor_process world s) (cleanup world s) (started false false)
        (started false false) (follow-monitor_process s)
      ∙ follow-cleanup s
  follow-monitor_pid s (negsuc n) h = follow-cleanup s

  follow-start_program :
      (s : Settings) (program : List (List ℕ))
      → world.sigaction_works ≡ true
      → follow (start_program world s program) (started false false) ≡ some finished
  unfolding start_program
  follow-start_program s [] h = follow-monitor_pid s _ h
  follow-start_program s (name ∷ args) h =
      let p = follow-monitor_pid s (pos world.child) h in ground (arith, p)

  follow-after_import :
      (s : Settings) (program : List (List ℕ))
      → world.sigaction_works ≡ true
      → s.input.is_set ≡ true
      → follow (after_import world s program) initialised ≡ some finished
  unfolding after_import
  follow-after_import s program h i =
      let p = follow-start_program s program h in ground (arith, i, p)

  -- With --input set, none of --help, --list-plugins and --perf-event, a text for --restrict if
  -- that is set, and handlers of signals that can be set, `main` comes to its end, with its calls
  -- in order, whatever the options, the program and what the calls return: the library is
  -- initialised before it is restricted and before monitors are imported, started once and only
  -- then updated, each timer that is started is stopped before the library is finalised, which
  -- happens once, and nothing is called after.
  pub run_follows :
      (s : Settings) (program : List (List ℕ))
      → s.help.is_set ≡ false
      → s.plugins.is_set ≡ false
      → s.perf.is_set ≡ false
      → s.input.is_set ≡ true
      → (s.restrict.is_set ≡ true → text_of s.restrict.value ≢ none)
      → world.sigaction_works ≡ true
      → (calls : List Call) × (run world s program ≡ some calls)
        × (follow calls fresh ≡ some finished)
  unfolding run monitor_calls restrict_calls
  run_follows s program h l e i r w =
      let p = follow-after_import s program w i in
      elim (Bool-cases s.restrict.is_set) [
        | inr no_restrict ↦ (
          lib_init ∷ import_from (text_of s.input.value) ∷ after_import world s program,
          ground (arith, h, l, e, no_restrict),
          p,
        )
        | inl restricted ↦ elim (Option-cases (text_of s.restrict.value)) [
          | inl none_there ↦ absurd (r restricted none_there)
          | inr (text, there) ↦ elim (Option-cases (world.location_parse text)) [
            | inl unknown ↦ (
              lib_init ∷ import_from (text_of s.input.value) ∷ after_import world s program,
              ground (arith, h, l, e, restricted, there, unknown),
              p,
            )
            | inr (obj, known) ↦ (
              lib_init
                  ∷ restrict_to obj
                  ∷ import_from (text_of s.input.value)
                  ∷ after_import world s program,
              ground (arith, h, l, e, restricted, there, known),
              p,
            )
          ]
        ]
      ]
