-- ===== src/Tests/Timers.antt =====
-- sampling.c with a timer every 1.5 seconds, on a system where every call works.
use hierarchical_monitors.Prelude.{◌≡◌, refl, true, false, none, some, [], ◌∷◌, arith}
use hierarchical_monitors.Prelude.Int.{pos}
use hierarchical_monitors.Sampling.{
  System, Timers, handler, hmon_update, hmon_sampling_start, is_minus_one,
}
use hierarchical_monitors.Sampling.Period.{Exact, sampling_start_lem}

abbrev system : System
system = record {
  sigmask_works = true;
  sigaction_works = true;
  timer_create = some 6;
  timer_settime = λ delay. true;
  timer_delete = λ timer. true;
}

abbrev timers : Timers
timers = record {
  handler_isset = false;
  update_timer = 0;
  display_timer = 0;
  display_function = none;
  display_arg = pos 0;
  period = λ timer. (pos 0, pos 0);
}

sampling_start_lem_example :
    let r = hmon_sampling_start system (pos 3) (pos 1500000) timers in
    (r.0 ≡ pos 0)
    × (r.1.handler_isset ≡ true)
    × Exact 1500000 (r.1.period 6)
    × (handler r.1 true 6 ≡ hmon_update 1 ∷ [])
unfolding is_minus_one
sampling_start_lem_example =
    sampling_start_lem system (pos 3) 1500000 6 timers refl refl refl refl refl (omega arith)
