-- ===== src/Sampling/Period.antt =====
-- sampling.c: when the timers fire, and what the handler does then.
use mathlib.Core.Path.{subst}
use hierarchical_monitors.Prelude.{
  ℕ, ◌+◌, ◌*◌, ◌/◌, ◌%◌, ◌<◌, ◌≡◌, ◌≢◌, refl, sym, true, false, none, some, [], ◌∷◌, ◌==◌,
  if◌then◌else◌, arith,
}
use hierarchical_monitors.Prelude.Int.{ℤ, pos}
use hierarchical_monitors.Sampling.{
  System, Timers, div_by, mod_by, times_1000, delay_of, hmon_update, call_display, handler,
  set_handler, set_timer, ensure_handler, is_minus_one, hmon_sampling_start,
}

-- Seconds and nanoseconds of a number of microseconds.
pub record Exact (us : ℕ) (delay : ℤ × ℤ) : Type 0 where
  pub seconds : ℕ
  pub nanoseconds : ℕ
  pub same : delay ≡ (pos seconds, pos nanoseconds)
  pub exact : 1000000000 * seconds + nanoseconds ≡ 1000 * us
  pub in_range : nanoseconds < 1000000000

delay_of-Exact : (us : ℕ) → Exact us (delay_of (pos us))
unfolding delay_of div_by mod_by times_1000
delay_of-Exact us = record {
  seconds = us / 1000000;
  nanoseconds = 1000 * (us % 1000000);
  same = refl;
  exact = omega arith;
  in_range = omega arith;
}

-- The variables once sampling runs with a timer.
abbrev sampling : Timers → ℕ → ℤ → Timers
sampling t timer us = record t {
  handler_isset = true;
  update_timer = timer;
  period = λ k. if k == timer then delay_of us else t.period k;
}

start_step :
    (system : System) (left us : ℤ) (timer : ℕ) (t : Timers)
    → system.sigmask_works ≡ true
    → system.sigaction_works ≡ true
    → system.timer_create ≡ some timer
    → system.timer_settime (delay_of us) ≡ true
    → is_minus_one left ≡ false
    → hmon_sampling_start system left us t ≡ (pos 0, sampling t timer us)
unfolding hmon_sampling_start set_timer ensure_handler set_handler
start_step system left us timer t mask action created settable defined =
    ground (arith, mask, action, created, settable, defined)

-- What sampling with a timer means, of the result of starting it.
abbrev Samples : ℕ → ℕ → ℤ × Timers → Type 0
Samples us timer r =
    (r.0 ≡ pos 0)
    × (r.1.handler_isset ≡ true)
    × Exact us (r.1.period timer)
    × (handler r.1 true timer ≡ hmon_update 1 ∷ [])

sampling-Samples :
    (us timer : ℕ) (t : Timers)
    → timer ≢ t.display_timer
    → Samples us timer (pos 0, sampling t timer (pos us))
unfolding handler
sampling-Samples us timer t other =
    let self : (timer == timer) ≡ true = ground arith in
    let period : (if timer == timer then delay_of (pos us) else t.period timer)
        ≡ delay_of (pos us) =
      rw self refl in
    (refl, refl, subst (Exact us) (sym period) (delay_of-Exact us), ground (arith, other))

-- Starting the sampling, where the calls of the system succeed, the timer is not the one of the
-- display, and what create_timer leaves is not -1: it returns 0, the period of the timer is exactly
-- the microseconds asked for, with nanoseconds below one second, and its signal makes one update
-- and calls no display.
pub sampling_start_lem :
    (system : System) (left : ℤ) (us timer : ℕ) (t : Timers)
    → system.sigmask_works ≡ true
    → system.sigaction_works ≡ true
    → system.timer_create ≡ some timer
    → system.timer_settime (delay_of (pos us)) ≡ true
    → is_minus_one left ≡ false
    → timer ≢ t.display_timer
    → let r = hmon_sampling_start system left (pos us) t in
      (r.0 ≡ pos 0)
      × (r.1.handler_isset ≡ true)
      × Exact us (r.1.period timer)
      × (handler r.1 true timer ≡ hmon_update 1 ∷ [])
sampling_start_lem system left us timer t mask action created settable defined other =
    let e = start_step system left (pos us) timer t mask action created settable defined in
    subst (Samples us timer) (sym e) (sampling-Samples us timer t other)

-- x
pub display_not_set :
    (system : System) (left : ℤ) (us : ℕ) (t : Timers)
    → t.display_timer ≡ 0
    → t.display_function ≡ none
    → system.timer_create ≡ some 0
    → (hmon_sampling_start system left (pos us) t).0 ≡ pos 0
    → handler (hmon_sampling_start system left (pos us) t).1 true 0
      ≡ hmon_update 1 ∷ call_display none t.display_arg ∷ []
unfolding hmon_sampling_start set_timer ensure_handler set_handler handler
display_not_set system left us t no_timer no_function zero_made started =
    ground (arith, no_timer, no_function, zero_made, started)
