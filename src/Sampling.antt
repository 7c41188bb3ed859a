-- ===== src/Sampling.antt =====
-- sampling.c: the timers that trigger updates and the display. What the system's calls return is a
-- parameter; a timer is a number, and the variables that hold one are 0 before it is made.
pub mod Period
use hierarchical_monitors.Prelude.{
  ℕ, zero, suc, ◌+◌, ◌*◌, ◌/◌, ◌%◌, Bool, true, false, not, ◌&&◌, Option, none, some, List, [], ◌∷◌,
  ◌++◌, ◌==◌, if◌then◌else◌,
}
use hierarchical_monitors.Prelude.Int.{ℤ, pos, negsuc, neg_part}

-- The system: whether the calls on signals work, the timer that `timer_create` makes, whether
-- `timer_settime` takes seconds and nanoseconds and `timer_delete` a timer.
pub record System : Type 0 where
  pub sigmask_works : Bool
  pub sigaction_works : Bool
  pub timer_create : Option ℕ
  pub timer_settime : ℤ × ℤ → Bool
  pub timer_delete : ℕ → Bool

-- The variables, and the period of each timer.
pub record Timers : Type 0 where
  pub handler_isset : Bool
  pub update_timer : ℕ
  pub display_timer : ℕ
  pub display_function : Option ℕ
  pub display_arg : ℤ
  pub period : ℕ → ℤ × ℤ

-- `-n`
unfoldable pub opposite_of : ℕ → ℤ
opposite_of zero = pos 0
opposite_of (suc n) = negsuc n

-- The quotient and remainder of C, which go to 0, by a positive number.
unfoldable pub div_by : ℤ → ℕ → ℤ
div_by (pos n) d = pos (n / d)
div_by (negsuc n) d = opposite_of ((n + 1) / d)

unfoldable pub mod_by : ℤ → ℕ → ℤ
mod_by (pos n) d = pos (n % d)
mod_by (negsuc n) d = opposite_of ((n + 1) % d)

unfoldable pub times_1000 : ℤ → ℤ
times_1000 (pos n) = pos (1000 * n)
times_1000 (negsuc n) = opposite_of (1000 * (n + 1))

-- `tv_sec` and `tv_nsec`
unfoldable pub delay_of : ℤ → ℤ × ℤ
delay_of us = (div_by us 1000000, times_1000 (mod_by us 1000000))

-- What a handler calls.
pub data Handled : Type 0 where
  hmon_update : ℕ → Handled
  call_display : Option ℕ → ℤ → Handled

-- The handler of a signal, SIGRTMIN or not, for a timer.
unfoldable pub handler : Timers → Bool → ℕ → List Handled
handler t is_sigrtmin timer =
    if is_sigrtmin
    then (if timer == t.update_timer then hmon_update 1 ∷ [] else [])
      ++ (if timer == t.display_timer
          then call_display t.display_function t.display_arg ∷ []
          else [])
    else []

unfoldable pub is_minus_one : ℤ → Bool
is_minus_one (negsuc zero) = true
is_minus_one _ = false

module _ (system : System) where
  unfoldable pub set_handler : Timers → ℤ × Timers
  set_handler t =
      if system.sigmask_works && system.sigaction_works
      then (pos 0, record t { handler_isset = true })
      else (negsuc 0, t)

  unfoldable pub set_timer : ℕ → ℤ → Timers → ℤ × Timers
  set_timer timer us t =
      if system.timer_settime (delay_of us)
      then (pos 0, record t { period = λ k. if k == timer then delay_of us else t.period k })
      else (negsuc 0, t)

  -- `!handler_isset && set_handler() == -1`, and the state after it.
  unfoldable pub ensure_handler : Timers → Bool × Timers
  ensure_handler t =
      if t.handler_isset
      then (false, t)
      else if system.sigmask_works && system.sigaction_works
      then (false, (set_handler t).1)
      else (true, t)

  -- `create_timer` has no `return` where it succeeds: `left` is what its caller finds as its result.
  unfoldable pub hmon_sampling_start : ℤ → ℤ → Timers → ℤ × Timers
  hmon_sampling_start left us t =
      let (failed, ready) = ensure_handler t in
      let started : ℤ × Timers = elim system.timer_create [
        | none ↦ (negsuc 0, ready)
        | some timer ↦
            let made = record ready { update_timer = timer } in
            let set = set_timer timer us made in if is_minus_one left then (negsuc 0, made) else set
      ] in
      if failed then (negsuc 0, ready) else started

  -- Both calls on the timer are made, whatever the first returns.
  unfoldable pub hmon_sampling_stop : Timers → ℤ × Timers
  hmon_sampling_stop t =
      let after = (set_timer t.update_timer (pos 0) t).1 in
      (if system.timer_delete t.update_timer then pos 0 else negsuc 0, after)

  unfoldable pub hmon_periodic_display_start : ℤ → ℕ → ℤ → Timers → ℤ × Timers
  hmon_periodic_display_start left function arg t =
      let (failed, ready) =
        ensure_handler (record t { display_function = some function; display_arg = arg }) in
      let started : ℤ × Timers = elim system.timer_create [
        | none ↦ (negsuc 0, ready)
        | some timer ↦
            let made = record ready { display_timer = timer } in
            let set = set_timer timer (pos 100000) made in
            if is_minus_one left then (negsuc 0, made) else set
      ] in
      if failed then (negsuc 0, ready) else started

  unfoldable pub hmon_periodic_display_stop : Timers → ℤ × Timers
  hmon_periodic_display_stop t =
      let after = (set_timer t.display_timer (pos 0) t).1 in
      (if system.timer_delete t.display_timer then pos 0 else negsuc 0, after)
