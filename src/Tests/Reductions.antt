-- ===== src/Tests/Reductions.antt =====
-- hmonitor.c and stats.c: reductions of the example monitor.
use hierarchical_monitors.Prelude.{ℕ, ◌≡◌, ◌⊎◌, refl, false, some, List, get_or, arith}
use hierarchical_monitors.Prelude.Int.{ℤ, pos}
use hierarchical_monitors.Hmonitor.{Hmon, fill, zero_double, hmonitor_reduce, run_model}
use hierarchical_monitors.Hmonitor.Reduce.{HasOutputs, KeepsExtrema, reduce_bounds}
use hierarchical_monitors.Stats.{
  stored_rows, fold_rows, apply_row, hmonitor_events_max, hmonitor_events_min, hmonitor_events_var,
}
use hierarchical_monitors.Stats.Columns.{fold_from, event}
use hierarchical_monitors.Stats.Extrema.{events_extrema}
use hierarchical_monitors.Stats.Variance.{events_var_lem}
use hierarchical_monitors.Fake.{fake_lib}
use hierarchical_monitors.Fake.Events.{fake_reads}
use hierarchical_monitors.Tests.Doubles.{whole, whole-IsOrdered}
use hierarchical_monitors.Tests.Monitors.{monitor, monitor-IsValid}

-- The reduction functions, of which number 0 is `hmonitor_events_max`.
abbrev call_model : ℕ → Hmon ℤ ℕ → Hmon ℤ ℕ
call_model f m = hmonitor_events_max whole m

-- The monitor after its reduction function, with a maximum in its sample.
abbrev chosen : Hmon ℤ ℕ
chosen = record monitor { model = some 0 }

abbrev ran : Hmon ℤ ℕ
ran = run_model whole (fake_lib whole) call_model chosen

abbrev reduced : Hmon ℤ ℕ
reduced = (hmonitor_reduce whole (fake_lib whole) call_model 7 chosen).1

chosen-HasOutputs : HasOutputs ran
unfolding run_model hmonitor_events_max fold_rows fill apply_row
chosen-HasOutputs = record {
  samples_fit = omega arith;
  max_fit = omega arith;
  min_fit = omega arith;
}

keeps : KeepsExtrema call_model
unfolding hmonitor_events_max
keeps = record { keeps_max = λ f m. refl; keeps_min = λ f m. refl; keeps_samples = λ f m. refl }

abbrev first : List ℤ → ℤ
first xs = get_or xs 0 (zero_double whole (fake_lib whole))

reduce_bounds_example :
    (whole.ltb (first reduced.max) (first reduced.samples) ≡ false)
    × (whole.ltb (first reduced.max) (first chosen.max) ≡ false)
    × ((first reduced.max ≡ first chosen.max) ⊎ (first reduced.max ≡ first reduced.samples))
    × (whole.ltb (first reduced.samples) (first reduced.min) ≡ false)
    × (whole.ltb (first chosen.min) (first reduced.min) ≡ false)
    × ((first reduced.min ≡ first chosen.min) ⊎ (first reduced.min ≡ first reduced.samples))
reduce_bounds_example =
    reduce_bounds whole (fake_lib whole) call_model whole-IsOrdered 7 0 chosen refl keeps
      chosen-HasOutputs (omega arith)

abbrev reading : ℕ → ℕ → ℤ
reading = event whole (fake_reads whole) monitor-IsValid

events_extrema_example :
    (whole.ltb (first (hmonitor_events_max whole monitor).samples) (reading 0 1) ≡ false)
    × (whole.ltb (reading 0 1) (first (hmonitor_events_min whole monitor).samples) ≡ false)
events_extrema_example =
    events_extrema whole whole-IsOrdered (fake_reads whole) monitor-IsValid 0 1 (omega arith)
      (omega arith) (omega arith)

events_var_lem_example :
    first (hmonitor_events_var whole monitor).samples
    ≡ whole.sub
        (whole.mul (whole.div (pos 1) (pos 2)) (
          fold_from
            (λ a b. whole.add a (whole.mul b b))
            (reading 0)
            0
            (stored_rows monitor)
            (pos 0)))
        (let sum = fold_from whole.add (reading 0) 0 (stored_rows monitor) (pos 0) in
          whole.mul (whole.mul (whole.div (pos 1) (whole.mul (pos 2) (pos 2))) sum) sum)
events_var_lem_example =
    events_var_lem whole (fake_reads whole) monitor-IsValid 0 (omega arith) (omega arith)
      (omega arith)
