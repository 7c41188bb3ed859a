-- ===== src/Tests/Sums.antt =====
-- accumulate_monitor.c on two children that hold the example monitor.
use hierarchical_monitors.Prelude.{
  ℕ, zero, suc, ◌<◌, ◌≤◌, ◌≡◌, ◌≢◌, refl, false, some, List, [], ◌∷◌, length, get_or, arith,
}
use hierarchical_monitors.Prelude.Int.{ℤ, pos}
use hierarchical_monitors.HArray.{HArray, harray_get}
use hierarchical_monitors.Hmonitor.{
  Hmon, hmonitor_get_events, hmonitor_read, hmonitor_reduce, read_row, advance, run_model,
  update_extrema, hmonitor_set_timestamp,
}
use hierarchical_monitors.Hmonitor.Lock.{hmonitor_trylock, trylock_result, hmonitor_release, unlock}
use hierarchical_monitors.Hierarchical.{refresh, refresh_locked}
use hierarchical_monitors.Fake.{fake_lib, write_ones, hmonitor_eventset_read}
use hierarchical_monitors.Accumulate
use hierarchical_monitors.Accumulate.{read_first}
use hierarchical_monitors.Accumulate.Sums.{Fits, first_fresh, fresh, total, read_sums}
use hierarchical_monitors.Tests.Doubles.{whole}
use hierarchical_monitors.Tests.Monitors.{monitor, now}

abbrev store : ℕ → Hmon ℤ ℕ
store p = monitor

abbrev pair : HArray
pair = record {
  cell = 1 ∷ 2 ∷ 0 ∷ 0 ∷ [];
  length = 2;
  allocated_length = 4;
  delete_element = false;
}

abbrev first : Hmon ℤ ℕ
first = first_fresh whole (fake_lib whole) (λ f m. m) (λ m. m) 7 (λ i. now) pair store (pos 0)

abbrev child : ℕ → Hmon ℤ ℕ
child i = fresh whole (fake_lib whole) (λ f m. m) (λ m. m) 7 (λ i. now) pair store (pos 0) i

first-Fits : Fits 1 first
unfolding read_first refresh refresh_locked hmonitor_get_events hmonitor_read hmonitor_reduce
    read_row advance run_model update_extrema hmonitor_set_timestamp hmonitor_trylock trylock_result
    hmonitor_release unlock write_ones hmonitor_eventset_read harray_get
first-Fits = (refl, omega arith)

later_fit : (j : ℕ) → 1 ≤ j → j < 2 → Fits 1 (child j)
unfolding read_first refresh refresh_locked hmonitor_get_events hmonitor_read hmonitor_reduce
    read_row advance run_model update_extrema hmonitor_set_timestamp hmonitor_trylock trylock_result
    hmonitor_release unlock write_ones hmonitor_eventset_read harray_get
later_fit zero a b = absurd (omega arith)
later_fit (suc zero) a b = (refl, omega arith)
later_fit (suc (suc j)) a b = absurd (omega arith)

distinct : (j l : ℕ) → j < l → l < 2 → harray_get (some pair) j ≢ harray_get (some pair) l
unfolding harray_get
distinct zero zero a b = absurd (omega arith)
distinct zero (suc zero) a b = λ e. absurd (omega (arith, e))
distinct zero (suc (suc l)) a b = absurd (omega arith)
distinct (suc j) l a b = absurd (omega arith)

-- The values of two events, of which the children have one.
abbrev before : List ℤ
before = pos 8 ∷ pos 9 ∷ []

read_sums_example :
    (after : ℕ → Hmon ℤ ℕ) × (sums : List ℤ) × (Accumulate.hmonitor_eventset_read whole
        (fake_lib whole)
        (λ f m. m)
        (λ m. m)
        7
        (λ i. now)
        (record { location = 0; child_events = pair })
        store
        before
      ≡ some (pos 0, after, sums))
    × (length sums ≡ length before)
    × ((j : ℕ)
        → j < 1
        → get_or sums j (pos 0)
          ≡ total whole
              (fake_lib whole)
              (λ f m. m)
              (λ m. m)
              7
              (λ i. now)
              pair
              store
              (pos 0)
              (get_or (hmonitor_get_events first first.last) j (pos 0))
              j
              1
              1)
    × ((j : ℕ) → 1 ≤ j → get_or sums j (pos 0) ≡ get_or before j (pos 0))
read_sums_example =
    read_sums whole (fake_lib whole) (λ f m. m) (λ m. m) 7 (λ i. now) pair store (pos 0) 1 1 0
      before refl distinct first-Fits later_fit (omega arith)
