-- ===== src/Tests/Monitors.antt =====
-- hmonitor.c on a monitor of the fake plugin with one event and a window of two rows.
use hierarchical_monitors.Prelude.{
  ◌⊎◌, ℕ, ◌+◌, ◌*◌, ◌%◌, ◌≡◌, refl, true, Option, none, some, List, [], ◌∷◌, get_or, replicate,
  arith, ltb, if◌then◌else◌,
}
use hierarchical_monitors.Prelude.Int.{ℤ, pos, negsuc, ◌-ℤ◌}
use hierarchical_monitors.Hmonitor.{
  PerfLib, u32_mod, unlocked, Hmon, Timespec, nanoseconds, zero_double, hmonitor_get_event,
  hmonitor_read, hmonitor_reset,
}
use hierarchical_monitors.Hmonitor.Ring.{IsValid}
use hierarchical_monitors.Hmonitor.Ring.Failed.{KeepsSizes, IsRing, read-IsRing}
use hierarchical_monitors.Hmonitor.Ring.Read.{read_new_row}
use hierarchical_monitors.Hmonitor.Ring.History.{read_all, row_stays_for_window}
use hierarchical_monitors.Hmonitor.Reset.{reset_cells}
use hierarchical_monitors.Hmonitor.Create.{PerfPlugin, Request}
use hierarchical_monitors.Fake.{fake_name, fake_lib, fake_plugin}
use hierarchical_monitors.Fake.Events.{fake_reads}
use hierarchical_monitors.Tests.Doubles.{whole}

abbrev pub monitor : Hmon ℤ ℕ
monitor = record {
  id = 109 ∷ [];
  location = 0;
  ref_time = pos 5;
  eventset = 1;
  events = pos 4 ∷ pos 10 ∷ pos 6 ∷ pos 20 ∷ [];
  n_events = 1;
  window = 2;
  last = 1;
  total = 2;
  labels = (86 ∷ 48 ∷ []) ∷ [];
  samples = pos 0 ∷ [];
  max = pos 1 ∷ [];
  min = pos 9 ∷ [];
  n_samples = 1;
  model = none;
  output = none;
  display = 0;
  stopped = true;
  owner = 7;
  mutex = unlocked;
}

abbrev pub now : Timespec
now = record { tv_sec = 0; tv_nsec = 30 }

pub monitor-IsValid : IsValid (fake_reads whole) monitor
monitor-IsValid = record {
  rows = refl;
  bounded = omega arith;
  room = omega arith;
  inside = omega arith;
  counted = refl;
}

-- A library whose reads fail and write nothing.
abbrev broken : PerfLib ℤ ℕ
broken = record (fake_lib whole) { eventset_read = λ e values. (negsuc 0, e, values) }

broken-KeepsSizes : KeepsSizes broken (λ e. e)
broken-KeepsSizes = record { keeps_events = λ e values. refl; keeps_length = λ e values. refl }

monitor-IsRing : IsRing (λ e. e) monitor
monitor-IsRing = record {
  rows = refl;
  bounded = omega arith;
  room = omega arith;
  inside = omega arith;
  counted = refl;
}

read-IsRing_example :
    let (result, after) = hmonitor_read whole broken 7 now monitor in
    IsRing (λ e. e) after
    × (after.last ≡ (monitor.last + 1) % monitor.window)
    × (after.total ≡ (monitor.total + 1) % u32_mod)
    × ((result ≡ pos 1) ⊎ (result ≡ negsuc 0))
read-IsRing_example = read-IsRing whole broken broken-KeepsSizes 7 now monitor refl monitor-IsRing

read_new_row_example :
    let after = (hmonitor_read whole (fake_lib whole) 7 now monitor).1 in
    (hmonitor_get_event whole (fake_lib whole) after after.last 0
      ≡ get_or ((fake_reads whole).row monitor.eventset) 0 (zero_double whole (fake_lib whole)))
    × (hmonitor_get_event whole (fake_lib whole) after after.last monitor.n_events
        ≡ whole.of_int (nanoseconds now -ℤ monitor.ref_time))
read_new_row_example =
    read_new_row whole (fake_reads whole) monitor-IsValid 7 0 now refl (omega arith)

row_stays_for_window_example :
    hmonitor_get_event whole
      (fake_lib whole)
      (read_all whole (fake_reads whole) 7 (now ∷ []) monitor)
      monitor.last
      1
    ≡ hmonitor_get_event whole (fake_lib whole) monitor monitor.last 1
row_stays_for_window_example =
    row_stays_for_window whole (fake_reads whole) 7 (now ∷ []) monitor 1 monitor-IsValid refl
      (omega arith) (omega arith)

reset_cells_example :
    get_or
      (hmonitor_reset whole (fake_lib whole) now monitor).events
      3
      (zero_double whole (fake_lib whole))
    ≡ (if ltb 3 (monitor.window * monitor.n_events + 1)
        then zero_double whole (fake_lib whole)
        else get_or monitor.events 3 (zero_double whole (fake_lib whole)))
reset_cells_example = reset_cells whole (fake_reads whole) monitor-IsValid 3 now (omega arith)

-- A request for two events of the fake plugin, and a window of three rows.
abbrev request : Request
request = record {
  id = some (109 ∷ []);
  location = some 0;
  event_names = fake_name ∷ fake_name ∷ [];
  window = 3;
  labels = none;
  n_samples = 0;
  perf_plugin = some fake_name;
  model_plugin = none;
  output = none;
}

abbrev fresh : ℕ → List ℤ
fresh n = replicate n (pos 3)

abbrev lookup_plugin : List ℕ → Option (PerfPlugin ℤ ℕ)
lookup_plugin name = some (fake_plugin whole)

abbrev lookup_function : List ℕ → Option ℕ
lookup_function name = none
