-- ===== src/Tests/Children.antt =====
-- hierarchical_monitor.c on a store in which every pointer holds the example monitor.
use hierarchical_monitors.Prelude.{◌==◌, if◌then◌else◌, ℕ, false, [], ◌∷◌}
use hierarchical_monitors.Prelude.Int.{ℤ}
use hierarchical_monitors.Hmonitor.{Hmon, hmonitor_reset}
use hierarchical_monitors.Hierarchical.{Eventset}
use hierarchical_monitors.Fake.{fake_lib}
use hierarchical_monitors.Tests.Doubles.{whole}
use hierarchical_monitors.Tests.Monitors.{monitor, now}

abbrev store : ℕ → Hmon ℤ ℕ
store p = monitor

abbrev children : Eventset
children = record {
  location = 0;
  child_events = record {
    cell = 1 ∷ 2 ∷ 0 ∷ 0 ∷ [];
    length = 2;
    allocated_length = 4;
    delete_element = false;
  };
}

-- The child 2 has a child 3, which it resets.
abbrev nested : ℕ → (ℕ → Hmon ℤ ℕ) → ℕ → Hmon ℤ ℕ
nested p s q =
    if p == 2
    then (if q == 3 then hmonitor_reset whole (fake_lib whole) now (s q) else s q)
    else s q
