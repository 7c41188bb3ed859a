-- ===== src/Fake.antt =====
-- plugins/fake/fake_monitor.c: a performance plugin with one event, FAKE, that always reads 1. Its
-- eventset is a number, which starts at 0 and only grows by the events added.
pub mod Events
use hierarchical_monitors.Prelude.{
  same_string, ℕ, zero, suc, ◌+◌, ◌-◌, Bool, true, false, some, List, [], ◌∷◌, ◌==◌, if◌then◌else◌,
}
use hierarchical_monitors.Prelude.Int.{ℤ, pos, negsuc}
use hierarchical_monitors.Prelude.Floats.{Floats}
use hierarchical_monitors.Hmonitor.{PerfLib}
use hierarchical_monitors.Hmonitor.Create.{PerfPlugin}

-- "FAKE"
abbrev pub fake_name : List ℕ
fake_name = 70 ∷ 65 ∷ 75 ∷ 69 ∷ []

unfoldable pub hmonitor_events_list : List (List ℕ)
hmonitor_events_list = fake_name ∷ []

unfoldable pub hmonitor_eventset_init : ℕ → ℤ × ℕ
hmonitor_eventset_init location = (pos 0, 0)

unfoldable pub hmonitor_eventset_add_named_event : ℕ → List ℕ → ℤ × ℕ
unfolding same_string
hmonitor_eventset_add_named_event eventset event =
    if same_string event fake_name then (pos 1, eventset + 1) else (negsuc 0, eventset)

unfoldable pub hmonitor_eventset_init_fini : ℕ → ℤ × ℕ
hmonitor_eventset_init_fini eventset = (pos 0, eventset)

unfoldable pub hmonitor_eventset_start : ℕ → ℤ × ℕ
hmonitor_eventset_start eventset = (pos 1, eventset)

unfoldable pub hmonitor_eventset_stop : ℕ → ℤ × ℕ
hmonitor_eventset_stop eventset = (pos 1, eventset)

unfoldable pub hmonitor_eventset_reset : ℕ → ℤ × ℕ
hmonitor_eventset_reset eventset = (pos 1, eventset)

module _ {D : Type 0} (F : Floats D) where
  -- `for(i=0;i<n;i++) values[i] = 1;` on what stands from `values` on.
  unfoldable pub write_ones : ℕ → List D → List D
  write_ones zero values = values
  write_ones (suc n) [] = F.of_int (pos 1) ∷ write_ones n []
  write_ones (suc n) (x ∷ values) = F.of_int (pos 1) ∷ write_ones n values

  unfoldable pub hmonitor_eventset_read : ℕ → List D → ℤ × ℕ × List D
  unfolding write_ones
  hmonitor_eventset_read eventset values = (pos 0, eventset, write_ones eventset values)

  abbrev pub fake_lib : PerfLib D ℕ
  fake_lib = record {
    eventset_start = hmonitor_eventset_start;
    eventset_stop = hmonitor_eventset_stop;
    eventset_reset = hmonitor_eventset_reset;
    eventset_read = hmonitor_eventset_read;
  }

  abbrev pub fake_plugin : PerfPlugin D ℕ
  fake_plugin = record {
    lib = some fake_lib;
    eventset_init = hmonitor_eventset_init;
    add_named_event = hmonitor_eventset_add_named_event;
    eventset_init_fini = hmonitor_eventset_init_fini;
  }
