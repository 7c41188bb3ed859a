-- ===== src/Hmonitor/Create/Valid.antt =====
-- hmonitor.c: what `new_hmonitor` returns is a valid monitor.
use hierarchical_monitors.Prelude.{ℕ, Option, List}
use hierarchical_monitors.Prelude.Floats.{Floats}
use hierarchical_monitors.Hmonitor.{Hmon, PerfLib, Timespec, hmonitor_reset}
use hierarchical_monitors.Hmonitor.Create.{PerfPlugin, Request, initialize_output, with_events}

module _ {D E : Type 0} (F : Floats D) (fresh : ℕ → List D)
    (lookup_plugin : List ℕ → Option (PerfPlugin D E)) (lookup_function : List ℕ → Option ℕ)
    (self : ℕ) (tp : Timespec) where
  -- The monitor that `new_hmonitor` returns for an eventset of `added` events.
  abbrev finished : (PerfPlugin D E) → PerfLib D E → Request → List ℕ → ℕ → ℕ → E → Hmon D E
  finished plugin lib request id location added e = hmonitor_reset F lib tp (
      initialize_output fresh lookup_function request.event_names request.labels request.n_samples
        request.model_plugin
        (with_events F fresh lookup_plugin lookup_function self tp id location request added
          (plugin.eventset_init_fini e).1))
