-- ===== src/Hierarchical/Read.antt =====
-- hierarchical_monitor.c: which monitors a read and a reset change.
use hierarchical_monitors.Prelude.Floats.{Floats}
use hierarchical_monitors.HArray.{HArray}
