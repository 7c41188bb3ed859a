-- ===== src/Locations/Order.antt =====
-- hwloc_utils.c: the order of objects, and that of monitors.
use hierarchical_monitors.Prelude.{◌≡◌, not, ◌==◌, arith, if◌then◌else◌}
use hierarchical_monitors.Prelude.Int.{ℤ, pos, negsuc}
use hierarchical_monitors.Hmonitor.{Hmon}
use hierarchical_monitors.Synchronize.{
  Topology, is_set, strcmp, compare_places, compare_flags, hmon_compare,
}
use hierarchical_monitors.Locations.{location_compare}

-- Where `first` does not decide, `second` does.
abbrev pub then_by : ℤ → ℤ → ℤ
then_by (pos n) second = if n == 0 then second else pos n
then_by (negsuc n) second = negsuc n

module _ {D E : Type 0} where
  -- x
  pub compare_agrees :
      (topology : Topology) (a b : Hmon D E)
      → hmon_compare topology a b
        ≡ then_by (location_compare topology a.location b.location) (
            compare_flags
              (not (a.display == 0))
              (not (b.display == 0))
              (compare_flags (is_set a.output) (is_set b.output) (strcmp a.id b.id)))
  unfolding hmon_compare compare_places location_compare
  compare_agrees topology a b = ground arith
