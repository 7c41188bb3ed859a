-- ===== src/Tests/Registry.antt =====
-- synchronize.c: registering a monitor, and a restriction, on a machine with one cpu.
use hierarchical_monitors.Prelude.{
  ℕ, ◌≡◌, refl, Bool, true, false, not, ◌&&◌, ◌||◌, arith, Option, none, some, List, [], ◌∷◌,
  if◌then◌else◌,
}
use hierarchical_monitors.Prelude.Int.{ℤ, pos}
use hierarchical_monitors.HArray.{HArray}
use hierarchical_monitors.HArray.Inv.{IsValid, contents}
use hierarchical_monitors.Synchronize.{Topology}
use hierarchical_monitors.Synchronize.Registry.{
  core, pu, other_type, Hwloc, Registry, hmon_register_hmonitor, hmon_restrict,
}
use hierarchical_monitors.Synchronize.Registry.Restrict.{IsHwloc, restrict_removes_nothing}
use hierarchical_monitors.Synchronize.Registry.Register.{pointers, Added, register_lem}
use hierarchical_monitors.Tests.Monitors.{monitor}

-- A set of cpus tells whether the one cpu is in it.
abbrev one_cpu : Hwloc Bool
one_cpu = record {
  isincluded = λ a b. not a || b;
  bitmap_and = λ a b. a && b;
  bitmap_andnot = λ a b. a && not b;
  intersects = λ a b. a && b;
  cpuset = λ obj. true;
  type_of = λ obj. core;
  parent = λ obj. obj;
  objects_inside = λ set. if set then 0 ∷ [] else [];
}

included : (a b : Bool) → (not a || b) ≡ true → a ≡ true → b ≡ true
included a b h k = ground (arith, h, k)

inside : (set : Bool) → (ℕ → set ≡ false) → one_cpu.objects_inside set ≡ []
inside set h = rw (h 0) refl

one_cpu-IsHwloc : IsHwloc one_cpu
one_cpu-IsHwloc = record {
  member = λ set i. set;
  and_lem = λ a b i. refl;
  andnot_lem = λ a b i. refl;
  included_lem = λ a b i. included a b;
  inside_empty = inside;
}

abbrev topology : Topology
topology = record { depth = λ obj. 0; logical_index = λ obj. obj }

-- A registry with one monitor, 1, at the object 0.
abbrev one_monitor : HArray
one_monitor = record { cell = 1 ∷ 0 ∷ []; length = 1; allocated_length = 2; delete_element = false }

one_monitor-IsValid : IsValid one_monitor
one_monitor-IsValid = record {
  block = refl;
  room = omega arith;
  bounded = omega arith;
  filled = omega arith;
}

abbrev registry : Registry ℤ ℕ Bool
registry = record {
  monitors = one_monitor;
  allowed_cpuset = true;
  threads = λ k. 7;
  userdata = λ obj. some one_monitor;
  store = λ p. monitor;
}

abbrev never_found : (ℕ → ℕ → ℤ) → ℕ → List ℕ → Option ℕ
never_found compare key cells = none

restrict_removes_nothing_example :
    let after = (hmon_restrict one_cpu topology never_found (some true) registry).1 in
    (after.monitors ≡ one_monitor)
    × (after.userdata ≡ registry.userdata)
    × (after.store ≡ registry.store)
restrict_removes_nothing_example =
    restrict_removes_nothing one_cpu-IsHwloc topology never_found (some true) registry

register_lem_example :
    (after : Registry ℤ ℕ Bool) × (hmon_register_hmonitor one_cpu topology (some 2) 1 registry
      ≡ some (pos 0, after))
    × IsValid after.monitors
    × Added 2 (contents one_monitor) (contents after.monitors)
    × Added 2 (contents one_monitor) (pointers (after.userdata 0))
    × ((after.store 2).display ≡ 1)
    × ((after.store 2).owner ≡ (elim (one_cpu.type_of monitor.location) [
      | core ↦ registry.threads (topology.logical_index monitor.location)
      | pu ↦ registry.threads (topology.logical_index (one_cpu.parent monitor.location))
      | other_type ↦ monitor.owner
    ]))
register_lem_example =
    register_lem one_cpu topology 2 1 registry refl one_monitor-IsValid (omega arith)
      (one_monitor-IsValid, omega arith)
