-- ===== src/Synchronize/Registry.antt =====
-- synchronize.c: the monitors of the library, and those of each object. Pointers to monitors and to
-- objects are numbers; hwloc and the C library's bsearch are parameters.
pub mod Restrict
pub mod Register
use hierarchical_monitors.Prelude.{
  ℕ, zero, suc, ◌+◌, ◌-◌, Bool, true, false, not, ◌&&◌, ◌||◌, Option, none, some, List, [], ◌∷◌,
  ◌==◌, if◌then◌else◌, take,
}
use hierarchical_monitors.Prelude.Int.{ℤ, pos, negsuc}
use hierarchical_monitors.HArray.{HArray, new_harray, harray_get, harray_remove}
use hierarchical_monitors.HArray.Sorted.{harray_find, harray_insert_sorted}
use hierarchical_monitors.Hmonitor.{Hmon, PerfLib}
use hierarchical_monitors.Hmonitor.Lock.{hmonitor_start, hmonitor_stop}
use hierarchical_monitors.Placement.{Bitmaps, proc_get_allowed_cpuset}
use hierarchical_monitors.Synchronize.{Topology, hmon_compare}
use hierarchical_monitors.Synchronize.Walk.{on_one, hmonitors_do}

pub data ObjType : Type 0 where
  core pu other_type : ObjType

-- What the code calls of hwloc. `objects_inside` gives the objects inside a cpuset depth by depth, each
-- depth from its last one to its first.
pub record Hwloc (C : Type 0) : Type 0 where
  pub isincluded : C → C → Bool
  pub bitmap_and : C → C → C
  pub bitmap_andnot : C → C → C
  pub intersects : C → C → Bool
  pub cpuset : ℕ → C
  pub type_of : ℕ → ObjType
  pub parent : ℕ → ℕ
  pub objects_inside : C → List ℕ

-- The globals `monitors`, `allowed_cpuset` and `threads`, the `userdata` of objects, and what pointers
-- to monitors point to.
pub record Registry (D E C : Type 0) : Type 0 where
  pub monitors : HArray
  pub allowed_cpuset : C
  pub threads : ℕ → ℕ
  pub userdata : ℕ → Option HArray
  pub store : ℕ → Hmon D E

abbrev pub put : {A : Type 0} → (ℕ → A) → ℕ → A → ℕ → A
put f p a q = if q == p then a else f q

-- `userdata`, created where it is NULL.
unfoldable pub array_at : Option HArray → Option HArray
array_at none = new_harray 8 4 false
array_at (some array) = some array

-- `hmon_compare` on pointers.
unfoldable pub compare_pointers : {D E : Type 0} → Topology → (ℕ → Hmon D E) → ℕ → ℕ → ℤ
compare_pointers topology store p q = hmon_compare topology (store p) (store q)

module _ {D E C : Type 0} (hwloc : Hwloc C) (topology : Topology) where
  -- The thread that a monitor of a core, or of a processing unit in it, belongs to.
  unfoldable pub thread_owner : (ℕ → ℕ) → Hmon D E → ℕ
  thread_owner threads m = elim (hwloc.type_of m.location) [
    | core ↦ threads (topology.logical_index m.location)
    | pu ↦ threads (topology.logical_index (hwloc.parent m.location))
    | other_type ↦ m.owner
  ]

  -- From the array of the object on, which is created if there is none.
  unfoldable pub store_on_topology : Registry D E C → ℕ → Option (Registry D E C)
  store_on_topology r p =
      let location = (r.store p).location in
      let owned : Registry D E C = record r {
        store = put r.store p (record (r.store p) { owner = thread_owner r.threads (r.store p) });
      } in
      elim (array_at (r.userdata location)) [
        | none ↦ none
        | some array ↦ elim (harray_insert_sorted (compare_pointers topology owned.store) array p) [
          | none ↦ none
          | some placed ↦
              some (record owned { userdata = put owned.userdata location (some placed.1) })
        ]
      ]

  -- `none` is a fault of an array.
  unfoldable pub hmon_register_hmonitor :
      Option ℕ → ℕ → Registry D E C → Option (ℤ × Registry D E C)
  hmon_register_hmonitor none display r = some (negsuc 0, r)
  hmon_register_hmonitor (some p) display r =
      if hwloc.isincluded (hwloc.cpuset (r.store p).location) r.allowed_cpuset
      then (let shown : Registry D E C = record r {
        store = put r.store p (record (r.store p) { display = display });
      } in
          elim (harray_insert_sorted (compare_pointers topology shown.store) shown.monitors p) [
            | none ↦ none
            | some placed ↦ elim (store_on_topology (record shown { monitors = placed.1 }) p) [
              | none ↦ none
              | some stored ↦ some (pos 0, stored)
            ]
          ])
      else some (negsuc 0, r)

  module _ (bsearch : (ℕ → ℕ → ℤ) → ℕ → List ℕ → Option ℕ) where
    -- `n` monitors of an object from index `i` on leave the array of all monitors.
    unfoldable pub remove_from : (ℕ → Hmon D E) → Option HArray → ℕ → ℕ → HArray → HArray
    remove_from store found zero i monitors = monitors
    remove_from store found (suc n) i monitors =
        remove_from store found n (i + 1)
          (harray_remove monitors
            (harray_find (compare_pointers topology store) bsearch monitors (harray_get found i))).1

    unfoldable pub hmonitor_unregister_location : ℕ → Registry D E C → Registry D E C
    hmonitor_unregister_location location r = elim (r.userdata location) [
      | none ↦ r
      | some found ↦ record r {
        monitors = remove_from r.store (some found) found.length 0 r.monitors;
        userdata = put r.userdata location none;
      }
    ]

    unfoldable pub unregister_all : List ℕ → Registry D E C → Registry D E C
    unregister_all [] r = r
    unregister_all (obj ∷ objs) r = unregister_all objs (hmonitor_unregister_location obj r)

    -- The new value of `domain` is the caller's bitmap after the call.
    unfoldable pub hmon_restrict : Option C → Registry D E C → Option C × Registry D E C
    hmon_restrict none r = (none, r)
    hmon_restrict (some domain) r =
        if hwloc.isincluded domain r.allowed_cpuset
        then (let allowed = hwloc.bitmap_and r.allowed_cpuset domain in
            let removed = hwloc.bitmap_andnot domain allowed in
            (
              some removed,
              unregister_all (hwloc.objects_inside removed) (record r { allowed_cpuset = allowed }),
            ))
        else (some domain, r)

    -- `status` holds the lines of the process's file, if it opens.
    unfoldable pub hmon_restrict_pid :
        Bitmaps C → Option (List (List ℕ)) → Registry D E C → Registry D E C
    hmon_restrict_pid bitmaps status r =
        (hmon_restrict (some (proc_get_allowed_cpuset bitmaps status)) r).1

  -- One monitor of the loop of `hmon_restrict_pid_taskset`.
  unfoldable pub stop_outside : PerfLib D E → C → Hmon D E → Hmon D E
  stop_outside lib running m =
      if not (hwloc.intersects (hwloc.cpuset m.location) running) && not m.stopped
      then record m { eventset = (lib.eventset_stop m.eventset).1; stopped = true }
      else m

  unfoldable pub hmon_restrict_pid_taskset : PerfLib D E → C → Registry D E C → Registry D E C
  hmon_restrict_pid_taskset lib running r = record r {
    store =
        hmonitors_do (on_one (λ p. stop_outside lib running))
          (take r.monitors.length r.monitors.cell) r.store;
  }

-- The calls that the library's user makes on all monitors.
module _ {D E C : Type 0} (lib : PerfLib D E) (self : ℕ) where
  unfoldable pub hmon_start : Registry D E C → Registry D E C
  hmon_start r = record r {
    store =
        hmonitors_do (on_one (λ p m. (hmonitor_start lib self m).1))
          (take r.monitors.length r.monitors.cell) r.store;
  }

  unfoldable pub hmon_stop : Registry D E C → Registry D E C
  hmon_stop r = record r {
    store =
        hmonitors_do (on_one (λ p m. (hmonitor_stop lib self m).1))
          (take r.monitors.length r.monitors.cell) r.store;
  }

-- `obj` is the object that hwloc finds, if there is one.
unfoldable pub hmon_get_monitors_by_depth :
    {D E C : Type 0} → Option ℕ → Registry D E C → Option HArray
hmon_get_monitors_by_depth none r = none
hmon_get_monitors_by_depth (some obj) r = r.userdata obj
