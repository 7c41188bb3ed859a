-- ===== src/Proc/Eventset.antt =====
-- plugins/proc/proc_monitor.c: the eventsets of the proc plugin.
pub mod Valid
pub mod Stale
use hierarchical_monitors.Prelude.{
  ℕ, zero, suc, ◌+◌, ◌%◌, Bool, true, false, Option, none, some, List, [], ◌∷◌, ◌++◌, map, length,
  get_or, drop, leb, if◌then◌else◌, codes, same_string,
}
use hierarchical_monitors.Prelude.Int.{ℤ, pos, negsuc}
use hierarchical_monitors.Prelude.Floats.{Floats}
use hierarchical_monitors.Proc.{
  u64_mod, ProcStat, ProcCpu, ProcMem, ProcNuma, new_proc_stat, new_proc_cpu, proc_stat_cpuload,
  proc_stat_diff, proc_numa_diff,
}
use hierarchical_monitors.Proc.Events.{
  ObjType, pu, numanode, machine, other_type, Event, null, cpu_load_field, min_flt_field,
  maj_flt_field, cpu_value, mem_value, numa_value, stat_value, find_event, pu_events, node_events,
  machine_events, event_of, events_list,
}
use hierarchical_monitors.Proc.Cast.{proc_cpu_load}
use hierarchical_monitors.Proc.Update.{
  Scan, proc_stat_update, proc_cpu_update, proc_mem_update, proc_numa_update, new_proc_mem,
  new_proc_numa,
}

-- The fields of a `hwloc_obj_t` that the plugin reads.
pub record Place : Type 0 where
  pub type : ObjType
  pub os_index : ℕ
  pub logical_index : ℕ

-- `struct proc_eventset`: the three structs of an array are [old, current, diff]. The `values` of the
-- structs that events point into are kept beside them.
pub record Eventset (D : Type 0) : Type 0 where
  pub ps : Option (ProcStat × ProcStat × ProcStat)
  pub pc : Option (ProcCpu × ProcCpu × ProcCpu)
  pub pm : Option ProcMem
  pub pn : Option (ProcNuma × ProcNuma × ProcNuma)
  pub stat_values : List D
  pub cpu_values : List D
  pub mem_values : List D
  pub numa_values : List D
  pub cpu_load : D
  pub min_flt : D
  pub maj_flt : D
  pub events : List Event
  pub location : Place

-- What the files of /proc and /sys hold, and the clock.
pub record Files : Type 0 where
  pub stat : Option (Option (List ℕ))
  pub cpus : Option (List (List ℕ))
  pub mem : Option (List Scan)
  pub numa : Option (List Scan)
  pub clock : ℕ

abbrev pub max_events : ℕ
max_events = 16

module _ {D : Type 0} where
  -- `none` is what is undefined: where there are 16 events, the message is given a number for its `%s`.
  unfoldable pub eventset_add_named_event : Eventset D → List ℕ → Option (ℤ × Eventset D)
  eventset_add_named_event set counter =
      if leb max_events (length set.events)
      then none
      else elim (event_of set.location.type counter) [
        | none ↦ some (negsuc 0, set)
        | some event ↦ some (pos 1, record set { events = set.events ++ event ∷ [] })
      ]

  -- `*(evset->events[i])`; `absent` is what a pointer to nothing would give.
  unfoldable pub value_of : D → Eventset D → Event → D
  value_of absent set null = absent
  value_of absent set cpu_load_field = set.cpu_load
  value_of absent set min_flt_field = set.min_flt
  value_of absent set maj_flt_field = set.maj_flt
  value_of absent set (cpu_value k) = get_or set.cpu_values k absent
  value_of absent set (mem_value k) = get_or set.mem_values k absent
  value_of absent set (numa_value k) = get_or set.numa_values k absent
  value_of absent set (stat_value k) = get_or set.stat_values k absent

  -- The structs of index 0, which `hmonitor_eventset_start` reads. Its status is not set by any `return`.
  unfoldable pub eventset_start : Files → Eventset D → Eventset D
  eventset_start files set = record set {
    ps = elim set.ps [
      | none ↦ none
      | some (old, current, diff) ↦
          some ((proc_stat_update files.stat files.clock old).1, current, diff)
    ];
    pc = elim set.pc [
      | none ↦ none
      | some (old, current, diff) ↦ some ((proc_cpu_update files.cpus old).1, current, diff)
    ];
    pm = elim set.pm [ none ↦ none | some p ↦ some (proc_mem_update files.mem p).1 ];
    pn = elim set.pn [
      | none ↦ none
      | some (old, current, diff) ↦ some ((proc_numa_update files.numa old).1, current, diff)
    ];
  }

  -- The swap of old and current, the update of current and the difference.
  unfoldable pub refresh : Files → Eventset D → Eventset D
  refresh files set = record set {
    ps = elim set.ps [
      | none ↦ none
      | some (old, current, diff) ↦
          let new = (proc_stat_update files.stat files.clock old).1 in
          some (current, new, proc_stat_diff diff new current)
    ];
    pc = elim set.pc [
      | none ↦ none
      | some (old, current, diff) ↦ some (current, (proc_cpu_update files.cpus old).1, diff)
    ];
    pm = elim set.pm [ none ↦ none | some p ↦ some (proc_mem_update files.mem p).1 ];
    pn = elim set.pn [
      | none ↦ none
      | some (old, current, diff) ↦
          let new = (proc_numa_update files.numa old).1 in
          some (current, new, proc_numa_diff new current)
    ];
  }

module _ {D : Type 0} (F : Floats D) where
  -- `fresh` is what `malloc` leaves in the `values` of a struct, of which only the first is cleared.
  unfoldable pub cleared : List D → List D
  cleared fresh = F.of_int (pos 0) ∷ drop 1 fresh

  abbrev pub no_structs : Place → Eventset D
  no_structs location = record {
    ps = none;
    pc = none;
    pm = none;
    pn = none;
    stat_values = [];
    cpu_values = [];
    mem_values = [];
    numa_values = [];
    cpu_load = F.of_int (pos 0);
    min_flt = F.of_int (pos 0);
    maj_flt = F.of_int (pos 0);
    events = [];
    location = location;
  }

  -- `fresh_total` is what `malloc` leaves in the `total` of a `struct proc_mem`.
  unfoldable pub eventset_init : (ℕ → List D) → ℕ → ℕ → Place → Option (Eventset D)
  eventset_init fresh fresh_total pid location = elim location.type [
    | pu ↦
        let p = new_proc_cpu (pos location.os_index) in
        some (record (no_structs location) { pc = some (p, p, p); cpu_values = cleared (fresh 8) })
    | numanode ↦
        let p = new_proc_numa (pos location.logical_index) in
        some (record (no_structs location) {
          pm = some (new_proc_mem fresh_total (pos location.logical_index));
          mem_values = cleared (fresh 4);
          pn = some (p, p, p);
          numa_values = cleared (fresh 4);
        })
    | machine ↦
        let p = new_proc_stat pid in
        some
          (record (no_structs location) { ps = some (p, p, p); stat_values = cleared (fresh 16) })
    | other_type ↦ none
  ]

  -- "Store variations"; `none` is a division by 0.
  unfoldable pub store_variations : Eventset D → Option (Eventset D)
  store_variations set = elim set.location.type [
    | machine ↦ elim set.ps [
      | none ↦ some set
      | some (old, current, diff) ↦ elim (proc_stat_cpuload old current) [
        | none ↦ none
        | some load ↦ some (record set {
          cpu_load = F.of_int (pos load);
          min_flt = F.of_int (pos ((diff.min_flt + diff.cmin_flt) % u64_mod));
          maj_flt = F.of_int (pos ((diff.maj_flt + diff.cmaj_flt) % u64_mod));
        })
      ]
    ]
    | pu ↦ elim set.pc [
      | none ↦ some set
      | some (old, current, diff) ↦ some (record set { cpu_load = proc_cpu_load F old current })
    ]
    | numanode ↦ some set
    | other_type ↦ some set
  ]

  -- The status, the eventset and the values written.
  unfoldable pub eventset_read : D → Files → Eventset D → Option (ℤ × Eventset D × List D)
  eventset_read absent files set = elim (store_variations (refresh files set)) [
    | none ↦ none
    | some after ↦ some (pos 0, after, map (value_of absent after) after.events)
  ]
