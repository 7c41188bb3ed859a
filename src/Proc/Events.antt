-- ===== src/Proc/Events.antt =====
-- plugins/proc/proc_monitor.c: the events of the proc plugin, by the names that are theirs.
use hierarchical_monitors.Prelude.{
  ℕ, Option, none, some, List, [], ◌∷◌, if◌then◌else◌, codes, same_string,
}

pub data ObjType : Type 0 where
  pu numanode machine other_type : ObjType

-- What a pointer of `events` points to: a field of the eventset, or a place in the `values` of one of
-- the structs `pc[2]`, `pm`, `pn[2]` and `ps[2]`.
pub data Event : Type 0 where
  null : Event
  cpu_load_field : Event
  min_flt_field : Event
  maj_flt_field : Event
  cpu_value : ℕ → Event
  mem_value : ℕ → Event
  numa_value : ℕ → Event
  stat_value : ℕ → Event

-- The comparisons with the names of the events of a kind of object, in order.
unfoldable pub find_event : List (List ℕ × Event) → List ℕ → Option Event
find_event [] counter = none
find_event ((name, event) ∷ events) counter =
    let rest = find_event events counter in if same_string counter name then some event else rest

abbrev pub pu_events : List (List ℕ × Event)
pu_events =
    (codes "cpuload", cpu_load_field)
    ∷ (codes "iowait", cpu_value 5)
    ∷ (codes "irq", cpu_value 6)
    ∷ (codes "softirq", cpu_value 7)
    ∷ []

abbrev pub node_events : List (List ℕ × Event)
node_events =
    (codes "memtotal", mem_value 1)
    ∷ (codes "memused", mem_value 3)
    ∷ (codes "memfree", mem_value 2)
    ∷ (codes "local_hit", numa_value 1)
    ∷ (codes "remote_hit", numa_value 2)
    ∷ []

abbrev pub machine_events : List (List ℕ × Event)
machine_events =
    (codes "cpuload", cpu_load_field)
    ∷ (codes "minor_faults", min_flt_field)
    ∷ (codes "major_faults", maj_flt_field)
    ∷ (codes "vsize", stat_value 10)
    ∷ (codes "rss", stat_value 11)
    ∷ (codes "blkio_ticks", stat_value 14)
    ∷ []

-- On an object of another type the pointer stays NULL and is not tested.
unfoldable pub event_of : ObjType → List ℕ → Option Event
event_of pu counter = find_event pu_events counter
event_of numanode counter = find_event node_events counter
event_of machine counter = find_event machine_events counter
event_of other_type counter = some null

-- The names that `hmonitor_events_list` returns, in its order.
unfoldable pub events_list : List (List ℕ)
events_list =
    codes "cpuload"
    ∷ codes "minor_faults"
    ∷ codes "major_faults"
    ∷ codes "vsize"
    ∷ codes "rss"
    ∷ codes "blkio_ticks"
    ∷ codes "memtotal"
    ∷ codes "memfree"
    ∷ codes "memused"
    ∷ codes "local_hit"
    ∷ codes "remote_hit"
    ∷ codes "cpuload"
    ∷ codes "iowait"
    ∷ codes "irq"
    ∷ codes "softirq"
    ∷ []
