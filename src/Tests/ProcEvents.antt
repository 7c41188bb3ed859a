-- ===== src/Tests/ProcEvents.antt =====
-- proc_monitor.c: an eventset of a processing unit.
use hierarchical_monitors.Prelude.{
  ℕ, ◌⊎◌, ◌<◌, ◌≡◌, refl, none, some, List, [], ◌∷◌, replicate, length-replicate, codes,
}
use hierarchical_monitors.Prelude.Int.{ℤ, pos}
use hierarchical_monitors.Proc.{ProcCpu, new_proc_cpu, same_int}
use hierarchical_monitors.Proc.Cast.{proc_cpu_load}
use hierarchical_monitors.Proc.Update.{assign, scan_cpus, proc_cpu_update}
use hierarchical_monitors.Proc.Events.{pu, cpu_value}
use hierarchical_monitors.Proc.Eventset.{
  max_events, Place, Eventset, Files, value_of, eventset_init, eventset_read, cleared,
  store_variations, refresh, no_structs,
}
use hierarchical_monitors.Proc.Eventset.Stale.{read_all, read_all_stale}
use hierarchical_monitors.Proc.Eventset.Valid.{IsValid, add_all, init-add_all-IsValid}
use hierarchical_monitors.Tests.Doubles.{whole}

abbrev place : Place
place = record { type = pu; os_index = 0; logical_index = 0 }

abbrev fresh : ℕ → List ℤ
fresh n = replicate n (pos 3)

abbrev cpu : ProcCpu
cpu = new_proc_cpu (pos 0)

abbrev set : Eventset ℤ
set = record (no_structs whole place) {
  pc = some (cpu, cpu, cpu);
  cpu_values = pos 0 ∷ replicate 7 (pos 3);
}

abbrev files : Files
files = record {
  stat = none;
  cpus = some ((0 ∷ 5 ∷ 0 ∷ 3 ∷ 90 ∷ 1 ∷ 1 ∷ 0 ∷ []) ∷ []);
  mem = none;
  numa = none;
  clock = 1;
}

abbrev watching : Eventset ℤ
watching = record set { events = cpu_value 5 ∷ [] }

abbrev counted : ProcCpu
counted = record {
  cpu = pos 0;
  user = 5;
  nice = 0;
  system = 3;
  idle = 90;
  iowait = 1;
  irq = 1;
  softirq = 0;
}

abbrev later : Eventset ℤ
later = record watching {
  pc = some (cpu, counted, cpu);
  cpu_load = proc_cpu_load whole cpu counted;
}

reads : read_all whole (pos 0) (files ∷ []) watching ≡ some later
unfolding read_all eventset_read store_variations refresh new_proc_cpu proc_cpu_update scan_cpus
    assign same_int
reads = refl

read_all_stale_example :
    (value_of (pos 0) later (cpu_value 5) ≡ value_of (pos 0) watching (cpu_value 5))
    × (later.events ≡ watching.events)
read_all_stale_example =
    read_all_stale whole (pos 0) (files ∷ []) watching later (cpu_value 5) tt reads

makes : eventset_init whole fresh 0 42 place ≡ some set
unfolding eventset_init cleared
makes = refl

init-add_all-IsValid_example :
    ((add_all set (codes "iowait" ∷ codes "nothing" ∷ codes "cpuload" ∷ []) ≡ none)
      × (max_events < 3))
    ⊎ ((after : Eventset ℤ) × (add_all set (codes "iowait" ∷ codes "nothing" ∷ codes "cpuload" ∷ [])
          ≡ some after)
        × IsValid after)
init-add_all-IsValid_example =
    init-add_all-IsValid whole fresh 0 42 place set
      (codes "iowait" ∷ codes "nothing" ∷ codes "cpuload" ∷ []) (λ n. length-replicate n (pos 3))
      makes
