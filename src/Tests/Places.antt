-- ===== src/Tests/Places.antt =====
-- proc.c on a process with one child task, and hwloc_utils.c on a machine of cores.
use hierarchical_monitors.Prelude.{
  codes, same_string, none, ◌+◌, ◌*◌, if◌then◌else◌, arith, ℕ, ◌≡◌, refl, Bool, true, false, not,
  ◌||◌, ◌==◌, some,
}
use hierarchical_monitors.Prelude.Int.{pos, negsuc}
use hierarchical_monitors.Placement.{
  Bitmaps, scanned, ProcTask, state_running, Task, task, nil, cons, proc_get_running_cpuset,
}
use hierarchical_monitors.Placement.Running.{IsBitmaps, RunsOn, running_lem}
use hierarchical_monitors.Locations.{at, unknown}
use hierarchical_monitors.Hmonitor.Create.{decimal}
use hierarchical_monitors.Locations.Names.{
  Naming, location_name, location_parse, location_parse-name,
}
use hierarchical_monitors.Tests.Traces.{atoi}

abbrev sets : Bitmaps (ℕ → Bool)
sets = record {
  bitmap_zero = λ i. false;
  bitmap_fill = λ i. true;
  bitmap_set = λ c p i. (p == i) || c i;
  bitmap_sscanf = λ text i. not (i == 0);
}

sets-IsBitmaps : IsBitmaps sets
sets-IsBitmaps = record { member = λ c i. c i; zero_lem = λ i. refl; set_lem = λ c p i. refl }

abbrev stack : ProcTask
stack = record { pu_num = 0; state = 0 }

-- The process sleeps, its task runs on processing unit 3.
abbrev process : Task
process = task (scanned 83 1) (cons (task (scanned state_running 3) nil) nil)

running_lem_example :
    (RunsOn stack 3 (pos 1) process → proc_get_running_cpuset sets stack process (pos 1) 3 ≡ true)
    × (proc_get_running_cpuset sets stack process (pos 1) 3 ≡ true → RunsOn stack 3 (pos 1) process)
unfolding proc_get_running_cpuset sets-IsBitmaps
running_lem_example = running_lem sets-IsBitmaps stack 3 process (pos 1)

-- The cores have depth 2, and object 20 + i is the core i.
abbrev naming : Naming
naming = record {
  type_name = λ type. codes "Core";
  sscanf_as_depth = λ name. if same_string name (codes "Core") then at 2 else unknown;
  obj_by_depth = λ depth index. elim index [ pos n ↦ some (10 * depth + n) | negsuc n ↦ none ];
  atoi = atoi;
}

location_parse-name_example :
    (location_parse naming (location_name naming 3 17) ≡ some 37)
    × (location_parse naming (codes "Core") ≡ some 20)
unfolding same_string decimal
location_parse-name_example =
    location_parse-name naming 3 2 17 37
      (omega arith, (omega arith, (omega arith, (omega arith, tt)))) (λ e. cc e) (omega arith) refl
      refl refl
