-- ===== src/Proc/Update.antt =====
-- lproc.c: what a read of /proc stores. The C library's scanning is a parameter: a file is what its
-- conversions give.
use hierarchical_monitors.Prelude.{
  ℕ, Bool, true, false, Option, none, some, List, [], ◌∷◌, if◌then◌else◌,
}
use hierarchical_monitors.Prelude.Int.{ℤ, pos, negsuc}
use hierarchical_monitors.Proc.{minus, same_int, ProcStat, ProcCpu, ProcMem, ProcNuma}

-- The conversions that matched go to the pointers in order.
unfoldable pub assign : {P : Type 0} → List (ℕ → P → P) → List ℕ → P → P
assign (field ∷ fields) (v ∷ values) p = assign fields values (field v p)
assign _ _ p = p

-- The pointers of the call of `fscanf` in `proc_stat_update`: the times come twice, where the second two
-- conversions are those of the children.
abbrev pub stat_fields : List (ℕ → ProcStat → ProcStat)
stat_fields =
    (λ v p. record p { pid = v })
    ∷ (λ v p. record p { state = v })
    ∷ (λ v p. record p { min_flt = v })
    ∷ (λ v p. record p { cmin_flt = v })
    ∷ (λ v p. record p { maj_flt = v })
    ∷ (λ v p. record p { cmaj_flt = v })
    ∷ (λ v p. record p { utime = v })
    ∷ (λ v p. record p { stime = v })
    ∷ (λ v p. record p { utime = v })
    ∷ (λ v p. record p { stime = v })
    ∷ (λ v p. record p { num_threads = v })
    ∷ (λ v p. record p { start_time = v })
    ∷ (λ v p. record p { vsize = v })
    ∷ (λ v p. record p { rss = v })
    ∷ (λ v p. record p { rsslim = v })
    ∷ (λ v p. record p { task_cpu = v })
    ∷ (λ v p. record p { blkio_ticks = v })
    ∷ []

-- The outer option is whether the file opens, the inner one whether the scan finds anything before the
-- end of the file.
unfoldable pub proc_stat_update : Option (Option (List ℕ)) → ℕ → ProcStat → ℤ × ProcStat
proc_stat_update none clock p = (negsuc 0, p)
proc_stat_update (some none) clock p = (negsuc 0, record p { timestamp = clock })
proc_stat_update (some (some values)) clock p =
    (pos 0, record (assign stat_fields values p) { timestamp = clock })

abbrev pub cpu_fields : List (ℕ → ProcCpu → ProcCpu)
cpu_fields =
    (λ v p. record p { user = v })
    ∷ (λ v p. record p { nice = v })
    ∷ (λ v p. record p { system = v })
    ∷ (λ v p. record p { idle = v })
    ∷ (λ v p. record p { iowait = v })
    ∷ (λ v p. record p { irq = v })
    ∷ (λ v p. record p { softirq = v })
    ∷ []

-- The loop over the lines, with the number of the cpu that the last line gave; a line that does not
-- begin with a cpu is empty here. Behind the last line the scan reports the end of the file.
unfoldable pub scan_cpus : List (List ℕ) → ℤ → ProcCpu → ℤ × ProcCpu
scan_cpus [] cpu_num p = (cpu_num, p)
scan_cpus ([] ∷ lines) cpu_num p =
    let rest = scan_cpus lines cpu_num p in if same_int cpu_num p.cpu then (cpu_num, p) else rest
scan_cpus ((n ∷ values) ∷ lines) cpu_num p =
    let rest = scan_cpus lines (pos n) (assign cpu_fields values p) in
    if same_int cpu_num p.cpu then (cpu_num, p) else rest

unfoldable pub proc_cpu_update : Option (List (List ℕ)) → ProcCpu → ℤ × ProcCpu
proc_cpu_update none p = (negsuc 0, p)
proc_cpu_update (some lines) p = scan_cpus lines (negsuc 0) p

-- What one call of `fscanf` with one conversion does.
pub data Scan : Type 0 where
  end_of_file : Scan
  no_match : Scan
  match : ℕ → Scan

-- The calls one after the other, each to its pointer, until one meets the end of the file.
unfoldable pub scan_each : {P : Type 0} → List (ℕ → P → P) → List Scan → P → Bool × P
scan_each [] scans p = (true, p)
scan_each (field ∷ fields) [] p = (false, p)
scan_each (field ∷ fields) (end_of_file ∷ scans) p = (false, p)
scan_each (field ∷ fields) (no_match ∷ scans) p = scan_each fields scans p
scan_each (field ∷ fields) (match v ∷ scans) p = scan_each fields scans (field v p)

-- `node` is negative for the whole machine, whose file has no line for the memory used.
unfoldable pub proc_mem_update : Option (List Scan) → ProcMem → ℤ × ProcMem
proc_mem_update none p = (negsuc 0, p)
proc_mem_update (some scans) p = elim p.node [
  | pos n ↦
      let (done, q) =
        scan_each
          ((λ v r. record r { total = v })
            ∷ (λ v r. record r { free = v })
            ∷ (λ v r. record r { used = v })
            ∷ [])
          scans p in
      (if done then pos 0 else negsuc 0, q)
  | negsuc n ↦
      let (done, q) =
        scan_each ((λ v r. record r { total = v }) ∷ (λ v r. record r { free = v }) ∷ []) scans p in
      if done then (pos 0, record q { used = minus q.total q.free }) else (negsuc 0, q)
]

unfoldable pub proc_numa_update : Option (List Scan) → ProcNuma → ℤ × ProcNuma
proc_numa_update none p = (negsuc 0, p)
proc_numa_update (some scans) p =
    let (done, q) =
      scan_each ((λ v r. record r { local = v }) ∷ (λ v r. record r { remote = v }) ∷ []) scans p in
    (if done then pos 0 else negsuc 0, q)

-- `total` is what `malloc` leaves there.
unfoldable pub new_proc_mem : ℕ → ℤ → ProcMem
new_proc_mem fresh node = record { node = node; total = fresh; free = 0; used = 0 }

unfoldable pub new_proc_numa : ℤ → ProcNuma
new_proc_numa node = record { node = node; local = 0; remote = 0 }
