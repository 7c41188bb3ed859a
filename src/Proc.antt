-- ===== src/Proc.antt =====
-- plugins/proc/lproc.c and proc.h: the counters of processes, cpus, memory and NUMA nodes. `unsigned
-- long` has 64 bits. `values`, the fields as doubles, and the names of files are left out of the records:
-- a cast is a function that returns the values.
pub mod Counters
pub mod Cast
pub mod Update
pub mod Events
pub mod Eventset
use hierarchical_monitors.Prelude.{
  ℕ, ◌+◌, ◌-◌, ◌*◌, ◌/◌, ◌%◌, ◌^◌, Bool, true, false, Option, none, some, List, [], ◌∷◌, ◌==◌, ltb,
  if◌then◌else◌,
}
use hierarchical_monitors.Prelude.Int.{ℤ, pos, negsuc, ◌-ℤ◌}
use hierarchical_monitors.Prelude.Floats.{Floats}

abbrev pub u64_mod : ℕ
u64_mod = 2 ^ 64

-- A difference of two `unsigned long`.
unfoldable pub minus : ℕ → ℕ → ℕ
minus a b = (a + u64_mod - b) % u64_mod

abbrev pub larger : ℕ → ℕ → ℕ
larger a b = if ltb b a then a else b

abbrev pub smaller : ℕ → ℕ → ℕ
smaller a b = if ltb a b then a else b

-- Whether two `int` are the same.
unfoldable pub same_int : ℤ → ℤ → Bool
same_int (pos a) (pos b) = a == b
same_int (pos a) (negsuc b) = false
same_int (negsuc a) (pos b) = false
same_int (negsuc a) (negsuc b) = a == b

pub record ProcStat : Type 0 where
  pub pid : ℕ
  pub state : ℕ
  pub min_flt : ℕ
  pub cmin_flt : ℕ
  pub maj_flt : ℕ
  pub cmaj_flt : ℕ
  pub utime : ℕ
  pub stime : ℕ
  pub cutime : ℤ
  pub cstime : ℤ
  pub num_threads : ℕ
  pub start_time : ℕ
  pub vsize : ℕ
  pub rss : ℕ
  pub rsslim : ℕ
  pub task_cpu : ℕ
  pub blkio_ticks : ℕ
  pub timestamp : ℕ

unfoldable pub new_proc_stat : ℕ → ProcStat
new_proc_stat pid = record {
  pid = pid;
  state = 82;
  min_flt = 0;
  cmin_flt = 0;
  maj_flt = 0;
  cmaj_flt = 0;
  utime = 0;
  stime = 0;
  cutime = pos 0;
  cstime = pos 0;
  num_threads = 0;
  start_time = 0;
  vsize = 0;
  rss = 0;
  rsslim = 0;
  task_cpu = 0;
  blkio_ticks = 0;
  timestamp = 0;
}

-- `res` keeps its process and state.
unfoldable pub proc_stat_diff : ProcStat → ProcStat → ProcStat → ProcStat
unfolding minus
proc_stat_diff res lhs rhs = record res {
  min_flt = minus lhs.min_flt rhs.min_flt;
  cmin_flt = minus lhs.cmin_flt rhs.cmin_flt;
  maj_flt = minus lhs.maj_flt rhs.maj_flt;
  cmaj_flt = minus lhs.cmaj_flt rhs.cmaj_flt;
  utime = minus lhs.utime rhs.utime;
  stime = minus lhs.stime rhs.stime;
  cutime = lhs.cutime -ℤ rhs.cutime;
  cstime = lhs.cstime -ℤ rhs.cstime;
  num_threads = larger lhs.num_threads rhs.num_threads;
  start_time = smaller lhs.start_time rhs.start_time;
  vsize = larger lhs.vsize rhs.vsize;
  rss = larger lhs.rss rhs.rss;
  rsslim = larger lhs.rsslim rhs.rsslim;
  task_cpu = lhs.task_cpu;
  blkio_ticks = minus lhs.blkio_ticks rhs.blkio_ticks;
  timestamp = minus lhs.timestamp rhs.timestamp;
}

-- The cpu time of both, twice over, as the code adds it.
unfoldable pub cpu_time : ProcStat → ℕ
cpu_time p = (p.utime + p.stime + p.utime + p.stime) % u64_mod

-- The quotient before it is made a double; `none` is a division by 0.
unfoldable pub divide : ℕ → ℕ → Option ℕ
divide a b = if b == 0 then none else some (a / b)

unfoldable pub proc_stat_cpuload : ProcStat → ProcStat → Option ℕ
proc_stat_cpuload old new =
    let usage = minus (cpu_time new) (cpu_time old) in
    if usage == 0
    then some usage
    else divide (100 * usage % u64_mod) (minus new.timestamp old.timestamp)

pub record ProcCpu : Type 0 where
  pub cpu : ℤ
  pub user : ℕ
  pub nice : ℕ
  pub system : ℕ
  pub idle : ℕ
  pub iowait : ℕ
  pub irq : ℕ
  pub softirq : ℕ

unfoldable pub new_proc_cpu : ℤ → ProcCpu
new_proc_cpu cpu = record {
  cpu = cpu;
  user = 0;
  nice = 0;
  system = 0;
  idle = 0;
  iowait = 0;
  irq = 0;
  softirq = 0;
}

unfoldable pub proc_cpu_diff : ProcCpu → ProcCpu → ProcCpu
unfolding minus same_int
proc_cpu_diff lhs rhs = record {
  cpu = if same_int lhs.cpu rhs.cpu then lhs.cpu else negsuc 0;
  user = minus lhs.user rhs.user;
  nice = minus lhs.nice rhs.nice;
  system = minus lhs.system rhs.system;
  idle = minus lhs.idle rhs.idle;
  iowait = minus lhs.iowait rhs.iowait;
  irq = minus lhs.irq rhs.irq;
  softirq = minus lhs.softirq rhs.softirq;
}

pub record ProcMem : Type 0 where
  pub node : ℤ
  pub total : ℕ
  pub free : ℕ
  pub used : ℕ

unfoldable pub proc_mem_load : ProcMem → Option ℕ
proc_mem_load p = if p.used == 0 then some 0 else divide (100 * p.used % u64_mod) p.total

unfoldable pub proc_mem_diff : ProcMem → ProcMem → ProcMem
unfolding minus same_int
proc_mem_diff lhs rhs = record {
  node = if same_int lhs.node rhs.node then lhs.node else negsuc 0;
  total = minus lhs.total rhs.total;
  free = minus lhs.free rhs.free;
  used = minus lhs.used rhs.used;
}

pub record ProcNuma : Type 0 where
  pub node : ℤ
  pub local : ℕ
  pub remote : ℕ

unfoldable pub proc_numa_diff : ProcNuma → ProcNuma → ProcNuma
unfolding minus same_int
proc_numa_diff lhs rhs = record {
  node = if same_int lhs.node rhs.node then lhs.node else negsuc 0;
  local = minus lhs.local rhs.local;
  remote = minus lhs.remote rhs.remote;
}
