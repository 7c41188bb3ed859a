-- ===== src/Proc/Cast.antt =====
-- lproc.c: the fields as doubles, in the order in which the plugin numbers its events.
use hierarchical_monitors.Prelude.{◌+◌, List, [], ◌∷◌, ◌%◌, Bool, true, if◌then◌else◌, not}
use hierarchical_monitors.Prelude.Int.{pos}
use hierarchical_monitors.Prelude.Floats.{Floats}
use hierarchical_monitors.Proc.{u64_mod, minus, ProcStat, ProcCpu, ProcMem, ProcNuma}

module _ {D : Type 0} (F : Floats D) where
  unfoldable pub proc_stat_cast_double : ProcStat → List D
  proc_stat_cast_double p =
      F.of_int (pos p.min_flt)
      ∷ F.of_int (pos p.cmin_flt)
      ∷ F.of_int (pos p.maj_flt)
      ∷ F.of_int (pos p.cmaj_flt)
      ∷ F.of_int (pos p.utime)
      ∷ F.of_int (pos p.stime)
      ∷ F.of_int p.cutime
      ∷ F.of_int p.cstime
      ∷ F.of_int (pos p.num_threads)
      ∷ F.of_int (pos p.start_time)
      ∷ F.of_int (pos p.vsize)
      ∷ F.of_int (pos p.rss)
      ∷ F.of_int (pos p.rsslim)
      ∷ F.of_int (pos p.task_cpu)
      ∷ F.of_int (pos p.blkio_ticks)
      ∷ F.of_int (pos p.timestamp)
      ∷ []

  unfoldable pub proc_cpu_cast_double : ProcCpu → List D
  proc_cpu_cast_double p =
      F.of_int p.cpu
      ∷ F.of_int (pos p.user)
      ∷ F.of_int (pos p.nice)
      ∷ F.of_int (pos p.system)
      ∷ F.of_int (pos p.idle)
      ∷ F.of_int (pos p.iowait)
      ∷ F.of_int (pos p.irq)
      ∷ F.of_int (pos p.softirq)
      ∷ []

  unfoldable pub proc_mem_cast_double : ProcMem → List D
  proc_mem_cast_double p =
      F.of_int p.node ∷ F.of_int (pos p.total) ∷ F.of_int (pos p.free) ∷ F.of_int (pos p.used) ∷ []

  -- The fourth value is not written.
  unfoldable pub proc_numa_cast_double : ProcNuma → List D
  proc_numa_cast_double p = F.of_int p.node ∷ F.of_int (pos p.local) ∷ F.of_int (pos p.remote) ∷ []

  -- `x == 0` on doubles that are not NaN.
  abbrev is_zero : D → Bool
  is_zero x = not (if F.ltb x (F.of_int (pos 0)) then true else F.gtb x (F.of_int (pos 0)))

  unfoldable pub proc_cpu_load : ProcCpu → ProcCpu → D
  unfolding minus
  proc_cpu_load old new =
      let busy = λ (p : ProcCpu). (p.user + p.nice + p.system) % u64_mod in
      let usage = F.of_int (pos (minus (busy new) (busy old))) in
      if is_zero usage
      then F.of_int (pos 0)
      else F.div (F.mul (F.of_int (pos 100)) usage)
          (F.add usage (F.of_int (pos (minus new.idle old.idle))))
