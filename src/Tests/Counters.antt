-- ===== src/Tests/Counters.antt =====
-- lproc.c on two readings of a process, and on a memory that is half used.
use hierarchical_monitors.Prelude.{◌-◌, ◌^◌, ◌≡◌, arith}
use hierarchical_monitors.Proc.{ProcStat, new_proc_stat, proc_stat_diff}
use hierarchical_monitors.Proc.Counters.{Fits, counted_on, stat_diff-counted_on}

abbrev blank : ProcStat
unfolding new_proc_stat
blank = new_proc_stat 12

-- A counter close to its wrap-around.
abbrev old : ProcStat
old = record blank { min_flt = 2 ^ 64 - 1; utime = 40 }

abbrev more : ProcStat
more = record blank { min_flt = 3; utime = 2; timestamp = 9 }

old-Fits : Fits old
unfolding new_proc_stat
old-Fits = record {
  min_flt_fits = omega arith;
  cmin_flt_fits = omega arith;
  maj_flt_fits = omega arith;
  cmaj_flt_fits = omega arith;
  utime_fits = omega arith;
  stime_fits = omega arith;
  blkio_ticks_fits = omega arith;
  timestamp_fits = omega arith;
}

more-Fits : Fits more
unfolding new_proc_stat
more-Fits = record {
  min_flt_fits = omega arith;
  cmin_flt_fits = omega arith;
  maj_flt_fits = omega arith;
  cmaj_flt_fits = omega arith;
  utime_fits = omega arith;
  stime_fits = omega arith;
  blkio_ticks_fits = omega arith;
  timestamp_fits = omega arith;
}

stat_diff-counted_on_example :
    let diff = proc_stat_diff blank (counted_on old more) old in
    (diff.min_flt ≡ more.min_flt)
    × (diff.cmin_flt ≡ more.cmin_flt)
    × (diff.maj_flt ≡ more.maj_flt)
    × (diff.cmaj_flt ≡ more.cmaj_flt)
    × (diff.utime ≡ more.utime)
    × (diff.stime ≡ more.stime)
    × (diff.blkio_ticks ≡ more.blkio_ticks)
    × (diff.timestamp ≡ more.timestamp)
stat_diff-counted_on_example = stat_diff-counted_on blank old more old-Fits more-Fits
