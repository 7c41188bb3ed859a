-- ===== src/Proc/Counters.antt =====
-- lproc.c: differences of counters, and the load of memory.
use native.Mathlib.Decide.{ℕ_discrete}
use native.Mathlib.Nat.{mod-eq_of_lt, div-le_of_le-mul, div-mul-le_self, lt-div-mul-add}
use hierarchical_monitors.Prelude.{
  some, refl, ℕ, ◌+◌, ◌*◌, ◌/◌, ◌%◌, ◌≤◌, ◌<◌, ◌≡◌, ◌≢◌, false, arith, ◌==◌,
}
use hierarchical_monitors.Proc.{
  u64_mod, minus, ProcStat, proc_stat_diff, ProcMem, proc_mem_load, divide,
}

-- What was counted between two readings of a counter of 64 bits, also where it wrapped in between.
minus_lem :
    (old counted : ℕ)
    → old < u64_mod
    → counted < u64_mod
    → minus ((old + counted) % u64_mod) old ≡ counted
unfolding minus
minus_lem old counted h k = omega arith

-- The counters of a process after more was counted, each modulo 2^64.
abbrev pub counted_on : ProcStat → ProcStat → ProcStat
counted_on old more = record old {
  min_flt = (old.min_flt + more.min_flt) % u64_mod;
  cmin_flt = (old.cmin_flt + more.cmin_flt) % u64_mod;
  maj_flt = (old.maj_flt + more.maj_flt) % u64_mod;
  cmaj_flt = (old.cmaj_flt + more.cmaj_flt) % u64_mod;
  utime = (old.utime + more.utime) % u64_mod;
  stime = (old.stime + more.stime) % u64_mod;
  blkio_ticks = (old.blkio_ticks + more.blkio_ticks) % u64_mod;
  timestamp = (old.timestamp + more.timestamp) % u64_mod;
}

-- The fields that `counted_on` counts fit in 64 bits.
pub record Fits (p : ProcStat) : Type 0 where
  pub min_flt_fits : p.min_flt < u64_mod
  pub cmin_flt_fits : p.cmin_flt < u64_mod
  pub maj_flt_fits : p.maj_flt < u64_mod
  pub cmaj_flt_fits : p.cmaj_flt < u64_mod
  pub utime_fits : p.utime < u64_mod
  pub stime_fits : p.stime < u64_mod
  pub blkio_ticks_fits : p.blkio_ticks < u64_mod
  pub timestamp_fits : p.timestamp < u64_mod

-- `proc_stat_diff` of two readings gives what was counted between them, for the counters of 64 bits
-- of a process and its timestamp, also where they wrapped in between, if less than 2^64 was
-- counted.
pub stat_diff-counted_on :
    (res old more : ProcStat)
    → Fits old
    → Fits more
    → let diff = proc_stat_diff res (counted_on old more) old in
      (diff.min_flt ≡ more.min_flt)
      × (diff.cmin_flt ≡ more.cmin_flt)
      × (diff.maj_flt ≡ more.maj_flt)
      × (diff.cmaj_flt ≡ more.cmaj_flt)
      × (diff.utime ≡ more.utime)
      × (diff.stime ≡ more.stime)
      × (diff.blkio_ticks ≡ more.blkio_ticks)
      × (diff.timestamp ≡ more.timestamp)
unfolding proc_stat_diff
stat_diff-counted_on res old more a b = (
  minus_lem old.min_flt more.min_flt a.min_flt_fits b.min_flt_fits,
  minus_lem old.cmin_flt more.cmin_flt a.cmin_flt_fits b.cmin_flt_fits,
  minus_lem old.maj_flt more.maj_flt a.maj_flt_fits b.maj_flt_fits,
  minus_lem old.cmaj_flt more.cmaj_flt a.cmaj_flt_fits b.cmaj_flt_fits,
  minus_lem old.utime more.utime a.utime_fits b.utime_fits,
  minus_lem old.stime more.stime a.stime_fits b.stime_fits,
  minus_lem old.blkio_ticks more.blkio_ticks a.blkio_ticks_fits b.blkio_ticks_fits,
  minus_lem old.timestamp more.timestamp a.timestamp_fits b.timestamp_fits,
)

differ : (a b : ℕ) → a ≢ b → (a == b) ≡ false
differ a b h = ground arith

-- `proc_mem_load` gives the percentage of memory used, rounded down, and so at most 100, where some
-- memory is there, no more of it is used than there is, and 100 times the total fits in 64 bits.
mem_load_bound :
    (p : ProcMem)
    → 0 < p.total
    → p.used ≤ p.total
    → p.total * 100 < u64_mod
    → (load : ℕ) × (proc_mem_load p ≡ some load)
      × (load ≤ 100)
      × (load * p.total ≤ 100 * p.used)
      × (100 * p.used < (load + 1) * p.total)
unfolding proc_mem_load divide
mem_load_bound p h k l =
    let small : 100 * p.used % u64_mod ≡ 100 * p.used = mod-eq_of_lt (omega arith) in
    let share : 100 * p.used / p.total ≤ 100 = div-le_of_le-mul p.total (omega arith) in
    let back = div-mul-le_self (100 * p.used) p.total in
    let above : 100 * p.used < 100 * p.used / p.total * p.total + p.total = lt-div-mul-add h in
    elim (ℕ_discrete p.used 0) [
      | yes e ↦ (0, rw e refl, omega arith, omega arith, omega arith)
      | no ne ↦ (
        100 * p.used / p.total,
        rw (differ p.used 0 ne, small) (rw (differ p.total 0 (omega arith)) refl),
        share,
        back,
        omega (arith, above),
      )
    ]
