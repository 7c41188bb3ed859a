-- ===== src/Hmonitor.antt =====
-- hmon/hmonitor.h and hmonitor.c: a monitor, its ring of event rows and what it reduces them to.
pub mod Lock
pub mod Create
pub mod Ring
pub mod Reset
pub mod Reduce
use hierarchical_monitors.Prelude.{
  ℕ, zero, suc, ◌+◌, ◌-◌, ◌*◌, ◌%◌, ◌^◌, Bool, true, false, ◌||◌, Option, none, some, List, [], ◌∷◌,
  ◌++◌, ◌==◌, if◌then◌else◌, take, drop, set, get_or,
}
use hierarchical_monitors.Prelude.Int.{ℤ, pos, negsuc, ◌-ℤ◌}
use hierarchical_monitors.Prelude.Floats.{Floats}

abbrev pub u32_mod : ℕ
u32_mod = 2 ^ 32

-- `pthread_mutex_t`; a call on an `invalid` one fails with an error other than EBUSY.
pub data Mutex : Type 0 where
  unlocked locked invalid : Mutex

-- `struct hmon`, over the type of doubles and the performance library's eventset. Threads, topology
-- objects, files and reduction functions are numbers. The library's function pointers are `PerfLib`.
pub record Hmon (D E : Type 0) : Type 0 where
  pub id : List ℕ
  pub location : ℕ
  pub ref_time : ℤ
  pub eventset : E
  pub events : List D
  pub n_events : ℕ
  pub window : ℕ
  pub last : ℕ
  pub total : ℕ
  pub labels : List (List ℕ)
  pub samples : List D
  pub max : List D
  pub min : List D
  pub n_samples : ℕ
  pub model : Option ℕ
  pub output : Option ℕ
  pub display : ℕ
  pub stopped : Bool
  pub owner : ℕ
  pub mutex : Mutex

-- The functions that a performance plugin implements (plugins/performance_plugin.h), with their status
-- and the eventset they leave. `eventset_read` is handed what stands from `values` on in memory.
pub record PerfLib (D E : Type 0) : Type 0 where
  pub eventset_start : E → ℤ × E
  pub eventset_stop : E → ℤ × E
  pub eventset_reset : E → ℤ × E
  pub eventset_read : E → List D → ℤ × E × List D

-- `struct timespec`
pub record Timespec : Type 0 where
  pub tv_sec : ℕ
  pub tv_nsec : ℕ

abbrev pub nanoseconds : Timespec → ℤ
nanoseconds tp = pos (1000000000 * tp.tv_sec + tp.tv_nsec)

abbrev pub failed : ℤ → Bool
failed (pos n) = false
failed (negsuc n) = n == 0

-- `for(i=0;i<n;i++){xs[i] = v;}`
unfoldable pub fill : {A : Type 0} → ℕ → A → List A → List A
fill zero v xs = xs
fill (suc n) v [] = []
fill (suc n) v (x ∷ xs) = v ∷ fill n v xs

-- `for(i=0;i<n;i++){old[i] = better old[i] new[i] ? old[i] : new[i];}`
unfoldable pub keep_better : {D : Type 0} → (D → D → Bool) → ℕ → List D → List D → List D
keep_better better zero old new = old
keep_better better (suc n) [] new = []
keep_better better (suc n) (x ∷ old) [] = x ∷ old
keep_better better (suc n) (x ∷ old) (y ∷ new) =
    (if better x y then x else y) ∷ keep_better better n old new

module _ {D E : Type 0} where
  -- The index in `events` of a row.
  abbrev pub row_offset : Hmon D E → ℕ → ℕ
  row_offset m i = i * (m.n_events + 1) % u32_mod

  abbrev pub timestamp_index : Hmon D E → ℕ → ℕ
  timestamp_index m i = (i * (m.n_events + 1) + m.n_events) % u32_mod

  -- What stands from the pointer returned on.
  unfoldable pub hmonitor_get_events : Hmon D E → ℕ → List D
  hmonitor_get_events m i = drop (row_offset m i) m.events

module _ {D E : Type 0} (F : Floats D) (lib : PerfLib D E) where
  abbrev pub zero_double : D
  zero_double = F.of_int (pos 0)

  unfoldable pub hmonitor_get_event : Hmon D E → ℕ → ℕ → D
  hmonitor_get_event m row event =
      get_or m.events ((row * (m.n_events + 1) + event) % u32_mod) zero_double

  unfoldable pub hmonitor_get_timestamp : Hmon D E → ℕ → ℤ
  hmonitor_get_timestamp m i = F.to_long (get_or m.events (timestamp_index m i) zero_double)

  unfoldable pub hmonitor_set_timestamp : Hmon D E → ℤ → Hmon D E
  hmonitor_set_timestamp m timestamp = record m {
    events = set m.events (timestamp_index m m.last) (F.of_int timestamp);
  }

  unfoldable pub hmonitor_reset : Timespec → Hmon D E → Hmon D E
  hmonitor_reset tp m = record m {
    last = (m.window + u32_mod - 1) % u32_mod;
    total = 0;
    stopped = true;
    events = fill ((m.window * m.n_events + 1) % u32_mod) zero_double m.events;
    samples = fill m.n_samples zero_double m.samples;
    max = fill m.n_samples F.dbl_min m.max;
    min = fill m.n_samples F.dbl_max m.min;
    eventset = (lib.eventset_reset m.eventset).1;
    ref_time = nanoseconds tp;
  }

  -- The row that the next read goes to, with its time.
  unfoldable pub advance : Timespec → Hmon D E → Hmon D E
  unfolding hmonitor_set_timestamp
  advance tp m =
      hmonitor_set_timestamp
        (record m { last = (m.last + 1) % u32_mod % m.window; total = (m.total + 1) % u32_mod })
        (nanoseconds tp -ℤ m.ref_time)

  unfoldable pub read_row : Hmon D E → ℤ × Hmon D E
  unfolding hmonitor_get_events
  read_row m =
      let (status, eventset, values) =
        lib.eventset_read m.eventset (hmonitor_get_events m m.last) in
      (
        if failed status then negsuc 0 else pos 1,
        record m { eventset = eventset; events = take (row_offset m m.last) m.events ++ values },
      )

  unfoldable pub hmonitor_read : ℕ → Timespec → Hmon D E → ℤ × Hmon D E
  hmonitor_read self tp m = if m.owner == self then read_row (advance tp m) else (pos 0, m)

  -- A reduction function may change the whole monitor; `call_model` says what each does.
  unfoldable pub run_model : (ℕ → Hmon D E → Hmon D E) → Hmon D E → Hmon D E
  unfolding hmonitor_get_events
  run_model call_model m = elim m.model [
    | some function ↦ call_model function m
    | none ↦ record m {
      samples = take m.n_samples (hmonitor_get_events m m.last) ++ drop m.n_samples m.samples;
    }
  ]

  unfoldable pub update_extrema : Hmon D E → Hmon D E
  update_extrema m = record m {
    max = keep_better F.gtb m.n_samples m.max m.samples;
    min = keep_better F.ltb m.n_samples m.min m.samples;
  }

  unfoldable pub hmonitor_reduce : (ℕ → Hmon D E → Hmon D E) → ℕ → Hmon D E → ℤ × Hmon D E
  hmonitor_reduce call_model self m =
      if m.owner == self then (pos 1, update_extrema (run_model call_model m)) else (pos 0, m)

  -- What `hmonitor_output` prints: the location, the timestamp of the last row and the samples.
  unfoldable pub hmonitor_output : ℕ → Bool → Hmon D E → Option (ℕ × ℤ × List D)
  hmonitor_output self force m = elim m.output [
    | none ↦ none
    | some file ↦
        if m.owner == self || force
        then some (m.location, hmonitor_get_timestamp m m.last, take m.n_samples m.samples)
        else none
  ]
