-- ===== src/Synchronize.antt =====
-- synchronize.c: the order of the monitors, and what the threads that update them do.
pub mod Order
pub mod Exclusion
pub mod Barrier
pub mod Walk
pub mod Registry
use hierarchical_monitors.Prelude.{
  ℕ, Bool, true, false, not, ◌&&◌, Option, none, some, List, [], ◌∷◌, ◌==◌, ltb, if◌then◌else◌,
}
use hierarchical_monitors.Prelude.Int.{ℤ, pos, negsuc}
use hierarchical_monitors.Prelude.Floats.{Floats}
use hierarchical_monitors.Hmonitor.{Hmon, PerfLib, Timespec, hmonitor_read, hmonitor_reduce}
use hierarchical_monitors.Hmonitor.Lock.{hmonitor_start, hmonitor_stop}

-- The result of `strcmp`, by its sign.
unfoldable pub strcmp : List ℕ → List ℕ → ℤ
strcmp [] [] = pos 0
strcmp [] (y ∷ b) = negsuc 0
strcmp (x ∷ a) [] = pos 1
strcmp (x ∷ a) (y ∷ b) =
    let rest = strcmp a b in if ltb x y then negsuc 0 else if ltb y x then pos 1 else rest

abbrev pub is_set : Option ℕ → Bool
is_set none = false
is_set (some file) = true

-- hwloc's `depth` and `logical_index` of an object.
pub record Topology : Type 0 where
  pub depth : ℕ → ℕ
  pub logical_index : ℕ → ℕ

-- The comparisons of `hmon_compare` up to the ids, on what they compare.
unfoldable pub compare_places : ℕ → ℕ → ℕ → ℕ → ℤ → ℤ
compare_places depth_a depth_b index_a index_b rest =
    if ltb depth_b depth_a
    then negsuc 0
    else if ltb depth_a depth_b
    then pos 1
    else if ltb index_a index_b
    then negsuc 0
    else if ltb index_b index_a
    then pos 1
    else rest

unfoldable pub compare_flags : Bool → Bool → ℤ → ℤ
compare_flags a b rest = if a && not b then negsuc 0 else if not a && b then pos 1 else rest

unfoldable pub hmon_compare : {D E : Type 0} → Topology → Hmon D E → Hmon D E → ℤ
unfolding compare_places compare_flags strcmp
hmon_compare topology a b =
    compare_places (topology.depth a.location) (topology.depth b.location)
      (topology.logical_index a.location) (topology.logical_index b.location)
      (compare_flags (not (a.display == 0)) (not (b.display == 0))
        (compare_flags (is_set a.output) (is_set b.output) (strcmp a.id b.id)))

-- The calls on a monitor that `hmonitor_thread` makes through `hmon_update_location`.
pub data Call : Type 0 where
  stop : Call
  read : Timespec → Call
  reduce : Call
  start : Call

module _ {D E : Type 0} (F : Floats D) (lib : PerfLib D E)
    (call_model : ℕ → Hmon D E → Hmon D E) where
  unfoldable pub perform : ℕ → Call → Hmon D E → Hmon D E
  unfolding hmonitor_stop hmonitor_read hmonitor_reduce hmonitor_start
  perform self stop m = (hmonitor_stop lib self m).1
  perform self (read tp) m = (hmonitor_read F lib self tp m).1
  perform self reduce m = (hmonitor_reduce F lib call_model self m).1
  perform self start m = (hmonitor_start lib self m).1

  -- The calls of several threads, in the order in which they come to the monitor.
  unfoldable pub perform_all : List (ℕ × Call) → Hmon D E → Hmon D E
  unfolding perform
  perform_all [] m = m
  perform_all ((self, call) ∷ calls) m = perform_all calls (perform self call m)

-- What one thread calls on a monitor between two of the barriers' rounds.
unfoldable pub thread_calls : ℕ → Timespec → List (ℕ × Call)
thread_calls self tp = (self, stop) ∷ (self, read tp) ∷ (self, reduce) ∷ (self, start) ∷ []
