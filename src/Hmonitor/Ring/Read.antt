-- ===== src/Hmonitor/Ring/Read.antt =====
-- hmonitor.c: what `hmonitor_read` leaves in the ring.
use hierarchical_monitors.Prelude.{ℕ, ◌+◌, ◌%◌, ◌≤◌, ◌<◌, ◌≡◌, ◌≢◌, refl, get_or, arith}
use hierarchical_monitors.Prelude.Int.{◌-ℤ◌}
use hierarchical_monitors.Prelude.Floats.{Floats}
use hierarchical_monitors.Hmonitor.{
  u32_mod, Hmon, PerfLib, Timespec, nanoseconds, zero_double, hmonitor_get_event, hmonitor_read,
}
use hierarchical_monitors.Hmonitor.Ring.{
  ReadsRows, IsValid, next_place, next_inside, offset_lem, new_event, new_stamp, other_cell,
  owner_reads, after_read-IsValid, stamp,
}

module _ {D E : Type 0} (F : Floats D) {lib : PerfLib D E} (reads : ReadsRows lib) {m : Hmon D E}
    (v : IsValid reads m) where
  -- On a valid monitor the owner's `hmonitor_read` moves to the next place of the ring, counts
  -- itself modulo 2^32 and keeps the monitor valid.
  read-IsValid :
      (self : ℕ) (tp : Timespec)
      → m.owner ≡ self
      → let after = (hmonitor_read F lib self tp m).1 in
        IsValid reads after
        × (after.last ≡ (m.last + 1) % m.window)
        × (after.total ≡ (m.total + 1) % u32_mod)
  read-IsValid self tp h =
      rw (owner_reads F reads v self tp h) (after_read-IsValid F reads v tp, refl, refl)

  -- On a valid monitor the row that the owner's `hmonitor_read` reads is found at the place that
  -- `last` names afterwards: each event has the value that the performance library wrote for it,
  -- and the timestamp is the time since the last reset.
  pub read_new_row :
      (self c : ℕ) (tp : Timespec)
      → m.owner ≡ self
      → c < m.n_events
      → let after = (hmonitor_read F lib self tp m).1 in
        (hmonitor_get_event F lib after after.last c
          ≡ get_or (reads.row m.eventset) c (zero_double F lib))
        × (hmonitor_get_event F lib after after.last m.n_events
            ≡ F.of_int (nanoseconds tp -ℤ m.ref_time))
  unfolding hmonitor_get_event stamp
  read_new_row self c tp h k =
      rw
        (
          owner_reads F reads v self tp h,
          offset_lem F reads v (next_place F reads v) c (next_inside F reads v) (omega arith),
        )
        (
          new_event F reads v tp c k,
          rw
              (offset_lem F reads v (next_place F reads v) m.n_events (next_inside F reads v)
                (omega arith))
              (new_stamp F reads v tp),
        )

  -- On a valid monitor the owner's `hmonitor_read` leaves the events and the timestamps of all rows
  -- of the window but the next as they are.
  pub read_other_rows :
      (self i c : ℕ) (tp : Timespec)
      → m.owner ≡ self
      → i < m.window
      → i ≢ (m.last + 1) % m.window
      → c ≤ m.n_events
      → hmonitor_get_event F lib (hmonitor_read F lib self tp m).1 i c
        ≡ hmonitor_get_event F lib m i c
  unfolding hmonitor_get_event
  read_other_rows self i c tp h k ne l =
      rw (owner_reads F reads v self tp h, offset_lem F reads v i c k l)
        (other_cell F reads v tp i c k ne l)
