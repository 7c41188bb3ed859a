-- ===== src/Hmonitor/Ring/Failed.antt =====
-- hmonitor.c: reads of performance libraries of which nothing is known but the sizes they keep.
use native.Mathlib.Nat.{mod-lt}
use hierarchical_monitors.Prelude.{
  ℕ, ◌+◌, ◌*◌, ◌%◌, ◌<◌, ◌≡◌, ◌⊎◌, inl, inr, refl, ap, ◌∙◌, List, length, length-append,
  length-take, length-drop, length-set, take, drop, Bool-cases, arith,
}
use hierarchical_monitors.Prelude.Int.{pos, negsuc}
use hierarchical_monitors.Prelude.Floats.{Floats}
use hierarchical_monitors.Hmonitor.{
  u32_mod, Hmon, PerfLib, Timespec, failed, row_offset, hmonitor_get_events, advance, read_row,
  hmonitor_read,
}

-- A read leaves the number of events and the size of the buffer as they were, whatever it writes and
-- returns.
pub record KeepsSizes {D E : Type 0} (lib : PerfLib D E) (events_in : E → ℕ) : Type 0 where
  pub keeps_events :
      (e : E) (values : List D) → events_in (lib.eventset_read e values).1 ≡ events_in e
  pub keeps_length :
      (e : E) (values : List D) → length (lib.eventset_read e values).2 ≡ length values

-- A buffer with a row of events and a timestamp for each place of the window.
pub record IsRing {D E : Type 0} (events_in : E → ℕ) (m : Hmon D E) : Type 0 where
  pub rows : length m.events ≡ m.window * (m.n_events + 1)
  pub bounded : m.window * (m.n_events + 1) < u32_mod
  pub room : 0 < m.window
  pub inside : m.last < m.window
  pub counted : events_in m.eventset ≡ m.n_events

module _ {D E : Type 0} (F : Floats D) (lib : PerfLib D E) {events_in : E → ℕ}
    (sizes : KeepsSizes lib events_in) where
  read_row-IsRing : (m : Hmon D E) → IsRing events_in m → IsRing events_in (read_row F lib m).1
  unfolding read_row hmonitor_get_events
  read_row-IsRing m v =
      let off = row_offset m m.last in
      let read = lib.eventset_read m.eventset (drop off m.events) in
      record {
        rows = omega (
          arith,
          length-append (take off m.events) read.2,
          length-take off m.events,
          length-drop off m.events,
          sizes.keeps_length m.eventset (drop off m.events),
          v.rows,
        );
        bounded = v.bounded;
        room = v.room;
        inside = v.inside;
        counted = sizes.keeps_events m.eventset (drop off m.events) ∙ v.counted;
      }

  advance-IsRing :
      (m : Hmon D E) (tp : Timespec) → IsRing events_in m → IsRing events_in (advance F lib tp m)
  unfolding advance
  advance-IsRing m tp v = record {
    rows = length-set m.events _ _ ∙ v.rows;
    bounded = v.bounded;
    room = v.room;
    inside = mod-lt ((m.last + 1) % u32_mod) v.room;
    counted = v.counted;
  }

  owner_reads :
      (self : ℕ) (tp : Timespec) (m : Hmon D E)
      → m.owner ≡ self
      → hmonitor_read F lib self tp m ≡ read_row F lib (advance F lib tp m)
  unfolding hmonitor_read
  owner_reads self tp m mine = ground (arith, mine)

  advance_lem :
      (tp : Timespec) (m : Hmon D E)
      → ((advance F lib tp m).last ≡ (m.last + 1) % u32_mod % m.window)
        × ((advance F lib tp m).total ≡ (m.total + 1) % u32_mod)
  unfolding advance
  advance_lem tp m = (refl, refl)

  read_row_lem :
      (m : Hmon D E)
      → ((read_row F lib m).1.last ≡ m.last)
        × ((read_row F lib m).1.total ≡ m.total)
        × (((read_row F lib m).0 ≡ pos 1) ⊎ ((read_row F lib m).0 ≡ negsuc 0))
  unfolding read_row
  read_row_lem m = (
    refl,
    refl,
    elim (Bool-cases (failed (lib.eventset_read m.eventset (hmonitor_get_events m m.last)).0)) [
      | inl fails ↦ inr (ground (arith, fails))
      | inr works ↦ inl (ground (arith, works))
    ],
  )

  -- With a performance library that keeps the number of its events and the size of the buffer,
  -- whatever it writes, returns or fails at: the owner's `hmonitor_read` of a monitor with a row
  -- and a timestamp for each place of its window returns 1 or -1, moves to the next place of the
  -- ring, counts itself modulo 2^32 and leaves such a monitor.
  pub read-IsRing :
      (self : ℕ) (tp : Timespec) (m : Hmon D E)
      → m.owner ≡ self
      → IsRing events_in m
      → let (result, after) = hmonitor_read F lib self tp m in
        IsRing events_in after
        × (after.last ≡ (m.last + 1) % m.window)
        × (after.total ≡ (m.total + 1) % u32_mod)
        × ((result ≡ pos 1) ⊎ (result ≡ negsuc 0))
  read-IsRing self tp m mine v =
      let small : (m.last + 1) % u32_mod ≡ m.last + 1 = omega (arith, v) in
      let ahead = advance F lib tp m in
      let whole = owner_reads self tp m mine in
      let ring = read_row-IsRing ahead (advance-IsRing m tp v) in
      let (same_last, same_total, result) = read_row_lem ahead in
      let (last, total) = advance_lem tp m in
      rw whole (ring, same_last ∙ last ∙ ap (λ k. k % m.window) small, same_total ∙ total, result)
