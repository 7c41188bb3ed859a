-- ===== src/Hmonitor/Ring.antt =====
-- hmonitor.c: the ring of rows in `events`, of which the last cell of each holds its timestamp.
pub mod History
pub mod Read
pub mod Failed
use hierarchical_monitors.Prelude.{
  ℕ, zero, suc, ◌+◌, ◌-◌, ◌*◌, ◌%◌, ◌≤◌, ◌<◌, ◌≡◌, ◌≢◌, ◌⊎◌, inl, inr, refl, ap, sym, ◌∙◌, Bool,
  true, false, List, ◌++◌, length, take, drop, set, get_or, splice, length-splice, length-set,
  get_or-splice_inside, get_or-splice_before, get_or-splice_after, get_or-set_self, get_or-set_ne,
  arith, ◌==◌, if◌then◌else◌, length-drop, drop-drop,
}
use hierarchical_monitors.Prelude.Int.{ℤ, pos, negsuc, ◌-ℤ◌}
use hierarchical_monitors.Prelude.Floats.{Floats}
use hierarchical_monitors.Hmonitor.{
  u32_mod, Hmon, PerfLib, Timespec, nanoseconds, failed, row_offset, timestamp_index, zero_double,
  hmonitor_get_event, hmonitor_read, advance, read_row, hmonitor_get_events, hmonitor_set_timestamp,
}
use native.Mathlib.Decide.{dec_lt, ℕ_discrete}
use native.Mathlib.Nat.{mod-lt, mod-eq_of_lt}

-- A performance library whose `eventset_read`, whatever it returns, writes one value for each event of the
-- eventset, touches nothing behind them, and leaves the number of events as it was, as the fake plugin's
-- does. Ring/Failed is about libraries that may fail and write nothing.
pub record ReadsRows {D E : Type 0} (lib : PerfLib D E) : Type 0 where
  pub events_in : E → ℕ
  pub row : E → List D
  pub next : E → E
  pub length-row : (e : E) → length (row e) ≡ events_in e
  pub writes :
      (e : E) (values : List D)
      → (lib.eventset_read e values).2 ≡ row e ++ drop (events_in e) values
  pub moves : (e : E) (values : List D) → (lib.eventset_read e values).1 ≡ next e
  pub keeps : (e : E) → events_in (next e) ≡ events_in e

module _ {D E : Type 0} {lib : PerfLib D E} (reads : ReadsRows lib) where
  -- A monitor with a row of events and a timestamp for each place in its window.
  pub record IsValid (m : Hmon D E) : Type 0 where
    pub rows : length m.events ≡ m.window * (m.n_events + 1)
    pub bounded : m.window * (m.n_events + 1) < u32_mod
    pub room : 0 < m.window
    pub inside : m.last < m.window
    pub counted : reads.events_in m.eventset ≡ m.n_events

-- The cells of row `i` lie inside the buffer, and those of different rows apart.
cell_inside : (i c w n : ℕ) → i < w → c ≤ n → i * (n + 1) + c < w * (n + 1)
cell_inside i c w n h k = grind arith

cell_before : (i j c n : ℕ) → i < j → c ≤ n → i * (n + 1) + c < j * (n + 1)
cell_before i j c n h k = cell_inside i c j n h k

module _ {D E : Type 0} (F : Floats D) {lib : PerfLib D E} (reads : ReadsRows lib) {m : Hmon D E}
    (v : IsValid reads m) where
  -- The place that the next read goes to.
  abbrev pub next_place : ℕ
  next_place = (m.last + 1) % m.window

  pub next_inside : next_place < m.window
  next_inside = mod-lt (m.last + 1) v.room

  pub offset_lem :
      (i c : ℕ)
      → i < m.window
      → c ≤ m.n_events
      → (i * (m.n_events + 1) + c) % u32_mod ≡ i * (m.n_events + 1) + c
  offset_lem i c h k = mod-eq_of_lt (omega (arith, cell_inside i c m.window m.n_events h k, v))

  row_offset_lem : next_place * (m.n_events + 1) % u32_mod ≡ next_place * (m.n_events + 1)
  row_offset_lem =
      mod-eq_of_lt
        (omega (arith, cell_inside next_place 0 m.window m.n_events next_inside (omega arith), v))

  pub stamp : Timespec → D
  stamp tp = F.of_int (nanoseconds tp -ℤ m.ref_time)

  -- The buffer with the timestamp written, and with the row after it.
  abbrev pub stamped : Timespec → List D
  stamped tp = set m.events (next_place * (m.n_events + 1) + m.n_events) (stamp tp)

  abbrev pub refreshed : Timespec → List D
  refreshed tp = splice (stamped tp) (next_place * (m.n_events + 1)) (reads.row m.eventset)

  stamped_length : (tp : Timespec) → length (stamped tp) ≡ length m.events
  stamped_length tp = length-set m.events (next_place * (m.n_events + 1) + m.n_events) (stamp tp)

  -- The monitor that the owner's read leaves.
  abbrev pub after_read : Timespec → Hmon D E
  after_read tp = record m {
    last = next_place;
    total = (m.total + 1) % u32_mod;
    eventset = reads.next m.eventset;
    events = refreshed tp;
  }

  advance_lem :
      (tp : Timespec)
      → advance F lib tp m
        ≡ record m { last = next_place; total = (m.total + 1) % u32_mod; events = stamped tp }
  unfolding advance stamp
  advance_lem tp =
      let small : (m.last + 1) % u32_mod ≡ m.last + 1 = omega (arith, v) in
      rw (small, offset_lem next_place m.n_events next_inside (omega arith))

  read_row_lem : (tp : Timespec) → (read_row F lib (advance F lib tp m)).1 ≡ after_read tp
  unfolding read_row
  read_row_lem tp =
      rw (advance_lem tp, row_offset_lem, reads.moves, reads.writes, drop-drop, reads.length-row)

  row_fits : next_place * (m.n_events + 1) + length (reads.row m.eventset) < length m.events
  row_fits = omega (
    arith,
    reads.length-row m.eventset,
    v,
    cell_inside next_place m.n_events m.window m.n_events next_inside (omega arith),
  )

  pub after_read-IsValid : (tp : Timespec) → IsValid reads (after_read tp)
  after_read-IsValid tp = record {
    rows =
        length-splice (stamped tp) (next_place * (m.n_events + 1)) (reads.row m.eventset)
          (omega (arith, row_fits, stamped_length tp))
        ∙ stamped_length tp
        ∙ v.rows;
    bounded = v.bounded;
    room = v.room;
    inside = next_inside;
    counted = reads.keeps m.eventset ∙ v.counted;
  }

  abbrev pub base : ℕ
  base = next_place * (m.n_events + 1)

  pub new_event :
      (tp : Timespec) (c : ℕ)
      → c < m.n_events
      → get_or (refreshed tp) (base + c) (zero_double F lib)
        ≡ get_or (reads.row m.eventset) c (zero_double F lib)
  new_event tp c k =
      get_or-splice_inside (stamped tp) base (reads.row m.eventset) c (zero_double F lib)
        (omega (arith, stamped_length tp, row_fits)) (omega (arith, reads.length-row m.eventset, v))

  pub new_stamp :
      (tp : Timespec) → get_or (refreshed tp) (base + m.n_events) (zero_double F lib) ≡ stamp tp
  new_stamp tp =
      get_or-splice_after (stamped tp) base (reads.row m.eventset) (base + m.n_events)
        (zero_double F lib) (omega (arith, stamped_length tp, row_fits))
        (omega (arith, reads.length-row m.eventset, v))
      ∙ get_or-set_self m.events (base + m.n_events) (stamp tp) (zero_double F lib)
          (omega (arith, row_fits, reads.length-row m.eventset, v))

  pub other_cell :
      (tp : Timespec) (i c : ℕ)
      → i < m.window
      → i ≢ next_place
      → c ≤ m.n_events
      → get_or (refreshed tp) (i * (m.n_events + 1) + c) (zero_double F lib)
        ≡ get_or m.events (i * (m.n_events + 1) + c) (zero_double F lib)
  other_cell tp i c k ne l = elim (dec_lt i next_place) [
    | yes before ↦
        let apart = cell_before i next_place c m.n_events before l in
        get_or-splice_before (stamped tp) base (reads.row m.eventset) (i * (m.n_events + 1) + c)
          (zero_double F lib) (omega (arith, stamped_length tp, row_fits)) apart
        ∙ get_or-set_ne m.events (base + m.n_events) (i * (m.n_events + 1) + c) (stamp tp)
            (zero_double F lib) (omega (arith, apart))
    | no behind ↦
        let apart = cell_before next_place i m.n_events m.n_events (omega arith) (omega arith) in
        get_or-splice_after (stamped tp) base (reads.row m.eventset) (i * (m.n_events + 1) + c)
          (zero_double F lib) (omega (arith, stamped_length tp, row_fits))
          (omega (arith, apart, reads.length-row m.eventset, v))
        ∙ get_or-set_ne m.events (base + m.n_events) (i * (m.n_events + 1) + c) (stamp tp)
            (zero_double F lib) (omega (arith, apart))
  ]

  pub owner_reads :
      (self : ℕ) (tp : Timespec)
      → m.owner ≡ self
      → (hmonitor_read F lib self tp m).1 ≡ after_read tp
  unfolding hmonitor_read
  owner_reads self tp h = ground (arith, read_row_lem tp)
