-- ===== src/Accumulate/Sums.antt =====
-- accumulate_monitor.c: what a read writes.
use hierarchical_monitors.Prelude.{
  ℕ, zero, suc, ◌+◌, ◌<◌, ◌≤◌, ◌≡◌, ◌≢◌, refl, ap, ◌∙◌, Option, none, some, List, length, get_or,
  arith,
}
use hierarchical_monitors.Prelude.Int.{pos}
use hierarchical_monitors.Prelude.Floats.{Floats}
use hierarchical_monitors.HArray.{HArray, harray_get}
use hierarchical_monitors.Hmonitor.{Hmon, PerfLib, Timespec, hmonitor_get_events}
use hierarchical_monitors.Hierarchical.{update, refresh}
use hierarchical_monitors.Accumulate.{
  copy_events, sum_events, read_first, sum_from, read_children, hmonitor_eventset_read,
}
use hierarchical_monitors.Accumulate.Values.{copy_lem, sum_lem}

-- A monitor with `k` events, and room for them in its last row.
abbrev pub Fits : {D E : Type 0} → ℕ → Hmon D E → Type 0
Fits k m = (m.n_events ≡ k) × (k ≤ length (hmonitor_get_events m m.last))

module _ {D E : Type 0} (F : Floats D) (lib : PerfLib D E) (call_model : ℕ → Hmon D E → Hmon D E)
    (others : Hmon D E → Hmon D E) (self : ℕ) (clock : ℕ → Timespec) (children : HArray)
    (store : ℕ → Hmon D E) (d : D) where
  abbrev child : ℕ → ℕ
  child i = harray_get (some children) i

  -- The event `j` of a monitor's last row.
  abbrev last_event : Hmon D E → ℕ → D
  last_event m j = get_or (hmonitor_get_events m m.last) j d

  -- The first child and the others, brought up to date.
  abbrev pub first_fresh : Hmon D E
  first_fresh = read_first F lib call_model others self (clock 0) (store (child 0))

  abbrev pub fresh : ℕ → Hmon D E
  fresh i = refresh F lib call_model others self (clock i) (store (child i))

  -- `start` and the event `j` of `n` children from index `i` on, added one after the other.
  abbrev pub total : D → ℕ → ℕ → ℕ → D
  total start j zero i = start
  total start j (suc n) i = total (F.add start (last_event (fresh i) j)) j n (i + 1)

  update_other : (s : ℕ → Hmon D E) (p q : ℕ) (m : Hmon D E) → p ≢ q → update s p m q ≡ s q
  unfolding update
  update_other s p q m h = ground arith

  sum_from_step :
      (k n i : ℕ) (now : ℕ → Hmon D E) (values sums : List D) (r : Option ((ℕ → Hmon D E) × List D))
      → now (child i) ≡ store (child i)
      → (fresh i).n_events ≡ k
      → sum_events F k (hmonitor_get_events (fresh i) (fresh i).last) values ≡ some sums
      → sum_from F lib call_model others self clock children n
          (i + 1)
          (update now (child i) (fresh i))
          sums
        ≡ r
      → sum_from F lib call_model others self clock children (suc n) i now values ≡ r
  unfolding sum_from
  sum_from_step k n i now values sums r at size eq rest =
      let found : sum_events F (fresh i).n_events (hmonitor_get_events (fresh i) (fresh i).last)
            values
          ≡ some sums =
        ap (λ c. sum_events F c (hmonitor_get_events (fresh i) (fresh i).last) values) size ∙ eq in
      let step : sum_from F lib call_model others self clock children (suc n) i now values
          ≡ elim (sum_events F (fresh i).n_events (hmonitor_get_events (fresh i) (fresh i).last)
              values) [
                | none ↦ none
                | some s ↦
                    sum_from F lib call_model others self clock children n (i + 1)
                      (update now (child i) (fresh i)) s
              ] =
        ap
          (λ m.
            let q = refresh F lib call_model others self (clock i) m in
            elim (sum_events F q.n_events (hmonitor_get_events q q.last) values) [
              | none ↦ none
              | some s ↦
                  sum_from F lib call_model others self clock children n (i + 1)
                    (update now (child i) q) s
            ])
          at in
      step ∙ rw found rest

  sum_from_lem :
      (k n i : ℕ) (now : ℕ → Hmon D E) (values : List D)
      → ((j : ℕ) → i ≤ j → j < i + n → now (child j) ≡ store (child j))
      → ((j l : ℕ) → i ≤ j → j < l → l < i + n → child j ≢ child l)
      → ((j : ℕ) → i ≤ j → j < i + n → Fits k (fresh j))
      → k ≤ length values
      → (after : ℕ → Hmon D E) × (sums : List D) × (sum_from F lib call_model others self clock
            children n i now values
          ≡ some (after, sums))
        × (length sums ≡ length values)
        × ((j : ℕ) → j < k → get_or sums j d ≡ total (get_or values j d) j n i)
        × ((j : ℕ) → k ≤ j → get_or sums j d ≡ get_or values j d)
  unfolding sum_from
  sum_from_lem k zero i now values same distinct fits room =
      (now, values, refl, refl, (λ j b. refl), λ j b. refl)
  sum_from_lem k (suc n) i now values same distinct fits room =
      let m = fresh i in
      let at : now (child i) ≡ store (child i) = same i (omega arith) (omega arith) in
      let f = fits i (omega arith) (omega arith) in
      let (sums, eq, c) = sum_lem F d k (hmonitor_get_events m m.last) values f.1 room in
      let next = update now (child i) m in
      let (after, out, rest, len, low, high) =
        sum_from_lem k n (i + 1) next sums
          (λ j b l.
            update_other now (child i) (child j) m
              (distinct i j (omega arith) (omega arith) (omega arith))
            ∙ same j (omega arith) (omega arith))
          (λ j l a b e. distinct j l (omega arith) b (omega arith))
          (λ j a b. fits j (omega arith) (omega arith)) (rw c.same_length room) in
      (
        after,
        out,
        sum_from_step k n i now values sums (some (after, out)) at f.0 eq rest,
        len ∙ c.same_length,
        (λ j b. low j b ∙ ap (λ s. total s j n (i + 1)) (c.low j b)),
        λ j b. high j b ∙ c.high j b,
      )

  read_step :
      (k n location : ℕ) (values copied : List D) (after : ℕ → Hmon D E) (sums : List D)
      → children.length ≡ suc n
      → first_fresh.n_events ≡ k
      → copy_events k (hmonitor_get_events first_fresh first_fresh.last) values ≡ some copied
      → sum_from F lib call_model others self clock children n 1
          (update store (child 0) first_fresh)
          copied
        ≡ some (after, sums)
      → hmonitor_eventset_read F lib call_model others self clock
          (record { location = location; child_events = children })
          store
          values
        ≡ some (pos 0, after, sums)
  unfolding hmonitor_eventset_read read_children
  read_step k n location values copied after sums some_children size eq rest =
      let found : copy_events first_fresh.n_events
            (hmonitor_get_events first_fresh first_fresh.last) values
          ≡ some copied =
        ap (λ c. copy_events c (hmonitor_get_events first_fresh first_fresh.last) values) size
        ∙ eq in
      ap (λ c. read_children F lib call_model others self clock children store values c)
        some_children
      ∙ ground (arith, found, rest)

  -- A read of the accumulating plugin, where the children are different monitors that each have `k`
  -- events once they are brought up to date, with room in their last rows and in `values`: it
  -- succeeds, the first `k` values are the sums of the events of the last rows, in the order of the
  -- children, and the other values stay.
  pub read_sums :
      (k n location : ℕ) (values : List D)
      → children.length ≡ suc n
      → ((j l : ℕ) → j < l → l < suc n → child j ≢ child l)
      → Fits k first_fresh
      → ((j : ℕ) → 1 ≤ j → j < suc n → Fits k (fresh j))
      → k ≤ length values
      → (after : ℕ → Hmon D E) × (sums : List D) × (hmonitor_eventset_read F lib call_model others
            self clock
            (record { location = location; child_events = children })
            store
            values
          ≡ some (pos 0, after, sums))
        × (length sums ≡ length values)
        × ((j : ℕ) → j < k → get_or sums j d ≡ total (last_event first_fresh j) j n 1)
        × ((j : ℕ) → k ≤ j → get_or sums j d ≡ get_or values j d)
  read_sums k n location values some_children distinct fits fits_later room =
      let m = first_fresh in
      let (copied, eq, c) = copy_lem d k (hmonitor_get_events m m.last) values fits.1 room in
      let next = update store (child 0) m in
      let (after, sums, rest, len, low, high) =
        sum_from_lem k n 1 next copied
          (λ j b l.
            update_other store (child 0) (child j) m (distinct 0 j (omega arith) (omega arith)))
          (λ j l a b e. distinct j l b (omega arith)) (λ j a b. fits_later j a (omega arith))
          (rw c.same_length room) in
      (
        after,
        sums,
        read_step k n location values copied after sums some_children fits.0 eq rest,
        len ∙ c.same_length,
        (λ j b. low j b ∙ ap (λ s. total s j n 1) (c.low j b)),
        λ j b. high j b ∙ c.high j b,
      )
