-- ===== src/Stats/Extrema.antt =====
-- stats.c: the greatest and the smallest value of each event.
use native.Mathlib.Decide.{dec_lt}
use hierarchical_monitors.Prelude.{
  ℕ, zero, suc, ◌+◌, ◌≤◌, ◌<◌, ◌≡◌, ap, ◌∙◌, false, length, get_or, arith, if◌then◌else◌,
}
use hierarchical_monitors.Prelude.Floats.{
  Floats, IsOrdered, greater_bounds, smaller_bounds, not_lt_trans,
}
use hierarchical_monitors.Hmonitor.{Hmon, PerfLib, fill, zero_double}
use hierarchical_monitors.Hmonitor.Reset.{get_or-fill, length-fill}
use hierarchical_monitors.Hmonitor.Ring.{ReadsRows, IsValid}
use hierarchical_monitors.Stats.{stored_rows, hmonitor_events_max, hmonitor_events_min, fold_rows}
use hierarchical_monitors.Stats.Columns.{fold_from, event, get_or-fold_rows, rows-le}

module _ {D : Type 0} (F : Floats D) (ordered : IsOrdered F) where
  abbrev greater : D → D → D
  greater a b = if F.gtb a b then a else b

  abbrev smaller : D → D → D
  smaller a b = if F.ltb a b then a else b

  fold-greater_ge :
      (at : ℕ → D) (n r : ℕ) (acc : D) → F.ltb (fold_from greater at r n acc) acc ≡ false
  fold-greater_ge at zero r acc = ordered.irrefl acc
  fold-greater_ge at (suc n) r acc =
      let (above_b, above_a, _) = greater_bounds ordered acc (at r) in
      not_lt_trans ordered (fold_from greater at (r + 1) n (greater acc (at r)))
        (greater acc (at r)) acc (fold-greater_ge at n (r + 1) (greater acc (at r))) above_a

  fold-greater_bounds :
      (at : ℕ → D) (n r : ℕ) (acc : D) (i : ℕ)
      → r ≤ i
      → i < r + n
      → F.ltb (fold_from greater at r n acc) (at i) ≡ false
  fold-greater_bounds at zero r acc i h k = absurd (omega arith)
  fold-greater_bounds at (suc n) r acc i h k = elim (dec_lt r i) [
    | yes l ↦ fold-greater_bounds at n (r + 1) (greater acc (at r)) i (omega arith) (omega arith)
    | no l ↦
        let e : i ≡ r = omega arith in
        let (above_b, above_a, _) = greater_bounds ordered acc (at r) in
        rw e (
          not_lt_trans ordered (fold_from greater at (r + 1) n (greater acc (at r)))
            (greater acc (at r)) (at r) (fold-greater_ge at n (r + 1) (greater acc (at r))) above_b)
  ]

  fold-smaller_le :
      (at : ℕ → D) (n r : ℕ) (acc : D) → F.ltb acc (fold_from smaller at r n acc) ≡ false
  fold-smaller_le at zero r acc = ordered.irrefl acc
  fold-smaller_le at (suc n) r acc =
      let (below_b, below_a, _) = smaller_bounds ordered acc (at r) in
      not_lt_trans ordered acc (smaller acc (at r))
        (fold_from smaller at (r + 1) n (smaller acc (at r))) below_a
        (fold-smaller_le at n (r + 1) (smaller acc (at r)))

  fold-smaller_bounds :
      (at : ℕ → D) (n r : ℕ) (acc : D) (i : ℕ)
      → r ≤ i
      → i < r + n
      → F.ltb (at i) (fold_from smaller at r n acc) ≡ false
  fold-smaller_bounds at zero r acc i h k = absurd (omega arith)
  fold-smaller_bounds at (suc n) r acc i h k = elim (dec_lt r i) [
    | yes l ↦ fold-smaller_bounds at n (r + 1) (smaller acc (at r)) i (omega arith) (omega arith)
    | no l ↦
        let e : i ≡ r = omega arith in
        let (below_b, below_a, _) = smaller_bounds ordered acc (at r) in
        rw e (
          not_lt_trans ordered (at r) (smaller acc (at r))
            (fold_from smaller at (r + 1) n (smaller acc (at r))) below_b
            (fold-smaller_le at n (r + 1) (smaller acc (at r))))
  ]

module _ {D E : Type 0} (F : Floats D) (ordered : IsOrdered F) {lib : PerfLib D E}
    (reads : ReadsRows lib) {m : Hmon D E} (v : IsValid reads m) where
  column :
      (op : D → D → D) (start : D) (c : ℕ)
      → c < m.n_events
      → m.n_events ≤ length m.samples
      → get_or
          (fold_rows op m 0 (stored_rows m) (fill m.n_events start m.samples))
          c
          (zero_double F lib)
        ≡ fold_from op (event F reads v c) 0 (stored_rows m) start
  column op start c k l =
      get_or-fold_rows F reads v op (stored_rows m) 0 c (fill m.n_events start m.samples)
        (omega (arith, rows-le F reads v)) k (omega (arith, length-fill m.n_events start m.samples))
      ∙ ap (fold_from op (event F reads v c) 0 (stored_rows m)) (
          get_or-fill m.n_events c start m.samples (zero_double F lib) (omega arith) ∙ ground arith)

  -- In a valid monitor with a sample for each event, and doubles that are ordered, no event of a
  -- stored row is above its sample after `hmonitor_events_max`, and none is below it after
  -- `hmonitor_events_min`.
  pub events_extrema :
      (c r : ℕ)
      → c < m.n_events
      → m.n_events ≤ length m.samples
      → r < stored_rows m
      → (F.ltb
            (get_or (hmonitor_events_max F m).samples c (zero_double F lib))
            (event F reads v c r)
          ≡ false)
        × (F.ltb
              (event F reads v c r)
              (get_or (hmonitor_events_min F m).samples c (zero_double F lib))
            ≡ false)
  unfolding hmonitor_events_max hmonitor_events_min
  events_extrema c r k l h =
      rw (column (greater F ordered) F.dbl_min c k l, column (smaller F ordered) F.dbl_max c k l)
        (
          fold-greater_bounds F ordered (event F reads v c) (stored_rows m) 0 F.dbl_min r
              (omega arith) (omega arith),
          fold-smaller_bounds F ordered (event F reads v c) (stored_rows m) 0 F.dbl_max r
              (omega arith) (omega arith),
        )
