-- ===== src/Stats/Columns.antt =====
-- stats.c: the loops go row by row, and what they compute is a value for each event.
use native.Mathlib.Nat.{mod-eq_of_lt}
use hierarchical_monitors.Prelude.{
  ℕ, zero, suc, ◌+◌, ◌*◌, ◌%◌, ◌≤◌, ◌<◌, ◌≡◌, refl, ap, ◌∙◌, List, [], ◌∷◌, length, get_or,
  get_or-drop, length-drop, arith,
}
use hierarchical_monitors.Prelude.Int.{pos}
use hierarchical_monitors.Prelude.Floats.{Floats}
use hierarchical_monitors.Hmonitor.{
  u32_mod, Hmon, PerfLib, fill, hmonitor_get_events, hmonitor_get_event, zero_double,
}
use hierarchical_monitors.Hmonitor.Reset.{get_or-fill, length-fill}
use hierarchical_monitors.Hmonitor.Ring.{ReadsRows, IsValid}
use hierarchical_monitors.Stats.{
  apply_row, apply_each, stored_rows, fold_rows, hmonitor_events_sum, hmonitor_events_mean,
}

pub get_or-apply_row :
    {D : Type 0} (op : D → D → D) (cols c : ℕ) (out row : List D) (d : D)
    → c < cols
    → c < length out
    → c < length row
    → get_or (apply_row op cols out row) c d ≡ op (get_or out c d) (get_or row c d)
unfolding apply_row
get_or-apply_row op zero c out row d h k l = absurd (omega arith)
get_or-apply_row op (suc cols) c [] row d h k l = absurd (omega arith)
get_or-apply_row op (suc cols) c (x ∷ out) [] d h k l = absurd (omega arith)
get_or-apply_row op (suc cols) zero (x ∷ out) (y ∷ row) d h k l = refl
get_or-apply_row op (suc cols) (suc c) (x ∷ out) (y ∷ row) d h k l =
    get_or-apply_row op cols c out row d (omega arith) (omega arith) (omega arith)

pub length-apply_row :
    {D : Type 0} (op : D → D → D) (cols : ℕ) (out row : List D)
    → length (apply_row op cols out row) ≡ length out
unfolding apply_row
length-apply_row op zero out row = refl
length-apply_row op (suc cols) [] row = refl
length-apply_row op (suc cols) (x ∷ out) [] = refl
length-apply_row op (suc cols) (x ∷ out) (y ∷ row) = ap suc (length-apply_row op cols out row)

pub get_or-apply_each :
    {D : Type 0} (f : D → D) (cols c : ℕ) (out : List D) (d : D)
    → c < cols
    → c < length out
    → get_or (apply_each f cols out) c d ≡ f (get_or out c d)
unfolding apply_each
get_or-apply_each f zero c out d h k = absurd (omega arith)
get_or-apply_each f (suc cols) c [] d h k = absurd (omega arith)
get_or-apply_each f (suc cols) zero (x ∷ out) d h k = refl
get_or-apply_each f (suc cols) (suc c) (x ∷ out) d h k =
    get_or-apply_each f cols c out d (omega arith) (omega arith)

pub length-fold_rows :
    {D E : Type 0} (op : D → D → D) (m : Hmon D E) (n r : ℕ) (out : List D)
    → length (fold_rows op m r n out) ≡ length out
unfolding fold_rows
length-fold_rows op m zero r out = refl
length-fold_rows op m (suc n) r out =
    length-fold_rows op m n (r + 1) (apply_row op m.n_events out (hmonitor_get_events m r))
    ∙ length-apply_row op m.n_events out (hmonitor_get_events m r)

-- A left fold over the values that `at` gives for the indices from `r` on.
abbrev pub fold_from : {D : Type 0} → (D → D → D) → (ℕ → D) → ℕ → ℕ → D → D
fold_from op at r zero acc = acc
fold_from op at r (suc n) acc = fold_from op at (r + 1) n (op acc (at r))

module _ {D E : Type 0} (F : Floats D) {lib : PerfLib D E} (reads : ReadsRows lib) {m : Hmon D E}
    (v : IsValid reads m) where
  abbrev pub event : ℕ → ℕ → D
  event c r = hmonitor_get_event F lib m r c

  row_cell :
      (r c : ℕ)
      → r < m.window
      → c < m.n_events
      → (c < length (hmonitor_get_events m r))
        × (get_or (hmonitor_get_events m r) c (zero_double F lib) ≡ event c r)
  unfolding hmonitor_get_events hmonitor_get_event
  row_cell r c h k =
      let inside : r * (m.n_events + 1) + m.n_events < m.window * (m.n_events + 1) = grind arith in
      let small : r * (m.n_events + 1) % u32_mod ≡ r * (m.n_events + 1) =
        mod-eq_of_lt (omega (arith, v)) in
      let cell : (r * (m.n_events + 1) + c) % u32_mod ≡ r * (m.n_events + 1) + c =
        mod-eq_of_lt (omega (arith, v)) in
      rw (small, cell)
        (
          omega (arith, length-drop (r * (m.n_events + 1)) m.events, v),
          get_or-drop (r * (m.n_events + 1)) c m.events (zero_double F lib),
        )

  pub get_or-fold_rows :
      (op : D → D → D) (n r c : ℕ) (out : List D)
      → r + n ≤ m.window
      → c < m.n_events
      → c < length out
      → get_or (fold_rows op m r n out) c (zero_double F lib)
        ≡ fold_from op (event c) r n (get_or out c (zero_double F lib))
  unfolding fold_rows
  get_or-fold_rows op zero r c out h k l = refl
  get_or-fold_rows op (suc n) r c out h k l =
      let (inside, same) = row_cell r c (omega arith) k in
      get_or-fold_rows op n (r + 1) c (apply_row op m.n_events out (hmonitor_get_events m r))
        (omega arith) k
        (omega (arith, length-apply_row op m.n_events out (hmonitor_get_events m r)))
      ∙ ap (fold_from op (event c) (r + 1) n) (
          get_or-apply_row op m.n_events c out (hmonitor_get_events m r) (zero_double F lib) k l
            inside
          ∙ ap (op (get_or out c (zero_double F lib))) same)

  pub rows-le : stored_rows m ≤ m.window
  rows-le = ground arith

  -- `hmonitor_events_sum` gives each event the sum of its values in the rows stored, oldest place first.
  pub events_sum_lem :
      (c : ℕ)
      → c < m.n_events
      → m.n_events ≤ length m.samples
      → get_or (hmonitor_events_sum F m).samples c (zero_double F lib)
        ≡ fold_from F.add (event c) 0 (stored_rows m) (zero_double F lib)
  unfolding hmonitor_events_sum
  events_sum_lem c k l =
      get_or-fold_rows F.add (stored_rows m) 0 c (fill m.n_events (zero_double F lib) m.samples)
        (omega (arith, rows-le)) k
        (omega (arith, length-fill m.n_events (zero_double F lib) m.samples))
      ∙ ap (fold_from F.add (event c) 0 (stored_rows m)) (
          get_or-fill m.n_events c (zero_double F lib) m.samples (zero_double F lib) (omega arith)
          ∙ ground arith)

  length_sums :
      (c : ℕ)
      → c < m.n_events
      → m.n_events ≤ length m.samples
      → c < length (hmonitor_events_sum F m).samples
  unfolding hmonitor_events_sum
  length_sums c k l = omega (
    arith,
    length-fold_rows F.add m (stored_rows m) 0 (fill m.n_events (zero_double F lib) m.samples),
    length-fill m.n_events (zero_double F lib) m.samples,
  )

  -- In a valid monitor with a sample for each event, `hmonitor_events_mean` gives each event the
  -- sum of its values over the stored rows divided by their number.
  pub events_mean_lem :
      (c : ℕ)
      → c < m.n_events
      → m.n_events ≤ length m.samples
      → get_or (hmonitor_events_mean F m).samples c (zero_double F lib)
        ≡ F.div
            (fold_from F.add (event c) 0 (stored_rows m) (zero_double F lib))
            (F.of_int (pos (stored_rows m)))
  unfolding hmonitor_events_mean
  events_mean_lem c k l =
      get_or-apply_each (λ s. F.div s (F.of_int (pos (stored_rows m)))) m.n_events c
        (hmonitor_events_sum F m).samples (zero_double F lib) k (length_sums c k l)
      ∙ ap (λ s. F.div s (F.of_int (pos (stored_rows m)))) (events_sum_lem c k l)
