-- ===== src/Stats.antt =====
-- plugins/stat_default/stats.c: reductions over the rows stored in a monitor.
pub mod Columns
pub mod Extrema
pub mod Variance
use hierarchical_monitors.Prelude.{
  ℕ, zero, suc, ◌+◌, ◌*◌, ◌%◌, ◌^◌, List, [], ◌∷◌, ltb, if◌then◌else◌, replicate, ◌++◌, take, drop,
}
use hierarchical_monitors.Prelude.Int.{pos}
use hierarchical_monitors.Prelude.Floats.{Floats}
use hierarchical_monitors.Hmonitor.{Hmon, fill, hmonitor_get_events}

-- `for(c=0;c<cols;c++){out[c] = op(out[c], in[c]);}`
unfoldable pub apply_row : {D : Type 0} → (D → D → D) → ℕ → List D → List D → List D
apply_row op zero out row = out
apply_row op (suc cols) [] row = []
apply_row op (suc cols) (x ∷ out) [] = x ∷ out
apply_row op (suc cols) (x ∷ out) (y ∷ row) = op x y ∷ apply_row op cols out row

-- `for(c=0;c<cols;c++){out[c] = f(out[c]);}`
unfoldable pub apply_each : {D : Type 0} → (D → D) → ℕ → List D → List D
apply_each f zero out = out
apply_each f (suc cols) [] = []
apply_each f (suc cols) (x ∷ out) = f x ∷ apply_each f cols out

-- Sums over one row, from left to right: `for(c=0;c<cols;c++){acc = op(acc, row[c]);}`
unfoldable pub fold_row : {D : Type 0} → (D → D → D) → ℕ → List D → D → D
fold_row op zero row acc = acc
fold_row op (suc cols) [] acc = acc
fold_row op (suc cols) (y ∷ row) acc = fold_row op cols row (op acc y)

-- `for(c=0;c<n;c++){out[c] = op(squares[c], sums[c]);}`
unfoldable pub store_both : {D : Type 0} → (D → D → D) → ℕ → List D → List D → List D → List D
store_both op (suc n) (x ∷ out) (a ∷ squares) (b ∷ sums) = op a b ∷ store_both op n out squares sums
store_both op n out squares sums = out

-- sum[c] = ct*sum[c]*sum[c], with ct = 1.0/((double)rows*rows)
unfoldable pub square_of_mean : {D : Type 0} → Floats D → ℕ → D → D
square_of_mean F rows s =
    let ct = F.div (F.of_int (pos 1)) (F.mul (F.of_int (pos rows)) (F.of_int (pos rows))) in
    F.mul (F.mul ct s) s

module _ {D E : Type 0} where
  -- STAT_MIN(m->window, m->total)
  abbrev pub stored_rows : Hmon D E → ℕ
  stored_rows m = if ltb m.window m.total then m.window else m.total

  -- The loop over the rows, `n` of them from row `r` on.
  unfoldable pub fold_rows : (D → D → D) → Hmon D E → ℕ → ℕ → List D → List D
  fold_rows op m r zero out = out
  fold_rows op m r (suc n) out =
      fold_rows op m (r + 1) n (apply_row op m.n_events out (hmonitor_get_events m r))

module _ {D E : Type 0} (F : Floats D) where
  unfoldable pub hmonitor_events_max : Hmon D E → Hmon D E
  hmonitor_events_max m = record m {
    samples =
        fold_rows (λ a b. if F.gtb a b then a else b) m 0 (stored_rows m)
          (fill m.n_events F.dbl_min m.samples);
  }

  unfoldable pub hmonitor_events_min : Hmon D E → Hmon D E
  hmonitor_events_min m = record m {
    samples =
        fold_rows (λ a b. if F.ltb a b then a else b) m 0 (stored_rows m)
          (fill m.n_events F.dbl_max m.samples);
  }

  unfoldable pub hmonitor_events_sum : Hmon D E → Hmon D E
  hmonitor_events_sum m = record m {
    samples = fold_rows F.add m 0 (stored_rows m) (fill m.n_events (F.of_int (pos 0)) m.samples);
  }

  unfoldable pub hmonitor_events_mean : Hmon D E → Hmon D E
  unfolding hmonitor_events_sum
  hmonitor_events_mean m =
      let summed = hmonitor_events_sum m in
      record summed {
        samples =
            apply_each (λ s. F.div s (F.of_int (pos (stored_rows m)))) m.n_events summed.samples;
      }

  unfoldable pub hmonitor_events_var : Hmon D E → Hmon D E
  hmonitor_events_var m =
      let rows = stored_rows m in
      let zeros = replicate m.n_events (F.of_int (pos 0)) in
      let sum = fold_rows F.add m 0 rows zeros in
      let square_sum = fold_rows (λ a b. F.add a (F.mul b b)) m 0 rows zeros in
      let ct = F.div (F.of_int (pos 1)) (F.of_int (pos rows)) in
      record m {
        samples =
            store_both (λ q s. F.sub (F.mul ct q) s) m.n_samples m.samples square_sum
              (apply_each (square_of_mean F rows) m.n_events sum);
      }

  -- The multiplication of `cols` by itself is one of `unsigned`.
  unfoldable pub hmonitor_evset_var : Hmon D E → Hmon D E
  hmonitor_evset_var m =
      let row = hmonitor_get_events m m.last in
      let sum = fold_row F.add m.n_events row (F.of_int (pos 0)) in
      let square_sum = fold_row (λ a b. F.add a (F.mul b b)) m.n_events row (F.of_int (pos 0)) in
      let square =
        F.mul
          (F.mul (F.div (F.of_int (pos 1)) (F.of_int (pos (m.n_events * m.n_events % 2 ^ 32)))) sum)
          sum in
      record m {
        samples = F.sub (F.div square_sum (F.of_int (pos m.n_events))) square ∷ drop 1 m.samples;
      }
