-- ===== src/Stats/Variance.antt =====
-- stats.c: the variance of each event over the stored rows.
use hierarchical_monitors.Prelude.{
  ℕ, zero, suc, ◌≤◌, ◌<◌, ◌≡◌, refl, ap, ◌∙◌, List, [], ◌∷◌, length, get_or, replicate,
  length-replicate, get_or-replicate, arith,
}
use hierarchical_monitors.Prelude.Int.{pos}
use hierarchical_monitors.Prelude.Floats.{Floats}
use hierarchical_monitors.Hmonitor.{Hmon, PerfLib, zero_double}
use hierarchical_monitors.Hmonitor.Ring.{ReadsRows, IsValid}
use hierarchical_monitors.Stats.{
  apply_each, fold_rows, store_both, square_of_mean, stored_rows, hmonitor_events_var,
}
use hierarchical_monitors.Stats.Columns.{
  fold_from, event, get_or-fold_rows, length-fold_rows, get_or-apply_each, rows-le,
}

get_or-store_both :
    {D : Type 0} (op : D → D → D) (n c : ℕ) (out squares sums : List D) (d : D)
    → c < n
    → c < length out
    → c < length squares
    → c < length sums
    → get_or (store_both op n out squares sums) c d ≡ op (get_or squares c d) (get_or sums c d)
unfolding store_both
get_or-store_both op zero c out squares sums d h k l m = absurd (omega arith)
get_or-store_both op (suc n) c [] squares sums d h k l m = absurd (omega arith)
get_or-store_both op (suc n) c (x ∷ out) [] sums d h k l m = absurd (omega arith)
get_or-store_both op (suc n) c (x ∷ out) (a ∷ squares) [] d h k l m = absurd (omega arith)
get_or-store_both op (suc n) zero (x ∷ out) (a ∷ squares) (b ∷ sums) d h k l m = refl
get_or-store_both op (suc n) (suc c) (x ∷ out) (a ∷ squares) (b ∷ sums) d h k l m =
    get_or-store_both op n c out squares sums d (omega arith) (omega arith) (omega arith)
      (omega arith)

length-apply_each :
    {D : Type 0} (f : D → D) (n : ℕ) (out : List D) → length (apply_each f n out) ≡ length out
unfolding apply_each
length-apply_each f zero out = refl
length-apply_each f (suc n) [] = refl
length-apply_each f (suc n) (x ∷ out) = ap suc (length-apply_each f n out)

module _ {D E : Type 0} (F : Floats D) {lib : PerfLib D E} (reads : ReadsRows lib) {m : Hmon D E}
    (v : IsValid reads m) where
  abbrev add_square : D → D → D
  add_square a b = F.add a (F.mul b b)

  -- A sum over the stored rows that starts from zeros.
  column_sum :
      (op : D → D → D) (c : ℕ)
      → c < m.n_events
      → let sums = fold_rows op m 0 (stored_rows m) (replicate m.n_events (zero_double F lib)) in
        (get_or sums c (zero_double F lib)
          ≡ fold_from op (event F reads v c) 0 (stored_rows m) (zero_double F lib))
        × (c < length sums)
  column_sum op c k =
      let zeros = replicate m.n_events (zero_double F lib) in
      (
        get_or-fold_rows F reads v op (stored_rows m) 0 c zeros (omega (arith, rows-le F reads v)) k
              (omega (arith, length-replicate m.n_events (zero_double F lib)))
            ∙ ap (fold_from op (event F reads v c) 0 (stored_rows m))
                (get_or-replicate m.n_events c (zero_double F lib)),
        omega (
          arith,
          length-fold_rows op m (stored_rows m) 0 zeros,
          length-replicate m.n_events (zero_double F lib),
        ),
      )

  -- In a valid monitor `hmonitor_events_var` gives each event that has a sample the sum of its
  -- squares over the stored rows divided by their number, less the square of its sum divided by the
  -- square of their number, with the factors in the order of the code.
  pub events_var_lem :
      (c : ℕ)
      → c < m.n_events
      → c < m.n_samples
      → m.n_samples ≤ length m.samples
      → get_or (hmonitor_events_var F m).samples c (zero_double F lib)
        ≡ F.sub
            (F.mul (F.div (F.of_int (pos 1)) (F.of_int (pos (stored_rows m)))) (
              fold_from
                (λ a b. F.add a (F.mul b b))
                (event F reads v c)
                0
                (stored_rows m)
                (zero_double F lib)))
            (let sum = fold_from F.add (event F reads v c) 0 (stored_rows m) (zero_double F lib) in
              let rows = F.of_int (pos (stored_rows m)) in
              F.mul (F.mul (F.div (F.of_int (pos 1)) (F.mul rows rows)) sum) sum)
  unfolding hmonitor_events_var square_of_mean
  events_var_lem c k l h =
      let zeros = replicate m.n_events (zero_double F lib) in
      let sums = fold_rows F.add m 0 (stored_rows m) zeros in
      let squares = fold_rows add_square m 0 (stored_rows m) zeros in
      let op = λ (q s : D).
        F.sub (F.mul (F.div (F.of_int (pos 1)) (F.of_int (pos (stored_rows m)))) q) s in
      let (sum_lem, sum_in) = column_sum F.add c k in
      let (square_lem, square_in) = column_sum add_square c k in
      get_or-store_both op m.n_samples c m.samples squares
        (apply_each (square_of_mean F (stored_rows m)) m.n_events sums) (zero_double F lib) l
        (omega arith) square_in
        (omega
          (arith, sum_in, length-apply_each (square_of_mean F (stored_rows m)) m.n_events sums))
      ∙ ap
          (λ q. op q (
            get_or (apply_each (square_of_mean F (stored_rows m)) m.n_events sums) c
              (zero_double F lib)))
          square_lem
      ∙ ap (op (fold_from add_square (event F reads v c) 0 (stored_rows m) (zero_double F lib))) (
          get_or-apply_each (square_of_mean F (stored_rows m)) m.n_events c sums (zero_double F lib)
            k sum_in
          ∙ ap (square_of_mean F (stored_rows m)) sum_lem)
