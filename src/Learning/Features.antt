-- ===== src/Learning/Features.antt =====
-- plugins/learning/features.c: vectors and columns brought to a common scale.
use hierarchical_monitors.Prelude.{
  ℕ, zero, suc, ◌+◌, Option, none, some, List, [], ◌∷◌, get_or, get_elem?, set, map, take, drop,
  if◌then◌else◌,
}
use hierarchical_monitors.Prelude.Int.{pos}
use hierarchical_monitors.Prelude.Floats.{Floats}
use hierarchical_monitors.Learning.{Gsl}

-- `struct scaling`
pub record Scaling (D : Type 0) : Type 0 where
  pub center : D
  pub scale : D

-- `m` rows of `n` values, from the start of a block on.
unfoldable pub to_gsl_matrix : {D : Type 0} → List D → ℕ → ℕ → List (List D)
to_gsl_matrix values zero n = []
to_gsl_matrix values (suc m) n = take n values ∷ to_gsl_matrix (drop n values) m n

unfoldable pub to_gsl_vector : {D : Type 0} → List D → ℕ → List D
to_gsl_vector values n = take n values

-- The column `i` of a matrix, and the matrix with another one; `d` is never read in a column that is there.
unfoldable pub column : {D : Type 0} → D → ℕ → List (List D) → List D
column d i rows = map (λ row. get_or row i d) rows

unfoldable pub set_column : {D : Type 0} → ℕ → List D → List (List D) → List (List D)
set_column i (v ∷ values) (row ∷ rows) = set row i v ∷ set_column i values rows
set_column i _ rows = rows

module _ {D : Type 0} (F : Floats D) (gsl : Gsl D) where
  -- The initialiser gives `center` first.
  unfoldable pub scaling_of : List D → Scaling D
  scaling_of v = record {
    center = F.sub (gsl.vector_max v) (gsl.vector_min v);
    scale = gsl.stats_mean v;
  }

  unfoldable pub gsl_vector_normalize : List D → Scaling D × List D
  gsl_vector_normalize v =
      let s = scaling_of v in
      let centered = gsl.add_constant v (gsl.negative s.center) in
      (
        s,
        if gsl.is_zero s.scale
            then centered
            else gsl.vector_scale centered (F.div (F.of_int (pos 1)) s.scale),
      )

  -- The columns from `i` on, `n` of them, with their scalings.
  unfoldable pub normalize_columns_from : ℕ → ℕ → List (List D) → List (Scaling D) × List (List D)
  normalize_columns_from zero i rows = ([], rows)
  normalize_columns_from (suc n) i rows =
      let (s, v) = gsl_vector_normalize (column (F.of_int (pos 0)) i rows) in
      let (scalings, after) = normalize_columns_from n (i + 1) (set_column i v rows) in
      (s ∷ scalings, after)

  unfoldable pub gsl_matrix_normalize_columns : ℕ → List (List D) → List (Scaling D) × List (List D)
  gsl_matrix_normalize_columns size2 rows = normalize_columns_from size2 0 rows

  -- The rows from `i` on, `n` of them; GSL refuses a row that is not there.
  unfoldable pub normalize_rows_from : ℕ → ℕ → List (List D) → Option (List (List D))
  normalize_rows_from zero i rows = some rows
  normalize_rows_from (suc n) i rows = elim (get_elem? rows i) [
    | none ↦ none
    | some row ↦ normalize_rows_from n (i + 1) (set rows i (gsl_vector_normalize row).1)
  ]

  -- As many rounds as there are columns.
  unfoldable pub gsl_matrix_normalize_rows : ℕ → List (List D) → Option (List (List D))
  gsl_matrix_normalize_rows size2 rows = normalize_rows_from size2 0 rows
