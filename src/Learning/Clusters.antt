-- ===== src/Learning/Clusters.antt =====
-- kmean.c: the sizes of the centroids.
use hierarchical_monitors.Prelude.{
  ℕ, zero, suc, ◌+◌, ◌*◌, ◌%◌, ◌<◌, ◌≤◌, ◌≡◌, ◌≢◌, ap, ◌∙◌, none, some, List, [], ◌∷◌, length,
  get_elem?, if◌then◌else◌, arith, sym, drop, ltb, length-take, length-drop, length-set,
  Option-cases, inl, inr,
}
use hierarchical_monitors.Prelude.Floats.{Floats}
use hierarchical_monitors.Hmonitor.{Hmon, PerfLib}
use hierarchical_monitors.Hmonitor.Ring.{ReadsRows, IsValid}
use hierarchical_monitors.Learning.{Gsl}
use hierarchical_monitors.Learning.Features.{
  to_gsl_matrix, set_column, normalize_columns_from, gsl_matrix_normalize_columns,
}
use hierarchical_monitors.Learning.Kmean.{
  new_centroids, init_from, centroids_init, kmean, clustering,
}

-- What GSL documents of allocation and copies: the sizes asked for, and an error where sizes differ.
pub record IsGsl {D : Type 0} (gsl : Gsl D) : Type 0 where
  pub row_lem :
      (m k i : ℕ)
      → i < m
      → (row : List D) × (get_elem? (gsl.matrix_alloc m k) i ≡ some row) × (length row ≡ k)
  pub memcpy_error : (dest src : List D) → length dest ≢ length src → gsl.memcpy dest src ≡ none

module _ {D : Type 0} (F : Floats D) {gsl : Gsl D} (laws : IsGsl gsl) where
  init_error :
      (rand : ℕ → ℕ) (m n k : ℕ) (points : List (List D))
      → ((i : ℕ) (point : List D) → get_elem? points i ≡ some point → length point ≡ n)
      → 0 < m
      → 0 < k
      → n ≢ k
      → init_from F gsl rand m points k 0 (gsl.matrix_alloc m k) ≡ none
  unfolding init_from
  init_error rand m n zero points sized some_rows some_k other = absurd (omega arith)
  init_error rand m n (suc k) points sized some_rows some_k other =
      let (row, at, len) = laws.row_lem m (suc k) 0 some_rows in
      elim (Option-cases (get_elem? points (rand 0 % m))) [
        | inl e ↦ ground (arith, e)
        | inr (point, e) ↦
            let same = sized (rand 0 % m) point e in
            let fails = laws.memcpy_error row point (λ eq. other (omega (arith, eq, same, len))) in
            ground (arith, e, at, fails)
      ]

  kmean_error :
      (rand : ℕ → ℕ) (size1 size2 k : ℕ) (points : List (List D))
      → ((i : ℕ) (point : List D) → get_elem? points i ≡ some point → length point ≡ size2)
      → suc k < size1
      → size2 ≢ suc k
      → kmean F gsl rand size1 size2 points (suc k) ≡ none
  unfolding kmean centroids_init new_centroids
  kmean_error rand size1 size2 k points sized few other =
      ground
        (arith, init_error rand size1 size2 (suc k) points sized (omega arith) (omega arith) other)

-- Every row of a matrix has `n` values.
abbrev AllSized : {D : Type 0} → ℕ → List (List D) → Type 0
AllSized n [] = Unit
AllSized n (row ∷ rows) = (length row ≡ n) × AllSized n rows

module _ {D : Type 0} where
  to_gsl_matrix-AllSized :
      (m n : ℕ) (values : List D) → m * n ≤ length values → AllSized n (to_gsl_matrix values m n)
  unfolding to_gsl_matrix
  to_gsl_matrix-AllSized zero n values h = tt
  to_gsl_matrix-AllSized (suc m) n values h = (
    omega (arith, length-take n values),
    to_gsl_matrix-AllSized m n (drop n values) (omega (arith, length-drop n values)),
  )

  set_column-AllSized :
      (i n : ℕ) (values : List D) (rows : List (List D))
      → AllSized n rows
      → AllSized n (set_column i values rows)
  unfolding set_column
  set_column-AllSized i n [] rows a = a
  set_column-AllSized i n (v ∷ values) [] a = a
  set_column-AllSized i n (v ∷ values) (row ∷ rows) a =
      (length-set row i v ∙ a.0, set_column-AllSized i n values rows a.1)

  get-AllSized :
      (n i : ℕ) (rows : List (List D)) (row : List D)
      → AllSized n rows
      → get_elem? rows i ≡ some row
      → length row ≡ n
  get-AllSized n i [] row a h = ground arith
  get-AllSized n zero (x ∷ rows) row a h = let same : x ≡ row = cc h in ap length (sym same) ∙ a.0
  get-AllSized n (suc i) (x ∷ rows) row a h = get-AllSized n i rows row a.1 h

module _ {D : Type 0} (F : Floats D) {gsl : Gsl D} (laws : IsGsl gsl) where
  normalize-AllSized :
      (k i n : ℕ) (rows : List (List D))
      → AllSized n rows
      → AllSized n (normalize_columns_from F gsl k i rows).1
  unfolding normalize_columns_from
  normalize-AllSized zero i n rows a = a
  normalize-AllSized (suc k) i n rows a =
      normalize-AllSized k (i + 1) n _ (set_column-AllSized i n _ rows a)

  -- With allocation and copies as GSL documents them, `clustering` of a valid monitor with a number
  -- of events other than 1, a window of more than two rows and more than two reads ends in an
  -- error.
  pub clustering_error :
      {E : Type 0} {lib : PerfLib D E} (R : ReadsRows lib) (rand : ℕ → ℕ) (m : Hmon D E)
      → IsValid R m
      → 2 < m.window
      → 2 < m.total
      → m.n_events ≢ 1
      → clustering F gsl rand m ≡ none
  unfolding clustering gsl_matrix_normalize_columns
  clustering_error R rand m v wide read_often other =
      let rows = if ltb m.window m.total then m.window else m.total in
      let some_rows : 2 < rows = ground arith in
      let inside : rows ≤ m.window = ground arith in
      let room : rows * (m.n_events + 1) ≤ length m.events = grind (arith, inside, v.rows) in
      let sized =
        normalize-AllSized (m.n_events + 1) 0 (m.n_events + 1) _
          (to_gsl_matrix-AllSized rows (m.n_events + 1) m.events room) in
      let e =
        kmean_error F laws rand rows (m.n_events + 1) 1 _
          (λ i point h. get-AllSized _ i _ point sized h) some_rows
          (λ eq. other (omega (arith, eq))) in
      ground (arith, e)
