-- ===== src/Learning.antt =====
-- plugins/learning/: clustering and regression over the rows of a monitor. GSL is a parameter; a vector
-- is the list of its elements, a matrix the list of its rows, and an error of GSL, which ends the
-- program, is `none`.
pub mod Features
pub mod Kmean
pub mod Regression
pub mod Nearest
pub mod Clusters
use hierarchical_monitors.Prelude.{ℕ, Bool, Option, List}
use hierarchical_monitors.Prelude.Int.{ℤ}

-- The calls of GSL on vectors of doubles. An allocation holds what stands in memory.
pub record Gsl (D : Type 0) : Type 0 where
  pub matrix_alloc : ℕ → ℕ → List (List D)
  pub vector_ulong_alloc : ℕ → List ℕ
  pub vector_calloc : ℕ → List D
  pub set_zero : List D → List D
  pub memcpy : List D → List D → Option (List D)
  pub vector_sub : List D → List D → Option (List D)
  pub vector_add : List D → List D → Option (List D)
  pub blas_ddot : List D → List D → Option D
  pub vector_scale : List D → D → List D
  pub add_constant : List D → D → List D
  pub vector_max : List D → D
  pub vector_min : List D → D
  pub stats_mean : List D → D
  pub negative : D → D
  pub is_zero : D → Bool
