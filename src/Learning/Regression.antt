-- ===== src/Learning/Regression.antt =====
-- plugins/learning/linreg.c, and the regression of learning.c: a linear model of the first event of a
-- monitor by the others. GSL's minimiser is a parameter too.
use hierarchical_monitors.Prelude.{
  ℕ, zero, suc, ◌+◌, ◌-◌, ◌%◌, ◌^◌, Bool, true, false, Option, none, some, List, [], ◌∷◌, ◌++◌, map,
  take, drop, ltb, ◌==◌, if◌then◌else◌,
}
use hierarchical_monitors.Prelude.Int.{ℤ, pos, negsuc}
use hierarchical_monitors.Prelude.Floats.{Floats}
use hierarchical_monitors.Hmonitor.{Hmon}
use hierarchical_monitors.Learning.{Gsl}
use hierarchical_monitors.Learning.Features.{to_gsl_matrix, to_gsl_vector, column}
use hierarchical_monitors.Learning.Kmean.{max_iter}

-- `dgemv transposed alpha X x beta y` is alpha X x + beta y; the minimiser `S` is made for a number of
-- variables, set to an objective and a start, moved on, and asked for its point and gradient.
pub record Solver (D S : Type 0) : Type 0 where
  pub blas_dgemv : Bool → D → List (List D) → List D → D → List D → Option (List D)
  pub minimizer_alloc : ℕ → S
  pub minimizer_set : (List D → Option D) → (List D → Option (List D)) → List D → D → D → S → S
  pub minimizer_iterate : S → ℤ × S
  pub minimizer_x : S → List D
  pub minimizer_gradient : S → List D
  pub test_gradient : List D → D → ℤ
  pub gsl_success : ℤ
  pub gsl_continue : ℤ

-- `struct linear_model`, with the input and the output where they are set.
pub record LinearModel (D S : Type 0) : Type 0 where
  pub x : List (List D)
  pub y : List D
  pub lambda : D
  pub s : S

-- `n - 1` of an `unsigned`.
abbrev pub less_one : ℕ → ℕ
less_one n = (n + (2 ^ 32 - 1)) % 2 ^ 32

unfoldable pub same_status : ℤ → ℤ → Bool
same_status (pos a) (pos b) = a == b
same_status (negsuc a) (negsuc b) = a == b
same_status _ _ = false

module _ {D S : Type 0} (F : Floats D) (gsl : Gsl D) (solver : Solver D S) where
  abbrev pub number : ℤ → D
  number n = F.of_int n

  unfoldable pub h : List D → List D → Option D
  h x theta = gsl.blas_ddot x theta

  -- The values left in `y`: those of the model less those that were there.
  unfoldable pub h_y : List (List D) → List D → List D → Option (List D)
  h_y x theta y = solver.blas_dgemv false (number (pos 1)) x theta (number (negsuc 0)) y

  unfoldable pub h_y2 : List (List D) → List D → List D → Option (D × List D)
  h_y2 x theta y = elim (h_y x theta y) [
    | none ↦ none
    | some errors ↦ elim (gsl.blas_ddot errors errors) [
      | none ↦ none
      | some cost ↦ some (cost, errors)
    ]
  ]

  unfoldable pub h_y2_regularized : List (List D) → List D → List D → D → Option (D × List D)
  h_y2_regularized x theta y lambda = elim (gsl.blas_ddot theta theta) [
    | none ↦ none
    | some reg ↦ elim (h_y2 x theta y) [
      | none ↦ none
      | some (cost, errors) ↦ some (F.add cost (F.mul lambda reg), errors)
    ]
  ]

  -- The cost of parameters; the copy of `y` that the calls change is thrown away.
  unfoldable pub lsq : LinearModel D S → List D → Option D
  lsq model theta = elim (h_y2_regularized model.x theta model.y model.lambda) [
    | none ↦ none
    | some (cost, errors) ↦ some cost
  ]

  -- The gradient: the errors back through the input, and `lambda` times the parameters.
  unfoldable pub gradient : LinearModel D S → List D → List D → Option (List D)
  gradient model theta errors =
      solver.blas_dgemv true (number (pos 1)) model.x errors model.lambda theta

  unfoldable pub dlsq : LinearModel D S → List D → Option (List D)
  dlsq model theta = elim (h_y model.x theta model.y) [
    | none ↦ none
    | some errors ↦ gradient model theta errors
  ]

  unfoldable pub lsqdlsq : LinearModel D S → List D → Option (D × List D)
  lsqdlsq model theta = elim (h_y2_regularized model.x theta model.y model.lambda) [
    | none ↦ none
    | some (cost, errors) ↦ elim (gradient model theta errors) [
      | none ↦ none
      | some d_theta ↦ some (cost, d_theta)
    ]
  ]

  unfoldable pub new_linear_model : ℕ → D → LinearModel D S
  new_linear_model n lambda = record {
    x = [];
    y = [];
    lambda = lambda;
    s = solver.minimizer_alloc n;
  }

  -- The loop of at most `iter` rounds, which goes on while the status says so.
  unfoldable pub minimize : ℕ → D → S → S
  minimize zero tolerance s = s
  minimize (suc iter) tolerance s =
      let (status, moved) = solver.minimizer_iterate s in
      let tested = solver.test_gradient (solver.minimizer_gradient moved) tolerance in
      let again = minimize iter tolerance moved in
      if same_status status (pos 0)
      then (if same_status tested solver.gsl_success
          then moved
          else if same_status tested solver.gsl_continue
          then again
          else moved)
      else moved

  -- `step`, `tol` and `tolerance` are 0.01, 1e-4 and 1e-3.
  unfoldable pub linear_model_fit :
      D → D → D → LinearModel D S → List (List D) → List D → List D → LinearModel D S × List D
  linear_model_fit step tol tolerance model x theta y =
      let ready = record model { x = x; y = y } in
      let set = solver.minimizer_set (lsq ready) (dlsq ready) theta step tol ready.s in
      let s = minimize max_iter tolerance set in (record ready { s = s }, solver.minimizer_x s)

  unfoldable pub linear_model_predict : List D → List D → Option D
  linear_model_predict theta x = h x theta

  unfoldable pub linear_model_xvalid : List (List D) → List D → List D → Option D
  linear_model_xvalid x_valid theta y = elim (h_y2 x_valid theta y) [
    | none ↦ none
    | some (cost, errors) ↦ some cost
  ]

  -- 1 less the quotient of the two sums of squares.
  unfoldable pub determination : List (List D) → List D → List D → Option D
  determination x theta y =
      let mean = gsl.stats_mean y in
      let centered = gsl.add_constant y (gsl.negative mean) in
      elim (gsl.blas_ddot centered centered) [
        | none ↦ none
        | some ss_tot ↦ elim (h_y2 x theta (gsl.add_constant centered mean)) [
          | none ↦ none
          | some (ss_res, errors) ↦ some (F.sub (number (pos 1)) (F.div ss_res ss_tot))
        ]
      ]

  -- `userdata` is the model of a monitor, if it has one: the model after, and the monitor.
  unfoldable pub lsq_fit :
      {E : Type 0}
      → D
      → D
      → D
      → Option (LinearModel D S)
      → Hmon D E
      → Option (Option (LinearModel D S) × Hmon D E)
  lsq_fit step tol tolerance userdata monitor =
      let m = if ltb monitor.window monitor.total then monitor.window else monitor.total in
      let events = to_gsl_matrix monitor.events m (monitor.n_events + 1) in
      let theta = to_gsl_vector (drop 1 monitor.samples) (less_one monitor.n_events) in
      let y = column (number (pos 0)) 0 events in
      let x = map (λ row. take (less_one monitor.n_events) (drop 1 row)) events in
      elim (determination x theta y) [
        | none ↦ none
        | some r2 ↦
            let scored = r2 ∷ drop 1 monitor.samples in
            let model : LinearModel D S = elim userdata [
              | none ↦ new_linear_model (less_one monitor.n_events) (number (pos 1000))
              | some found ↦ found
            ] in
            let (fitted, best) = linear_model_fit step tol tolerance model x theta y in
            if monitor.last == less_one monitor.window
            then some (
              some fitted,
              record monitor { samples = r2 ∷ (best ++ drop monitor.n_events monitor.samples) },
            )
            else some (userdata, record monitor { samples = scored })
      ]
