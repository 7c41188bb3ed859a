-- ===== src/Learning/Kmean.antt =====
-- plugins/learning/kmean.c, and the clustering of learning.c: k-means over the rows of a monitor.
use hierarchical_monitors.Prelude.{
  ℕ, zero, suc, ◌+◌, ◌-◌, ◌*◌, ◌%◌, Option, none, some, List, [], ◌∷◌, ◌++◌, get_elem?, set, map,
  take, drop, ltb, leb, min, ◌==◌, replicate, if◌then◌else◌,
}
use hierarchical_monitors.Prelude.Int.{pos}
use hierarchical_monitors.Prelude.Floats.{Floats}
use hierarchical_monitors.Hmonitor.{Hmon}
use hierarchical_monitors.Learning.{Gsl}
use hierarchical_monitors.Learning.Features.{to_gsl_matrix, gsl_matrix_normalize_columns}

-- `struct centroids`
pub record Centroids (D : Type 0) : Type 0 where
  pub m : ℕ
  pub n : ℕ
  pub k : ℕ
  pub centroids : List (List D)
  pub label : List ℕ
  pub nlab : List ℕ

-- MAX_ITER and K
abbrev pub max_iter : ℕ
max_iter = 10

abbrev pub n_clusters : ℕ
n_clusters = 2

-- The block that holds the rows of a matrix.
unfoldable pub block : {D : Type 0} → List (List D) → List D
block [] = []
block (row ∷ rows) = row ++ block rows

module _ {D : Type 0} (F : Floats D) (gsl : Gsl D) where
  unfoldable pub new_centroids : ℕ → ℕ → ℕ → Centroids D
  new_centroids m n k = record {
    m = m;
    n = n;
    k = k;
    centroids = gsl.matrix_alloc m k;
    label = gsl.vector_ulong_alloc m;
    nlab = gsl.vector_ulong_alloc k;
  }

  -- `rand` gives the results of the calls of `rand()`. The centroids from `i` on, `n` of them.
  unfoldable pub init_from :
      (ℕ → ℕ) → ℕ → List (List D) → ℕ → ℕ → List (List D) → Option (List (List D))
  init_from rand m points zero i rows = some rows
  init_from rand m points (suc n) i rows = elim (get_elem? points (rand i % m)) [
    | none ↦ none
    | some point ↦ elim (get_elem? rows i) [
      | none ↦ none
      | some row ↦ elim (gsl.memcpy row point) [
        | none ↦ none
        | some copied ↦ init_from rand m points n (i + 1) (set rows i copied)
      ]
    ]
  ]

  unfoldable pub centroids_init : (ℕ → ℕ) → List (List D) → Centroids D → Option (Centroids D)
  centroids_init rand points c = elim (init_from rand c.m points c.k 0 c.centroids) [
    | none ↦ none
    | some rows ↦ some (record c { centroids = rows })
  ]

  -- The square of the distance between a point and a centroid, by way of `diff`.
  unfoldable pub distance : List D → List D → List D → Option D
  distance diff point centroid = elim (gsl.memcpy diff point) [
    | none ↦ none
    | some copied ↦ elim (gsl.vector_sub copied centroid) [
      | none ↦ none
      | some difference ↦ gsl.blas_ddot difference difference
    ]
  ]

  -- The loop over the centroids from `j` on, with the least distance and its centroid so far.
  unfoldable pub nearest_from : List D → List D → List (List D) → ℕ → ℕ → D → ℕ → Option ℕ
  nearest_from diff point rows zero j distance_min color = some color
  nearest_from diff point rows (suc n) j distance_min color = elim (get_elem? rows j) [
    | none ↦ none
    | some centroid ↦ elim (distance diff point centroid) [
      | none ↦ none
      | some d ↦
          let closer = F.ltb d distance_min in
          nearest_from diff point rows n (j + 1) (if closer then d else distance_min)
            (if closer then j else color)
    ]
  ]

  -- The loop over the points with their labels: the labels, and the points of each centroid. A point
  -- without a nearest centroid has the color of the point before.
  unfoldable pub color_points :
      Centroids D → List D → List (List D) → List ℕ → ℕ → List ℕ → Option (List ℕ × List ℕ)
  color_points c diff [] label color nlab = some ([], nlab)
  color_points c diff (point ∷ points) [] color nlab = none
  color_points c diff (point ∷ points) (l ∷ label) color nlab =
      elim (nearest_from diff point c.centroids c.k 0 F.dbl_max color) [
        | none ↦ none
        | some nearest ↦ elim (get_elem? nlab nearest) [
          | none ↦ none
          | some counted ↦
              elim (color_points c diff points label nearest (set nlab nearest (1 + counted))) [
                | none ↦ none
                | some (labels, counts) ↦ some (nearest ∷ labels, counts)
              ]
        ]
      ]

  unfoldable pub centroids_color : List (List D) → Centroids D → Option (Centroids D)
  centroids_color points c =
      elim (color_points c (gsl.vector_calloc c.n) points c.label 0 (replicate c.k 0)) [
        | none ↦ none
        | some (labels, counts) ↦ some (record c { label = labels; nlab = counts })
      ]

  -- Each point added to the centroid of its label.
  unfoldable pub add_points : List (List D) → List ℕ → List (List D) → Option (List (List D))
  add_points [] label rows = some rows
  add_points (point ∷ points) [] rows = none
  add_points (point ∷ points) (l ∷ label) rows = elim (get_elem? rows l) [
    | none ↦ none
    | some row ↦ elim (gsl.vector_add row point) [
      | none ↦ none
      | some sum ↦ add_points points label (set rows l sum)
    ]
  ]

  -- Each of the first centroids divided by its number of points, where it has some.
  unfoldable pub scale_rows : List ℕ → List (List D) → Option (List (List D))
  scale_rows [] rows = some rows
  scale_rows (count ∷ counts) [] = none
  scale_rows (count ∷ counts) (row ∷ rows) = elim (scale_rows counts rows) [
    | none ↦ none
    | some rest ↦ some (
        (if count == 0
          then row
          else gsl.vector_scale row (F.div (F.of_int (pos 1)) (F.of_int (pos count))))
        ∷ rest)
  ]

  unfoldable pub centroids_center : List (List D) → Centroids D → Option (Centroids D)
  centroids_center points c = elim (add_points points c.label (map gsl.set_zero c.centroids)) [
    | none ↦ none
    | some sums ↦ elim (scale_rows c.nlab sums) [
      | none ↦ none
      | some rows ↦ some (record c { centroids = rows })
    ]
  ]

  unfoldable pub iterate : ℕ → List (List D) → Centroids D → Option (Centroids D)
  iterate zero points c = some c
  iterate (suc iter) points c = elim (centroids_color points c) [
    | none ↦ none
    | some colored ↦ elim (centroids_center points colored) [
      | none ↦ none
      | some centered ↦ iterate iter points centered
    ]
  ]

  -- The copy of `m` points of `n` coordinates to the block of `m` rows of `k` that held 0.
  unfoldable pub copy_points : ℕ → ℕ → ℕ → List (List D) → Option (List (List D))
  copy_points m n k points =
      if ltb (m * k) (m * n)
      then none
      else some (to_gsl_matrix (block points ++ replicate (m * k - m * n) (F.of_int (pos 0))) m k)

  -- `size1` points of `size2` coordinates.
  unfoldable pub kmean : (ℕ → ℕ) → ℕ → ℕ → List (List D) → ℕ → Option (Centroids D)
  kmean rand size1 size2 points k =
      let c = new_centroids size1 size2 k in
      if leb size1 k
      then elim (copy_points size1 size2 k points) [
        | none ↦ none
        | some rows ↦ some (record c { centroids = rows })
      ]
      else elim (centroids_init rand points c) [
        | none ↦ none
        | some started ↦ iterate max_iter points started
      ]

  -- The labels of the first points go to the samples.
  unfoldable pub clustering : {E : Type 0} → (ℕ → ℕ) → Hmon D E → Option (Hmon D E)
  clustering rand monitor =
      let m = if ltb monitor.window monitor.total then monitor.window else monitor.total in
      let events = to_gsl_matrix monitor.events m (monitor.n_events + 1) in
      let points = (gsl_matrix_normalize_columns F gsl (monitor.n_events + 1) events).1 in
      elim (kmean rand m (monitor.n_events + 1) points n_clusters) [
        | none ↦ none
        | some c ↦ some (record monitor {
          samples =
              map (λ l. F.of_int (pos l)) (take (min m monitor.n_samples) c.label)
              ++ drop (min m monitor.n_samples) monitor.samples;
        })
      ]
