-- ===== src/Learning/Nearest.antt =====
-- kmean.c: the centroid that a point is given.
use native.Mathlib.Decide.{ℕ_discrete}
use mathlib.Core.Path.{subst}
use hierarchical_monitors.Prelude.{
  ℕ, zero, suc, ◌+◌, ◌<◌, ◌≡◌, refl, ap, ◌∙◌, true, false, some, List, [], ◌∷◌, length, get_elem?,
  get_or, get_or-set_self, get_or-set_ne, get_or-replicate, length-set, length-replicate, replicate,
  set, if◌then◌else◌, arith, Bool-cases, inl, inr,
}
use hierarchical_monitors.Prelude.Floats.{Floats, IsOrdered}
use hierarchical_monitors.HArray.Lookup.{count}
use hierarchical_monitors.Learning.{Gsl}
use hierarchical_monitors.Learning.Kmean.{
  Centroids, distance, nearest_from, color_points, centroids_color,
}

get-or : (xs : List ℕ) (i : ℕ) → i < length xs → get_elem? xs i ≡ some (get_or xs i 0)
get-or [] i h = absurd (omega arith)
get-or (x ∷ xs) zero h = refl
get-or (x ∷ xs) (suc i) h = get-or xs i (omega arith)

module _ {D : Type 0} (F : Floats D) where
  -- Of the first `k` distances none is below that of `c`.
  pub record IsNearest (dist : ℕ → D) (k c : ℕ) : Type 0 where
    pub inside : c < k
    pub least : (j : ℕ) → j < k → F.ltb (dist j) (dist c) ≡ false

  abbrev pub AllNearest : List (ℕ → D) → ℕ → List ℕ → Type 0
  AllNearest [] k [] = Unit
  AllNearest (dist ∷ dists) k (c ∷ labels) = IsNearest dist k c × AllNearest dists k labels
  AllNearest _ k _ = ⊥

  module _ (gsl : Gsl D) (diff : List D) (rows : List (List D)) where
    -- The distances of a point to the first `k` centroids are computed, and below DBL_MAX.
    abbrev pub Measured : ℕ → List D → (ℕ → D) → Type 0
    Measured k point dist =
        (j : ℕ)
        → j < k
        → (centroid : List D) × (get_elem? rows j ≡ some centroid)
          × (distance F gsl diff point centroid ≡ some (dist j))
          × (F.ltb (dist j) F.dbl_max ≡ true)

    abbrev pub AllMeasured : ℕ → List (List D) → List (ℕ → D) → Type 0
    AllMeasured k [] [] = Unit
    AllMeasured k (point ∷ points) (dist ∷ dists) =
        Measured k point dist × AllMeasured k points dists
    AllMeasured k _ _ = ⊥

    module _ (ordered : IsOrdered F) where
      step-IsNearest :
          (dist : ℕ → D) (j color : ℕ)
          → IsNearest dist j color
          → IsNearest dist (j + 1) (if F.ltb (dist j) (dist color) then j else color)
      step-IsNearest dist j color best = elim (Bool-cases (F.ltb (dist j) (dist color))) [
        | inl closer ↦ rw closer (record {
          inside = omega arith;
          least = λ i h. elim (ℕ_discrete i j) [
            | yes same ↦ rw same (ordered.irrefl (dist j))
            | no other ↦ elim (Bool-cases (F.ltb (dist i) (dist j))) [
              | inr fine ↦ fine
              | inl below ↦ cc (
                best.least i (omega arith),
                ordered.trans (dist i) (dist j) (dist color) below closer,
              )
            ]
          ];
        })
        | inr further ↦ rw further (record {
          inside = let b = best.inside in omega arith;
          least = λ i h. elim (ℕ_discrete i j) [
            | yes same ↦ rw same further
            | no other ↦ best.least i (omega arith)
          ];
        })
      ]

      nearest_from_lem :
          (point : List D) (dist : ℕ → D) (k n j color : ℕ)
          → j + n ≡ k
          → Measured k point dist
          → IsNearest dist j color
          → (c : ℕ) × (nearest_from F gsl diff point rows n j (dist color) color ≡ some c)
            × IsNearest dist k c
      unfolding nearest_from
      nearest_from_lem point dist k zero j color end measured best =
          (color, refl, subst (λ l. IsNearest dist l color) (omega arith) best)
      nearest_from_lem point dist k (suc n) j color end measured best =
          let (centroid, at, far, below) = measured j (omega arith) in
          let next = step-IsNearest dist j color best in
          elim (Bool-cases (F.ltb (dist j) (dist color))) [
            | inl closer ↦
                let best_now : IsNearest dist (j + 1) j =
                  subst (λ b. IsNearest dist (j + 1) (if b then j else color)) closer next in
                let (c, e, w) =
                  nearest_from_lem point dist k n (j + 1) j (omega arith) measured best_now in
                (c, ground (arith, at, far, closer, e), w)
            | inr further ↦
                let best_now : IsNearest dist (j + 1) color =
                  subst (λ b. IsNearest dist (j + 1) (if b then j else color)) further next in
                let (c, e, w) =
                  nearest_from_lem point dist k n (j + 1) color (omega arith) measured best_now in
                (c, ground (arith, at, far, further, e), w)
          ]

      nearest_lem :
          (point : List D) (dist : ℕ → D) (k color : ℕ)
          → Measured (suc k) point dist
          → (c : ℕ) × (nearest_from F gsl diff point rows (suc k) 0 F.dbl_max color ≡ some c)
            × IsNearest dist (suc k) c
      unfolding nearest_from
      nearest_lem point dist k color measured =
          let (centroid, at, far, below) = measured 0 (omega arith) in
          let alone : IsNearest dist 1 0 = record {
            inside = omega arith;
            least = λ j h.
                subst (λ i. F.ltb (dist i) (dist 0) ≡ false) (omega arith)
                  (ordered.irrefl (dist 0));
          } in
          let (c, e, w) = nearest_from_lem point dist (suc k) k 1 0 (omega arith) measured alone in
          (c, ground (arith, at, far, below, e), w)

-- `after` counts, for each centroid, the labels that are added to `before`.
abbrev pub Counted : ℕ → List ℕ → List ℕ → List ℕ → Type 0
Counted k labels before after =
    (j : ℕ) → j < k → get_or after j 0 ≡ get_or before j 0 + count j labels

module _ {D : Type 0} {F : Floats D} (ordered : IsOrdered F) (gsl : Gsl D) where
  color_points_lem :
      (c : Centroids D) (k : ℕ) (diff : List D) (points : List (List D)) (dists : List (ℕ → D))
      (label : List ℕ) (color : ℕ) (nlab : List ℕ)
      → c.k ≡ suc k
      → AllMeasured F gsl diff c.centroids (suc k) points dists
      → length label ≡ length points
      → length nlab ≡ suc k
      → (labels counts : List ℕ) × (color_points F gsl c diff points label color nlab
          ≡ some (labels, counts))
        × AllNearest F dists (suc k) labels
        × Counted (suc k) labels nlab counts
  unfolding color_points
  color_points_lem c k diff [] [] label color nlab size a same wide =
      ([], nlab, refl, tt, λ j h. omega arith)
  color_points_lem c k diff [] (dist ∷ dists) label color nlab size a same wide = elim a [ ]
  color_points_lem c k diff (point ∷ points) [] label color nlab size a same wide = elim a [ ]
  color_points_lem c k diff (point ∷ points) (dist ∷ dists) [] color nlab size a same wide =
      absurd (omega arith)
  color_points_lem c k diff (point ∷ points) (dist ∷ dists) (l ∷ label) color nlab size a same
        wide =
      let (near, e, w) = nearest_lem F gsl diff c.centroids ordered point dist k color a.0 in
      let counted = get_or nlab near 0 in
      let more = set nlab near (1 + counted) in
      let (labels, counts, rest, all_near, all_counted) =
        color_points_lem c k diff points dists label near more size a.1 (omega arith)
          (length-set nlab near (1 + counted) ∙ wide) in
      let there : get_elem? nlab near ≡ some counted = get-or nlab near (omega (arith, w.inside)) in
      let found =
        ap (λ n. nearest_from F gsl diff point c.centroids n 0 F.dbl_max color) size ∙ e in
      (
        near ∷ labels,
        counts,
        ground (arith, found, there, rest),
        (w, all_near),
        λ j h. elim (ℕ_discrete near j) [
          | yes hit ↦
              let changed = get_or-set_self nlab near (1 + counted) 0 (omega (arith, w.inside)) in
              let same_more : get_or more j 0 ≡ 1 + get_or nlab j 0 =
                subst (λ i. get_or more i 0 ≡ 1 + get_or nlab i 0) hit changed in
              ground (arith, all_counted j h, same_more, hit)
          | no miss ↦
              ground (arith, all_counted j h, get_or-set_ne nlab near j (1 + counted) 0 miss, miss)
        ],
      )

  -- Where the squares of the distances between points and centroids are computed, ordered and below
  -- DBL_MAX, with at least one centroid and a label for each point, `centroids_color` succeeds:
  -- each point has the label of a centroid such that no other is nearer, and each centroid the
  -- number of points with its label.
  pub color_lem :
      (c : Centroids D) (k : ℕ) (points : List (List D)) (dists : List (ℕ → D))
      → c.k ≡ suc k
      → length c.label ≡ length points
      → AllMeasured F gsl (gsl.vector_calloc c.n) c.centroids (suc k) points dists
      → (labels counts : List ℕ) × (centroids_color F gsl points c
          ≡ some (record c { label = labels; nlab = counts }))
        × AllNearest F dists (suc k) labels
        × ((j : ℕ) → j < suc k → get_or counts j 0 ≡ count j labels)
  unfolding centroids_color
  color_lem c k points dists size labelled measured =
      let (labels, counts, e, near, counted) =
        color_points_lem c k (gsl.vector_calloc c.n) points dists c.label 0 (replicate c.k 0) size
          measured labelled (length-replicate c.k 0 ∙ size) in
      (
        labels,
        counts,
        ground (arith, e),
        near,
        λ j h. omega (arith, counted j h, get_or-replicate {A = ℕ} c.k j 0),
      )
