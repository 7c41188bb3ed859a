-- ===== src/Tests/Learn.antt =====
-- kmean.c on whole numbers: points of one coordinate and two centroids; and a monitor of two events.
use hierarchical_monitors.Prelude.{
  ℕ, zero, suc, ◌<◌, ◌≡◌, refl, false, Option, none, some, List, [], ◌∷◌, map, ◌==◌, length, get_or,
  get_elem?, length-replicate, replicate, if◌then◌else◌, arith,
}
use hierarchical_monitors.Prelude.Int.{ℤ, pos, ◌+ℤ◌, ◌-ℤ◌, ◌*ℤ◌}
use hierarchical_monitors.HArray.Lookup.{count}
use hierarchical_monitors.Hmonitor.{Hmon}
use hierarchical_monitors.Hmonitor.Ring.{IsValid}
use hierarchical_monitors.Fake.Events.{fake_reads}
use hierarchical_monitors.Learning.{Gsl}
use hierarchical_monitors.Learning.Kmean.{Centroids, distance, centroids_color, clustering}
use hierarchical_monitors.Learning.Nearest.{Measured, AllMeasured, AllNearest, color_lem}
use hierarchical_monitors.Learning.Clusters.{IsGsl, clustering_error}
use hierarchical_monitors.Tests.Doubles.{whole, whole-IsOrdered}
use hierarchical_monitors.Tests.Monitors.{monitor}

abbrev zip_with : (ℤ → ℤ → ℤ) → List ℤ → List ℤ → Option (List ℤ)
zip_with f [] [] = some []
zip_with f (a ∷ xs) (b ∷ ys) = elim (zip_with f xs ys) [
  | none ↦ none
  | some rest ↦ some (f a b ∷ rest)
]
zip_with f _ _ = none

abbrev dot : List ℤ → List ℤ → Option ℤ
dot [] [] = some (pos 0)
dot (a ∷ xs) (b ∷ ys) = elim (dot xs ys) [ none ↦ none | some rest ↦ some ((a *ℤ b) +ℤ rest) ]
dot _ _ = none

abbrev gsl : Gsl ℤ
gsl = record {
  matrix_alloc = λ m k. replicate m (replicate k (pos 0));
  vector_ulong_alloc = λ n. replicate n 0;
  vector_calloc = λ n. replicate n (pos 0);
  set_zero = λ v. map (λ x. pos 0) v;
  memcpy = λ dest src. if length dest == length src then some src else none;
  vector_sub = zip_with ◌-ℤ◌;
  vector_add = zip_with ◌+ℤ◌;
  blas_ddot = dot;
  vector_scale = λ v d. v;
  add_constant = λ v d. map (λ x. x +ℤ d) v;
  vector_max = λ v. pos 0;
  vector_min = λ v. pos 0;
  stats_mean = λ v. pos 0;
  negative = λ d. pos 0 -ℤ d;
  is_zero = λ d. false;
}

rows-get_elem? :
    (m k i : ℕ)
    → i < m
    → (row : List ℤ) × (get_elem? (replicate m (replicate k (pos 0))) i ≡ some row)
      × (length row ≡ k)
rows-get_elem? zero k i h = absurd (omega arith)
rows-get_elem? (suc m) k zero h = (replicate k (pos 0), refl, length-replicate k (pos 0))
rows-get_elem? (suc m) k (suc i) h = rows-get_elem? m k i (omega arith)

gsl-IsGsl : IsGsl gsl
gsl-IsGsl = record { row_lem = rows-get_elem?; memcpy_error = λ dest src h. ground (arith, h) }

-- Centroids at 0 and 10, points at 2 and 7.
abbrev centroids : Centroids ℤ
centroids = record {
  m = 2;
  n = 1;
  k = 2;
  centroids = (pos 0 ∷ []) ∷ (pos 10 ∷ []) ∷ [];
  label = 9 ∷ 9 ∷ [];
  nlab = 9 ∷ 9 ∷ [];
}

abbrev points : List (List ℤ)
points = (pos 2 ∷ []) ∷ (pos 7 ∷ []) ∷ []

abbrev from_2 : ℕ → ℤ
from_2 j = get_or (pos 4 ∷ pos 64 ∷ []) j (pos 0)

abbrev from_7 : ℕ → ℤ
from_7 j = get_or (pos 49 ∷ pos 9 ∷ []) j (pos 0)

point_2-Measured : Measured whole gsl (pos 0 ∷ []) centroids.centroids 2 (pos 2 ∷ []) from_2
unfolding distance ◌+ℤ◌ ◌*ℤ◌ ◌-ℤ◌
point_2-Measured zero h = (pos 0 ∷ [], refl, refl, refl)
point_2-Measured (suc zero) h = (pos 10 ∷ [], refl, refl, refl)
point_2-Measured (suc (suc j)) h = absurd (omega arith)

point_7-Measured : Measured whole gsl (pos 0 ∷ []) centroids.centroids 2 (pos 7 ∷ []) from_7
unfolding distance ◌+ℤ◌ ◌*ℤ◌ ◌-ℤ◌
point_7-Measured zero h = (pos 0 ∷ [], refl, refl, refl)
point_7-Measured (suc zero) h = (pos 10 ∷ [], refl, refl, refl)
point_7-Measured (suc (suc j)) h = absurd (omega arith)

points-AllMeasured :
    AllMeasured whole gsl (pos 0 ∷ []) centroids.centroids 2 points (from_2 ∷ from_7 ∷ [])
points-AllMeasured = (point_2-Measured, (point_7-Measured, tt))

color_lem_example :
    (labels counts : List ℕ) × (centroids_color whole gsl points centroids
      ≡ some (record centroids { label = labels; nlab = counts }))
    × AllNearest whole (from_2 ∷ from_7 ∷ []) 2 labels
    × ((j : ℕ) → j < 2 → get_or counts j 0 ≡ count j labels)
color_lem_example =
    color_lem whole-IsOrdered gsl centroids 1 points (from_2 ∷ from_7 ∷ []) refl refl
      points-AllMeasured

abbrev read_thrice : Hmon ℤ ℕ
read_thrice = record monitor {
  eventset = 2;
  events = replicate 9 (pos 3);
  n_events = 2;
  window = 3;
  last = 2;
  total = 3;
}

read_thrice-IsValid : IsValid (fake_reads whole) read_thrice
read_thrice-IsValid = record {
  rows = refl;
  bounded = omega arith;
  room = omega arith;
  inside = omega arith;
  counted = refl;
}

clustering_error_example : clustering whole gsl (λ i. i) read_thrice ≡ none
clustering_error_example =
    clustering_error whole gsl-IsGsl (fake_reads whole) (λ i. i) read_thrice read_thrice-IsValid
      (omega arith) (omega arith) (omega arith)
