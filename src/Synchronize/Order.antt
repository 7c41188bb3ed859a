-- ===== src/Synchronize/Order.antt =====
-- synchronize.c: `hmon_compare` orders the monitors.
use hierarchical_monitors.Prelude.{
  ℕ, ◌≡◌, refl, Bool, true, false, not, List, [], ◌∷◌, ◌==◌, arith, if◌then◌else◌,
}
use hierarchical_monitors.Prelude.Int.{ℤ, pos, negsuc}
use hierarchical_monitors.Hmonitor.{Hmon}
use hierarchical_monitors.Synchronize.{
  strcmp, is_set, Topology, compare_places, compare_flags, hmon_compare,
}

-- The sign of a comparison read the other way round.
abbrev pub opposite : ℤ → ℤ
opposite (pos n) = if n == 0 then pos 0 else negsuc 0
opposite (negsuc n) = pos 1

strcmp-swap : (a b : List ℕ) → strcmp b a ≡ opposite (strcmp a b)
unfolding strcmp
strcmp-swap [] [] = refl
strcmp-swap [] (y ∷ b) = refl
strcmp-swap (x ∷ a) [] = refl
strcmp-swap (x ∷ a) (y ∷ b) = ground (arith, strcmp-swap a b)

strcmp_trans :
    (a b c : List ℕ) → strcmp a b ≡ negsuc 0 → strcmp b c ≡ negsuc 0 → strcmp a c ≡ negsuc 0
unfolding strcmp
strcmp_trans [] [] c h k = ground arith
strcmp_trans [] (y ∷ b) [] h k = ground arith
strcmp_trans [] (y ∷ b) (z ∷ c) h k = refl
strcmp_trans (x ∷ a) [] c h k = ground arith
strcmp_trans (x ∷ a) (y ∷ b) [] h k = ground arith
strcmp_trans (x ∷ a) (y ∷ b) (z ∷ c) h k = ground (arith, strcmp_trans a b c)

strcmp-same : (a b : List ℕ) → strcmp a b ≡ pos 0 → a ≡ b
unfolding strcmp
strcmp-same [] [] h = refl
strcmp-same [] (y ∷ b) h = ground arith
strcmp-same (x ∷ a) [] h = ground arith
strcmp-same (x ∷ a) (y ∷ b) h = ground (arith, strcmp-same a b)

strcmp_self : (a : List ℕ) → strcmp a a ≡ pos 0
unfolding strcmp
strcmp_self [] = refl
strcmp_self (x ∷ a) = ground (arith, strcmp_self a)

-- A test before a transitive comparison keeps it transitive.
flags_trans :
    (a b c : Bool) {r s t : ℤ}
    → compare_flags a b r ≡ negsuc 0
    → compare_flags b c s ≡ negsuc 0
    → (r ≡ negsuc 0 → s ≡ negsuc 0 → t ≡ negsuc 0)
    → compare_flags a c t ≡ negsuc 0
unfolding compare_flags
flags_trans true true true h k l = l h k
flags_trans true true false h k l = refl
flags_trans true false true h k l = ground arith
flags_trans true false false h k l = refl
flags_trans false true c h k l = ground arith
flags_trans false false true h k l = ground arith
flags_trans false false false h k l = l h k

places_trans :
    (d e f i j k : ℕ) {r s t : ℤ}
    → compare_places d e i j r ≡ negsuc 0
    → compare_places e f j k s ≡ negsuc 0
    → (r ≡ negsuc 0 → s ≡ negsuc 0 → t ≡ negsuc 0)
    → compare_places d f i k t ≡ negsuc 0
unfolding compare_places
places_trans d e f i j k h l rest = ground arith

module _ {D E : Type 0} (topology : Topology) where
  -- `hmon_compare` with the arguments swapped has the opposite sign.
  pub compare-swap :
      (a b : Hmon D E) → hmon_compare topology b a ≡ opposite (hmon_compare topology a b)
  unfolding hmon_compare compare_places compare_flags
  compare-swap a b = ground (arith, strcmp-swap a.id b.id)

  -- If `hmon_compare` puts a first monitor before a second and that before a third, then it puts
  -- the first before the third.
  compare_trans :
      (a b c : Hmon D E)
      → hmon_compare topology a b ≡ negsuc 0
      → hmon_compare topology b c ≡ negsuc 0
      → hmon_compare topology a c ≡ negsuc 0
  unfolding hmon_compare
  compare_trans a b c h k =
      places_trans (topology.depth a.location) (topology.depth b.location)
        (topology.depth c.location) (topology.logical_index a.location)
        (topology.logical_index b.location) (topology.logical_index c.location) h k
        (λ h1 k1.
          flags_trans (not (a.display == 0)) (not (b.display == 0)) (not (c.display == 0)) h1 k1
            (λ h2 k2.
              flags_trans (is_set a.output) (is_set b.output) (is_set c.output) h2 k2
                (strcmp_trans a.id b.id c.id)))

  pub compare-same :
      (a b : Hmon D E)
      → hmon_compare topology a b ≡ pos 0
      → (topology.depth a.location ≡ topology.depth b.location)
        × (topology.logical_index a.location ≡ topology.logical_index b.location)
        × (a.id ≡ b.id)
  unfolding hmon_compare compare_places compare_flags
  compare-same a b h = ground (arith, strcmp-same a.id b.id)
