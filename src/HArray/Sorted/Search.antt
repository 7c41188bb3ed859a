-- ===== src/HArray/Sorted/Search.antt =====
-- harray.c: the loop of `harray_insert_sorted`.
use native.Mathlib.Decide.{dec_lt}
use hierarchical_monitors.Prelude.{
  ℕ, zero, suc, ◌+◌, ◌^◌, ◌≤◌, ◌<◌, ◌≡◌, ◌⊎◌, refl, some, List, inl, inr, get_or, arith,
}
use hierarchical_monitors.Prelude.Int.{ℤ, pos, negsuc}
use hierarchical_monitors.HArray.Sorted.{middle, search_loop}

middle_before :
    (index right : ℕ) → right < 2 ^ 31 → index ≤ right → middle index right < right → index < right
unfolding middle
middle_before index right l h more = omega arith

-- The right bound falls where the loop goes on in the left half.
middle_shrinks :
    (left right index : ℕ)
    → left < right
    → index ≡ middle left right
    → right < 2 ^ 31
    → middle left index < index
    → index < right
unfolding middle
middle_shrinks left right index h k l more = omega arith

pub sign_cases :
    (z : ℤ) → ((c : ℕ) × (z ≡ pos (suc c))) ⊎ (((c : ℕ) × (z ≡ negsuc c)) ⊎ (z ≡ pos 0))
sign_cases (pos zero) = inr (inr refl)
sign_cases (pos (suc c)) = inl (c, refl)
sign_cases (negsuc c) = inr (inl (c, refl))

module _ (compare : ℕ → ℕ → ℤ) where
  -- The loop ends with an index behind `low`, and no further than one behind `high`.
  abbrev pub Ends : ℕ → List ℕ → ℕ → ℕ → ℕ → ℕ → ℕ → ℕ → Type 0
  Ends fuel cells element left right index low high =
      (k : ℕ) × (search_loop compare fuel cells element left right index ≡ some k)
      × (low < k)
      × (k ≤ suc high)

  right_half :
      (fuel : ℕ) (cells : List ℕ) (element left right index c : ℕ)
      → compare element (get_or cells index 0) ≡ pos (suc c)
      → left < index
      → index ≤ right
      → right < 2 ^ 31
      → (middle index right < right
          → Ends fuel cells element index right (middle index right) index right)
      → Ends (suc fuel) cells element left right index left right
  unfolding search_loop
  right_half fuel cells element left right index c e h k l next =
      elim (dec_lt (middle index right) right) [
        | yes more ↦ let (r, f, p, q) = next more in (r, ground (arith, e, f), omega arith, q)
        | no done ↦ (
          middle index right,
          ground (arith, e),
          unfold middle in omega arith,
          unfold middle in omega arith,
        )
      ]

  left_half :
      (fuel : ℕ) (cells : List ℕ) (element left right index c : ℕ)
      → compare element (get_or cells index 0) ≡ negsuc c
      → left < index
      → index ≤ right
      → right < 2 ^ 31
      → (middle left index < index
          → Ends fuel cells element left index (middle left index) left index)
      → Ends (suc fuel) cells element left right index left right
  unfolding search_loop
  left_half fuel cells element left right index c e h k l next =
      elim (dec_lt (middle left index) index) [
        | yes more ↦ let (r, f, p, q) = next more in (r, ground (arith, e, f), p, omega arith)
        | no done ↦ (
          middle left index,
          ground (arith, e),
          unfold middle in omega arith,
          unfold middle in omega arith,
        )
      ]

  pub search_loop_lem :
      (fuel : ℕ) (cells : List ℕ) (element left right index : ℕ)
      → left < right
      → index ≡ middle left right
      → right < 2 ^ 31
      → right < left + fuel
      → Ends fuel cells element left right index left right
  search_loop_lem zero cells element left right index h k l m = absurd (omega arith)
  search_loop_lem (suc fuel) cells element left right index h k l m =
      elim (sign_cases (compare element (get_or cells index 0))) [
        | inl (c, e) ↦ right_half fuel cells element left right index c e low high l (λ more.
            search_loop_lem fuel cells element index right (middle index right) (before more) refl l
              (omega (arith, low)))
        | inr (inl (c, e)) ↦ left_half fuel cells element left right index c e low high l (λ more.
            search_loop_lem fuel cells element left index (middle left index) low refl
              (omega (arith, high)) (shorter more))
        | inr (inr e) ↦ (index, unfold search_loop in ground (arith, e), low, omega (arith, high))
      ]
    where
      low : left < index
      low = rw k (unfold middle in omega arith)

      high : index ≤ right
      high = rw k (unfold middle in omega arith)

      before : middle index right < right → index < right
      before more = middle_before index right l high more

      shorter : middle left index < index → index < left + fuel
      shorter more = omega (arith, middle_shrinks left right index h k l more)
