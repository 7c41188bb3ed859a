-- ===== src/HArray/Sorted/Insert.antt =====
-- harray.c: what `harray_insert_sorted` leaves in the array.
use native.Mathlib.Decide.{dec_lt, ℕ_discrete}
use hierarchical_monitors.Prelude.{
  ℕ, suc, ◌+◌, ◌-◌, ◌%◌, ◌^◌, ◌≤◌, ◌<◌, ◌≡◌, refl, some, List, [], ◌∷◌, ◌++◌, inl, inr, take, drop,
  get_or, length, length-append, length-take, arith, take-length, get_or-append_left,
  get_or-append_at, drop-length, get_or-take, ◌∙◌, ap, sym,
}
use hierarchical_monitors.Prelude.Int.{ℤ}
use hierarchical_monitors.HArray.{HArray, u32_mod, harray_push}
use hierarchical_monitors.HArray.Inv.{IsValid, contents, length-contents}
use hierarchical_monitors.HArray.Sorted.{middle, insert_index, insert_at, harray_insert_sorted}
use hierarchical_monitors.HArray.Refine.{push_refines}
use hierarchical_monitors.HArray.Middle.{insert_refines}
use hierarchical_monitors.HArray.Sorted.Search.{sign_cases, search_loop_lem}

-- The element at index `k` of the elements that were there.
abbrev pub Placed : HArray → ℕ → ℕ → HArray → Type 0
Placed array x k placed =
    IsValid placed
    × (k ≤ array.length)
    × (contents placed ≡ take k (contents array) ++ x ∷ drop k (contents array))

split_last : (xs : List ℕ) (k x : ℕ) → k ≡ length xs → take k xs ++ x ∷ drop k xs ≡ xs ++ x ∷ []
split_last xs k x h = rw h (rw (take-length xs, drop-length xs))

place_last :
    {array : HArray} (k x : ℕ)
    → IsValid array
    → k ≡ array.length
    → array.length < 2 ^ 31
    → (placed : HArray) × (harray_push array x ≡ some placed)
      × (placed.length ≡ suc array.length)
      × Placed array x k placed
place_last {array} k x v at h =
    let (placed, e, w, c) = push_refines x v h in
    (
      placed,
      e,
      omega (
        arith,
        length-contents w,
        ap (λ l. length l) c,
        length-append (contents array) (x ∷ []),
        length-contents v,
      ),
      (
        w,
        omega arith,
        c ∙ sym (split_last (contents array) k x (omega (arith, length-contents v))),
      ),
    )

-- What the split around index `k` says of single elements.
split_reads :
    (xs : List ℕ) (k x : ℕ)
    → 0 < k
    → k ≤ length xs
    → (get_or (take k xs ++ x ∷ drop k xs) 0 0 ≡ get_or xs 0 0)
      × (get_or (take k xs ++ x ∷ drop k xs) k 0 ≡ x)
split_reads xs k x h l = (
  get_or-append_left (take k xs) (x ∷ drop k xs) 0 0 (omega (arith, length-take k xs))
      ∙ get_or-take k 0 xs 0 h,
  get_or-append_at (take k xs) (drop k xs) x 0 k (omega (arith, length-take k xs)),
)

module _ (compare : ℕ → ℕ → ℤ) {array : HArray} (x : ℕ) (v : IsValid array)
    (small : suc array.length < 2 ^ 31) where
  -- The index that the code computes is at most the length, and not 0 from two elements on.
  insert_index_lem :
      0 < array.length
      → (k : ℕ) × (insert_index compare array x ≡ some k)
        × (k ≤ array.length)
        × (1 < array.length → 0 < k)
  unfolding insert_index
  insert_index_lem some_there = elim (ℕ_discrete array.length 1) [
    | yes one ↦ elim (sign_cases (compare x (get_or array.cell 0 0))) [
      | inl (c, e) ↦ (1, ground (arith, e), omega arith, λ more. omega arith)
      | inr (inl (c, e)) ↦ (0, ground (arith, e), omega arith, λ more. absurd (omega arith))
      | inr (inr e) ↦ (0, ground (arith, e), omega arith, λ more. absurd (omega arith))
    ]
    | no many ↦
        let e : (array.length + u32_mod - 1) % u32_mod ≡ array.length - 1 = omega arith in
        let (k, f, p, q) =
          search_loop_lem compare array.length array.cell x 0 (array.length - 1)
            (middle 0 (array.length - 1)) (omega arith) refl (omega arith) (omega arith) in
        (k, ground (arith, e, f), omega arith, λ more. omega arith)
  ]

  insert_sorted_lem :
      (k : ℕ) × (placed : HArray) × (harray_insert_sorted compare array x ≡ some (k, placed))
      × Placed array x k placed
      × (1 < array.length → 0 < k)
  unfolding harray_insert_sorted insert_at
  insert_sorted_lem = elim (ℕ_discrete array.length 0) [
    | yes empty ↦
        let (placed, e, f, g) = place_last 0 x v (omega arith) (omega arith) in
        (0, placed, ground (arith, e), g, λ more. absurd (omega arith))
    | no some_there ↦
        let (k, f, p, q) = insert_index_lem (omega arith) in
        elim (dec_lt k array.length) [
          | yes inside ↦
              let (placed, e, w, c) = insert_refines k x v small inside in
              (k, placed, ground (arith, f, e), (w, p, c), q)
          | no end ↦
              let (placed, e, l, g) = place_last k x v (omega arith) (omega arith) in
              (k, placed, ground (arith, f, e, l), g, q)
        ]
  ]

  -- On a valid array of fewer than 2^31 - 1 elements `harray_insert_sorted` ends, whatever the
  -- comparison returns, and the array it leaves is valid and is the old one with the element put in
  -- at the index that is returned.
  pub insert_sorted_refines :
      (k : ℕ) × (placed : HArray) × (harray_insert_sorted compare array x ≡ some (k, placed))
      × Placed array x k placed
  insert_sorted_refines = let (k, placed, e, p, q) = insert_sorted_lem in (k, placed, e, p)

  -- On a valid array of at least two and fewer than 2^31 - 1 elements `harray_insert_sorted`
  -- succeeds and leaves the first element first, also where the comparison puts the new one before
  -- it.
  pub insert_sorted_keeps_first :
      1 < array.length
      → (k : ℕ) × (placed : HArray) × (harray_insert_sorted compare array x ≡ some (k, placed))
        × (get_or (contents placed) 0 0 ≡ get_or (contents array) 0 0)
        × (get_or (contents placed) k 0 ≡ x)
        × (0 < k)
  insert_sorted_keeps_first more =
      let (k, placed, e, p, q) = insert_sorted_lem in
      let (f, g) =
        split_reads (contents array) k x (q more) (omega (arith, p, length-contents v)) in
      (k, placed, e, ap (λ l. get_or l 0 0) p.2 ∙ f, ap (λ l. get_or l k 0) p.2 ∙ g, q more)
