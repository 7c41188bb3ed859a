-- ===== src/HArray/Sorted.antt =====
-- harray.c: the operations that take a comparison function.
mod Search
pub mod Insert
use Prim.Native.Nat.add
use native.Mathlib.Decide.{dec_lt, ℕ_discrete}
use native.Mathlib.Nat.{pow-suc, mul_assoc, mul_comm}
use hierarchical_monitors.Prelude.{
  ℕ, zero, suc, ◌+◌, ◌-◌, ◌*◌, ◌/◌, ◌%◌, ◌^◌, ◌≤◌, ◌<◌, ◌≡◌, ◌≢◌, ◌⊎◌, refl, Bool, true, false,
  Option, none, some, List, [], ◌∷◌, ◌++◌, inl, inr, take, drop, set, get_or, length, length-append,
  length-take, length-drop, length-set, arith, replicate, length-replicate, Bool-cases,
  take-append_of_le, take-take, take-set, take-set_end, take_last, get_or-take_of_le, get_or-take,
  ◌∙◌, ltb, leb, ◌==◌, if◌then◌else◌, ap, sym,
}
use hierarchical_monitors.Prelude.Int.{ℤ, pos, negsuc}
use hierarchical_monitors.HArray.{
  HArray, u32_mod, new_harray, harray_dup, deleted_elements, delete_harray, empty_harray, grow,
  grow_fuel, harray_chk_length, harray_get, store_element, harray_set, harray_push, harray_pop,
  harray_insert, harray_remove, to_int, find_from, harray_find_unsorted, to_char_from,
  harray_to_char,
}
use hierarchical_monitors.HArray.Inv.{
  IsValid, contents, length-contents, enlarged, enlarged-IsValid, contents-enlarged,
  chk_length_inside, chk_length_doubled,
}

-- `1+left_bound + (right_bound-left_bound)/2`, on `unsigned`.
unfoldable pub middle : ℕ → ℕ → ℕ
middle left right = (1 + left + (right + u32_mod - left) % u32_mod / 2) % u32_mod

-- The calls of `bsearch` and `qsort`, which are the C library's, and of the caller's comparison.
module _ (compare : ℕ → ℕ → ℤ) where
  -- The loop of `harray_insert_sorted`; `none` means that the fuel ran out.
  unfoldable pub search_loop : ℕ → List ℕ → ℕ → ℕ → ℕ → ℕ → Option ℕ
  search_loop zero cells element left right index = none
  search_loop (suc fuel) cells element left right index =
      elim (compare element (get_or cells index 0)) [
        | pos zero ↦ some index
        | pos (suc c) ↦ elim (ltb (middle index right) right) [
          | true ↦ search_loop fuel cells element index right (middle index right)
          | false ↦ some (middle index right)
        ]
        | negsuc c ↦ elim (ltb (middle left index) index) [
          | true ↦ search_loop fuel cells element left index (middle left index)
          | false ↦ some (middle left index)
        ]
      ]

  -- Where `harray_insert_sorted` puts the element. The bounds are at most `length` apart, and move.
  unfoldable pub insert_index : HArray → ℕ → Option ℕ
  insert_index array element =
      if array.length == 1
      then some (elim (compare element (get_or array.cell 0 0)) [
        | pos zero ↦ 0
        | pos (suc c) ↦ 1
        | negsuc c ↦ 0
      ])
      else search_loop array.length array.cell element 0 ((array.length + u32_mod - 1) % u32_mod)
          (middle 0 ((array.length + u32_mod - 1) % u32_mod))

  unfoldable pub insert_at : HArray → ℕ → ℕ → Option (ℕ × HArray)
  insert_at array index element =
      if leb array.length index
      then elim (harray_push array element) [
        | none ↦ none
        | some pushed ↦ some ((pushed.length + u32_mod - 1) % u32_mod, pushed)
      ]
      else elim (harray_insert array index element) [
        | none ↦ none
        | some inserted ↦ some (index, inserted)
      ]

  unfoldable pub harray_insert_sorted : HArray → ℕ → Option (ℕ × HArray)
  harray_insert_sorted array element =
      if array.length == 0
      then elim (harray_push array element) [ none ↦ none | some pushed ↦ some (0, pushed) ]
      else elim (insert_index array element) [
        | none ↦ none
        | some index ↦ insert_at array index element
      ]

  unfoldable pub harray_find : ((ℕ → ℕ → ℤ) → ℕ → List ℕ → Option ℕ) → HArray → ℕ → ℤ
  harray_find bsearch array key = elim (bsearch compare key (take array.length array.cell)) [
    | none ↦ negsuc 0
    | some index ↦ to_int index
  ]

  unfoldable pub harray_sort : ((ℕ → ℕ → ℤ) → List ℕ → List ℕ) → HArray → HArray
  harray_sort qsort array = record array {
    cell = qsort compare (take array.length array.cell) ++ drop array.length array.cell;
  }
