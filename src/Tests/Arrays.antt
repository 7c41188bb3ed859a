-- ===== src/Tests/Arrays.antt =====
-- harray.c on an array of three pointers in a block of four.
use hierarchical_monitors.Prelude.{
  ℕ, suc, ◌*◌, ◌^◌, ◌<◌, ◌≡◌, refl, true, none, some, [], ◌∷◌, ◌++◌, take, drop, get_or, arith, ltb,
  if◌then◌else◌,
}
use hierarchical_monitors.Prelude.Int.{ℤ, pos, negsuc}
use hierarchical_monitors.HArray.{HArray, harray_set, harray_push, harray_pop, harray_insert}
use hierarchical_monitors.HArray.Inv.{IsValid, contents}
use hierarchical_monitors.HArray.Refine.{push-pop}
use hierarchical_monitors.HArray.Middle.{insert_refines}
use hierarchical_monitors.HArray.Growth.{set_out_of_bounds}
use hierarchical_monitors.HArray.Sorted.{harray_insert_sorted}
use hierarchical_monitors.HArray.Sorted.Insert.{
  Placed, insert_sorted_refines, insert_sorted_keeps_first,
}

abbrev array : HArray
array = record {
  cell = 5 ∷ 7 ∷ 9 ∷ 0 ∷ [];
  length = 3;
  allocated_length = 4;
  delete_element = true;
}

array-IsValid : IsValid array
array-IsValid = record {
  block = refl;
  room = omega arith;
  bounded = omega arith;
  filled = omega arith;
}

push-pop_example :
    (pushed : HArray) × (harray_push array 3 ≡ some pushed)
    × ((harray_pop pushed).0 ≡ 3)
    × (contents (harray_pop pushed).1 ≡ contents array)
push-pop_example = push-pop 3 array-IsValid (omega arith)

insert_refines_example :
    (inserted : HArray) × (harray_insert array 1 3 ≡ some inserted)
    × IsValid inserted
    × (contents inserted ≡ take 1 (contents array) ++ 3 ∷ drop 1 (contents array))
insert_refines_example = insert_refines 1 3 array-IsValid (omega arith) (omega arith)

set_out_of_bounds_example : harray_set array (array.allocated_length * 2 ^ suc 0) 3 ≡ none
set_out_of_bounds_example = set_out_of_bounds 0 3 array-IsValid (omega arith) (omega arith)

-- The order of the numbers.
abbrev by_number : ℕ → ℕ → ℤ
by_number a b = if ltb a b then negsuc 0 else if ltb b a then pos 1 else pos 0

insert_sorted_refines_example :
    (k : ℕ) × (placed : HArray) × (harray_insert_sorted by_number array 8 ≡ some (k, placed))
    × Placed array 8 k placed
insert_sorted_refines_example = insert_sorted_refines by_number 8 array-IsValid (omega arith)

insert_sorted_keeps_first_example :
    (k : ℕ) × (placed : HArray) × (harray_insert_sorted by_number array 3 ≡ some (k, placed))
    × (get_or (contents placed) 0 0 ≡ get_or (contents array) 0 0)
    × (get_or (contents placed) k 0 ≡ 3)
    × (0 < k)
insert_sorted_keeps_first_example =
    insert_sorted_keeps_first by_number 3 array-IsValid (omega arith) (omega arith)
