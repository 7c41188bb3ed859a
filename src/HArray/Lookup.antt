-- ===== src/HArray/Lookup.antt =====
-- harray.c: looking elements up, copying and emptying.
use native.Mathlib.Decide.{ℕ_discrete}
use hierarchical_monitors.Prelude.{
  ℕ, zero, suc, ◌+◌, ◌-◌, ◌^◌, ◌≤◌, ◌<◌, ◌≡◌, ◌≢◌, ◌⊎◌, refl, true, some, List, [], ◌∷◌, inl, inr,
  get_or, length, length-append, arith, replicate, length-replicate, ◌==◌, if◌then◌else◌,
}
use hierarchical_monitors.Prelude.Int.{ℤ, pos, negsuc}
use hierarchical_monitors.HArray.{
  HArray, new_harray, harray_dup, deleted_elements, delete_harray, empty_harray, find_from,
  harray_find_unsorted,
}
use hierarchical_monitors.HArray.Inv.{
  IsValid, contents, length-contents, enlarged, contents-enlarged,
}

-- What a search for `key` over the indices from `i` on gives: the first index with that element.
abbrev pub Found : ℕ → ℕ → List ℕ → ℤ → Type 0
Found key i xs r =
    ((r ≡ negsuc 0) × ((j : ℕ) → j < length xs → get_or xs j 0 ≢ key))
    ⊎ ((k : ℕ) × (r ≡ pos (i + k))
        × (k < length xs)
        × (get_or xs k 0 ≡ key)
        × ((j : ℕ) → j < k → get_or xs j 0 ≢ key))

not_found-cons :
    (key x : ℕ) (xs : List ℕ) (n : ℕ)
    → x ≢ key
    → ((j : ℕ) → j < n → get_or xs j 0 ≢ key)
    → (j : ℕ) → j < suc n
    → get_or (x ∷ xs) j 0 ≢ key
not_found-cons key x xs n h k zero l = h
not_found-cons key x xs n h k (suc j) l = k j (omega arith)

find_from-Found :
    (key i : ℕ) (xs : List ℕ) → i + length xs ≤ 2 ^ 31 → Found key i xs (find_from key i xs)
unfolding find_from
find_from-Found key i [] h = inl (refl, λ j l. absurd (omega arith))
find_from-Found key i (x ∷ xs) h = elim (ℕ_discrete x key) [
  | yes e ↦ inr (0, ground arith, omega arith, e, λ j l. absurd (omega arith))
  | no ne ↦ elim (find_from-Found key (i + 1) xs (omega arith)) [
    | inl (e, f) ↦ inl (ground (arith, e), not_found-cons key x xs (length xs) ne f)
    | inr (k, e, l, g, f) ↦
        inr (suc k, ground (arith, e), omega arith, g, not_found-cons key x xs k ne f)
  ]
]

-- On a valid array of at most 2^31 elements `harray_find_unsorted` returns the first index that
-- holds `key`, and -1 if none does.
pub find_unsorted-Found :
    {array : HArray} (key : ℕ)
    → IsValid array
    → array.length ≤ 2 ^ 31
    → Found key 0 (contents array) (harray_find_unsorted array key)
unfolding harray_find_unsorted
find_unsorted-Found {array} key v h =
    find_from-Found key 0 (contents array) (omega (arith, length-contents v))

-- `harray_dup` of a valid array succeeds and gives a valid array with the same elements, in a block
-- of the same size.
pub dup_refines :
    {array : HArray}
    → IsValid array
    → (copy : HArray) × (harray_dup array ≡ some copy)
      × IsValid copy
      × (contents copy ≡ contents array)
      × (copy.allocated_length ≡ array.allocated_length)
unfolding harray_dup new_harray
dup_refines {array} v = (
  record (enlarged array array.allocated_length) { delete_element = array.delete_element },
  ground (arith, v),
  record {
    block = omega (
      arith,
      v,
      length-append (contents array) (replicate (array.allocated_length - array.length) 0),
      length-replicate {A = ℕ} (array.allocated_length - array.length) 0,
      length-contents v,
    );
    room = v.room;
    bounded = v.bounded;
    filled = v.filled;
  },
  contents-enlarged array.allocated_length v,
  refl,
)

-- How often a pointer stands in a list.
abbrev pub count : ℕ → List ℕ → ℕ
count p [] = 0
count p (x ∷ xs) = let rest = count p xs in if x == p then rest + 1 else rest

count-deleted : (p : ℕ) (xs : List ℕ) → p ≢ 0 → count p (deleted_elements true xs) ≡ count p xs
unfolding deleted_elements
count-deleted p [] h = refl
count-deleted p (x ∷ xs) h = ground (arith, count-deleted p xs h)

count-deleted_null : (xs : List ℕ) → count 0 (deleted_elements true xs) ≡ 0
unfolding deleted_elements
count-deleted_null [] = refl
count-deleted_null (x ∷ xs) = ground (arith, count-deleted_null xs)

-- `delete_harray`, on an array with a function to delete elements, calls it on each pointer that is
-- not NULL as often as it occurs, and never on NULL.
pub count-delete_harray :
    (array : HArray) (p : ℕ)
    → array.delete_element ≡ true
    → p ≢ 0
    → (count p (delete_harray (some array)) ≡ count p (contents array))
      × (count 0 (delete_harray (some array)) ≡ 0)
unfolding delete_harray
count-delete_harray array p h ne =
    rw h (count-deleted p (contents array) ne, count-deleted_null (contents array))

-- `empty_harray` on a valid array makes the calls of `delete_harray` and leaves a valid array
-- without elements.
pub empty_refines :
    {array : HArray}
    → IsValid array
    → ((empty_harray array).0 ≡ delete_harray (some array))
      × IsValid (empty_harray array).1
      × (contents (empty_harray array).1 ≡ [])
unfolding delete_harray empty_harray
empty_refines {array} v = (
  refl,
  record { block = v.block; room = v.room; bounded = v.bounded; filled = omega arith },
  refl,
)
