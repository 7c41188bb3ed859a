-- ===== src/HArray/Middle.antt =====
-- harray.c: insertion and removal in the middle, on the sequence of elements.
use hierarchical_monitors.Prelude.{
  ℕ, zero, suc, ◌+◌, ◌-◌, ◌*◌, ◌^◌, ◌≤◌, ◌<◌, ◌≡◌, refl, some, List, [], ◌∷◌, ◌++◌, take, drop, set,
  get_or, length, length-append, length-take, length-drop, length-set, arith, take-take_append,
  take-drop, take-take_of_le, get_or-take, ◌∙◌, ap, sym,
}
use hierarchical_monitors.Prelude.Int.{pos, negsuc}
use Prim.Native.Nat.add
use native.Mathlib.Decide.{dec_lt}
use hierarchical_monitors.HArray.{HArray, memmove, shift_insert, harray_insert, harray_remove}
use hierarchical_monitors.HArray.Inv.{
  IsValid, contents, enlarged-IsValid, contents-enlarged, chk_length_inside, chk_length_doubled,
}

-- What the move of `harray_insert` and the write behind it leave of the first `suc (i + m)` cells.
insert_cells :
    (i m x : ℕ) (cells : List ℕ)
    → i + m < length cells
    → take (suc (i + m)) (set (memmove cells (suc i) i m) i x)
      ≡ take i cells ++ x ∷ take m (drop i cells)
unfolding memmove
insert_cells zero m x [] h = absurd (omega arith)
insert_cells zero m x (c ∷ cells) h =
    simp add.zero (ap (λ l. x ∷ l) (take-take_append m (c ∷ cells) _ (omega arith)))
insert_cells (suc i) m x [] h = absurd (omega arith)
insert_cells (suc i) m x (c ∷ cells) h =
    simp add.suc (ap (λ l. c ∷ l) (simp add.suc at (insert_cells i m x cells (omega arith))))

remove_cells :
    (i m : ℕ) (cells : List ℕ)
    → i + m < length cells
    → take (i + m) (memmove cells i (suc i) m) ≡ take i cells ++ take m (drop (suc i) cells)
unfolding memmove
remove_cells zero m [] h = absurd (omega arith)
remove_cells zero m (c ∷ cells) h = simp add.zero (take-take_append m cells _ (omega arith))
remove_cells (suc i) m [] h = absurd (omega arith)
remove_cells (suc i) m (c ∷ cells) h =
    simp add.suc (ap (λ l. c ∷ l) (remove_cells i m cells (omega arith)))

length-memmove :
    (cells : List ℕ) (to from n : ℕ)
    → to + n ≤ length cells
    → from + n ≤ length cells
    → length (memmove cells to from n) ≡ length cells
unfolding memmove
length-memmove cells to from n h k = omega (
  arith,
  length-append (take to cells) (take n (drop from cells) ++ drop (to + n) cells),
  length-append (take n (drop from cells)) (drop (to + n) cells),
  length-take to cells,
  length-take n (drop from cells),
  length-drop from cells,
  length-drop (to + n) cells,
)

take_middle :
    (i n : ℕ) (cells : List ℕ) → i ≤ n → take (n - i) (drop i cells) ≡ drop i (take n cells)
take_middle i n cells h = take-drop (n - i) i cells ∙ ap (λ k. drop i (take k cells)) (omega arith)

-- Of the block that `shift_insert` leaves, the elements.
inserted_cells :
    (i n x : ℕ) (cells : List ℕ)
    → i < n
    → n < length cells
    → take (suc n) (set (memmove cells (suc i) i (n - i)) i x)
      ≡ take i (take n cells) ++ x ∷ drop i (take n cells)
inserted_cells i n x cells h k =
    rw (take-take_of_le i n cells (omega arith), ← take_middle i n cells (omega arith))
      (ap (λ j. take (suc j) (set (memmove cells (suc i) i (n - i)) i x)) (omega arith)
        ∙ insert_cells i (n - i) x cells (omega arith))

removed_cells :
    (i n : ℕ) (cells : List ℕ)
    → i < n
    → n ≤ length cells
    → take (n - 1) (memmove cells i (suc i) (n - i - 1))
      ≡ take i (take n cells) ++ drop (suc i) (take n cells)
removed_cells i n cells h k =
    rw (take-take_of_le i n cells (omega arith), ← take_middle (suc i) n cells (omega arith))
      (ap (λ j. take j (memmove cells i (suc i) (n - i - 1))) (omega arith)
        ∙ remove_cells i (n - i - 1) cells (omega arith)
        ∙ ap (λ j. take i cells ++ take j (drop (suc i) cells)) (omega arith))

shift_insert_lem :
    {array : HArray} (i x : ℕ)
    → IsValid array
    → i < array.length
    → suc array.length ≤ array.allocated_length
    → (shifted : HArray) × (shift_insert array i x ≡ some shifted)
      × IsValid shifted
      × (contents shifted ≡ take i (contents array) ++ x ∷ drop i (contents array))
unfolding shift_insert
shift_insert_lem {array} i x v h k = (
  record array {
    cell = set (memmove array.cell (suc i) i (array.length - i)) i x;
    length = suc array.length;
  },
  ground arith,
  record {
    block = omega (
      arith,
      v,
      length-set (memmove array.cell (suc i) i (array.length - i)) i x,
      length-memmove array.cell (suc i) i (array.length - i),
    );
    room = v.room;
    bounded = v.bounded;
    filled = k;
  },
  inserted_cells i array.length x array.cell h (omega (arith, v)),
)

-- On a valid array of fewer than 2^31 - 1 elements, `harray_insert` at the index of an element
-- succeeds, puts the new one there, moves the rest up by one and keeps the array valid.
pub insert_refines :
    {array : HArray} (i x : ℕ)
    → IsValid array
    → suc array.length < 2 ^ 31
    → i < array.length
    → (inserted : HArray) × (harray_insert array i x ≡ some inserted)
      × IsValid inserted
      × (contents inserted ≡ take i (contents array) ++ x ∷ drop i (contents array))
unfolding harray_insert
insert_refines {array} i x v h k = elim (dec_lt (suc array.length) array.allocated_length) [
  | yes room ↦
      let chk = chk_length_inside array (suc array.length) room in
      let (shifted, e, w, c) = shift_insert_lem i x v k (omega arith) in
      (shifted, ground (arith, e, chk), w, c)
  | no full ↦
      let a = array.allocated_length * 2 in
      let chk =
        chk_length_doubled array (suc array.length) (omega arith) (omega (arith, v))
          (omega (arith, v)) in
      let w = enlarged-IsValid a v (omega (arith, v)) (omega (arith, v)) in
      let (shifted, e, w', c) = shift_insert_lem i x w k (omega (arith, v)) in
      (
        shifted,
        ground (arith, e, chk),
        w',
        c ∙ ap (λ l. take i l ++ x ∷ drop i l) (contents-enlarged a v),
      )
]

-- At the end, too, `harray_insert` does nothing.
pub insert_outside :
    (array : HArray) (i x : ℕ) → array.length ≤ i → harray_insert array i x ≡ some array
unfolding harray_insert
insert_outside array i x h = ground arith

remove_step :
    (array : HArray) (i : ℕ)
    → i < array.length
    → harray_remove array (pos i) ≡ (
      get_or array.cell i 0,
      record array {
        cell = memmove array.cell i (suc i) (array.length - i - 1);
        length = array.length - 1;
      },
    )
unfolding harray_remove
remove_step array i h = ground arith

-- On a valid array, `harray_remove` at the index of an element returns it, closes the gap and keeps
-- the array valid.
remove_refines :
    {array : HArray} (i : ℕ)
    → IsValid array
    → i < array.length
    → ((harray_remove array (pos i)).0 ≡ get_or (contents array) i 0)
      × IsValid (harray_remove array (pos i)).1
      × (contents (harray_remove array (pos i)).1
          ≡ take i (contents array) ++ drop (suc i) (contents array))
remove_refines {array} i v k = rw (remove_step array i k) (
  sym (get_or-take array.length i array.cell 0 k),
  record {
    block = omega (arith, v, length-memmove array.cell i (suc i) (array.length - i - 1));
    room = v.room;
    bounded = v.bounded;
    filled = omega (arith, v);
  },
  removed_cells i array.length array.cell k (omega (arith, v)),
)

-- A negative index and one behind the elements give NULL and change nothing.
pub remove_outside :
    (array : HArray) (i : ℕ)
    → array.length ≤ i
    → (harray_remove array (pos i) ≡ (0, array)) × (harray_remove array (negsuc i) ≡ (0, array))
unfolding harray_remove
remove_outside array i h = (ground arith, refl)
