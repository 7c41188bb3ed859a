-- ===== src/Prelude/Slices.antt =====
-- Pieces of arrays: what is read from a list after parts of it were taken, dropped or overwritten.
use Prim.Native.Nat.add
use Prim.Native.Nat.{ℕ, zero, suc, ◌+◌, ◌-◌, ◌≤◌, ◌<◌}
use mathlib.Core.Path.{◌≡◌, refl, ap, ◌∙◌}
use mathlib.Core.Logic.{◌≢◌}
use mathlib.Core.List.{List, [], ◌∷◌, ◌++◌}
use native.Mathlib.Omega.{arith}
use hierarchical_monitors.Prelude.Lists.{
  length, get_or, set, take, drop, replicate, length-append, length-take, length-drop,
  take-append_of_le, take-take, get_or-take, take-suc,
}

module _ {ℓ} {A : Type ℓ} where
  pub get_or-take_of_le : (n i : ℕ) (xs : List A) (d : A) → n ≤ i → get_or (take n xs) i d ≡ d
  get_or-take_of_le zero i xs d h = refl
  get_or-take_of_le (suc n) i [] d h = refl
  get_or-take_of_le (suc n) zero (x ∷ xs) d h = absurd (omega arith)
  get_or-take_of_le (suc n) (suc i) (x ∷ xs) d h = get_or-take_of_le n i xs d (omega arith)

  pub take_last :
      (n : ℕ) (xs : List A) (d : A)
      → 0 < n
      → n ≤ length xs
      → take n xs ≡ take (n - 1) xs ++ get_or xs (n - 1) d ∷ []
  take_last zero xs d h k = absurd (omega arith)
  take_last (suc n) xs d h k = let e : suc n - 1 ≡ n = omega arith in rw e (take-suc n xs d k)

  pub take-take_append :
      (n : ℕ) (xs ys : List A) → n ≤ length xs → take n (take n xs ++ ys) ≡ take n xs
  take-take_append n xs ys h =
      take-append_of_le n (take n xs) ys (omega (arith, length-take n xs)) ∙ take-take n xs

  pub take-take_of_le : (i n : ℕ) (xs : List A) → i ≤ n → take i (take n xs) ≡ take i xs
  take-take_of_le zero n xs h = refl
  take-take_of_le (suc i) zero xs h = absurd (omega arith)
  take-take_of_le (suc i) (suc n) [] h = refl
  take-take_of_le (suc i) (suc n) (x ∷ xs) h = rw (take-take_of_le i n xs (omega arith))

pub take-nil {ℓ} : (A : Type ℓ) (n : ℕ) → take {A = A} n [] ≡ []
take-nil A zero = refl
take-nil A (suc n) = refl

pub drop-nil {ℓ} : (A : Type ℓ) (n : ℕ) → drop {A = A} n [] ≡ []
drop-nil A zero = refl
drop-nil A (suc n) = refl

module _ {ℓ} {A : Type ℓ} where
  -- Two ways to cut a piece out of the middle.
  pub take-drop : (m i : ℕ) (xs : List A) → take m (drop i xs) ≡ drop i (take (i + m) xs)
  take-drop m zero xs = rw add.zero
  take-drop m (suc i) [] = simp (take-nil A, drop-nil A)
  take-drop m (suc i) (x ∷ xs) = simp add.suc (take-drop m i xs)

  pub take-replicate : (i m : ℕ) (a : A) → i ≤ m → take i (replicate m a) ≡ replicate i a
  take-replicate zero m a h = refl
  take-replicate (suc i) zero a h = absurd (omega arith)
  take-replicate (suc i) (suc m) a h = rw (take-replicate i m a (omega arith))

  pub take-append_replicate :
      (i m : ℕ) (xs : List A) (a : A)
      → length xs ≤ i
      → i ≤ length xs + m
      → take i (xs ++ replicate m a) ≡ xs ++ replicate (i - length xs) a
  take-append_replicate i m [] a h k =
      let e : i - 0 ≡ i = omega arith in rw e (take-replicate i m a (omega arith))
  take-append_replicate zero m (x ∷ xs) a h k = absurd (omega arith)
  take-append_replicate (suc i) m (x ∷ xs) a h k =
      let e : suc i - suc (length xs) ≡ i - length xs = omega arith in
      rw e (rw (take-append_replicate i m xs a (omega arith) (omega arith)))

  pub get_or-replicate : (m i : ℕ) (a : A) → get_or (replicate m a) i a ≡ a
  get_or-replicate zero i a = refl
  get_or-replicate (suc m) zero a = refl
  get_or-replicate (suc m) (suc i) a = get_or-replicate m i a

  pub get_or-append_replicate :
      (xs : List A) (m i : ℕ) (a : A) → length xs ≤ i → get_or (xs ++ replicate m a) i a ≡ a
  get_or-append_replicate [] m i a h = get_or-replicate m i a
  get_or-append_replicate (x ∷ xs) m zero a h = absurd (omega arith)
  get_or-append_replicate (x ∷ xs) m (suc i) a h = get_or-append_replicate xs m i a (omega arith)

  pub drop-length : (xs : List A) → drop (length xs) xs ≡ []
  drop-length [] = refl
  drop-length (x ∷ xs) = drop-length xs

  pub get_or-append_left :
      (xs ys : List A) (i : ℕ) (d : A) → i < length xs → get_or (xs ++ ys) i d ≡ get_or xs i d
  get_or-append_left [] ys i d h = absurd (omega arith)
  get_or-append_left (x ∷ xs) ys zero d h = refl
  get_or-append_left (x ∷ xs) ys (suc i) d h = get_or-append_left xs ys i d (omega arith)

  pub get_or-append_at :
      (xs ys : List A) (y d : A) (n : ℕ) → length xs ≡ n → get_or (xs ++ y ∷ ys) n d ≡ y
  get_or-append_at [] ys y d zero h = refl
  get_or-append_at [] ys y d (suc n) h = absurd (omega arith)
  get_or-append_at (x ∷ xs) ys y d zero h = absurd (omega arith)
  get_or-append_at (x ∷ xs) ys y d (suc n) h = get_or-append_at xs ys y d n (omega arith)

  -- Reading from `drop`, and from a list whose cells from `off` on were overwritten by `row`.
  pub get_or-drop :
      (off i : ℕ) (xs : List A) (d : A) → get_or (drop off xs) i d ≡ get_or xs (off + i) d
  get_or-drop zero i xs d = rw add.zero
  get_or-drop (suc off) i [] d = refl
  get_or-drop (suc off) i (x ∷ xs) d = rw add.suc (get_or-drop off i xs d)

  pub get_or-append_right :
      (xs ys : List A) (i : ℕ) (d : A)
      → length xs ≤ i
      → get_or (xs ++ ys) i d ≡ get_or ys (i - length xs) d
  get_or-append_right [] ys i d h = let e : i - 0 ≡ i = omega arith in rw e
  get_or-append_right (x ∷ xs) ys zero d h = absurd (omega arith)
  get_or-append_right (x ∷ xs) ys (suc i) d h =
      let e : suc i - suc (length xs) ≡ i - length xs = omega arith in
      rw e (get_or-append_right xs ys i d (omega arith))

  abbrev pub splice : List A → ℕ → List A → List A
  splice xs off row = take off xs ++ (row ++ drop (off + length row) xs)

  pub length-splice :
      (xs : List A) (off : ℕ) (row : List A)
      → off + length row ≤ length xs
      → length (splice xs off row) ≡ length xs
  length-splice xs off row h = omega (
    arith,
    length-append (take off xs) (row ++ drop (off + length row) xs),
    length-append row (drop (off + length row) xs),
    length-take off xs,
    length-drop (off + length row) xs,
  )

  pub get_or-splice_inside :
      (xs : List A) (off : ℕ) (row : List A) (c : ℕ) (d : A)
      → off ≤ length xs
      → c < length row
      → get_or (splice xs off row) (off + c) d ≡ get_or row c d
  get_or-splice_inside xs off row c d h k =
      get_or-append_right (take off xs) (row ++ drop (off + length row) xs) (off + c) d
        (omega (arith, length-take off xs))
      ∙ ap (λ j. get_or (row ++ drop (off + length row) xs) j d) (omega (arith, length-take off xs))
      ∙ get_or-append_left row (drop (off + length row) xs) c d k

  pub get_or-splice_before :
      (xs : List A) (off : ℕ) (row : List A) (i : ℕ) (d : A)
      → off ≤ length xs
      → i < off
      → get_or (splice xs off row) i d ≡ get_or xs i d
  get_or-splice_before xs off row i d h k =
      get_or-append_left (take off xs) (row ++ drop (off + length row) xs) i d
        (omega (arith, length-take off xs))
      ∙ get_or-take off i xs d k

  pub get_or-splice_after :
      (xs : List A) (off : ℕ) (row : List A) (i : ℕ) (d : A)
      → off + length row ≤ length xs
      → off + length row ≤ i
      → get_or (splice xs off row) i d ≡ get_or xs i d
  get_or-splice_after xs off row i d h k =
      get_or-append_right (take off xs) (row ++ drop (off + length row) xs) i d
        (omega (arith, length-take off xs))
      ∙ get_or-append_right row (drop (off + length row) xs) (i - length (take off xs)) d
          (omega (arith, length-take off xs))
      ∙ get_or-drop (off + length row) (i - length (take off xs) - length row) xs d
      ∙ ap (λ j. get_or xs j d) (omega (arith, length-take off xs))

  pub get_or-set_self :
      (xs : List A) (i : ℕ) (v d : A) → i < length xs → get_or (set xs i v) i d ≡ v
  get_or-set_self [] i v d h = absurd (omega arith)
  get_or-set_self (x ∷ xs) zero v d h = refl
  get_or-set_self (x ∷ xs) (suc i) v d h = get_or-set_self xs i v d (omega arith)

  pub get_or-set_ne :
      (xs : List A) (i j : ℕ) (v d : A) → i ≢ j → get_or (set xs i v) j d ≡ get_or xs j d
  get_or-set_ne [] i j v d h = refl
  get_or-set_ne (x ∷ xs) zero zero v d h = absurd (h refl)
  get_or-set_ne (x ∷ xs) zero (suc j) v d h = refl
  get_or-set_ne (x ∷ xs) (suc i) zero v d h = refl
  get_or-set_ne (x ∷ xs) (suc i) (suc j) v d h = get_or-set_ne xs i j v d (λ e. h (ap suc e))

  pub drop-drop : (n off : ℕ) (xs : List A) → drop n (drop off xs) ≡ drop (off + n) xs
  drop-drop n zero xs = rw add.zero
  drop-drop n (suc off) [] = simp (drop-nil A)
  drop-drop n (suc off) (x ∷ xs) = rw add.suc (drop-drop n off xs)
