-- ===== src/Prelude/Floats.antt =====
-- `double`: the type and its operations are a parameter, since there are none here to compute with.
use hierarchical_monitors.Prelude.{
  ◌≡◌, ◌⊎◌, inl, inr, refl, sym, ◌∙◌, Bool, true, false, Bool-cases, if◌then◌else◌,
}
use hierarchical_monitors.Prelude.Int.{ℤ}

pub record Floats (D : Type 0) : Type 0 where
  pub gtb : D → D → Bool
  pub ltb : D → D → Bool
  pub add : D → D → D
  pub sub : D → D → D
  pub mul : D → D → D
  pub div : D → D → D
  pub of_int : ℤ → D
  pub to_long : D → ℤ
  pub dbl_min : D
  pub dbl_max : D

-- The comparisons of C on doubles that are not NaN: a strict total order, `>` and `<` its two readings.
pub record IsOrdered {D : Type 0} (F : Floats D) : Type 0 where
  pub swap : (a b : D) → F.gtb a b ≡ F.ltb b a
  pub irrefl : (a : D) → F.ltb a a ≡ false
  pub trans : (a b c : D) → F.ltb a b ≡ true → F.ltb b c ≡ true → F.ltb a c ≡ true
  pub total : (a b : D) → (F.ltb a b ≡ true) ⊎ ((F.ltb b a ≡ true) ⊎ (a ≡ b))

module _ {D : Type 0} {F : Floats D} (ordered : IsOrdered F) where
  ltb_asymm : (a b : D) → F.ltb a b ≡ true → F.ltb b a ≡ false
  ltb_asymm a b h = elim (Bool-cases (F.ltb b a)) [
    | inl k ↦ cc (ordered.irrefl a, ordered.trans a b a h k)
    | inr k ↦ k
  ]

  -- The greater of two, by `>`, and the smaller, by `<`.
  pub greater_bounds :
      (a b : D)
      → let best = if F.gtb a b then a else b in
        (F.ltb best b ≡ false) × (F.ltb best a ≡ false) × ((best ≡ a) ⊎ (best ≡ b))
  greater_bounds a b = elim (Bool-cases (F.gtb a b)) [
    | inl h ↦ rw h (ltb_asymm b a (sym (ordered.swap a b) ∙ h), ordered.irrefl a, inl refl)
    | inr h ↦ rw h (ordered.irrefl b, sym (ordered.swap a b) ∙ h, inr refl)
  ]

  pub smaller_bounds :
      (a b : D)
      → let best = if F.ltb a b then a else b in
        (F.ltb b best ≡ false) × (F.ltb a best ≡ false) × ((best ≡ a) ⊎ (best ≡ b))
  smaller_bounds a b = elim (Bool-cases (F.ltb a b)) [
    | inl h ↦ rw h (ltb_asymm a b h, ordered.irrefl a, inl refl)
    | inr h ↦ rw h (ordered.irrefl b, h, inr refl)
  ]

  -- The order read the other way: `a` is not below `b`.
  pub not_lt_trans : (a b c : D) → F.ltb a b ≡ false → F.ltb b c ≡ false → F.ltb a c ≡ false
  not_lt_trans a b c h k = elim (Bool-cases (F.ltb a c)) [
    | inl l ↦ elim (ordered.total a b) [
      | inl p ↦ cc (h, p)
      | inr (inl p) ↦ cc (k, ordered.trans b a c p l)
      | inr (inr e) ↦ rw e k
    ]
    | inr l ↦ l
  ]
