-- ===== src/Tests/Doubles.antt =====
-- Whole numbers in place of doubles, to run the definitions on.
use hierarchical_monitors.Prelude.{◌/◌, ◌^◌, ◌≡◌, ◌⊎◌, refl, true, false, arith}
use hierarchical_monitors.Prelude.Int.{ℤ, pos, pos_part, ltb_ℤ, ◌+ℤ◌, ◌-ℤ◌, ◌*ℤ◌}
use hierarchical_monitors.Prelude.Floats.{Floats, IsOrdered}

abbrev pub whole : Floats ℤ
whole = record {
  gtb = λ a b. ltb_ℤ b a;
  ltb = ltb_ℤ;
  add = ◌+ℤ◌;
  sub = ◌-ℤ◌;
  mul = ◌*ℤ◌;
  div = λ a b. pos (pos_part a / pos_part b);
  of_int = λ a. a;
  to_long = λ a. a;
  dbl_min = pos 1;
  dbl_max = pos (2 ^ 63);
}

lt_irrefl : (a : ℤ) → ltb_ℤ a a ≡ false
lt_irrefl a = ground arith

lt_trans : (a b c : ℤ) → ltb_ℤ a b ≡ true → ltb_ℤ b c ≡ true → ltb_ℤ a c ≡ true
lt_trans a b c h k = ground arith

lt_total : (a b : ℤ) → (ltb_ℤ a b ≡ true) ⊎ ((ltb_ℤ b a ≡ true) ⊎ (a ≡ b))
lt_total a b = ground arith

pub whole-IsOrdered : IsOrdered whole
whole-IsOrdered = record {
  swap = λ a b. refl;
  irrefl = lt_irrefl;
  trans = lt_trans;
  total = lt_total;
}
