-- ===== src/Bridge/Tests/Arithmetic.antt =====
-- An arithmetic for the runs: whole thousandths in place of `float`.
use capture2cloud.Base.{
  ◌*◌, ◌+◌, not, ℤ, pos, pos_part, neg_part, sub_ℕ, scale, tdiv, nat_abs, ltb_ℤ, ◌+ℤ◌, ◌-ℤ◌,
}
use capture2cloud.Controller.Shaping.{Floats}

abbrev pub whole : Floats
whole = record {
  Float = ℤ;
  of_int = scale 1000;
  of_ratio = λ n d. tdiv (scale 1000 n) d;
  add = ◌+ℤ◌;
  subtract = ◌-ℤ◌;
  multiply = λ a b.
      tdiv
        (sub_ℕ (pos_part a * pos_part b + neg_part a * neg_part b)
          (pos_part a * neg_part b + neg_part a * pos_part b))
        1000;
  divide = λ a b. tdiv (scale 1000 a) (nat_abs b);
  sqrtf = λ a. a;
  fabsf = λ a. pos (nat_abs a);
  less = ltb_ℤ;
  less_equal = λ a b. not (ltb_ℤ b a);
  truncate = λ a. tdiv a 1000;
}
