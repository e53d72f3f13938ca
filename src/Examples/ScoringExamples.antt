-- ===== src/Examples/ScoringExamples.antt =====
-- The scoring curve over fixed-point numbers with nine decimals, and its windows.
use native.Mathlib.Nat.{le-div_iff_mul-le, div-mul-le_self, mul-div_right, zero-div, le_trans}
use topbanana.Base.{ℕ, ◌-◌, ◌*◌, ◌/◌, ◌≤◌, ◌<◌, arith}
use topbanana.Game.Scoring.{Float64}

pub div_mono : (a b w : ℕ) → 0 < w → a ≤ b → a / w ≤ b / w
div_mono a b w p h = (le-div_iff_mul-le p).1 (le_trans (div-mul-le_self a w) h)

pub mul_mono : (a b k : ℕ) → a ≤ b → a * k ≤ b * k
mul_mono a b k h = grind arith

abbrev pub fixed_point : Float64
fixed_point = record {
  Carrier = ℕ;
  le = ◌≤◌;
  seconds = λ d. d;
  of_int = λ n. n * 1_000_000_000;
  div = λ a b. a * 1_000_000_000 / b;
  mul = λ a b. a * b / 1_000_000_000;
  sub = λ a b. a - b;
  to_int = λ a. a / 1_000_000_000;
  seconds_mono = λ a b h. h;
  div_mono = λ a b w p h. div_mono _ _ w p (omega arith);
  mul_mono = λ a b n h. div_mono _ _ 1_000_000_000 (omega arith) (mul_mono a b _ h);
  sub_anti = λ n a b h. omega arith;
  to_int_mono = λ a b h. omega arith;
  zero_div = λ w p. zero-div w;
  div_self = λ w p. mul-div_right 1_000_000_000 p;
  zero_mul = λ n. omega arith;
  one_mul = λ n. omega arith;
  sub_zero = λ n. omega arith;
  sub_self = λ n. omega arith;
  to_int-of_int = λ n h. omega arith;
}
