-- ===== src/Game/Scoring.antt =====
-- The scoring curve, internal/game/scoring.go. The curve computes in float64; the arithmetic is a
-- parameter with the laws of correctly rounded operations. A logged message is not modelled.
use topbanana.Base.{
  ℕ, ◌-◌, ◌^◌, ◌≤◌, ◌<◌, ◌≡◌, refl, ap, Bool, true, false, not, arith, ltb, leb, if◌then◌else◌,
}

abbrev pub max_points : ℕ
max_points = 1000

-- float64 as far as the curve uses it: Duration.Seconds, conversion of a constant, /, *, - and the
-- truncating conversion to int of a value that is not negative.
pub record Float64 : Type 1 where
  pub Carrier : Type 0
  pub le : Carrier → Carrier → Type 0
  pub seconds : ℕ → Carrier
  pub of_int : ℕ → Carrier
  pub div : Carrier → Carrier → Carrier
  pub mul : Carrier → Carrier → Carrier
  pub sub : Carrier → Carrier → Carrier
  pub to_int : Carrier → ℕ
  -- Rounding to nearest is monotone, so each operation is.
  pub seconds_mono : (a b : ℕ) → a ≤ b → le (seconds a) (seconds b)
  pub div_mono :
      (a b : Carrier) (w : ℕ) → 0 < w → le a b → le (div a (seconds w)) (div b (seconds w))
  pub mul_mono : (a b : Carrier) (n : ℕ) → le a b → le (mul a (of_int n)) (mul b (of_int n))
  pub sub_anti : (n : ℕ) (a b : Carrier) → le a b → le (sub (of_int n) b) (sub (of_int n) a)
  pub to_int_mono : (a b : Carrier) → le a b → to_int a ≤ to_int b
  -- What is exact, as no rounding takes place.
  pub zero_div : (w : ℕ) → 0 < w → div (seconds 0) (seconds w) ≡ of_int 0
  pub div_self : (w : ℕ) → 0 < w → div (seconds w) (seconds w) ≡ of_int 1
  pub zero_mul : (n : ℕ) → mul (of_int 0) (of_int n) ≡ of_int 0
  pub one_mul : (n : ℕ) → mul (of_int 1) (of_int n) ≡ of_int n
  pub sub_zero : (n : ℕ) → sub (of_int n) (of_int 0) ≡ of_int n
  pub sub_self : (n : ℕ) → sub (of_int n) (of_int n) ≡ of_int 0
  pub to_int-of_int : (n : ℕ) → n < 2 ^ 53 → to_int (of_int n) ≡ n

module _ (fl : Float64) where
  open fl use {
    Carrier, le, seconds, of_int, div, mul, sub, to_int, seconds_mono, div_mono, mul_mono, sub_anti,
    to_int_mono, zero_div, div_self, zero_mul, one_mul, sub_zero, sub_self, to_int-of_int,
  }

  -- The last line of the curve: the points left after a duration out of a window.
  curve : ℕ → ℕ → ℕ
  curve window duration =
      to_int (
        sub (of_int max_points) (mul (div (seconds duration) (seconds window)) (of_int max_points)))

  -- `expired_at - started_at` stops at 0 where the source's duration is negative, and the test
  -- `answerWindow <= 0` reads both alike; `answered_at - started_at` stops at 0 as `max(…, 0)` does.
  unfoldable pub score_answer_curve : Bool → ℕ → ℕ → ℕ → ℕ
  unfolding curve
  score_answer_curve correct started_at expired_at answered_at =
      if not correct
      then 0
      else if ltb expired_at answered_at
      then 0
      else if leb (expired_at - started_at) 0
      then max_points
      else curve (expired_at - started_at) (answered_at - started_at)

  curve_anti : (w d e : ℕ) → 0 < w → d ≤ e → curve w e ≤ curve w d
  unfolding curve
  curve_anti w d e p h =
      to_int_mono _ _
        (sub_anti max_points _ _ (mul_mono _ _ max_points (div_mono _ _ w p (seconds_mono d e h))))

  curve_start : (w : ℕ) → 0 < w → curve w 0 ≡ max_points
  unfolding curve
  curve_start w p =
      rw (curve, zero_div w p, zero_mul max_points, sub_zero max_points)
        (to_int-of_int max_points (omega arith))

  curve_end : (w : ℕ) → 0 < w → curve w w ≡ 0
  unfolding curve
  curve_end w p =
      rw (curve, div_self w p, one_mul max_points, sub_self max_points)
        (to_int-of_int 0 (omega arith))

  -- A score lies between 0 and 1000.
  pub score-le-max_points :
      (correct : Bool) (started_at expired_at answered_at : ℕ)
      → score_answer_curve correct started_at expired_at answered_at ≤ max_points
  unfolding score_answer_curve
  score-le-max_points correct s e a =
      ground (arith, curve_anti (e - s) 0 (a - s), curve_start (e - s))

  -- A later answer never scores more than an earlier one to the same question.
  pub score_antitone :
      (correct : Bool) (started_at expired_at earlier later : ℕ)
      → earlier ≤ later
      → score_answer_curve correct started_at expired_at later
        ≤ score_answer_curve correct started_at expired_at earlier
  unfolding score_answer_curve
  score_antitone correct s e a b h = ground (arith, curve_anti (e - s) (a - s) (b - s))

  -- Every branch: a wrong pick and a pick after the window score 0; in a window that is not empty a
  -- correct pick at or before its start scores 1000 and one at its end scores 0; in an empty window a
  -- correct pick that is not late scores 1000.
  pub score_branches :
      (started_at expired_at answered_at : ℕ)
      → (score_answer_curve false started_at expired_at answered_at ≡ 0)
        × (expired_at < answered_at → score_answer_curve true started_at expired_at answered_at ≡ 0)
        × (started_at < expired_at
            → answered_at ≤ started_at
            → score_answer_curve true started_at expired_at answered_at ≡ max_points)
        × (started_at < expired_at → score_answer_curve true started_at expired_at expired_at ≡ 0)
        × (expired_at ≤ started_at
            → answered_at ≤ expired_at
            → score_answer_curve true started_at expired_at answered_at ≡ max_points)
  unfolding score_answer_curve
  score_branches s e a = (
    refl,
    (λ h. ground arith),
    (λ h k. ground (arith, curve_start (e - s), ap (curve (e - s)) (early k))),
    (λ h. ground (arith, curve_end (e - s))),
    (λ h k. ground arith),
  )
    where
      early : a ≤ s → a - s ≡ 0
      early k = omega arith
