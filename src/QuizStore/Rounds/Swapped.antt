-- ===== src/QuizStore/Rounds/Swapped.antt =====
-- The three updates of a swap never meet a position that is taken, and exchange two positions.
use topbanana.QuizStore.Positions.Safe.{update_position_free, neg-ne-pos}
use topbanana.QuizStore.Rounds.{swap_round_positions}
use topbanana.QuizStore.Order.{id_unique, IsValid}
use topbanana.QuizStore.{update_position, ok, Result, set_at, Table, Row}
use topbanana.Base.{
  ℕ, ◌≡◌, refl, sym, ap, ◌∙◌, ◌≢◌, inl, inr, arith, ◌==◌, ==_iff, Bool-cases, In, neg, ℤ,
}

-- The two rows have each other's position, and every other id has its own.
pub record Swapped (a b : Row) (t : Table) (r : Result Table) : Type 0 where
  pub column : ℕ → ℤ
  pub succeeded : r ≡ ok (record t { position = column })
  pub first : column a.id ≡ t.position b.id
  pub second : column b.id ≡ t.position a.id
  pub others : (x : ℕ) → x ≢ a.id → x ≢ b.id → column x ≡ t.position x

set_at-same : (f : ℕ → ℤ) (id x : ℕ) (p : ℤ) → x ≡ id → set_at f id p x ≡ p
set_at-same f id x p e = ground arith

set_at-other : (f : ℕ → ℤ) (id x : ℕ) (p : ℤ) → x ≢ id → set_at f id p x ≡ f x
set_at-other f id x p e = ground arith

module _ (a b : Row) (t : Table) (v : IsValid t) (ma : In a t.rows) (mb : In b t.rows)
    (quizzes : b.quiz_id ≡ a.quiz_id) (ne : b.id ≢ a.id) where
  abbrev f : ℕ → ℤ
  f = t.position

  abbrev parked : ℕ → ℤ
  parked = set_at f a.id (neg a.id)

  abbrev moved : ℕ → ℤ
  moved = set_at parked b.id (f a.id)

  abbrev swapped : ℕ → ℤ
  swapped = set_at moved a.id (f b.id)

  abbrev with_column : (ℕ → ℤ) → Table
  with_column g = record { rows = t.rows; position = g }

  own :
      (x : Row)
      → In x t.rows
      → x.quiz_id ≡ a.quiz_id
      → (r : Row) → In r t.rows
      → r.id ≡ x.id
      → r.quiz_id ≡ a.quiz_id
  own x m q r h e = ap (λ (r : Row). r.quiz_id) (id_unique t.rows r x v.distinct h m e) ∙ q

  -- A proper position is no parked one.
  proper-ne-neg : (s : Row) → In s t.rows → f s.id ≢ neg a.id
  proper-ne-neg s m e = let (n, k) = v.proper s m in neg-ne-pos a.id n (v.positive a ma) (sym e ∙ k)

  differ :
      (r s : Row)
      → In r t.rows
      → In s t.rows
      → r.quiz_id ≡ a.quiz_id
      → s.quiz_id ≡ a.quiz_id
      → r.id ≢ s.id
      → f r.id ≢ f s.id
  differ r s m n q k d e = d (v.unique r s m n (q ∙ sym k) e)

  park_step : update_position (neg a.id) a.id t ≡ ok (with_column parked)
  park_step =
      update_position_free t (neg a.id) a.id a.quiz_id (own a ma refl)
        (λ s m q d. proper-ne-neg s m)

  parked-ne : (s : Row) → In s t.rows → s.quiz_id ≡ a.quiz_id → parked s.id ≢ f a.id
  parked-ne s m q e = elim (Bool-cases (s.id == a.id)) [
    | inl k ↦
        proper-ne-neg a ma
          (sym (sym (set_at-same f a.id s.id (neg a.id) ((==_iff s.id a.id).0 k)) ∙ e))
    | inr k ↦
        let d : s.id ≢ a.id = λ h. ground arith in
        differ s a m ma q refl d (sym (set_at-other f a.id s.id (neg a.id) d) ∙ e)
  ]

  move_step : update_position (f a.id) b.id (with_column parked) ≡ ok (with_column moved)
  move_step =
      update_position_free (with_column parked) (f a.id) b.id a.quiz_id (own b mb quizzes)
        (λ s m q d. parked-ne s m q)

  moved-ne : (s : Row) → In s t.rows → s.quiz_id ≡ a.quiz_id → s.id ≢ a.id → moved s.id ≢ f b.id
  moved-ne s m q d e = elim (Bool-cases (s.id == b.id)) [
    | inl k ↦
        differ a b ma mb refl quizzes (λ h. ne (sym h))
          (sym (set_at-same parked b.id s.id (f a.id) ((==_iff s.id b.id).0 k)) ∙ e)
    | inr k ↦
        let d' : s.id ≢ b.id = λ h. ground arith in
        differ s b m mb q quizzes d' (
          sym (set_at-other parked b.id s.id (f a.id) d' ∙ set_at-other f a.id s.id (neg a.id) d)
          ∙ e)
  ]

  settle_step : update_position (f b.id) a.id (with_column moved) ≡ ok (with_column swapped)
  settle_step =
      update_position_free (with_column moved) (f b.id) a.id a.quiz_id (own a ma refl) moved-ne

  -- Two rows of a quiz are swapped, whatever the positions of the others.
  pub swap_round_positions-Swapped : Swapped a b t (swap_round_positions a b t)
  unfolding swap_round_positions
  swap_round_positions-Swapped = record {
    column = swapped;
    succeeded = rw (park_step, move_step, settle_step) refl;
    first = set_at-same moved a.id a.id (f b.id) refl;
    second = set_at-other moved a.id b.id (f b.id) ne ∙ set_at-same parked b.id b.id (f a.id) refl;
    others = λ x p q.
        set_at-other moved a.id x (f b.id) p
        ∙ (set_at-other parked b.id x (f a.id) q ∙ set_at-other f a.id x (neg a.id) p);
  }
