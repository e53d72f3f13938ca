-- ===== src/QuizStore.antt =====
-- The reordering of rounds and questions, internal/store/round.go and internal/store/quiz.go. The two
-- tables have the same columns for this: an id, the quiz, and a position that is unique in the quiz; a
-- question has a round too, which is 0 in a row of the table of rounds. A transaction that fails leaves the
-- tables as they were, so it is an error without a table. Options has the table of options, which has
-- other columns.
pub mod Positions
pub mod Order
pub mod Rounds
pub mod Questions
pub mod Options
use topbanana.Base.{
  ℕ, Bool, not, ◌&&◌, List, [], ◌∷◌, ◌==◌, if◌then◌else◌, keep, any, ◌==ℤ◌, leb_ℤ, ℤ,
}

pub data StoreError : Type 0 where
  unique_violation : StoreError
  round_not_found question_not_found invalid_direction : StoreError
  round_move_impossible question_at_top question_at_bottom : StoreError

pub data Result (A : Type 0) : Type 0 where
  ok : A → Result A
  err : StoreError → Result A

infixl 5 ◌>>=◌
abbrev pub ◌>>=◌ : {A B : Type 0} → Result A → (A → Result B) → Result B
ok a >>= f = f a
err e >>= f = err e

pub record Row : Type 0 where
  pub id : ℕ
  pub quiz_id : ℕ
  pub round_id : ℕ

-- The rows, and the column of positions by id.
pub record Table : Type 0 where
  pub rows : List Row
  pub position : ℕ → ℤ

abbrev pub set_at : (ℕ → ℤ) → ℕ → ℤ → ℕ → ℤ
set_at f id p x = if x == id then p else f x

-- Another row of the quiz of this one has the position.
unfoldable pub is_taken : Table → ℤ → Row → Bool
is_taken t p r =
    any (λ (s : Row). not (s.id == r.id) && (s.quiz_id == r.quiz_id) && (t.position s.id ==ℤ p))
      t.rows

-- `UPDATE ... SET position = ? WHERE id = ?` under UNIQUE (quiz_id, position).
unfoldable pub update_position : ℤ → ℕ → Table → Result Table
unfolding is_taken
update_position p id t =
    if any (λ (r : Row). (r.id == id) && is_taken t p r) t.rows
    then err unique_violation
    else ok (record t { position = set_at t.position id p })

-- `SELECT ... WHERE quiz_id = ? ORDER BY position`.
unfoldable pub insert_by : (ℕ → ℤ) → Row → List Row → List Row
insert_by f r [] = r ∷ []
insert_by f r (s ∷ rs) =
    let rest = insert_by f r rs in if leb_ℤ (f r.id) (f s.id) then r ∷ s ∷ rs else s ∷ rest

unfoldable pub sort_by : (ℕ → ℤ) → List Row → List Row
unfolding insert_by
sort_by f [] = []
sort_by f (r ∷ rs) = insert_by f r (sort_by f rs)

unfoldable pub list_by_quiz : ℕ → Table → List Row
unfolding sort_by
list_by_quiz quiz t = sort_by t.position (keep (λ (r : Row). r.quiz_id == quiz) t.rows)
