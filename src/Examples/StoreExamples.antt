-- ===== src/Examples/StoreExamples.antt =====
-- A quiz with three rounds, the first at position 0, and four questions.
use topbanana.QuizStore.Questions.Buttons.{swap_question_positions-move_round, for_question}
use topbanana.QuizStore.Rounds.Shifted.{move_round-Clicked, Clicked}
use topbanana.QuizStore.Positions.{ids_of, renumber_dense_positions}
use topbanana.QuizStore.Positions.Total.{renumber_dense_positions-Renumbered, AreRows, Renumbered}
use topbanana.QuizStore.Positions.Safe.{pos_inj}
use topbanana.QuizStore.Rounds.{
  direction_down, direction_up, swap_round_positions, swap_listed, move_round_at, move_round_tx,
  move_round, move_round_to_position,
}
use topbanana.QuizStore.Questions.{
  swap_listed_questions, swap_question_at, swap_question_positions, Db, move_question_to_position,
  move_question_to_round,
}
use topbanana.QuizStore.Questions.Placed.{
  move_question_to_position-Placed, QuestionPlaced, Has, cross_quiz_refused,
}
use topbanana.QuizStore.Rounds.Moved.{move_round_to_position-RoundMoved, RoundMoved}
use topbanana.QuizStore.{
  question_at_bottom, set_at, ok, update_position, list_by_quiz, round_not_found, err, Row, Table,
}
use topbanana.QuizStore.Order.{
  Rearranged-refl, Rearranged-insert_at, valid-Parking, list_by_quiz-AreRows, IsValid,
}
use topbanana.Base.{
  pos, negsuc, ℕ, ◌-◌, ◌≤◌, ◌≡◌, refl, ap, ◌≢◌, ◌⊎◌, inl, inr, [], ◌∷◌, map, arith, In,
}

abbrev row : ℕ → ℕ → Row
row id round_id = record { id = id; quiz_id = 7; round_id = round_id }

-- The rows 1 to 3 at the positions 0 to 2.
abbrev rounds : Table
rounds = record { rows = row 1 0 ∷ row 2 0 ∷ row 3 0 ∷ []; position = λ id. pos (id - 1) }

-- The questions 11 to 14 at the positions 1 to 4; round 3 is empty.
abbrev questions : Table
questions = record {
  rows = row 11 1 ∷ row 12 1 ∷ row 13 2 ∷ row 14 2 ∷ [];
  position = λ id. pos (id - 10);
}

abbrev db : Db
db = record { rounds = rounds; questions = questions }

-- The ids of a table, one of them for each row.
three : (r : Row) → In r rounds.rows → (r ≡ row 1 0) ⊎ ((r ≡ row 2 0) ⊎ (r ≡ row 3 0))
three r (inl e) = inl e
three r (inr (inl e)) = inr (inl e)
three r (inr (inr (inl e))) = inr (inr e)
three r (inr (inr (inr m))) = absurd m

round_range : (r : Row) → In r rounds.rows → (1 ≤ r.id) × (r.id ≤ 3)
round_range r m = elim (three r m) [
  | inl e ↦ rw e (omega arith)
  | inr (inl e) ↦ rw e (omega arith)
  | inr (inr e) ↦ rw e (omega arith)
]

rounds-IsValid : IsValid rounds
rounds-IsValid = record {
  distinct = (λ m. omega arith, (λ m. omega arith, (λ m. m, tt)));
  positive = λ r m. omega (arith, round_range r m);
  proper = λ r m. (r.id - 1, refl);
  unique = λ r s m n q e. omega (arith, pos_inj _ _ e, round_range r m, round_range s n);
}

question_range : (r : Row) → In r questions.rows → (11 ≤ r.id) × (r.id ≤ 14)
question_range r (inl e) = rw e (omega arith)
question_range r (inr (inl e)) = rw e (omega arith)
question_range r (inr (inr (inl e))) = rw e (omega arith)
question_range r (inr (inr (inr (inl e)))) = rw e (omega arith)
question_range r (inr (inr (inr (inr m)))) = absurd m

questions-IsValid : IsValid questions
questions-IsValid = record {
  distinct = (λ m. omega arith, (λ m. omega arith, (λ m. omega arith, (λ m. m, tt))));
  positive = λ r m. omega (arith, question_range r m);
  proper = λ r m. (r.id - 10, refl);
  unique = λ r s m n q e. omega (arith, pos_inj _ _ e, question_range r m, question_range s n);
}

move_round_to_position-RoundMoved_example :
    RoundMoved 7 1 3 rounds rounds-IsValid
    ⊎ ((move_round_to_position 7 1 3 rounds ≡ err round_not_found)
        × ((r : Row) → In r rounds.rows → r.quiz_id ≡ 7 → r.id ≢ 1))
move_round_to_position-RoundMoved_example =
    move_round_to_position-RoundMoved 7 1 3 rounds rounds-IsValid

move_round-Clicked_example :
    Clicked 7 rounds rounds-IsValid 2
      (move_round 7 2 direction_up rounds)
      (move_round 7 2 direction_down rounds)
move_round-Clicked_example = move_round-Clicked 7 rounds rounds-IsValid 2

question_11 : Has 7 11 questions
question_11 = record { row = row 11 1; stored = inl refl; is_it = refl; owned = refl }

round_3 : Has 7 3 rounds
round_3 = record { row = row 3 0; stored = inr (inr (inl refl)); is_it = refl; owned = refl }

cross_quiz_refused_example :
    (move_question_to_round 7 11 9 db ≡ err round_not_found)
    × (move_question_to_position 7 11 9 1 db ≡ err round_not_found)
cross_quiz_refused_example =
    cross_quiz_refused 7 11 9 1 db questions-IsValid
      (inr (question_11, λ r m e q. absurd (omega (arith, round_range r m))))

ids_listed : ids_of (list_by_quiz 7 rounds) ≡ 1 ∷ 2 ∷ 3 ∷ []
unfolding list_by_quiz
ids_listed = refl

housed :
    (r : Row) → In r questions.rows → r.quiz_id ≡ 7 → In r.round_id (ids_of (list_by_quiz 7 rounds))
unfolding list_by_quiz
housed r (inl e) q = inl (ap (λ (r : Row). r.round_id) e)
housed r (inr (inl e)) q = inl (ap (λ (r : Row). r.round_id) e)
housed r (inr (inr (inl e))) q = inr (inl (ap (λ (r : Row). r.round_id) e))
housed r (inr (inr (inr (inl e)))) q = inr (inl (ap (λ (r : Row). r.round_id) e))
housed r (inr (inr (inr (inr m)))) q = absurd m

move_question_to_position-Placed_example :
    QuestionPlaced 7 11 3 9 db (move_question_to_position 7 11 3 9 db)
move_question_to_position-Placed_example =
    move_question_to_position-Placed 7 11 3 9 db questions-IsValid rounds-IsValid question_11
      round_3 housed

rows_numbered : AreRows 7 rounds.rows (3 ∷ 1 ∷ 2 ∷ [])
unfolding list_by_quiz
rows_numbered = list_by_quiz-AreRows 7 rounds rounds-IsValid (row 3 0 ∷ row 1 0 ∷ row 2 0 ∷ []) (
    Rearranged-insert_at 2 0 (row 3 0) (row 1 0 ∷ row 2 0 ∷ []) (row 1 0 ∷ row 2 0 ∷ [])
      (Rearranged-refl _))

renumber_dense_positions-Renumbered_example :
    Renumbered 7 rounds.rows
      (3 ∷ 1 ∷ 2 ∷ [])
      rows_numbered
      rounds.position
      (renumber_dense_positions (3 ∷ 1 ∷ 2 ∷ []) (map rounds.position (3 ∷ 1 ∷ 2 ∷ [])) rounds)
renumber_dense_positions-Renumbered_example =
    renumber_dense_positions-Renumbered 7 rounds.rows (3 ∷ 1 ∷ 2 ∷ []) rows_numbered rounds.position
      (valid-Parking 7 rounds rounds-IsValid)

-- A swap passes through the parked position.
swapped_up :
    move_round 7 2 direction_up rounds
    ≡ ok (record rounds {
      position = set_at (set_at (set_at rounds.position 2 (negsuc 1)) 1 (pos 1)) 2 (pos 0);
    })
unfolding move_round move_round_tx move_round_at swap_listed swap_round_positions list_by_quiz
    update_position
swapped_up = refl

swap_question_positions-move_round_example :
    swap_question_positions 7 13 direction_up questions
    ≡ for_question direction_up (move_round 7 13 direction_up questions)
swap_question_positions-move_round_example =
    swap_question_positions-move_round 7 13 direction_up questions

-- The last question stands at the bottom.
last_question : swap_question_positions 7 14 direction_down questions ≡ err question_at_bottom
unfolding swap_question_positions swap_question_at swap_listed_questions list_by_quiz
last_question = refl
