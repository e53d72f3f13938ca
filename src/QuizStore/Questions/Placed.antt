-- ===== src/QuizStore/Questions/Placed.antt =====
-- Both moves of a question: refused across quizzes, and else complete.
use topbanana.QuizStore.Positions.Safe.{clamp_index_lem}
use topbanana.QuizStore.Positions.Total.{renumber_dense_positions-Renumbered}
use topbanana.QuizStore.Positions.Dense.{place}
use topbanana.QuizStore.Questions.Dragged.{Parking-set_round, AreRows-set_round, ordered-Rearranged}
use topbanana.QuizStore.Positions.{insert_at, ids_of, renumber}
use topbanana.QuizStore.Order.{
  valid-Parking, list_by_quiz-AreRows, list_by_quiz-Distinct, Rearranged, In-list_by_quiz,
  list_by_quiz-In, id_unique, IsValid,
}
use topbanana.QuizStore.{
  ok, list_by_quiz, Result, round_not_found, err, question_not_found, Row, Table, StoreError,
}
use topbanana.QuizStore.Questions.{
  moved_question, others_in, with_questions, by_round, flatten, update_round, set_round,
  reorder_questions_for_move, move_question_to_position, row_of, Db, move_question_to_round,
  validate_question_move,
}
use mathlib.Core.Path.{fun_ext}
use topbanana.Base.{
  pos, ℤ, ℕ, ◌+◌, ◌-◌, min, ◌≡◌, refl, sym, ap, subst, ◌∙◌, ◌≢◌, ◌⊎◌, inl, inr, not, Option, none,
  some, List, map, arith, ◌==◌, if◌then◌else◌, ==_iff, Bool-cases, Option-cases, length, find-test,
  In, find-In, find-none, In-map,
}

-- The table has the row with the id, and it is the quiz's.
pub record Has (quiz id : ℕ) (t : Table) : Type 0 where
  pub row : Row
  pub stored : In row t.rows
  pub is_it : row.id ≡ id
  pub owned : row.quiz_id ≡ quiz

row_of-Has : (quiz id : ℕ) (t : Table) → IsValid t → (h : Has quiz id t) → row_of id t ≡ some h.row
row_of-Has quiz id t v h = elim (Option-cases (row_of id t)) [
  | inl e ↦
      cc (
        find-none (λ (r : Row). r.id == id) t.rows h.row e h.stored,
        (==_iff h.row.id id).1 h.is_it,
      )
  | inr (r, e) ↦
      e
      ∙ ap some (
          id_unique t.rows r h.row v.distinct (find-In _ t.rows r e) h.stored
            ((==_iff r.id id).0 (find-test _ t.rows r e) ∙ sym h.is_it))
]

-- No row of the quiz has the id.
abbrev pub Lacks : ℕ → ℕ → Table → Type 0
Lacks quiz id t = (r : Row) → In r t.rows → r.id ≡ id → r.quiz_id ≢ quiz

abbrev row_error : ℕ → StoreError → Option Row → Option StoreError → Option StoreError
row_error quiz e none rest = some e
row_error quiz e (some r) rest = if not (r.quiz_id == quiz) then some e else rest

row_error-Lacks :
    (quiz id : ℕ) (t : Table) (e : StoreError) (rest : Option StoreError)
    → Lacks quiz id t
    → row_error quiz e (row_of id t) rest ≡ some e
row_error-Lacks quiz id t e rest h = elim (Option-cases (row_of id t)) [
  | inl k ↦ rw k refl
  | inr (r, k) ↦ elim (Bool-cases (r.quiz_id == quiz)) [
    | inl q ↦ absurd (
        h r (find-In _ t.rows r k) ((==_iff r.id id).0 (find-test _ t.rows r k))
          ((==_iff r.quiz_id quiz).0 q))
    | inr q ↦ rw k (rw q refl)
  ]
]

validate_lem :
    (quiz id target : ℕ) (db : Db)
    → validate_question_move quiz id target db
      ≡ row_error quiz question_not_found
          (row_of id db.questions)
          (row_error quiz round_not_found (row_of target db.rounds) none)
unfolding validate_question_move
validate_lem quiz id target db = ground arith

row_error-Has :
    (quiz id : ℕ) (t : Table) (e : StoreError) (rest : Option StoreError)
    → IsValid t
    → Has quiz id t
    → row_error quiz e (row_of id t) rest ≡ rest
row_error-Has quiz id t e rest v h =
    rw (row_of-Has quiz id t v h) (rw ((==_iff h.row.quiz_id quiz).1 h.owned) refl)

validate_ok :
    (quiz id target : ℕ) (db : Db)
    → IsValid db.questions
    → IsValid db.rounds
    → Has quiz id db.questions
    → Has quiz target db.rounds
    → validate_question_move quiz id target db ≡ none
validate_ok quiz id target db vq vr q r =
    validate_lem quiz id target db
    ∙ (row_error-Has quiz id db.questions question_not_found _ vq q
        ∙ row_error-Has quiz target db.rounds round_not_found none vr r)

-- The move crosses quizzes: the quiz lacks the question, or has it and lacks the round.
abbrev pub Crosses : ℕ → ℕ → ℕ → Db → Type 0
Crosses quiz id target db =
    Lacks quiz id db.questions ⊎ (Has quiz id db.questions × Lacks quiz target db.rounds)

abbrev pub refusal : {A B : Type 0} → A ⊎ B → StoreError
refusal (inl a) = question_not_found
refusal (inr b) = round_not_found

Crosses-validate :
    (quiz id target : ℕ) (db : Db)
    → IsValid db.questions
    → (h : Crosses quiz id target db) → validate_question_move quiz id target db ≡ some (refusal h)
Crosses-validate quiz id target db v (inl no_question) =
    validate_lem quiz id target db
    ∙ row_error-Lacks quiz id db.questions question_not_found _ no_question
Crosses-validate quiz id target db v (inr (q, no_round)) =
    validate_lem quiz id target db
    ∙ (row_error-Has quiz id db.questions question_not_found _ v q
        ∙ row_error-Lacks quiz target db.rounds round_not_found none no_round)

-- A question moves only within its quiz. Both moves answer that the question is not found if the quiz does
-- not have it, whichever round is named, and that the round is not found if the quiz has the question and
-- not the round.
pub cross_quiz_refused :
    (quiz id target new_position : ℕ) (db : Db)
    → IsValid db.questions
    → (h : Crosses quiz id target db)
    → (move_question_to_round quiz id target db ≡ err (refusal h))
      × (move_question_to_position quiz id target new_position db ≡ err (refusal h))
unfolding move_question_to_round move_question_to_position
cross_quiz_refused quiz id target new_position db v h =
    let e = Crosses-validate quiz id target db v h in
    (rw (e, move_question_to_round) refl, rw (e, move_question_to_position) refl)

module _ (quiz id target new_position : ℕ) (db : Db) where
  abbrev new_order : List Row
  new_order =
      reorder_questions_for_move (list_by_quiz quiz db.rounds) (list_by_quiz quiz db.questions) id
        target new_position

  abbrev new_rows : List Row
  new_rows = map (set_round target id) db.questions.rows

  -- The questions of a round after the move, in order: those that stayed, and in the target the moved one at
  -- its position counted from 1, or at the end if there are fewer.
  abbrev pub new_group : ℕ → List Row
  new_group k =
      let L = list_by_quiz quiz db.questions in
      let stayed = others_in id k L in
      if k == target
      then insert_at (min (new_position - 1) (length stayed)) (moved_question id L) stayed
      else stayed

  by_round-new_group :
      (k : ℕ) → by_round (list_by_quiz quiz db.questions) id target new_position k ≡ new_group k
  unfolding by_round
  by_round-new_group k =
      ap
        (λ (n : ℕ).
          if k == target
          then insert_at n (moved_question id (list_by_quiz quiz db.questions))
              (others_in id k (list_by_quiz quiz db.questions))
          else others_in id k (list_by_quiz quiz db.questions))
        (clamp_index_lem new_position (length (others_in id k (list_by_quiz quiz db.questions))))

  -- The questions after the move: the moved one has its new round and no other row changed; the new order
  -- has each question of the quiz once, and each stands at its place in it, counted from 1.
  pub record QuestionPlaced (r : Result Db) : Type 0 where
    pub column : ℕ → ℤ
    pub succeeded : r ≡ ok (record db { questions = record { rows = new_rows; position = column } })
    pub order : List Row
    pub by_rounds : order ≡ flatten new_group (list_by_quiz quiz db.rounds)
    pub complete : Rearranged (list_by_quiz quiz db.questions) order
    pub dense : (x : ℕ) → In x (ids_of order) → column x ≡ pos (place x (ids_of order) + 1)
    pub others : (x : ℕ) → (In x (ids_of order) → ⊥) → column x ≡ db.questions.position x

  move_valid :
      validate_question_move quiz id target db ≡ none
      → move_question_to_position quiz id target new_position db
        ≡ with_questions db
            (renumber new_order (record { rows = new_rows; position = db.questions.position }))
  unfolding move_question_to_position update_round
  move_valid e = rw (e, move_question_to_position) refl

  -- A question of a quiz can be dragged to any place of any round of the quiz, if every question of the
  -- quiz is in one of its rounds. The questions are then numbered from 1 without a gap, round by round in
  -- the order of the rounds; within a round they keep their order, the dragged one out of its old round and
  -- in its new one at its place, or at the end if there are fewer. No question is lost, no other quiz changes, and no update collides.
  pub move_question_to_position-Placed :
      IsValid db.questions
      → IsValid db.rounds
      → Has quiz id db.questions
      → Has quiz target db.rounds
      → ((r : Row)
          → In r db.questions.rows
          → r.quiz_id ≡ quiz
          → In r.round_id (ids_of (list_by_quiz quiz db.rounds)))
      → QuestionPlaced (move_question_to_position quiz id target new_position db)
  unfolding move_question_to_position renumber reorder_questions_for_move update_round
  move_question_to_position-Placed vq vr q r housed =
      let valid = validate_ok quiz id target db vq vr q r in
      let L = list_by_quiz quiz db.questions in
      let rounds = list_by_quiz quiz db.rounds in
      let mine : In q.row L = In-list_by_quiz quiz db.questions vq q.row q.stored q.owned in
      let goal_round : In target (ids_of rounds) =
        subst (λ (n : ℕ). In n (ids_of rounds)) r.is_it
          (In-map (λ (r : Row). r.id) rounds r.row
            (In-list_by_quiz quiz db.rounds vr r.row r.stored r.owned)) in
      let complete =
        ordered-Rearranged L id target new_position (list_by_quiz-Distinct quiz db.questions vq)
          q.row mine q.is_it rounds (list_by_quiz-Distinct quiz db.rounds vr) (lands goal_round) in
      let rows =
        AreRows-set_round quiz target id db.questions.rows (ids_of new_order)
          (list_by_quiz-AreRows quiz db.questions vq new_order complete) in
      let done =
        renumber_dense_positions-Renumbered quiz new_rows (ids_of new_order) rows
          db.questions.position
          (Parking-set_round quiz target id db.questions.rows db.questions.position
            (valid-Parking quiz db.questions vq)) in
      record {
        column = done.column;
        succeeded = move_valid valid ∙ ap (with_questions db) done.succeeded;
        order = new_order;
        by_rounds =
            ap (λ (g : ℕ → List Row). flatten g (list_by_quiz quiz db.rounds))
              (fun_ext by_round-new_group);
        complete = complete;
        dense = done.dense;
        others = done.others;
      }
    where
      lands :
          In target (ids_of (list_by_quiz quiz db.rounds))
          → (x : Row) → In x (list_by_quiz quiz db.questions)
          → In (if x.id == id then target else x.round_id) (ids_of (list_by_quiz quiz db.rounds))
      lands g x m = elim (Bool-cases (x.id == id)) [
        | inl e ↦ rw e g
        | inr e ↦ rw e (let (k, o) = list_by_quiz-In quiz db.questions vq x m in housed x k o)
      ]
