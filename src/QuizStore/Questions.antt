-- ===== src/QuizStore/Questions.antt =====
-- The reordering of questions, internal/store/quiz.go, and MoveQuestionToRound of internal/store/round.go.
pub mod Ordered
pub mod Dragged
pub mod Placed
pub mod Buttons
use topbanana.QuizStore.Rounds.{direction_down, direction_up}
use topbanana.QuizStore.Positions.{index_of, renumber, clamp_index, insert_at}
use text.Mathlib.Text.{◌==◌ as str_eq}
use Prim.Native.String.{String}
use topbanana.QuizStore.{
  ◌>>=◌, update_position, question_at_bottom, invalid_direction, question_at_top, round_not_found,
  err, question_not_found, ok, list_by_quiz, Result, StoreError, Table, Row,
}
use topbanana.Base.{
  ℕ, ◌+◌, ◌-◌, not, ◌&&◌, Option, none, some, List, [], ◌∷◌, ◌++◌, map, ◌==◌, if◌then◌else◌, length,
  get_elem?, find, keep, neg, ℤ,
}

pub record Db : Type 0 where
  pub rounds : Table
  pub questions : Table

abbrev pub row_of : ℕ → Table → Option Row
row_of id t = find (λ (r : Row). r.id == id) t.rows

-- The question and the round exist and are the quiz's.
unfoldable pub validate_question_move : ℕ → ℕ → ℕ → Db → Option StoreError
validate_question_move quiz question_id target_round_id db =
    elim (row_of question_id db.questions) [
      | none ↦ some question_not_found
      | some q ↦
          if not (q.quiz_id == quiz)
          then some question_not_found
          else elim (row_of target_round_id db.rounds) [
            | none ↦ some round_not_found
            | some r ↦ if not (r.quiz_id == quiz) then some round_not_found else none
          ]
    ]

-- `UPDATE questions SET round_id = ? WHERE id = ?`.
abbrev pub set_round : ℕ → ℕ → Row → Row
set_round round_id id r = if r.id == id then record r { round_id = round_id } else r

unfoldable pub update_round : ℕ → ℕ → Table → Table
update_round round_id id t = record t { rows = map (set_round round_id id) t.rows }

unfoldable pub move_question_to_round : ℕ → ℕ → ℕ → Db → Result Db
unfolding validate_question_move update_round
move_question_to_round quiz question_id round_id db =
    elim (validate_question_move quiz question_id round_id db) [
      | some e ↦ err e
      | none ↦ ok (record db { questions = update_round round_id question_id db.questions })
    ]

abbrev pub no_row : Row
no_row = record { id = 0; quiz_id = 0; round_id = 0 }

abbrev pub or_row : Option Row → Row
or_row none = no_row
or_row (some r) = r

-- The question that moves, and the others of a round.
abbrev pub moved_question : ℕ → List Row → Row
moved_question question_id questions = or_row (find (λ (r : Row). r.id == question_id) questions)

abbrev pub others_in : ℕ → ℕ → List Row → List Row
others_in question_id round_id questions =
    keep (λ (r : Row). not (r.id == question_id) && (r.round_id == round_id)) questions

-- `byRound[id]` after the insertion.
unfoldable pub by_round : List Row → ℕ → ℕ → ℕ → ℕ → List Row
by_round questions question_id target_round_id new_position round_id =
    let group = others_in question_id round_id questions in
    if round_id == target_round_id
    then insert_at (clamp_index new_position (length group)) (moved_question question_id questions)
        group
    else group

abbrev pub flatten : (ℕ → List Row) → List Row → List Row
flatten f [] = []
flatten f (r ∷ rs) = f r.id ++ flatten f rs

unfoldable pub reorder_questions_for_move : List Row → List Row → ℕ → ℕ → ℕ → List Row
unfolding by_round
reorder_questions_for_move rounds questions question_id target_round_id new_position =
    flatten (by_round questions question_id target_round_id new_position) rounds

abbrev pub with_questions : Db → Result Table → Result Db
with_questions db (ok t) = ok (record db { questions = t })
with_questions db (err e) = err e

-- The positions that are renumbered were read before the round was updated, which leaves them.
unfoldable pub move_question_to_position : ℕ → ℕ → ℕ → ℕ → Db → Result Db
unfolding validate_question_move reorder_questions_for_move update_round
move_question_to_position quiz question_id target_round_id new_position db =
    elim (validate_question_move quiz question_id target_round_id db) [
      | some e ↦ err e
      | none ↦
          let rounds = list_by_quiz quiz db.rounds in
          let questions = list_by_quiz quiz db.questions in
          let ordered =
            reorder_questions_for_move rounds questions question_id target_round_id new_position in
          with_questions db
            (renumber ordered (update_round target_round_id question_id db.questions))
    ]

-- The three updates of a swap of questions, in a transaction after the rows were listed.
unfoldable pub exec_swap_question_positions : ℕ → ℤ → ℕ → ℤ → Table → Result Table
exec_swap_question_positions current_id current_pos neighbour_id neighbour_pos t =
    update_position (neg current_id) current_id t >>= λ parked.
    update_position current_pos neighbour_id parked >>= λ moved.
    update_position neighbour_pos current_id moved

-- `rows[idx]` and `rows[neighbourIdx]`; an index out of range, which the guards rule out, panics.
unfoldable pub swap_listed_questions : List Row → ℕ → ℕ → Table → Result Table
unfolding exec_swap_question_positions
swap_listed_questions rows idx neighbour_idx t = elim (get_elem? rows idx) [
  | none ↦ err question_not_found
  | some current ↦ elim (get_elem? rows neighbour_idx) [
    | none ↦ err question_not_found
    | some neighbour ↦
        exec_swap_question_positions current.id (t.position current.id) neighbour.id
          (t.position neighbour.id) t
  ]
]

unfoldable pub swap_question_at : List Row → ℕ → String → Table → Result Table
unfolding swap_listed_questions
swap_question_at rows idx direction t =
    if str_eq direction direction_up
    then (if idx == 0 then err question_at_top else swap_listed_questions rows idx (idx - 1) t)
    else if str_eq direction direction_down
    then (if idx == length rows - 1
        then err question_at_bottom
        else swap_listed_questions rows idx (idx + 1) t)
    else err invalid_direction

unfoldable pub swap_question_positions : ℕ → ℕ → String → Table → Result Table
unfolding swap_question_at
swap_question_positions quiz question_id direction t =
    let rows = list_by_quiz quiz t in
    if not (str_eq direction direction_up) && not (str_eq direction direction_down)
    then err invalid_direction
    else elim (index_of question_id rows) [
      | none ↦ err question_not_found
      | some idx ↦ swap_question_at rows idx direction t
    ]
