-- ===== src/QuizStore/Rounds.antt =====
-- MoveRound and MoveRoundToPosition with their transactions, internal/store/round.go. The source's
-- positions are int64; a target position that is negative acts like 0.
pub mod Moved
pub mod Swapped
pub mod Shifted
use topbanana.QuizStore.Positions.{clamp_index, insert_at, renumber, delete_at, index_of}
use text.Mathlib.Text.{◌==◌ as str_eq}
use Prim.Native.String.{String}
use topbanana.QuizStore.{
  update_position, ◌>>=◌, round_not_found, round_move_impossible, invalid_direction, err,
  list_by_quiz, Result, Table, Row,
}
use topbanana.Base.{
  ℕ, ◌+◌, ◌-◌, not, ◌&&◌, none, some, List, ◌==◌, if◌then◌else◌, length, get_elem?, neg,
}

abbrev pub direction_up : String
direction_up = "up"

abbrev pub direction_down : String
direction_down = "down"

-- The three updates of a swap: park, move the neighbour, settle. The rows have the positions that they were
-- listed with.
unfoldable pub swap_round_positions : Row → Row → Table → Result Table
swap_round_positions current neighbour t = do
  parked ← update_position (neg current.id) current.id t
  moved ← update_position (t.position current.id) neighbour.id parked
  update_position (t.position neighbour.id) current.id moved

-- `siblings[idx]` and `siblings[neighbourIdx]`; an index out of range, which the guards rule out, panics.
unfoldable pub swap_listed : List Row → ℕ → ℕ → Table → Result Table
unfolding swap_round_positions
swap_listed siblings i j t = elim (get_elem? siblings i) [
  | none ↦ err round_move_impossible
  | some a ↦ elim (get_elem? siblings j) [
    | none ↦ err round_move_impossible
    | some b ↦ swap_round_positions a b t
  ]
]

unfoldable pub move_round_at : List Row → ℕ → String → Table → Result Table
unfolding swap_listed
move_round_at siblings idx direction t =
    if str_eq direction direction_up
    then (if idx == 0 then err round_move_impossible else swap_listed siblings idx (idx - 1) t)
    else if str_eq direction direction_down
    then (if idx == length siblings - 1
        then err round_move_impossible
        else swap_listed siblings idx (idx + 1) t)
    else err invalid_direction

unfoldable pub move_round_tx : ℕ → ℕ → String → Table → Result Table
unfolding move_round_at
move_round_tx quiz round_id direction t =
    let siblings = list_by_quiz quiz t in
    elim (index_of round_id siblings) [
      | none ↦ err round_not_found
      | some idx ↦ move_round_at siblings idx direction t
    ]

unfoldable pub move_round : ℕ → ℕ → String → Table → Result Table
unfolding move_round_tx
move_round quiz round_id direction t =
    if not (str_eq direction direction_up) && not (str_eq direction direction_down)
    then err invalid_direction
    else move_round_tx quiz round_id direction t

-- The row at the index is taken out, and put back at the clamped position.
unfoldable pub move_listed : List Row → ℕ → ℕ → Table → Result Table
move_listed rounds idx new_position t = elim (get_elem? rounds idx) [
  | none ↦ err round_not_found
  | some moved ↦
      let others = delete_at idx rounds in
      renumber (insert_at (clamp_index new_position (length others)) moved others) t
]

unfoldable pub move_round_to_position : ℕ → ℕ → ℕ → Table → Result Table
unfolding move_listed
move_round_to_position quiz round_id new_position t =
    let rounds = list_by_quiz quiz t in
    elim (index_of round_id rounds) [
      | none ↦ err round_not_found
      | some idx ↦ move_listed rounds idx new_position t
    ]
