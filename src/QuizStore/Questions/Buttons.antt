-- ===== src/QuizStore/Questions/Buttons.antt =====
-- The up and down buttons of a question beside those of a round.
use topbanana.QuizStore.Rounds.Moved.{index_of-get_elem?}
use topbanana.QuizStore.Positions.{index_of}
use topbanana.QuizStore.Rounds.Shifted.{get_elem?-lt, get_elem?_total}
use topbanana.QuizStore.Questions.{
  swap_listed_questions, exec_swap_question_positions, swap_question_positions, swap_question_at,
}
use text.Mathlib.Text.{◌==◌ as str_eq}
use topbanana.QuizStore.{
  unique_violation, round_not_found, invalid_direction, round_move_impossible, list_by_quiz,
  question_at_bottom, question_at_top, err, is_taken, ◌>>=◌, ok, Row, question_not_found, Table,
  StoreError, Result, update_position,
}
use topbanana.QuizStore.Rounds.{
  direction_down, move_round_tx, move_round, move_round_at, swap_round_positions, swap_listed,
  direction_up,
}
use Prim.Native.String.{String}
use topbanana.Base.{
  ℕ, ◌+◌, ◌-◌, ◌≡◌, refl, sym, ◌∙◌, ◌≢◌, inl, inr, not, ◌&&◌, some, List, arith, ◌==◌,
  if◌then◌else◌, Bool-cases, Option-cases, length, get_elem?, any, neg, ℤ,
}

-- The question's error where a round's is returned.
abbrev question_error : String → StoreError → StoreError
question_error d round_not_found = question_not_found
question_error d round_move_impossible =
    if str_eq d direction_up then question_at_top else question_at_bottom
question_error d unique_violation = unique_violation
question_error d question_not_found = question_not_found
question_error d invalid_direction = invalid_direction
question_error d question_at_top = question_at_top
question_error d question_at_bottom = question_at_bottom

abbrev pub for_question : String → Result Table → Result Table
for_question d (ok t) = ok t
for_question d (err e) = err (question_error d e)

module _ (d : String) where
  abbrev Kept : Result Table → Type 0
  Kept r = for_question d r ≡ r

  >>=-Kept :
      (r : Result Table) (f : Table → Result Table)
      → Kept r
      → ((t : Table) → Kept (f t))
      → Kept (r >>= f)
  >>=-Kept (ok t) f h k = k t
  >>=-Kept (err e) f h k = h

  update_position-Kept : (p : ℤ) (id : ℕ) (t : Table) → Kept (update_position p id t)
  unfolding update_position
  update_position-Kept p id t =
      elim (Bool-cases (any (λ (r : Row). (r.id == id) && is_taken t p r) t.rows)) [
        | inl e ↦ rw e refl
        | inr e ↦ rw e refl
      ]

  swap_round_positions-Kept : (a b : Row) (t : Table) → Kept (swap_round_positions a b t)
  unfolding swap_round_positions
  swap_round_positions-Kept a b t =
      >>=-Kept (update_position (neg a.id) a.id t) _ (update_position-Kept (neg a.id) a.id t)
        (λ parked.
          >>=-Kept (update_position (t.position a.id) b.id parked) _
            (update_position-Kept (t.position a.id) b.id parked)
            (λ moved. update_position-Kept (t.position b.id) a.id moved))

  -- The body for questions does what the body for rounds does.
  exec_swap-swap_round_positions :
      (a b : Row) (t : Table)
      → exec_swap_question_positions a.id (t.position a.id) b.id (t.position b.id) t
        ≡ swap_round_positions a b t
  unfolding exec_swap_question_positions swap_round_positions
  exec_swap-swap_round_positions a b t = refl

  swap_listed-for_question :
      (rs : List Row) (i j : ℕ) (t : Table) (a b : Row)
      → get_elem? rs i ≡ some a
      → get_elem? rs j ≡ some b
      → swap_listed_questions rs i j t ≡ for_question d (swap_listed rs i j t)
  unfolding swap_listed swap_listed_questions
  swap_listed-for_question rs i j t a b g h =
      rw (g, swap_listed, swap_listed_questions)
        (rw (h, swap_listed, swap_listed_questions)
          (exec_swap-swap_round_positions a b t ∙ sym (swap_round_positions-Kept a b t)))

  swap_question_at-for_question :
      (rs : List Row) (idx : ℕ) (t : Table) (it : Row)
      → get_elem? rs idx ≡ some it
      → swap_question_at rs idx d t ≡ for_question d (move_round_at rs idx d t)
  unfolding swap_question_at move_round_at
  swap_question_at-for_question rs idx t it g = elim (Bool-cases (str_eq d direction_up)) [
    | inl up ↦ elim (Bool-cases (idx == 0)) [
      | inl z ↦ rw (up, z) (rw up refl)
      | inr z ↦
          let (above, h) = get_elem?_total (idx - 1) rs (omega (arith, get_elem?-lt idx rs it g)) in
          rw (up, z) (swap_listed-for_question rs idx (idx - 1) t it above g h)
    ]
    | inr up ↦ elim (Bool-cases (str_eq d direction_down)) [
      | inl down ↦ elim (Bool-cases (idx == length rs - 1)) [
        | inl z ↦ rw (up, down, z) (rw up refl)
        | inr z ↦
            let last : idx ≢ length rs - 1 = λ e. ground arith in
            let (below, h) =
              get_elem?_total (idx + 1) rs (omega (arith, get_elem?-lt idx rs it g)) in
            rw (up, down, z) (swap_listed-for_question rs idx (idx + 1) t it below g h)
      ]
      | inr down ↦ rw (up, down) refl
    ]
  ]

-- The buttons of a question do to the table of questions what the buttons of a round do to the table of
-- rounds, for every direction, with the question's errors in the place of the round's: not found, at the
-- top, or at the bottom.
pub swap_question_positions-move_round :
    (quiz question_id : ℕ) (d : String) (t : Table)
    → swap_question_positions quiz question_id d t
      ≡ for_question d (move_round quiz question_id d t)
unfolding swap_question_positions move_round move_round_tx
swap_question_positions-move_round quiz question_id d t =
    elim (Bool-cases (not (str_eq d direction_up) && not (str_eq d direction_down))) [
      | inl e ↦ rw e refl
      | inr e ↦ rw e (elim (Option-cases (index_of question_id (list_by_quiz quiz t))) [
        | inl n ↦ rw n (rw (n, move_round_tx) refl)
        | inr (idx, n) ↦
            let (it, g, q) = index_of-get_elem? question_id (list_by_quiz quiz t) idx n in
            rw n (
              rw (n, move_round_tx)
                (swap_question_at-for_question d (list_by_quiz quiz t) idx t it g))
      ])
    ]
