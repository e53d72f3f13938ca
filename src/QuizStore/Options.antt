-- ===== src/QuizStore/Options.antt =====
-- Saving the options of a question, internal/store/quiz.go: handleOptions with the statements that it runs
-- on the table of options. The source also writes the new ids into the submitted options, which nothing
-- here reads, and its callers set the question of the submitted options before.
pub mod Written
pub mod Deleted
pub mod Handled
pub mod Refused
pub mod Synced
use topbanana.Quiz.{QuizOption}
use topbanana.Base.{
  ℕ, ◌+◌, Bool, not, ◌&&◌, List, [], ◌∷◌, map, ltb, ◌==◌, if◌then◌else◌, keep, any,
}

pub data OptionError : Type 0 where
  updating_option_no_rows_affected deleting_option_no_rows_affected : OptionError

pub data Saved : Type 0 where
  saved : List QuizOption → Saved
  refused : OptionError → Saved

infixl 5 ◌then_on◌
abbrev pub ◌then_on◌ : Saved → (List QuizOption → Saved) → Saved
saved t then_on k = k t
refused e then_on k = refused e

-- `WHERE id = ? AND question_id = ?`.
abbrev pub is_row : ℕ → ℕ → QuizOption → Bool
is_row question id r = (r.id == id) && (r.question_id == question)

-- SQLite's id for a new row of a table with an INTEGER PRIMARY KEY: one more than the largest.
unfoldable pub next_id : List QuizOption → ℕ
next_id [] = 1
next_id (r ∷ rs) = let rest = next_id rs in if ltb r.id rest then rest else r.id + 1

unfoldable pub create_option : QuizOption → List QuizOption → List QuizOption
unfolding next_id
create_option o t = record o { id = next_id t } ∷ t

abbrev pub set_option : ℕ → QuizOption → QuizOption → QuizOption
set_option question o r =
    if is_row question o.id r then record r { text = o.text; correct = o.correct } else r

unfoldable pub update_option : ℕ → QuizOption → List QuizOption → Saved
update_option question o t =
    if any (is_row question o.id) t
    then saved (map (set_option question o) t)
    else refused updating_option_no_rows_affected

unfoldable pub delete_option : ℕ → ℕ → List QuizOption → Saved
delete_option question id t =
    if any (is_row question id) t
    then saved (keep (λ r. not (is_row question id r)) t)
    else refused deleting_option_no_rows_affected

unfoldable pub delete_options : ℕ → List ℕ → List QuizOption → Saved
unfolding delete_option
delete_options question [] t = saved t
delete_options question (id ∷ ids) t =
    delete_option question id t then_on delete_options question ids

-- One round of the loop over the submitted options, and the loop.
unfoldable pub write_option : ℕ → QuizOption → List QuizOption → Saved
unfolding create_option update_option
write_option question o t =
    if o.id == 0 then saved (create_option o t) else update_option question o t

unfoldable pub write_options : ℕ → List QuizOption → List QuizOption → Saved
unfolding write_option
write_options question [] t = saved t
write_options question (o ∷ os) t = write_option question o t then_on write_options question os

-- `incomingIDs[id]`.
abbrev pub is_incoming : List QuizOption → ℕ → Bool
is_incoming os id = any (λ (o : QuizOption). not (o.id == 0) && (o.id == id)) os

unfoldable pub option_ids : ℕ → List QuizOption → List ℕ
option_ids question t =
    map (λ (r : QuizOption). r.id) (keep (λ (r : QuizOption). r.question_id == question) t)

unfoldable pub handle_options : ℕ → List QuizOption → List QuizOption → Saved
unfolding write_options delete_options option_ids
handle_options question os t =
    write_options question os t
    then_on delete_options question (keep (λ id. not (is_incoming os id)) (option_ids question t))
