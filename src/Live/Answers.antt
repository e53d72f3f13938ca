-- ===== src/Live/Answers.antt =====
-- A player's answer in a live session, SubmitAnswer of internal/livesession/livesession.go and RecordAnswer of
-- internal/store/livesession.go. The session that the call loads, with its roster, is an argument beside the
-- room. The player's time of last activity is not kept here.
pub mod Recorded
use topbanana.Live.{question, Session, SessionAnswer, Room}
use topbanana.Live.Service.{
  quiz_not_found, store_failure, not_participant, session_not_found, question_not_open, LiveError,
}
use topbanana.Live.{Room, SessionAnswer, Session}
use topbanana.Base.{
  ℕ, Bool, not, ◌&&◌, ◌||◌, Option, none, some, List, [], ◌∷◌, ltb, ◌==◌, if◌then◌else◌, find, any,
}
use topbanana.Quiz.{QuizOption, Quiz, Question}
use topbanana.Live.Env.{publish}

-- `isParticipant`; the roster is the list of the players' ids.
abbrev pub is_participant : Session → List ℕ → ℕ → Bool
is_participant s players player_id =
    s.host_player_id == player_id || any (λ p. p == player_id) players

-- The open question of a session: its id and its window.
unfoldable pub open_question : Session → Option (ℕ × (ℕ × ℕ))
open_question s = elim s.phase [
  | question ↦ elim s.current_question_id [
    | none ↦ none
    | some q ↦ elim s.question_started_at [
      | none ↦ none
      | some t ↦ elim s.question_expires_at [ none ↦ none | some e ↦ some (q, (t, e)) ]
    ]
  ]
  | _ ↦ none
]

abbrev pub same_slot : ℕ → ℕ → ℕ → SessionAnswer → Bool
same_slot player_id question_id game_seq a =
    a.player_id == player_id && (a.question_id == question_id && a.game_seq == game_seq)

-- The upsert: the option and the time of the row of this player, question and game, or a new row at the end.
-- Whether the option is correct is a join in the source.
unfoldable pub upsert_answer : SessionAnswer → List SessionAnswer → List SessionAnswer
upsert_answer a [] = a ∷ []
upsert_answer a (b ∷ bs) =
    let rest = upsert_answer a bs in
    if same_slot a.player_id a.question_id a.game_seq b
    then record b { option_id = a.option_id; answered_at = a.answered_at; correct = a.correct } ∷ bs
    else b ∷ rest

-- The row for a pick: of the row's game, not the loaded one's.
abbrev pub answer_of_pick : Room → ℕ → ℕ → QuizOption → ℕ → SessionAnswer
answer_of_pick r question_id player_id picked answered_at = record {
  player_id = player_id;
  question_id = question_id;
  game_seq = r.session.game_seq;
  option_id = picked.id;
  answered_at = answered_at;
  correct = picked.correct;
  score = none;
}

-- `RecordAnswer`.
unfoldable pub record_answer : ℕ → ℕ → QuizOption → ℕ → Room → Room
unfolding upsert_answer
record_answer question_id player_id picked answered_at r = record r {
  answers = upsert_answer (answer_of_pick r question_id player_id picked answered_at) r.answers;
}

pub record_picked : Bool → Session → ℕ → ℕ → ℕ → Option QuizOption → Room → Option LiveError × Room
unfolding record_answer
record_picked fails s question_id player_id answered_at none r = (some question_not_open, r)
record_picked fails s question_id player_id answered_at (some o) r =
    if fails
    then (some store_failure, r)
    else (none, publish s.phase (record_answer question_id player_id o answered_at r))

pub pick_option : Bool → Session → ℕ → ℕ → ℕ → ℕ → Option Question → Room → Option LiveError × Room
unfolding record_picked
pick_option fails s question_id player_id option_id answered_at none r = (some question_not_open, r)
pick_option fails s question_id player_id option_id answered_at (some q) r =
    record_picked fails s question_id player_id answered_at
      (find (λ o. o.id == option_id) q.options) r

pub pick_in_quiz :
    Bool → (ℕ → Option Quiz) → Session → ℕ → ℕ → ℕ → ℕ → Room → Option LiveError × Room
unfolding pick_option
pick_in_quiz fails get_quiz s question_id player_id option_id answered_at r = elim s.quiz_id [
  | none ↦ (some question_not_open, r)
  | some quiz_id ↦ elim (get_quiz quiz_id) [
    | none ↦ (some quiz_not_found, r)
    | some qz ↦
        pick_option fails s question_id player_id option_id answered_at
          (find (λ q. q.id == question_id) qz.questions) r
  ]
]

pub pick_in_window :
    Bool
    → (ℕ → Option Quiz)
    → Session
    → ℕ
    → ℕ
    → ℕ
    → Option (ℕ × (ℕ × ℕ))
    → Room
    → Option LiveError × Room
unfolding pick_in_quiz
pick_in_window fails get_quiz s player_id option_id answered_at none r = (some question_not_open, r)
pick_in_window fails get_quiz s player_id option_id answered_at (some (q, (opens, closes))) r =
    if ltb answered_at opens || ltb closes answered_at
    then (some question_not_open, r)
    else pick_in_quiz fails get_quiz s q player_id option_id answered_at r

unfoldable pub submit_answer :
    Bool → (ℕ → Option Quiz) → Option Session → List ℕ → ℕ → ℕ → ℕ → Room → Option LiveError × Room
unfolding open_question pick_in_window
submit_answer fails get_quiz none players player_id option_id answered_at r =
    (some session_not_found, r)
submit_answer fails get_quiz (some s) players player_id option_id answered_at r =
    if not (is_participant s players player_id)
    then (some not_participant, r)
    else pick_in_window fails get_quiz s player_id option_id answered_at (open_question s) r

-- What the answers of a room hold for a player, a question and a game.
abbrev pub answer_in : ℕ → ℕ → ℕ → List SessionAnswer → Option SessionAnswer
answer_in player_id question_id game_seq given =
    find (same_slot player_id question_id game_seq) given
