-- ===== src/Game/Service.antt =====
-- The entry points of the game service over the store interface, internal/game/service.go: issuing
-- questions, the round walk, answers and creation. Each reading of the clock is an argument.
pub mod Gate
pub mod Issue
use Prim.Native.String.{String}
use text.Mathlib.Text.{◌==◌ as str_eq}
use topbanana.Base.{
  ℕ, ◌+◌, ◌*◌, Bool, not, ◌&&◌, Option, none, some, List, [], ltb, leb, ◌==◌, if◌then◌else◌, length,
  find, any, last?,
}
use topbanana.Quiz.{Quiz, Question, QuizOption, Round, mode_solo, mode_live}
use topbanana.Quiz.Progress.{question_round_progress, no_progress}
use topbanana.Game.{
  Game, GameQuestion, Answer, Participant, RoundPhase, intro, results, is_valid_phase,
  has_participant, has_open_question, find_quiz_question,
}
use topbanana.Game.Clamp.{clamp_tapped_at, max_latency_refund}
use topbanana.Game.TimeLimit.{resolve_answer_window, second}
use topbanana.Game.Store.{
  Error, Result, ok, err, Stores, World, M, Config, ◌>>=◌, ◌>>◌, return, fail, read, write, require,
  ensure, publish, game_not_found, game_already_exists, preview_not_allowed,
  question_already_issued, no_more_questions, question_not_in_game, option_not_in_question,
  answer_window_closed, invalid_round_phase, quiz_not_found, question_not_found, round_not_found,
}

abbrev pub late_answer_grace : ℕ
late_answer_grace = 2 * second

-- `applyRoundProgress`.
unfoldable pub apply_round_progress : GameQuestion → Quiz → GameQuestion
apply_round_progress gq qz = record gq {
  progress = question_round_progress qz.questions gq.question_id;
}

resumed : Game → Quiz → GameQuestion → Question → GameQuestion
unfolding apply_round_progress
resumed g qz latest qq =
    apply_round_progress
      (record latest {
        quiz_question = some qq;
        position = length g.questions;
        total = length qz.questions;
      })
      qz

resume_latest : Game → Quiz → Option GameQuestion → Option GameQuestion
unfolding resumed
resume_latest g qz none = none
resume_latest g qz (some latest) = elim (find_quiz_question qz latest.question_id) [
  | none ↦ none
  | some qq ↦ some (resumed g qz latest qq)
]

unfoldable pub resume_candidate : Game → Quiz → ℕ → Option GameQuestion
unfolding resume_latest
resume_candidate g qz now =
    if not (has_open_question g now) then none else resume_latest g qz (last? g.questions)

unfoldable pub completes_game : GameQuestion → Bool
completes_game gq = ltb 0 gq.total && leb gq.total gq.position

abbrev pub was_asked : Game → ℕ → Bool
was_asked g id = any (λ gq. gq.question_id == id) g.questions

-- The row for a question that is issued at `now`.
unfoldable pub new_question : Config → String → Quiz → Question → ℕ → ℕ → GameQuestion
unfolding apply_round_progress
new_question c game_id qz q asked_count now =
    apply_round_progress
      (record {
        id = 0;
        game_id = game_id;
        question_id = q.id;
        quiz_question = some q;
        started_at = now + c.reveal_delay;
        expired_at = now + c.reveal_delay + resolve_answer_window (some q) (some qz);
        answers = [];
        position = asked_count + 1;
        total = length qz.questions;
        progress = no_progress;
      })
      qz

module _ (st : Stores) (c : Config) where
  open st use {Db}

  -- CreateQuestion, with question_already_issued taken as success.
  abbrev keep_issued : World Db → Option Error × GameQuestion × Db → Result GameQuestion × World Db
  keep_issued w (none, gq, d) = (ok gq, record w { db = d })
  keep_issued w (some question_already_issued, gq, d) = (ok gq, record w { db = d })
  keep_issued w (some e, gq, d) = (err e, record w { db = d })

  record_question : GameQuestion → M Db GameQuestion
  record_question gq w = keep_issued w (st.create_question w.db gq (completes_game gq))

  unfoldable pub issue_question : String → Quiz → Question → ℕ → ℕ → M Db GameQuestion
  unfolding record_question
  issue_question game_id qz q asked_count now =
      record_question (new_question c game_id qz q asked_count now)

  unfoldable pub load_game_for_player : String → ℕ → M Db (Game × Quiz)
  load_game_for_player game_id player_id = do
    g ← read (λ d. st.get_game d game_id)
    ensure (has_participant g player_id) game_not_found
    qz ← read (λ d. st.get_quiz d g.quiz_id)
    return (record g { quiz = some qz }, qz)

  issue_next : String → Game → Quiz → ℕ → Option Question → M Db GameQuestion
  unfolding record_question
  issue_next game_id g qz now none = fail no_more_questions
  issue_next game_id g qz now (some next) =
      record_question (new_question c game_id qz next (length g.questions) now)

  resume_or_issue : String → Game → Quiz → ℕ → Option GameQuestion → M Db GameQuestion
  unfolding issue_next
  resume_or_issue game_id g qz now (some gq) = return gq
  resume_or_issue game_id g qz now none =
      issue_next game_id g qz now (find (λ q. not (was_asked g q.id)) qz.questions)

  -- `probed_at` is the clock that the resume path reads, `now` the later one that anchors the window.
  unfoldable pub get_next_question : String → ℕ → ℕ → ℕ → M Db GameQuestion
  unfolding resume_or_issue
  get_next_question game_id player_id probed_at now = do
    g ← read (λ d. st.get_game d game_id)
    ensure (has_participant g player_id) game_not_found
    qz ← read (λ d. st.get_quiz d g.quiz_id)
    resume_or_issue game_id (record g { quiz = some qz }) qz now
        (resume_candidate (record g { quiz = some qz }) qz probed_at)

  unfoldable pub get_audio_manifest : String → ℕ → M Db (List Question)
  unfolding load_game_for_player
  get_audio_manifest game_id player_id = do
    loaded ← load_game_for_player game_id player_id
    return loaded.1.questions

  unfoldable pub mark_round_seen : String → ℕ → ℕ → RoundPhase → M Db (Unit {0})
  mark_round_seen game_id player_id round_id phase = do
    ensure (is_valid_phase phase) invalid_round_phase
    g ← read (λ d. st.get_game d game_id)
    ensure (has_participant g player_id) game_not_found
    round ← read (λ d. st.get_round d round_id)
    ensure (round.quiz_id == g.quiz_id) round_not_found
    write (λ d. st.mark_round_seen d game_id round_id phase)

  -- A question deleted from the quiz is no longer in the game.
  abbrev deleted_as_missing : Result Question → Result Question
  deleted_as_missing (ok q) = ok q
  deleted_as_missing (err question_not_found) = err question_not_in_game
  deleted_as_missing (err e) = err e

  unfoldable pub resolve_answer_target : Game → ℕ → ℕ → M Db (GameQuestion × QuizOption)
  resolve_answer_target g question_id option_id = do
    question ← require (find (λ gq. gq.question_id == question_id) g.questions) question_not_in_game
    quiz_question ← read (λ d. deleted_as_missing (st.get_question d question.question_id))
    o ← require (find (λ o. o.id == option_id) quiz_question.options) option_not_in_question
    return (record question { quiz_question = some quiz_question }, o)

  abbrev new_answer : String → ℕ → ℕ → ℕ → ℕ → GameQuestion → Answer
  new_answer game_id player_id option_id tapped_at now question = record {
    id = 0;
    game_id = game_id;
    player_id = player_id;
    question_id = question.id;
    option_id = option_id;
    answered_at = clamp_tapped_at tapped_at now max_latency_refund;
  }

  unfoldable pub submit_answer : String → ℕ → ℕ → ℕ → ℕ → ℕ → M Db Answer
  unfolding resolve_answer_target
  submit_answer game_id player_id question_id option_id tapped_at now = do
    g ← read (λ d. st.get_game d game_id)
    ensure (has_participant g player_id) game_not_found
    target ← resolve_answer_target g question_id option_id
    ensure (not (ltb (target.0.expired_at + late_answer_grace) now)) answer_window_closed
    a ←
        write
          (λ d. st.create_answer d (new_answer game_id player_id option_id tapped_at now target.0))
    publish c g.quiz_id
    return a

  unfoldable pub reset_games_for_player_on_quiz : ℕ → ℕ → M Db (Unit {0})
  reset_games_for_player_on_quiz player_id quiz_id = do
    exists ← read (λ d. st.quiz_exists d quiz_id)
    ensure exists quiz_not_found
    write (λ d. st.delete_games_for_player_on_quiz d player_id quiz_id)
