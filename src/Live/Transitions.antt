-- ===== src/Live/Transitions.antt =====
-- The transitions of a room and the tests that a beat makes, internal/livesession/runner.go: each write with
-- what follows it, the closing of an idle room, and the scoring of a question.
use mathlib.Core.Option
use topbanana.Base.{
  ℕ, ◌+◌, ◌-◌, ◌*◌, Bool, true, false, not, ◌&&◌, Option, none, some, map, ltb, ◌==◌, if◌then◌else◌,
  is_positive, magnitude,
}
use topbanana.Quiz.{Quiz, Question}
use topbanana.Game.TimeLimit.{second}
use topbanana.Live.{
  round_intro, question, round_results, intermission, finished, Session, SessionAnswer, Room,
}
use topbanana.Live.Env.{
  RunnerConfig, Env, active_window, default_question_window, publish, drop_clock, host_last_seen,
  entered,
}
use topbanana.Live.Row.{enter_round_intro, enter_question, enter_round_results, finish, intermit}
use topbanana.Live.Plan.{QuestionPlan, new_question_plan}

module _ (c : RunnerConfig) (env : Env) where
  -- A question's own limit, else the quiz's, else the default; a quiz that cannot be read counts as none.
  quiz_window : Option Quiz → ℕ
  quiz_window none = default_question_window
  quiz_window (some qz) =
      if is_positive qz.time_limit_seconds
      then magnitude qz.time_limit_seconds * second
      else default_question_window

  unfoldable pub question_window : ℕ → Question → ℕ
  unfolding quiz_window
  question_window quiz_id q = elim q.time_limit_seconds [
    | some s ↦ if ltb 0 s then s * second else quiz_window (env.get_quiz quiz_id)
    | none ↦ quiz_window (env.get_quiz quiz_id)
  ]

  -- `loadPlan`: none without a quiz, or if it cannot be read.
  unfoldable pub load_plan : Session → Option QuestionPlan
  load_plan s = elim s.quiz_id [
    | none ↦ none
    | some quiz_id ↦ Option.map new_question_plan (env.get_quiz quiz_id)
  ]

  abbrev id_or_zero : Option ℕ → ℕ
  id_or_zero none = 0
  id_or_zero (some n) = n

  unfoldable pub issue_question : Session → Question → ℕ → Room → Room
  unfolding question_window
  issue_question s q now r =
      let started_at = now + c.question_read_beat in
      entered env.enter_fails now question r (
        enter_question s.phase q.round_id q.id started_at
          (started_at + question_window (id_or_zero s.quiz_id) q) r)

  unfoldable pub start_round_intro : Session → ℕ → ℕ → Room → Room
  start_round_intro s round_id now r =
      entered env.enter_fails now round_intro r (enter_round_intro s.phase round_id r)

  unfoldable pub start_round_results : Session → ℕ → Room → Room
  start_round_results s now r =
      entered env.enter_fails now round_results r (enter_round_results s.phase r)

  abbrev pub has_quiz : Option ℕ → Bool
  has_quiz none = false
  has_quiz (some n) = true

  unfoldable pub end_with : Bool → ℕ → Room → Room
  end_with bump_play_count now r =
      if env.intermit_fails
      then r
      else publish intermission (drop_clock (intermit now bump_play_count r))

  unfoldable pub end_game : Session → ℕ → Room → Room
  unfolding end_with
  end_game s now r = end_with (has_quiz s.quiz_id) now r

  unfoldable pub end_empty_game : ℕ → Room → Room
  unfolding end_with
  end_empty_game now r = end_with false now r

  unfoldable pub finish_terminal : ℕ → Room → Room
  finish_terminal now r =
      if env.finish_fails
      then r
      else record (publish finished (drop_clock (finish now r))) { forgotten = true }

  -- Whether the room was closed, and the room.
  unfoldable pub close_if_idle : Session → ℕ → Room → Bool × Room
  unfolding finish_terminal host_last_seen
  close_if_idle s now r = elim s.phase [
    | finished ↦ (false, r)
    | _ ↦
        if not (ltb (host_last_seen s + c.idle_close_timeout) now)
        then (false, r)
        else elim (env.count_active (now - active_window)) [
          | none ↦ (false, r)
          | some active ↦ if ltb 0 active then (false, r) else (true, finish_terminal now r)
        ]
  ]

  unfoldable pub all_active_answered : ℕ → ℕ → Bool
  all_active_answered question_id now = elim (env.count_active (now - active_window)) [
    | none ↦ false
    | some active ↦
        if active == 0
        then false
        else elim (env.count_active_unanswered question_id (now - active_window)) [
          | none ↦ false
          | some unanswered ↦ unanswered == 0
        ]
  ]

  score_row : ℕ → ℕ → ℕ → ℕ → SessionAnswer → SessionAnswer
  score_row question_id game_seq started_at expires_at a =
      if a.question_id == question_id
        && (a.game_seq == game_seq && not (env.set_score_fails a.player_id))
      then record a {
        score = some (env.score_answer a.correct started_at expires_at a.answered_at);
      }
      else a

  -- The answers listed are those of the question in the room's current game.
  unfoldable pub score_question : ℕ → ℕ → ℕ → Room → Room
  unfolding score_row
  score_question question_id started_at expires_at r =
      if env.list_answers_fails then r else record r {
        answers = map (score_row question_id r.session.game_seq started_at expires_at) r.answers;
      }

  -- `scoreQuestion` does nothing without a start of the window.
  unfoldable pub score_current : Session → ℕ → ℕ → Room → Room
  unfolding score_question
  score_current s question_id expires_at r = elim s.question_started_at [
    | none ↦ r
    | some started_at ↦ score_question question_id started_at expires_at r
  ]
