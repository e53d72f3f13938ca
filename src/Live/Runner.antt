-- ===== src/Live/Runner.antt =====
-- The runner, internal/livesession/runner.go: one beat of one room. The session that a beat loaded is an
-- argument beside the room, whose row may have moved on since. What the stores answer, and which writes
-- fail, is the environment of the beat.
pub mod Moves
pub mod Writes
pub mod Beats
pub mod Races
pub mod Questions
pub mod Progress
pub mod Liveness
use topbanana.Live.Transitions.{
  start_round_results, end_empty_game, all_active_answered, score_current, start_round_intro,
  close_if_idle, end_game, load_plan, issue_question,
}
use mathlib.Core.Option
use topbanana.Base.{ℕ, ◌+◌, Bool, true, false, not, ◌&&◌, none, some, ltb, if◌then◌else◌}
use topbanana.Quiz.{Quiz, Question}
use topbanana.Game.TimeLimit.{second}
use topbanana.Live.{
  Phase, lobby, round_intro, question, reveal, round_results, intermission, finished, Session,
  SessionAnswer, Room,
}
use topbanana.Live.Env.{
  RunnerConfig, Env, active_window, default_question_window, publish, mark_phase, drop_clock,
  phase_entered_at, host_last_seen, entered,
}
use topbanana.Live.Row.{
  mark_started, enter_round_intro, enter_question, enter_reveal, enter_round_results, finish,
  intermit,
}
use topbanana.Live.Plan.{
  QuestionPlan, new_question_plan, first_round, first_question_of_round, next_question_in_round,
  next_round,
}

module _ (c : RunnerConfig) (env : Env) where
  unfoldable pub close_question : Session → ℕ → ℕ → ℕ → Room → Room
  unfolding score_current all_active_answered
  close_question s question_id expires_at now r =
      if ltb now expires_at && not (all_active_answered c env question_id now)
      then r
      else let scored = score_current c env s question_id expires_at r in
        entered env.enter_fails now reveal scored (enter_reveal s.phase question_id scored)

  unfoldable pub advance_question : Session → ℕ → Room → Room
  unfolding close_question
  advance_question s now r = elim s.current_question_id [
    | none ↦ r
    | some question_id ↦ elim s.question_expires_at [
      | none ↦ r
      | some expires_at ↦ close_question s question_id expires_at now r
    ]
  ]

  unfoldable pub advance_after_round : Session → QuestionPlan → ℕ → Room → Room
  unfolding start_round_intro end_game
  advance_after_round s plan now r = elim (next_round plan s.current_round_id) [
    | none ↦ end_game c env s now r
    | some round_id ↦ start_round_intro c env s round_id now r
  ]

  pub first_round_of : Session → QuestionPlan → ℕ → Room → Room
  unfolding start_round_intro end_empty_game
  first_round_of s plan now r = elim (first_round plan) [
    | none ↦ end_empty_game c env now r
    | some round_id ↦ start_round_intro c env s round_id now r
  ]

  unfoldable pub enter_first_round : Session → ℕ → Room → Room
  unfolding first_round_of load_plan
  enter_first_round s now r = elim (load_plan c env s) [
    | none ↦ r
    | some plan ↦ first_round_of s plan now r
  ]

  pub started_room : Session → ℕ → Bool × Room → Room
  unfolding enter_first_round
  started_room s now (true, r) = enter_first_round s now r
  started_room s now (false, r) = r

  unfoldable pub advance_lobby : Session → ℕ → Room → Room
  unfolding started_room
  advance_lobby s now r = elim s.started_at [
    | some t ↦ enter_first_round s now r
    | none ↦ elim s.start_at [
      | none ↦ r
      | some deadline ↦
          if ltb now deadline
          then r
          else if env.mark_started_fails
          then r
          else started_room s now (mark_started now r)
    ]
  ]

  -- The beat: nothing before it has passed since the phase was entered.
  abbrev pub after_beat : ℕ → ℕ → ℕ × Room → (Room → Room) → Room
  after_beat beat now (since, r) next = if ltb now (since + beat) then r else next r

  pub intro_over : Session → ℕ → Room → Room
  unfolding issue_question advance_after_round load_plan
  intro_over s now r = elim (load_plan c env s) [
    | none ↦ r
    | some plan ↦ elim (first_question_of_round plan s.current_round_id) [
      | none ↦ advance_after_round s plan now r
      | some q ↦ issue_question c env s q now r
    ]
  ]

  unfoldable pub advance_round_intro : Session → ℕ → Room → Room
  unfolding intro_over phase_entered_at
  advance_round_intro s now r =
      after_beat c.round_intro_beat now (phase_entered_at now r) (intro_over s now)

  pub round_over : Session → QuestionPlan → ℕ → Room → Room
  unfolding end_game start_round_results
  round_over s plan now r = elim (next_round plan s.current_round_id) [
    | none ↦ end_game c env s now r
    | some round_id ↦ start_round_results c env s now r
  ]

  pub reveal_over : Session → ℕ → Room → Room
  unfolding issue_question round_over load_plan
  reveal_over s now r = elim (load_plan c env s) [
    | none ↦ r
    | some plan ↦ elim (next_question_in_round plan s.current_round_id s.current_question_id) [
      | some q ↦ issue_question c env s q now r
      | none ↦ round_over s plan now r
    ]
  ]

  unfoldable pub advance_reveal : Session → ℕ → Room → Room
  unfolding reveal_over phase_entered_at
  advance_reveal s now r = after_beat c.reveal_beat now (phase_entered_at now r) (reveal_over s now)

  pub results_over : Session → ℕ → Room → Room
  unfolding advance_after_round load_plan
  results_over s now r = elim (load_plan c env s) [
    | none ↦ r
    | some plan ↦ advance_after_round s plan now r
  ]

  unfoldable pub advance_round_results : Session → ℕ → Room → Room
  unfolding results_over phase_entered_at
  advance_round_results s now r =
      after_beat c.round_results_beat now (phase_entered_at now r) (results_over s now)

  -- The switch on the phase that was loaded.
  unfoldable pub advance_phase : Phase → Session → ℕ → Room → Room
  unfolding advance_lobby advance_round_intro advance_question advance_reveal advance_round_results
  advance_phase lobby s now r = advance_lobby s now r
  advance_phase round_intro s now r = advance_round_intro s now r
  advance_phase question s now r = advance_question s now r
  advance_phase reveal s now r = advance_reveal s now r
  advance_phase round_results s now r = advance_round_results s now r
  advance_phase intermission s now r = r
  advance_phase finished s now r = drop_clock r

  abbrev pub unless_closed : Session → ℕ → Bool × Room → Room
  unless_closed s now (true, r) = r
  unless_closed s now (false, r) = advance_phase s.phase s now r

  -- One beat, with the session that it loaded.
  unfoldable pub advance : Session → ℕ → Room → Room
  unfolding close_if_idle advance_phase
  advance s now r = unless_closed s now (close_if_idle c env s now r)

  -- The host's start: a session that is still in the lobby goes into its first round.
  unfoldable pub begin_session : Session → ℕ → Room → Room
  unfolding enter_first_round
  begin_session s now r = elim s.phase [ lobby ↦ enter_first_round s now r | _ ↦ r ]

  unfoldable pub rearm_runner : Session → ℕ → Room → Room
  unfolding begin_session
  rearm_runner s now r = begin_session s now (drop_clock r)
