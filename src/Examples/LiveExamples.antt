-- ===== src/Examples/LiveExamples.antt =====
-- The theorems of the runner at one room.
use topbanana.Examples.LiveData.{runner, answers, all_answered, session_in, room_in}
use topbanana.Live.Plan.{new_question_plan}
use topbanana.Live.Runner.Liveness.{window_closed, beat_progresses}
use topbanana.Live.Runner.Progress.{Entered}
use topbanana.Live.Row.{enter_reveal}
use topbanana.Live.Runner.Questions.{question_closes_for_cause, Due}
use topbanana.Live.Runner.{close_question, advance_question, advance_phase, advance}
use topbanana.Live.Transitions.{
  load_plan, score_question, score_current, all_active_answered, close_if_idle,
}
use topbanana.Live.{intermission, question, finished, reveal}
use topbanana.Live.Runner.Races.{
  stale_beat, finished_final, play_count_once, beat_follows_graph, rearms, beat, write_all, Write,
  Step,
}
use topbanana.Live.Env.{with_defaults, host_last_seen}
use topbanana.Live.Runner.Moves.{row}
use topbanana.Base.{◌+◌, ◌*◌, ◌≤◌, ◌≡◌, refl, ◌⊎◌, true, [], ◌∷◌, arith, length}
use topbanana.Game.TimeLimit.{second}
use topbanana.Examples.Data.{quiz_with}

abbrev late_beat : Write
late_beat = beat runner answers (session_in reveal) (40 * second)

play_count_once_example :
    length (write_all (room_in reveal) (late_beat ∷ rearms 1 ∷ late_beat ∷ [])).play_counts + 1
    ≤ 0 + (write_all (room_in reveal) (late_beat ∷ rearms 1 ∷ late_beat ∷ [])).session.game_seq + 1
play_count_once_example = play_count_once (room_in reveal) (late_beat ∷ rearms 1 ∷ late_beat ∷ [])

finished_final_example :
    row (write_all (room_in finished) (late_beat ∷ rearms 1 ∷ [])) ≡ row (room_in finished)
finished_final_example = finished_final (room_in finished) (late_beat ∷ rearms 1 ∷ []) refl

stale_beat_example :
    ((advance runner answers (session_in reveal) (40 * second) (room_in question)).session.phase
      ≡ question)
    ⊎ (((advance runner answers (session_in reveal) (40 * second) (room_in question)).session.phase
          ≡ intermission)
        ⊎ ((advance runner answers
              (session_in reveal)
              (40 * second)
              (room_in question)).session.phase
            ≡ finished))
stale_beat_example =
    stale_beat runner answers (session_in reveal) (40 * second) (room_in question)
      (λ e. ground arith)

beat_follows_graph_example :
    Step reveal
      (advance runner answers (session_in reveal) (40 * second) (room_in reveal)).session.phase
beat_follows_graph_example = beat_follows_graph runner answers (40 * second) (room_in reveal)

question_closes_for_cause_example : Due all_answered (session_in question) (10 * second)
unfolding advance advance_phase advance_question close_question close_if_idle all_active_answered
    enter_reveal score_current score_question host_last_seen with_defaults
question_closes_for_cause_example =
    question_closes_for_cause runner all_answered (session_in question) (10 * second)
      (room_in question) refl refl refl

beat_progresses_example :
    Entered
      (room_in question)
      (advance runner answers (session_in question) (25 * second) (room_in question))
unfolding load_plan host_last_seen with_defaults
beat_progresses_example =
    beat_progresses runner answers (25 * second) (room_in question)
      (new_question_plan (quiz_with "live" true)) 0 refl refl refl refl (omega arith)
      (window_closed 1 (25 * second) refl refl refl (omega arith))
