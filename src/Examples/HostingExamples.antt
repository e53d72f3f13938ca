-- ===== src/Examples/HostingExamples.antt =====
-- The theorems of the host's and the players' calls at one room.
use topbanana.Examples.LiveData.{runner, answers, session_in, room_in}
use topbanana.Live.Answers.Recorded.{submit_answer-Submitted, Submitted}
use topbanana.Live.Service.Hosting.{arm_quiz-Armed, Armed, arm_never_interrupts}
use topbanana.Live.Answers.{
  upsert_answer, record_answer, record_picked, pick_option, pick_in_quiz, pick_in_window,
  open_question,
}
use topbanana.Live.Service.{hostable_quiz_err, arm_room_for_host, arm_quiz}
use topbanana.Live.Row.{rearm_session}
use topbanana.Live.{lobby, intermission, question, Room}
use topbanana.Live.Answers
use topbanana.Base.{◌*◌, ◌≡◌, refl, ◌≢◌, true, false, none, some, [], ◌∷◌}
use topbanana.Game.TimeLimit.{second}

-- The call loaded the intermission, and a game has begun since.
arm_never_interrupts_example :
    ((arm_quiz runner answers false (some (session_in intermission)) 5 1 true (room_in question)).0
      ≢ none)
    × ((arm_quiz runner answers false
          (some (session_in intermission))
          5
          1
          true
          (room_in question)).1
        ≡ room_in question)
arm_never_interrupts_example =
    arm_never_interrupts runner answers (session_in intermission) 5 0 (room_in question) false true
      1 refl

abbrev rearmed : Room
rearmed = record (room_in lobby) {
  session = record (session_in lobby) {
    game_seq = 2;
    current_round_id = none;
    current_question_id = none;
    question_started_at = none;
    question_expires_at = none;
    started_at = none;
  };
  published = lobby ∷ [];
}

arm_quiz-Armed_example :
    Armed runner answers (session_in intermission) 5 0 (room_in intermission) 1 false rearmed
unfolding arm_quiz arm_room_for_host rearm_session hostable_quiz_err
arm_quiz-Armed_example =
    arm_quiz-Armed runner answers (session_in intermission) 5 0 (room_in intermission) false false 1
      rearmed refl

abbrev picked_room : Room
picked_room = record (room_in question) {
  answers =
      record {
        player_id = 7;
        question_id = 1;
        game_seq = 1;
        option_id = 11;
        answered_at = 9 * second;
        correct = false;
        score = none;
      }
      ∷ [];
  published = question ∷ [];
}

submit_answer-Submitted_example :
    Submitted answers.get_quiz
      (session_in question)
      (7 ∷ [])
      7
      11
      (9 * second)
      (room_in question)
      picked_room
unfolding Answers.submit_answer open_question record_answer upsert_answer
submit_answer-Submitted_example =
    submit_answer-Submitted false answers.get_quiz (session_in question) (7 ∷ []) 7 11 (9 * second)
      (room_in question) picked_room refl
