-- ===== src/Examples/LiveData.antt =====
-- A room of a live quiz in each phase, and what the stores answer about it.
use topbanana.Live.{Session, Room, Phase}
use topbanana.Live.Env.{with_defaults, RunnerConfig, Env}
use topbanana.Base.{◌*◌, true, false, none, some, [], ◌==◌, if◌then◌else◌}
use topbanana.Game.TimeLimit.{second}
use topbanana.Examples.Data.{quiz_with}

abbrev pub runner : RunnerConfig
runner = with_defaults (record {
  beat_interval = 0;
  round_intro_beat = 0;
  reveal_beat = 0;
  round_results_beat = 0;
  question_read_beat = 0;
  idle_close_timeout = 0;
})

-- Two players are there, and only one of them has answered.
abbrev pub answers : Env
answers = record {
  get_quiz = λ id. if id == 1 then some (quiz_with "live" true) else none;
  count_active = λ since. some 2;
  count_active_unanswered = λ id since. some 1;
  score_answer = λ correct s e t. if correct then 1000 else 0;
  list_answers_fails = false;
  set_score_fails = λ id. false;
  mark_started_fails = false;
  enter_fails = false;
  finish_fails = false;
  intermit_fails = false;
}

abbrev pub all_answered : Env
all_answered = record answers { count_active_unanswered = λ id since. some 0 }

abbrev pub session_in : Phase → Session
session_in phase = record {
  id = "s";
  quiz_id = some 1;
  host_player_id = 5;
  join_code = "ABCD";
  phase = phase;
  game_seq = 1;
  current_round_id = some 1;
  current_question_id = some 1;
  question_started_at = some (5 * second);
  question_expires_at = some (25 * second);
  created_at = 0;
  started_at = some 0;
  finished_at = none;
  start_at = none;
  host_last_seen_at = some (20 * second);
}

abbrev pub room_in : Phase → Room
room_in phase = record {
  session = session_in phase;
  answers = [];
  play_counts = [];
  phase_since = some 0;
  published = [];
  forgotten = false;
}
