-- ===== src/Examples/Data.antt =====
-- A quiz of two rounds, a game on it with one question issued, and stores that hold them.
use Prim.Native.String.{String}
use text.Mathlib.Text.{◌==◌ as str_eq}
use topbanana.Base.{
  ℕ, ◌+◌, ◌*◌, Bool, true, false, none, List, [], ◌∷◌, ◌==◌, if◌then◌else◌, from_nat,
}
use topbanana.Quiz.{Quiz, Question, QuizOption, Round}
use topbanana.Quiz.Progress.{no_progress}
use topbanana.Game.{Game, GameQuestion, Answer, Participant}
use topbanana.Game.Store.{
  Stores, World, Config, ok, err, game_not_found, quiz_not_found, question_not_found,
  round_not_found,
}

abbrev pub option_at : ℕ → ℕ → Bool → QuizOption
option_at id question_id right = record {
  id = id;
  question_id = question_id;
  text = "x";
  correct = right;
}

abbrev pub question_at : ℕ → ℕ → Question
question_at id round_id = record {
  id = id;
  quiz_id = 1;
  round_id = round_id;
  text = "?";
  image_media_id = none;
  audio_media_id = none;
  audio_repeat = false;
  position = id;
  time_limit_seconds = none;
  options = option_at (10 * id) id true ∷ option_at (10 * id + 1) id false ∷ [];
}

abbrev pub round_at : ℕ → String → Round
round_at id summary = record {
  id = id;
  quiz_id = 1;
  position = id;
  title = "round";
  summary = summary;
  boundary_duration_seconds = none;
  created_at = 0;
  updated_at = 0;
  questions = [];
}

abbrev pub two_rounds : List Round
two_rounds = round_at 1 "first" ∷ round_at 2 "" ∷ []

abbrev pub three_questions : List Question
three_questions = question_at 1 1 ∷ question_at 2 2 ∷ question_at 3 1 ∷ []

abbrev pub quiz_with : String → Bool → Quiz
quiz_with mode published = record {
  id = 1;
  title = "quiz";
  slug = "quiz";
  description = "";
  created_at = 0;
  updated_at = 0;
  created_by_player_id = 5;
  created_by_display_name = "host";
  time_limit_seconds = from_nat 20;
  visibility = "public";
  mode = mode;
  language = "en";
  play_count = 0;
  published = published;
  questions = three_questions;
  rounds = two_rounds;
}

-- The row of the first question, open from 5 s to 25 s.
abbrev pub issued_with : List Answer → GameQuestion
issued_with given = record {
  id = 3;
  game_id = "g";
  question_id = 1;
  quiz_question = none;
  started_at = 5_000_000_000;
  expired_at = 25_000_000_000;
  answers = given;
  position = 1;
  total = 3;
  progress = no_progress;
}

abbrev pub player_7 : Participant
player_7 = record { id = 1; game_id = "g"; player_id = 7; quiz_id = 1; joined_at = 0 }

abbrev pub one_game : Game
one_game = record {
  id = "g";
  quiz_id = 1;
  quiz = none;
  preview = false;
  created_at = 0;
  started_at = none;
  questions = issued_with [] ∷ [];
  participants = player_7 ∷ [];
}

-- The database is the number of its writes.
abbrev pub stores_with : Quiz → Stores
stores_with qz = record {
  Db = ℕ;
  get_game = λ db id. if str_eq id "g" then ok one_game else err game_not_found;
  get_game_by_player_and_quiz = λ db p q. if p == 7 then ok one_game else err game_not_found;
  get_real_game_by_player_and_quiz = λ db p q. if p == 7 then ok one_game else err game_not_found;
  list_seen_round_phases_by_game = λ db id. ok [];
  create_game_and_participant = λ db g p. (ok g, db + 1);
  create_question = λ db gq bumps. (none, gq, db + 1);
  create_answer = λ db a. (ok a, db + 1);
  delete_games_for_player_on_quiz = λ db p q. (ok tt, db + 1);
  mark_round_seen = λ db id r p. (ok tt, db + 1);
  get_quiz = λ db id. if id == 1 then ok qz else err quiz_not_found;
  quiz_exists = λ db id. ok (id == 1);
  get_question = λ db id. if id == 1 then ok (question_at 1 1) else err question_not_found;
  get_options_by_ids = λ db ids. ok [];
  list_rounds_by_quiz = λ db id. ok two_rounds;
  get_round = λ db id. if id == 1 then ok (round_at 1 "first") else err round_not_found;
}

abbrev pub solo_stores : Stores
solo_stores = stores_with (quiz_with "solo" true)

abbrev pub settings : Config
settings = record { reveal_delay = 3_000_000_000; stale_period = 0; has_publisher = true }

abbrev pub world : World ℕ
world = record { db = 0; published = [] }
