-- ===== src/Live.antt =====
-- Hosted live sessions, internal/livesession: the types of livesession.go, for one room.
pub mod Row
pub mod Plan
pub mod Env
pub mod Transitions
pub mod Runner
pub mod Service
pub mod Answers
use Prim.Native.String.{String}
use topbanana.Base.{ℕ, Bool, true, false, Option, List}

pub data Phase : Type 0 where
  lobby round_intro question reveal round_results intermission finished : Phase

pub Phase-discrete : Discrete Phase
Phase-discrete = hlevel

abbrev pub same_phase : Phase → Phase → Bool
same_phase lobby lobby = true
same_phase round_intro round_intro = true
same_phase question question = true
same_phase reveal reveal = true
same_phase round_results round_results = true
same_phase intermission intermission = true
same_phase finished finished = true
same_phase _ _ = false

pub record Session : Type 0 where
  pub id : String
  pub quiz_id : Option ℕ
  pub host_player_id : ℕ
  pub join_code : String
  pub phase : Phase
  pub game_seq : ℕ
  pub current_round_id : Option ℕ
  pub current_question_id : Option ℕ
  pub question_started_at : Option ℕ
  pub question_expires_at : Option ℕ
  pub created_at : ℕ
  pub started_at : Option ℕ
  pub finished_at : Option ℕ
  pub start_at : Option ℕ
  pub host_last_seen_at : Option ℕ

-- A row of session_answers, with the question and the game that it belongs to.
pub record SessionAnswer : Type 0 where
  pub player_id : ℕ
  pub question_id : ℕ
  pub game_seq : ℕ
  pub option_id : ℕ
  pub answered_at : ℕ
  pub correct : Bool
  pub score : Option ℕ

-- One room: its row and answer rows, the quizzes whose play count it has bumped, and what the runner and
-- the publisher keep of it.
pub record Room : Type 0 where
  pub session : Session
  pub answers : List SessionAnswer
  pub play_counts : List ℕ
  pub phase_since : Option ℕ
  pub published : List Phase
  pub forgotten : Bool
