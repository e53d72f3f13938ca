-- ===== src/Game.antt =====
-- The game domain, internal/game. This file has the types of game.go and its small predicates; a
-- pointer from an answer to its question or option is not kept, since the code that follows it has
-- the question and the option at hand.
pub mod Scoring
pub mod Clamp
pub mod TimeLimit
pub mod Slots
pub mod Store
pub mod Service
pub mod Creation
pub mod Scores
pub mod Results
pub mod Leaderboard
pub mod Walk
use Prim.Native.String.{String}
use topbanana.Base.{
  ℕ, Bool, true, false, ◌&&◌, Option, none, some, List, ltb, leb, ◌==◌, length, find, any, last?,
}
use topbanana.Quiz.{Quiz, Question, Round}
use topbanana.Quiz.Progress.{RoundProgress}

pub record Answer : Type 0 where
  pub id : ℕ
  pub game_id : String
  pub player_id : ℕ
  pub question_id : ℕ
  pub option_id : ℕ
  pub answered_at : ℕ

-- `game.Question`: a quiz question issued to a game.
pub record GameQuestion : Type 0 where
  pub id : ℕ
  pub game_id : String
  pub question_id : ℕ
  pub quiz_question : Option Question
  pub started_at : ℕ
  pub expired_at : ℕ
  pub answers : List Answer
  pub position : ℕ
  pub total : ℕ
  pub progress : RoundProgress

pub record Participant : Type 0 where
  pub id : ℕ
  pub game_id : String
  pub player_id : ℕ
  pub quiz_id : ℕ
  pub joined_at : ℕ

pub record Game : Type 0 where
  pub id : String
  pub quiz_id : ℕ
  pub quiz : Option Quiz
  pub preview : Bool
  pub created_at : ℕ
  pub started_at : Option ℕ
  pub questions : List GameQuestion
  pub participants : List Participant

pub data RoundPhase : Type 0 where
  intro results : RoundPhase
  other_phase : String → RoundPhase

unfoldable pub is_valid_phase : RoundPhase → Bool
is_valid_phase intro = true
is_valid_phase results = true
is_valid_phase (other_phase s) = false

unfoldable pub has_participant : Game → ℕ → Bool
has_participant g player_id = any (λ p. p.player_id == player_id) g.participants

is_completed_quiz : Option Quiz → Game → Bool
is_completed_quiz none g = false
is_completed_quiz (some qz) g =
    leb (length qz.questions) (length g.questions) && ltb 0 (length qz.questions)

unfoldable pub is_completed : Game → Bool
unfolding is_completed_quiz
is_completed g = is_completed_quiz g.quiz g

is_open_at : ℕ → GameQuestion → Bool
is_open_at now latest = length latest.answers == 0 && ltb now latest.expired_at

-- `now` is the reading of the clock.
unfoldable pub has_open_question : Game → ℕ → Bool
unfolding is_open_at
has_open_question g now = elim (last? g.questions) [
  | none ↦ false
  | some latest ↦ is_open_at now latest
]

unfoldable pub find_quiz_question : Quiz → ℕ → Option Question
find_quiz_question qz question_id = find (λ q. q.id == question_id) qz.questions
