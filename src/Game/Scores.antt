-- ===== src/Game/Scores.antt =====
-- Adding up a player's answers: collectPlayerAnswers, scoreAnswers, computeGameScore and
-- computeRoundRecap of internal/game/service.go.
pub mod Sums
use topbanana.Base.{
  ℕ, ◌+◌, Bool, true, not, ◌&&◌, Option, none, some, List, [], ◌∷◌, ◌++◌, map, ◌==◌, if◌then◌else◌,
  length, any,
}
use topbanana.Quiz.{Quiz, Question, QuizOption}
use topbanana.Game.{Game, GameQuestion, Answer}
use topbanana.Game.Scoring.{Float64, score_answer_curve}
use topbanana.Game.Store.{Stores, M, ◌>>=◌, return, read}

-- An answer with the question that it belongs to.
pub record Played : Type 0 where
  pub question : GameQuestion
  pub answer : Answer

-- A nil include accepts every question.
abbrev pub includes : Option (ℕ → Bool) → ℕ → Bool
includes none id = true
includes (some f) id = f id

unfoldable pub answers_of : ℕ → GameQuestion → List Answer → List Played
answers_of player_id gq [] = []
answers_of player_id gq (ga ∷ gas) =
    if not (ga.player_id == player_id)
    then answers_of player_id gq gas
    else record { question = gq; answer = ga } ∷ answers_of player_id gq gas

unfoldable pub collect_player_answers : List GameQuestion → ℕ → Option (ℕ → Bool) → List Played
unfolding answers_of
collect_player_answers [] player_id include = []
collect_player_answers (gq ∷ gqs) player_id include =
    let rest = collect_player_answers gqs player_id include in
    if not (includes include gq.question_id)
    then rest
    else answers_of player_id gq gq.answers ++ rest

pub record ScoreResult : Type 0 where
  pub score : ℕ
  pub correct : ℕ

abbrev pub no_score : ScoreResult
no_score = record { score = 0; correct = 0 }

-- The loop that builds the map from an option's id to the option.
unfoldable pub options_by_id : (ℕ → Option QuizOption) → List QuizOption → ℕ → Option QuizOption
options_by_id m [] = m
options_by_id m (o ∷ os) = options_by_id (λ k. if k == o.id then some o else m k) os

-- The loop that collects a round's question ids into a set.
unfoldable pub round_question_ids : ℕ → List ℕ → List Question → List ℕ
round_question_ids round_id ids [] = ids
round_question_ids round_id ids (q ∷ qs) =
    round_question_ids round_id
      (if q.round_id == round_id && not (any (λ k. k == q.id) ids) then q.id ∷ ids else ids) qs

pub record RoundRecap : Type 0 where
  pub score : ℕ
  pub correct : ℕ
  pub questions : ℕ

module _ (fl : Float64) where
  -- `Service.CalculateScore`.
  abbrev pub calculate_score : Played → QuizOption → ℕ
  calculate_score p o =
      score_answer_curve fl o.correct p.question.started_at p.question.expired_at
        p.answer.answered_at

  -- An answer whose option is gone is skipped.
  unfoldable pub add_answer : (ℕ → Option QuizOption) → ScoreResult → Played → ScoreResult
  add_answer options r p = elim (options p.answer.option_id) [
    | none ↦ r
    | some o ↦ record {
      score = r.score + calculate_score p o;
      correct = if o.correct then r.correct + 1 else r.correct;
    }
  ]

  unfoldable pub add_answers : (ℕ → Option QuizOption) → ScoreResult → List Played → ScoreResult
  unfolding add_answer
  add_answers options r [] = r
  add_answers options r (p ∷ ps) = add_answers options (add_answer options r p) ps

  module _ (st : Stores) where
    open st use {Db}

    score_collected : List Played → M Db ScoreResult
    unfolding add_answers options_by_id
    score_collected [] = return no_score
    score_collected (p ∷ ps) = do
      options ← read (λ d. st.get_options_by_ids d (map (λ x. x.answer.option_id) (p ∷ ps)))
      return (add_answers (options_by_id (λ k. none) options) no_score (p ∷ ps))

    unfoldable pub score_answers : Game → ℕ → Option (ℕ → Bool) → M Db ScoreResult
    unfolding score_collected collect_player_answers
    score_answers g player_id include =
        score_collected (collect_player_answers g.questions player_id include)

    unfoldable pub compute_game_score : Game → ℕ → M Db ℕ
    unfolding score_answers
    compute_game_score g player_id = do result ← score_answers g player_id none; return result.score

    unfoldable pub compute_round_recap : Game → Quiz → ℕ → ℕ → M Db RoundRecap
    unfolding score_answers round_question_ids
    compute_round_recap g qz player_id round_id = do
      let ids = round_question_ids round_id [] qz.questions
      result ← score_answers g player_id (some (λ id. any (λ k. k == id) ids))
      return (record { score = result.score; correct = result.correct; questions = length ids })
