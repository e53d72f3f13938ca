-- ===== src/Game/Results.antt =====
-- The results of a game, GetResults of internal/game/service.go. Go's iteration order of a map is an
-- argument: a function that lists the map's entries in some order.
pub mod Winner
use Prim.Native.String.{String}
use topbanana.Base.{ℕ, ◌+◌, Option, none, some, List, [], ◌∷◌, ◌++◌, map, ltb, ◌==◌, if◌then◌else◌}
use topbanana.Quiz.{QuizOption}
use topbanana.Game.{Game, GameQuestion, Answer, has_participant}
use topbanana.Game.Scoring.{Float64}
use topbanana.Game.Store.{Stores, M, ◌>>=◌, ◌>>◌, return, read, ensure, game_not_found}
use topbanana.Game.Scores.{Played, calculate_score, options_by_id}

pub record Results : Type 0 where
  pub game_id : String
  pub winner : ℕ
  pub player_scores : List (ℕ × ℕ)

-- `plsMap[id] += s` on an association list.
unfoldable pub add_points : ℕ → ℕ → List (ℕ × ℕ) → List (ℕ × ℕ)
add_points id s [] = (id, s) ∷ []
add_points id s ((k, t) ∷ m) = if k == id then (k, t + s) ∷ m else (k, t) ∷ add_points id s m

-- The loop over the map's entries, with the winner and the top score so far.
unfoldable pub pick_winner : ℕ → ℕ → List (ℕ × ℕ) → ℕ
pick_winner winner top [] = winner
pick_winner winner top ((id, s) ∷ rest) =
    let higher = pick_winner id s rest in
    let tied = pick_winner 0 top rest in
    let lower = pick_winner winner top rest in
    if ltb top s then higher else if s == top then tied else lower

answer_option_ids : List Answer → List ℕ
answer_option_ids gas = map (λ ga. ga.option_id) gas

option_ids : List GameQuestion → List ℕ
unfolding answer_option_ids
option_ids [] = []
option_ids (gq ∷ gqs) = answer_option_ids gq.answers ++ option_ids gqs

module _ (fl : Float64) where
  answer_points : (ℕ → Option QuizOption) → GameQuestion → Answer → List (ℕ × ℕ) → List (ℕ × ℕ)
  answer_points options gq ga m = elim (options ga.option_id) [
    | none ↦ m
    | some o ↦
        add_points ga.player_id (calculate_score fl (record { question = gq; answer = ga }) o) m
  ]

  question_points :
      (ℕ → Option QuizOption) → GameQuestion → List Answer → List (ℕ × ℕ) → List (ℕ × ℕ)
  unfolding answer_points
  question_points options gq [] m = m
  question_points options gq (ga ∷ gas) m =
      question_points options gq gas (answer_points options gq ga m)

  unfoldable pub game_points :
      (ℕ → Option QuizOption) → List GameQuestion → List (ℕ × ℕ) → List (ℕ × ℕ)
  unfolding question_points
  game_points options [] m = m
  game_points options (gq ∷ gqs) m =
      game_points options gqs (question_points options gq gq.answers m)

  module _ (st : Stores) (iterate : List (ℕ × ℕ) → List (ℕ × ℕ)) where
    open st use {Db}

    unfoldable pub get_results : String → ℕ → M Db Results
    unfolding game_points pick_winner option_ids options_by_id
    get_results game_id player_id = do
      g ← read (λ d. st.get_game d game_id)
      ensure (has_participant g player_id) game_not_found
      options ← read (λ d. st.get_options_by_ids d (option_ids g.questions))
      let scores = game_points (options_by_id (λ k. none) options) g.questions []
      return (record {
        game_id = g.id;
        winner = pick_winner 0 0 (iterate scores);
        player_scores = scores;
      })
