-- ===== src/Game/Walk.antt =====
-- The round-walking entry point, GetNext and buildRoundBoundaryItem of internal/game/service.go.
use Prim.Native.String.{String}
use topbanana.Base.{ℕ, ◌+◌, Bool, true, false, ◌&&◌, Option, none, some, List, ◌==◌, length, any}
use topbanana.Quiz.{Quiz, Round}
use topbanana.Game.{Game, GameQuestion, RoundPhase, intro, results}
use topbanana.Game.Scoring.{Float64}
use topbanana.Game.TimeLimit.{resolve_round_boundary_window}
use topbanana.Game.Slots.{RoundSlot, question, round_boundary, no_slot, Walked, next_round_slot}
use topbanana.Game.Store.{
  Stores, M, Config, SeenRoundPhase, ◌>>=◌, return, fail, read, no_more_questions,
}
use topbanana.Game.Service.{load_game_for_player, resume_candidate, issue_question, was_asked}
use topbanana.Game.Scores.{compute_game_score, compute_round_recap}

-- A boundary card. The scores are 0 on an intro.
pub record BoundaryItem : Type 0 where
  pub round : Round
  pub phase : RoundPhase
  pub total : ℕ
  pub started_at : ℕ
  pub expired_at : ℕ
  pub score : ℕ
  pub round_score : ℕ
  pub round_correct : ℕ
  pub round_questions : ℕ

-- `Item`, with its Type as the constructor.
pub data Item : Type 0 where
  question_item : GameQuestion → Item
  boundary_item : BoundaryItem → Item

abbrev same_phase : RoundPhase → RoundPhase → Bool
same_phase intro intro = true
same_phase results results = true
same_phase _ _ = false

-- The map of acknowledged phases; the store holds intro and results only.
unfoldable pub seen_phase : List SeenRoundPhase → ℕ → RoundPhase → Bool
seen_phase sps round_id phase = any (λ sp. sp.round_id == round_id && same_phase sp.phase phase) sps

abbrev pub walked : Game → List SeenRoundPhase → Walked
walked g sps = record { asked = was_asked g; seen_round_phases = seen_phase sps }

unfoldable pub boundary_card : Quiz → Round → RoundPhase → ℕ → BoundaryItem
boundary_card qz round phase now = record {
  round = round;
  phase = phase;
  total = length qz.questions;
  started_at = now;
  expired_at = now + resolve_round_boundary_window (some round) (some qz);
  score = 0;
  round_score = 0;
  round_correct = 0;
  round_questions = 0;
}

module _ (fl : Float64) (st : Stores) (c : Config) where
  open st use {Db}

  with_scores : Game → Quiz → ℕ → Round → BoundaryItem → RoundPhase → M Db Item
  with_scores g qz player_id round item results = do
    score ← compute_game_score fl st g player_id
    recap ← compute_round_recap fl st g qz player_id round.id
    return (
        boundary_item (record item {
          score = score;
          round_score = recap.score;
          round_correct = recap.correct;
          round_questions = recap.questions;
        }))
  with_scores g qz player_id round item phase = return (boundary_item item)

  unfoldable pub build_round_boundary_item : Game → Quiz → ℕ → Round → RoundPhase → ℕ → M Db Item
  unfolding with_scores boundary_card
  build_round_boundary_item g qz player_id round phase now =
      with_scores g qz player_id round (boundary_card qz round phase now) phase

  unfoldable pub serve_slot : String → Game → Quiz → ℕ → ℕ → RoundSlot → M Db Item
  unfolding build_round_boundary_item
  serve_slot game_id g qz player_id now (round_boundary round phase) =
      build_round_boundary_item g qz player_id round phase now
  serve_slot game_id g qz player_id now (question q) = do
    gq ← issue_question st c game_id qz q (length g.questions) now
    return (question_item gq)
  serve_slot game_id g qz player_id now no_slot = fail no_more_questions

  unfoldable pub walk_on : String → Game → Quiz → ℕ → ℕ → M Db Item
  unfolding serve_slot
  walk_on game_id g qz player_id now = do
    rounds ← read (λ d. st.list_rounds_by_quiz d qz.id)
    seen_phases ← read (λ d. st.list_seen_round_phases_by_game d game_id)
    serve_slot game_id g qz player_id now
        (next_round_slot rounds qz.questions (walked g seen_phases))

  unfoldable pub resume_or_walk : String → Game → Quiz → ℕ → ℕ → Option GameQuestion → M Db Item
  unfolding walk_on
  resume_or_walk game_id g qz player_id now (some gq) = return (question_item gq)
  resume_or_walk game_id g qz player_id now none = walk_on game_id g qz player_id now

  unfoldable pub get_next : String → ℕ → ℕ → ℕ → M Db Item
  unfolding resume_or_walk
  get_next game_id player_id probed_at now = do
    loaded ← load_game_for_player st c game_id player_id
    resume_or_walk game_id loaded.0 loaded.1 player_id now
        (resume_candidate loaded.0 loaded.1 probed_at)
