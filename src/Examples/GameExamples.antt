-- ===== src/Examples/GameExamples.antt =====
-- The theorems of the game service at the example game.
use topbanana.Game.Service.Gate.{submit_answer-Accepted, Accepted}
use topbanana.Game.Clamp.{clamp_tapped_at}
use topbanana.Examples.Data.{world, solo_stores, settings}
use topbanana.Game.{Answer, has_participant}
use topbanana.Game.Service.{submit_answer}
use topbanana.Base.{refl, [], ◌∷◌}

abbrev recorded : Answer
recorded = record {
  id = 0;
  game_id = "g";
  player_id = 7;
  question_id = 3;
  option_id = 10;
  answered_at = 9_000_000_000;
}

submit_answer-Accepted_example :
    Accepted solo_stores settings world "g" 7 1 10 9_000_000_000 9_000_000_000 recorded
      (record { db = 1; published = 1 ∷ [] })
unfolding submit_answer has_participant clamp_tapped_at
submit_answer-Accepted_example =
    submit_answer-Accepted solo_stores settings world "g" 7 1 10 9_000_000_000 9_000_000_000
      recorded (record { db = 1; published = 1 ∷ [] }) refl
