-- ===== src/Game/Service/Issue.antt =====
-- The row of an issued question: its window, and the moment at which a game is complete.
use Prim.Native.String.{String}
use topbanana.Base.{ℕ, ◌+◌, ◌≤◌, ◌≡◌, refl, none, some, [], ◌∷◌, ◌++◌, arith, length, length-append}
use topbanana.Quiz.{Quiz, Question}
use topbanana.Game.{Game, is_completed}
use topbanana.Game.TimeLimit.{second, resolve_answer_window, windows_positive}
use topbanana.Game.Store.{Config}
use topbanana.Game.Service.{new_question, completes_game}

-- The answer window opens one reveal delay after the question is issued, and stays open for the
-- question's time limit, at least a second.
pub new_question_window :
    (c : Config) (game_id : String) (qz : Quiz) (q : Question) (n now : ℕ)
    → ((new_question c game_id qz q n now).started_at ≡ now + c.reveal_delay)
      × ((new_question c game_id qz q n now).expired_at
          ≡ (new_question c game_id qz q n now).started_at
            + resolve_answer_window (some q) (some qz))
      × ((new_question c game_id qz q n now).started_at + second
          ≤ (new_question c game_id qz q n now).expired_at)
unfolding new_question
new_question_window c game_id qz q n now =
    (refl, refl, omega (arith, (windows_positive (some q) none (some qz)).0))

-- The flag that bumps the play count for the next row is whether the game with that row added is
-- complete.
pub completes_game-is_completed :
    (c : Config) (game_id : String) (g : Game) (qz : Quiz) (q : Question) (now : ℕ)
    → completes_game (new_question c game_id qz q (length g.questions) now)
      ≡ is_completed (record g {
        quiz = some qz;
        questions = g.questions ++ new_question c game_id qz q (length g.questions) now ∷ [];
      })
unfolding completes_game new_question is_completed
completes_game-is_completed c game_id g qz q now =
    ground
      (arith, length-append g.questions (new_question c game_id qz q (length g.questions) now ∷ []))
