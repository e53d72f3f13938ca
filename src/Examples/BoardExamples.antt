-- ===== src/Examples/BoardExamples.antt =====
-- The theorems of scores, results and leaderboards at the fixed-point scoring curve.
use topbanana.Game.Results.{pick_winner}
use topbanana.Quiz.{QuizOption}
use topbanana.Game.Leaderboard.{quiz_leaderboard, LeaderboardParticipant, LeaderboardAnswer}
use topbanana.Game.Results.Winner.{pick_winner_exact, AtMost, Below}
use topbanana.Game.Scoring.{score_antitone, score_answer_curve}
use topbanana.Game.{Answer, GameQuestion}
use topbanana.Game.Leaderboard.Standings.{quiz_leaderboard-Standings, Standings}
use topbanana.Game.Scores.{Played}
use topbanana.Base.{
  ℕ, ◌≤◌, ◌<◌, ◌≡◌, Bool, true, false, Option, none, some, List, [], ◌∷◌, arith, ◌==◌,
  if◌then◌else◌, All,
}
use topbanana.Examples.Data.{option_at, issued_with}
use topbanana.Examples.ScoringExamples.{fixed_point}

score_antitone_example :
    score_answer_curve fixed_point true 0 10_000_000_000 6_000_000_000
    ≤ score_answer_curve fixed_point true 0 10_000_000_000 4_000_000_000
score_antitone_example =
    score_antitone fixed_point true 0 10_000_000_000 4_000_000_000 6_000_000_000 (omega arith)

abbrev window_end : ℕ
window_end = 10_000_000_000

abbrev answer_of : ℕ → ℕ → ℕ → Answer
answer_of player_id option_id t = record {
  id = 1;
  game_id = "g";
  player_id = player_id;
  question_id = 3;
  option_id = option_id;
  answered_at = t;
}

abbrev options : ℕ → Option QuizOption
options k = if k == 10 then some (option_at 10 1 true) else none

abbrev played : Played
played = record { question = issued_with []; answer = answer_of 7 10 9_000_000_000 }

abbrev answered : List GameQuestion
answered =
    issued_with (answer_of 7 10 9_000_000_000 ∷ answer_of 8 11 9_000_000_000 ∷ [])
    ∷ record (issued_with (answer_of 7 10 9_000_000_000 ∷ [])) { question_id = 2 }
    ∷ []

abbrev first_only : ℕ → Bool
first_only k = k == 1

pick_winner_exact_example :
    (0 < 900
      → All (Below 900) ((7, 300) ∷ [])
      → All (Below 900) []
      → pick_winner 0 0 ((7, 300) ∷ (8, 900) ∷ []) ≡ 8)
    × (All (AtMost 900) ((7, 300) ∷ [])
        → All (AtMost 900) []
        → All (AtMost 900) []
        → pick_winner 0 0 ((7, 300) ∷ (8, 900) ∷ (9, 900) ∷ []) ≡ 0)
    × (All (AtMost 0) ((7, 300) ∷ []) → pick_winner 0 0 ((7, 300) ∷ []) ≡ 0)
pick_winner_exact_example = pick_winner_exact 8 9 900 ((7, 300) ∷ []) [] []

abbrev joined : ℕ → LeaderboardParticipant
joined id = record { player_id = id; display_name = id ∷ []; is_completed = true; is_stale = false }

abbrev row_of : ℕ → ℕ → LeaderboardAnswer
row_of id t = record {
  player_id = id;
  display_name = id ∷ [];
  question_started_at = 0;
  question_expired_at = window_end;
  answered_at = t;
  correct = true;
  is_completed = true;
}

abbrev players : List LeaderboardParticipant
players = joined 7 ∷ joined 8 ∷ joined 9 ∷ []

abbrev rows : List LeaderboardAnswer
rows = row_of 8 4_000_000_000 ∷ row_of 7 6_000_000_000 ∷ row_of 8 2_000_000_000 ∷ []

quiz_leaderboard-Standings_example :
    Standings fixed_point players rows 9 2 (quiz_leaderboard fixed_point players rows 9 2)
quiz_leaderboard-Standings_example = quiz_leaderboard-Standings fixed_point players rows 9 2
