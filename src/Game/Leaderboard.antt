-- ===== src/Game/Leaderboard.antt =====
-- The quiz leaderboard: GetQuizLeaderboard, leaderboardEntries and finalizeLeaderboardInPlace of
-- internal/game/game.go. slices.SortFunc is an insertion sort here: it leaves one of the orders that
-- the comparison allows. Display names are the bytes that strings.Compare compares.
pub mod Ranking
pub mod Standings
use topbanana.Base.{
  ℕ, ◌+◌, Bool, true, false, not, ◌&&◌, Option, none, List, [], ◌∷◌, Text, ltb, ◌==◌, if◌then◌else◌,
  length, take, find,
}
use topbanana.Quiz.{QuizOption}
use topbanana.Game.Scoring.{Float64, score_answer_curve}

abbrev pub default_leaderboard_limit : ℕ
default_leaderboard_limit = 10

pub record LeaderboardAnswer : Type 0 where
  pub player_id : ℕ
  pub display_name : Text
  pub question_started_at : ℕ
  pub question_expired_at : ℕ
  pub answered_at : ℕ
  pub correct : Bool
  pub is_completed : Bool

pub record LeaderboardParticipant : Type 0 where
  pub player_id : ℕ
  pub display_name : Text
  pub is_completed : Bool
  pub is_stale : Bool

pub record LeaderboardEntry : Type 0 where
  pub player_id : ℕ
  pub display_name : Text
  pub score : ℕ
  pub rank : ℕ
  pub is_current_player : Bool
  pub completed : Bool
  pub in_progress : Bool

pub record LeaderboardResult : Type 0 where
  pub entries : List LeaderboardEntry
  pub current_player : Option LeaderboardEntry

abbrev pub entry_of : (ℕ → ℕ) → ℕ → LeaderboardParticipant → LeaderboardEntry
entry_of totals current p = record {
  player_id = p.player_id;
  display_name = p.display_name;
  score = totals p.player_id;
  rank = 0;
  is_current_player = p.player_id == current;
  completed = p.is_completed;
  in_progress = not p.is_completed && not p.is_stale;
}

unfoldable pub leaderboard_entries :
    List LeaderboardParticipant → (ℕ → ℕ) → ℕ → List LeaderboardEntry
leaderboard_entries [] totals current = []
leaderboard_entries (p ∷ ps) totals current =
    entry_of totals current p ∷ leaderboard_entries ps totals current

-- `strings.Compare(a, b) <= 0`.
unfoldable pub text_le : Text → Text → Bool
text_le [] b = true
text_le (x ∷ a) [] = false
text_le (x ∷ a) (y ∷ b) = if ltb x y then true else if ltb y x then false else text_le a b

-- The comparison of the sort is at most 0: a higher score first, then the smaller name.
unfoldable pub precedes : LeaderboardEntry → LeaderboardEntry → Bool
unfolding text_le
precedes a b =
    if ltb b.score a.score
    then true
    else if ltb a.score b.score
    then false
    else text_le a.display_name b.display_name

unfoldable pub insert_entry : LeaderboardEntry → List LeaderboardEntry → List LeaderboardEntry
insert_entry e [] = e ∷ []
insert_entry e (x ∷ xs) = if precedes e x then e ∷ x ∷ xs else x ∷ insert_entry e xs

unfoldable pub sort_entries : List LeaderboardEntry → List LeaderboardEntry
unfolding insert_entry
sort_entries [] = []
sort_entries (x ∷ xs) = insert_entry x (sort_entries xs)

unfoldable pub stamp_ranks : ℕ → List LeaderboardEntry → List LeaderboardEntry
stamp_ranks i [] = []
stamp_ranks i (e ∷ es) = record e { rank = i + 1 } ∷ stamp_ranks (i + 1) es

unfoldable pub finalize_leaderboard_in_place : List LeaderboardEntry → ℕ → ℕ → LeaderboardResult
unfolding stamp_ranks
finalize_leaderboard_in_place entries current limit =
    let ranked = stamp_ranks 0 entries in
    record {
      entries = if ltb limit (length ranked) then take limit ranked else ranked;
      current_player =
          if not (current == 0) then find (λ e. e.player_id == current) ranked else none;
    }

module _ (fl : Float64) where
  -- The loop that adds each row to its player's total.
  unfoldable pub player_totals : (ℕ → ℕ) → List LeaderboardAnswer → ℕ → ℕ
  player_totals totals [] = totals
  player_totals totals (r ∷ rs) =
      player_totals
        (λ k.
          if k == r.player_id
          then totals k
            + score_answer_curve fl r.correct r.question_started_at r.question_expired_at
                r.answered_at
          else totals k)
        rs

  -- What follows the reads of the store: participants and answer rows in, the board out. A limit below
  -- 1 is the default.
  unfoldable pub quiz_leaderboard :
      List LeaderboardParticipant → List LeaderboardAnswer → ℕ → ℕ → LeaderboardResult
  unfolding player_totals leaderboard_entries sort_entries finalize_leaderboard_in_place
  quiz_leaderboard participants rows current limit =
      finalize_leaderboard_in_place
        (sort_entries (leaderboard_entries participants (player_totals (λ k. 0) rows) current))
        current (if limit == 0 then default_leaderboard_limit else limit)
