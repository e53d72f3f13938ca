-- ===== src/Game/Scores/Sums.antt =====
-- What the sums of scores satisfy.
use topbanana.Base.{
  ℕ, ◌+◌, ◌*◌, ◌≤◌, ◌≡◌, ◌∙◌, inl, inr, Bool, true, not, Option, none, some, List, [], ◌∷◌, ◌++◌,
  arith, if◌then◌else◌, Bool-cases, Option-cases, length,
}
use topbanana.Quiz.{QuizOption}
use topbanana.Game.{GameQuestion}
use topbanana.Game.Scoring.{Float64, score-le-max_points, max_points, score_branches}
use topbanana.Game.Scores.{
  Played, answers_of, collect_player_answers, ScoreResult, no_score, add_answer, add_answers,
  calculate_score,
}

module _ (fl : Float64) (options : ℕ → Option QuizOption) where
  calculate_score-le :
      (p : Played) (o : QuizOption) → calculate_score fl p o ≤ (if o.correct then max_points else 0)
  calculate_score-le p o = elim (Bool-cases o.correct) [
    | inl e ↦ rw e (score-le-max_points fl true _ _ _)
    | inr e ↦ rw e (
        omega (
          arith,
          (score_branches fl p.question.started_at p.question.expired_at p.answer.answered_at).0,
        ))
  ]

  add_answer-le :
      (r : ScoreResult) (p : Played)
      → r.score ≤ max_points * r.correct
      → ((add_answer fl options r p).score ≤ max_points * (add_answer fl options r p).correct)
        × ((add_answer fl options r p).correct ≤ r.correct + 1)
  unfolding add_answer
  add_answer-le r p h = elim (Option-cases (options p.answer.option_id)) [
    | inl e ↦ rw (e, add_answer) (h, omega arith)
    | inr (o, e) ↦ rw (e, add_answer) (ground (arith, calculate_score-le p o), ground arith)
  ]

  -- Points come from correct answers alone, at most a thousand for each, and no more answers are
  -- correct than there are.
  pub add_answers_bounds :
      (r : ScoreResult) (ps : List Played)
      → r.score ≤ max_points * r.correct
      → ((add_answers fl options r ps).score ≤ max_points * (add_answers fl options r ps).correct)
        × ((add_answers fl options r ps).correct ≤ r.correct + length ps)
  unfolding add_answers
  add_answers_bounds r [] h = (h, omega arith)
  add_answers_bounds r (p ∷ ps) h =
      let (a, b) = add_answer-le r p h in
      let (c, d) = add_answers_bounds (add_answer fl options r p) ps a in (c, omega arith)

  -- What one answer adds.
  points : Played → ℕ
  points p = elim (options p.answer.option_id) [ none ↦ 0 | some o ↦ calculate_score fl p o ]

  total : List Played → ℕ
  unfolding points
  total [] = 0
  total (p ∷ ps) = points p + total ps

  add_answers-total :
      (r : ScoreResult) (ps : List Played)
      → (add_answers fl options r ps).score ≡ r.score + total ps
  unfolding add_answers add_answer total
  add_answers-total r [] = omega arith
  add_answers-total r (p ∷ ps) =
      add_answers-total (add_answer fl options r p) ps
      ∙ elim (Option-cases (options p.answer.option_id)) [
        | inl e ↦ rw (e, add_answer, points) (omega arith)
        | inr (o, e) ↦ rw (e, add_answer, points) (omega arith)
      ]

  total-append : (ps qs : List Played) → total (ps ++ qs) ≡ total ps + total qs
  unfolding total
  total-append [] qs = omega arith
  total-append (p ∷ ps) qs = omega (arith, total-append ps qs)

  total-collect :
      (gqs : List GameQuestion) (player_id : ℕ) (f : ℕ → Bool)
      → total (collect_player_answers gqs player_id none)
        ≡ total (collect_player_answers gqs player_id (some f))
          + total (collect_player_answers gqs player_id (some (λ k. not (f k))))
  unfolding collect_player_answers
  total-collect [] player_id f = unfold total in omega arith
  total-collect (gq ∷ gqs) player_id f = elim (Bool-cases (f gq.question_id)) [
    | inl e ↦ rw e (
        ground (
          arith,
          total-append (answers_of player_id gq gq.answers)
              (collect_player_answers gqs player_id none),
          total-append (answers_of player_id gq gq.answers)
              (collect_player_answers gqs player_id (some f)),
          total-collect gqs player_id f,
        ))
    | inr e ↦ rw e (
        ground (
          arith,
          total-append (answers_of player_id gq gq.answers)
              (collect_player_answers gqs player_id none),
          total-append (answers_of player_id gq gq.answers)
              (collect_player_answers gqs player_id (some (λ k. not (f k)))),
          total-collect gqs player_id f,
        ))
  ]

  -- The total of a player is the total over the questions of any set plus that over the others, as for the
  -- questions of a round and the rest of the quiz.
  pub add_answers-split :
      (gqs : List GameQuestion) (player_id : ℕ) (f : ℕ → Bool)
      → (add_answers fl options no_score (collect_player_answers gqs player_id none)).score
        ≡ (add_answers fl options no_score (collect_player_answers gqs player_id (some f))).score
          + (add_answers fl options no_score
              (collect_player_answers gqs player_id (some (λ k. not (f k))))).score
  add_answers-split gqs player_id f = omega (
    arith,
    add_answers-total no_score (collect_player_answers gqs player_id none),
    add_answers-total no_score (collect_player_answers gqs player_id (some f)),
    add_answers-total no_score (collect_player_answers gqs player_id (some (λ k. not (f k)))),
    total-collect gqs player_id f,
  )
