-- ===== src/Game/Service/Gate.antt =====
-- What an answer that is recorded has passed.
use Prim.Native.String.{String}
use topbanana.Base.{
  ℕ, ◌+◌, ◌≤◌, ◌<◌, ◌≡◌, inl, inr, true, some, [], ◌∷◌, ◌++◌, arith, ◌==◌, if◌then◌else◌,
  Bool-cases, Option-cases, find,
}
use topbanana.Quiz.{Question, QuizOption}
use topbanana.Game.{Game, GameQuestion, Answer, has_participant}
use topbanana.Game.Clamp.{clamp_tapped_at, max_latency_refund, clamp_window}
use topbanana.Game.Store.{Error, answer_window_closed, Result-cases, ok, err, Stores, World, Config}
use topbanana.Game.Service.{submit_answer, new_answer, late_answer_grace}

module _ (st : Stores) (c : Config) (w : World st.Db) (game_id : String) (player_id : ℕ) where
  -- What a submit that returns the answer a in the world v has passed and done: the player is in the
  -- game, the question was issued to it and still exists, the option belongs to the question, the
  -- answer is no later than the grace, its recorded time lies in the refund window, the store recorded
  -- it, and one tick was published for the game's quiz if there is a publisher.
  pub record Accepted (question_id option_id tapped_at now : ℕ) (a : Answer) (v : World st.Db)
      : Type 0 where
    pub game : Game
    pub issued : GameQuestion
    pub quiz_question : Question
    pub picked : QuizOption
    pub loaded : st.get_game w.db game_id ≡ ok game
    pub joined : has_participant game player_id ≡ true
    pub found : find (λ gq. gq.question_id == question_id) game.questions ≡ some issued
    pub offered : st.get_question w.db issued.question_id ≡ ok quiz_question
    pub belongs : find (λ o. o.id == option_id) quiz_question.options ≡ some picked
    pub in_time : now ≤ issued.expired_at + late_answer_grace
    pub not_future : clamp_tapped_at tapped_at now max_latency_refund ≤ now
    pub refund_bounded : now ≤ clamp_tapped_at tapped_at now max_latency_refund + max_latency_refund
    pub recorded :
        st.create_answer w.db (
          new_answer st c game_id player_id option_id tapped_at now
            (record issued { quiz_question = some quiz_question }))
        ≡ (ok a, v.db)
    pub ticked :
        v.published ≡ (if c.has_publisher then w.published ++ game.quiz_id ∷ [] else w.published)

  -- A submit that returns an answer comes from a participant, for a question that was issued to the game and
  -- still exists and one of its options, no later than the grace after its window, with a recorded time in the
  -- refund window; the store recorded that answer by one write, and one tick was published if there is a
  -- publisher.
  pub submit_answer-Accepted :
      (question_id option_id tapped_at now : ℕ) (a : Answer) (v : World st.Db)
      → submit_answer st c game_id player_id question_id option_id tapped_at now w ≡ (ok a, v)
      → Accepted question_id option_id tapped_at now a v
  unfolding submit_answer
  submit_answer-Accepted qid oid tapped now a v h = elim (Result-cases (st.get_game w.db game_id)) [
    | inr (e, p) ↦ absurd (ground arith)
    | inl (g, p) ↦ elim (Bool-cases (has_participant g player_id)) [
      | inr q ↦ absurd (ground arith)
      | inl q ↦ elim (Option-cases (find (λ gq. gq.question_id == qid) g.questions)) [
        | inl f ↦ absurd (ground arith)
        | inr (gq, f) ↦ elim (Result-cases (st.get_question w.db gq.question_id)) [
          | inr (e, r) ↦ absurd (ground arith)
          | inl (qq, r) ↦ elim (Option-cases (find (λ o. o.id == oid) qq.options)) [
            | inl s ↦ absurd (ground arith)
            | inr (o, s) ↦ record {
              game = g;
              issued = gq;
              quiz_question = qq;
              picked = o;
              loaded = p;
              joined = q;
              found = f;
              offered = r;
              belongs = s;
              in_time = ground arith;
              not_future = (clamp_window tapped now max_latency_refund).0;
              refund_bounded = (clamp_window tapped now max_latency_refund).1;
              recorded = ground arith;
              ticked = ground arith;
            }
          ]
        ]
      ]
    ]
  ]

  -- A submit that fails publishes nothing.
  pub submit_answer_silent :
      (question_id option_id tapped_at now : ℕ) (e : Error) (v : World st.Db)
      → submit_answer st c game_id player_id question_id option_id tapped_at now w ≡ (err e, v)
      → v.published ≡ w.published
  unfolding submit_answer
  submit_answer_silent qid oid tapped now e v h = ground arith

  -- An answer to an issued question that arrives after the grace is rejected and not recorded.
  pub submit_answer_late :
      (question_id option_id tapped_at now : ℕ) (g : Game) (gq : GameQuestion) (qq : Question)
      (o : QuizOption)
      → st.get_game w.db game_id ≡ ok g
      → has_participant g player_id ≡ true
      → find (λ x. x.question_id == question_id) g.questions ≡ some gq
      → st.get_question w.db gq.question_id ≡ ok qq
      → find (λ x. x.id == option_id) qq.options ≡ some o
      → gq.expired_at + late_answer_grace < now
      → submit_answer st c game_id player_id question_id option_id tapped_at now w
        ≡ (err answer_window_closed, w)
  unfolding submit_answer
  submit_answer_late qid oid tapped now g gq qq o p q r s t h = ground arith
