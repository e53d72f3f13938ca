-- ===== src/Live/Answers/Recorded.antt =====
-- What an accepted answer has passed, and what it leaves.
use topbanana.Live.Env.{publish}
use topbanana.Live.{Room, Session, SessionAnswer}
use topbanana.Quiz.{QuizOption, Question, Quiz}
use topbanana.Live.Answers.{
  answer_of_pick, answer_in, record_answer, open_question, record_picked, is_participant,
  pick_option, pick_in_quiz, same_slot, pick_in_window, upsert_answer, submit_answer,
}
use topbanana.Base.{
  ℕ, ◌≤◌, ◌≡◌, refl, ap, ◌∙◌, inl, inr, Bool, true, false, ◌&&◌, Option, none, some, List, [], ◌∷◌,
  arith, ◌==◌, ==_iff, Bool-cases, Option-cases, find, find-test,
}

abbrev key_of : SessionAnswer → SessionAnswer → Bool
key_of a = same_slot a.player_id a.question_id a.game_seq

-- The upsert is a lookup's insert.
upsert_answer-find :
    (a : SessionAnswer) (l : List SessionAnswer)
    → (b : SessionAnswer) × (find (key_of a) (upsert_answer a l) ≡ some b)
      × (b.option_id ≡ a.option_id)
      × (b.answered_at ≡ a.answered_at)
unfolding upsert_answer
upsert_answer-find a [] = (a, ground arith, refl, refl)
upsert_answer-find a (x ∷ l) = elim (Bool-cases (key_of a x)) [
  | inl e ↦ (
    record x { option_id = a.option_id; answered_at = a.answered_at; correct = a.correct },
    rw (e, e) refl,
    refl,
    refl,
  )
  | inr e ↦ let (b, f, o, t) = upsert_answer-find a l in (b, ground arith, o, t)
]

-- It keeps the rows of the other slots.
upsert_answer-other :
    (a : SessionAnswer) (p q g : ℕ) (l : List SessionAnswer)
    → same_slot p q g a ≡ false
    → find (same_slot p q g) (upsert_answer a l) ≡ find (same_slot p q g) l
unfolding upsert_answer
upsert_answer-other a p q g [] h = ground arith
upsert_answer-other a p q g (x ∷ l) h = ground (arith, upsert_answer-other a p q g l h)

-- The question and the option that an accepted answer is for.
pub record Picked (get_quiz : ℕ → Option Quiz) (s : Session) (question_id option_id : ℕ)
    : Type 0 where
  pub quiz_id : ℕ
  pub quiz : Quiz
  pub asked : Question
  pub picked : QuizOption
  pub of_session : s.quiz_id ≡ some quiz_id
  pub found : get_quiz quiz_id ≡ some quiz
  pub in_quiz : find (λ q. q.id == question_id) quiz.questions ≡ some asked
  pub belongs : find (λ o. o.id == option_id) asked.options ≡ some picked

pick_in_quiz-Picked :
    (fails : Bool) (get_quiz : ℕ → Option Quiz) (s : Session) (q pid oid at : ℕ) (r r' : Room)
    → pick_in_quiz fails get_quiz s q pid oid at r ≡ (none, r')
    → (p : Picked get_quiz s q oid) × (r' ≡ publish s.phase (record_answer q pid p.picked at r))
unfolding pick_in_quiz pick_option record_picked
pick_in_quiz-Picked fails get_quiz s q pid oid at r r' h = elim (Option-cases s.quiz_id) [
  | inl n ↦ absurd (ground arith)
  | inr (k, a) ↦ elim (Option-cases (get_quiz k)) [
    | inl n ↦ absurd (ground arith)
    | inr (qz, b) ↦ elim (Option-cases (find (λ x. x.id == q) qz.questions)) [
      | inl n ↦ absurd (ground arith)
      | inr (qq, d) ↦ elim (Option-cases (find (λ x. x.id == oid) qq.options)) [
        | inl n ↦ absurd (ground arith)
        | inr (o, e) ↦ (
          record {
            quiz_id = k;
            quiz = qz;
            asked = qq;
            picked = o;
            of_session = a;
            found = b;
            in_quiz = d;
            belongs = e;
          },
          ground arith,
        )
      ]
    ]
  ]
]

-- A submit that succeeds.
pub record Submitted (get_quiz : ℕ → Option Quiz) (s : Session) (players : List ℕ)
    (player_id option_id answered_at : ℕ) (r r' : Room) : Type 0 where
  pub question_id : ℕ
  pub opens : ℕ
  pub closes : ℕ
  pub joined : is_participant s players player_id ≡ true
  pub is_open : open_question s ≡ some (question_id, (opens, closes))
  pub not_early : opens ≤ answered_at
  pub not_late : answered_at ≤ closes
  pub choice : Picked get_quiz s question_id option_id
  pub same_row : r'.session ≡ r.session
  pub recorded : SessionAnswer
  pub is_recorded : answer_in player_id question_id r.session.game_seq r'.answers ≡ some recorded
  pub picked : recorded.option_id ≡ option_id
  pub picked_at : recorded.answered_at ≡ answered_at
  pub others_kept :
      (p q g : ℕ)
      → (player_id == p && (question_id == q && r.session.game_seq == g)) ≡ false
      → answer_in p q g r'.answers ≡ answer_in p q g r.answers

-- An answer that is accepted comes from a participant, in the question phase and inside the window of the
-- question that was loaded; it is then the answer of that player to that question in the room's current
-- game, every other answer and the room's row are as they were.
pub submit_answer-Submitted :
    (fails : Bool) (get_quiz : ℕ → Option Quiz) (s : Session) (players : List ℕ)
    (player_id option_id answered_at : ℕ) (r r' : Room)
    → submit_answer fails get_quiz (some s) players player_id option_id answered_at r ≡ (none, r')
    → Submitted get_quiz s players player_id option_id answered_at r r'
unfolding submit_answer pick_in_window record_answer
submit_answer-Submitted fails get_quiz s players pid oid at r r' h =
    elim (Option-cases (open_question s)) [
      | inl n ↦ absurd (ground arith)
      | inr ((q, (t, e)), o) ↦
          let (p, k) = pick_in_quiz-Picked fails get_quiz s q pid oid at r r' (ground arith) in
          recorded_as q t e o p k
    ]
  where
    recorded_as :
        (q t e : ℕ)
        → open_question s ≡ some (q, (t, e))
        → (p : Picked get_quiz s q oid) → r' ≡ publish s.phase (record_answer q pid p.picked at r)
        → Submitted get_quiz s players pid oid at r r'
    recorded_as q t e o p k =
        let (b, f, x, y) = upsert_answer-find (answer_of_pick r q pid p.picked at) r.answers in
        record {
          question_id = q;
          opens = t;
          closes = e;
          joined = ground arith;
          is_open = o;
          not_early = ground arith;
          not_late = ground arith;
          choice = p;
          same_row = ground arith;
          recorded = b;
          is_recorded = ap (λ z. answer_in pid q r.session.game_seq z.answers) k ∙ f;
          picked =
              x
              ∙ (==_iff p.picked.id oid).0
                  (find-test (λ z. z.id == oid) p.asked.options p.picked p.belongs);
          picked_at = y;
          others_kept = λ a b g n.
              ap (λ z. answer_in a b g z.answers) k
              ∙ upsert_answer-other (answer_of_pick r q pid p.picked at) a b g r.answers n;
        }
