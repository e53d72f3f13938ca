-- ===== src/Quiz/Progress/Places.antt =====
-- What QuestionRoundProgress says of a question of the quiz.
use topbanana.Base.{
  ℕ, suc, ◌+◌, ◌≤◌, ◌<◌, ◌≡◌, refl, sym, ap, ◌∙◌, ◌↔◌, inl, Bool, false, none, some, List, [], ◌∷◌,
  ◌++◌, arith, ◌==◌, length, get_elem?, find, count, All, count-append, In, In-append_right,
  find-In,
}
use topbanana.Quiz.{Question}
use topbanana.Quiz.Progress.Loops.{
  in_round, counts-tally, round_order-In, round_number_at, round_position-count,
}
use topbanana.Quiz.Progress.{
  RoundProgress, no_progress, empty_tally, tally, round_number_from, round_position_from,
  question_round_progress,
}

abbrev has_id : ℕ → Question → Bool
has_id i q = q.id == i

find-has_id :
    (i : ℕ) (pre post : List Question) (q : Question)
    → All (λ x. (x.id == i) ≡ false) pre
    → q.id ≡ i
    → find (has_id i) (pre ++ q ∷ post) ≡ some q
find-has_id i [] post q h e = ground arith
find-has_id i (x ∷ pre) post q h e = ground (arith, find-has_id i pre post q h.1)

-- What the record must say of a question q that stands between pre and post.
pub record Places (pre : List Question) (q : Question) (post : List Question) (p : RoundProgress)
    : Type 0 where
  pub position_counts : p.round_position ≡ count (in_round q.round_id) pre + 1
  pub questions_count :
      p.round_questions ≡ count (in_round q.round_id) pre + 1 + count (in_round q.round_id) post
  pub number_positive : 1 ≤ p.round_number
  pub number_le_total : p.round_number ≤ p.round_total

progress_at : List Question → Question → RoundProgress
progress_at questions q =
    let t = tally empty_tally questions in
    record {
      round_number = round_number_from q.round_id 0 t.round_order;
      round_total = length t.round_order;
      round_position = round_position_from q 0 questions;
      round_questions = t.counts q.round_id;
    }

progress-find :
    (questions : List Question) (i : ℕ) (q : Question)
    → find (has_id i) questions ≡ some q
    → question_round_progress questions i ≡ progress_at questions q
unfolding question_round_progress progress_at
progress-find questions i q e = rw (e, question_round_progress) refl

-- The order that the first loop leaves.
abbrev order : List Question → List ℕ
order questions = (tally empty_tally questions).round_order

order-number :
    (questions : List Question) (q : Question)
    → In q questions
    → (k : ℕ) × (round_number_from q.round_id 0 (order questions) ≡ 0 + suc k)
      × (k < length (order questions))
      × (get_elem? (order questions) k ≡ some q.round_id)
order-number questions q m =
    round_number_at q.round_id 0 (order questions)
      (round_order-In empty_tally questions q (λ r e. cc) m)

-- For a question whose id no earlier question has, the position is one more than the number of
-- earlier questions of its round, the denominator counts all questions of its round, and the round's
-- number lies between 1 and the total.
pub progress-Places :
    (pre : List Question) (q : Question) (post : List Question)
    → All (λ x. (x.id == q.id) ≡ false) pre
    → Places pre q post (question_round_progress (pre ++ q ∷ post) q.id)
unfolding progress_at
progress-Places pre q post h =
    rw (progress-find (pre ++ q ∷ post) q.id q (find-has_id q.id pre post q h refl)) (record {
      position_counts = ground (arith, round_position-count q 0 pre post h);
      questions_count = ground (
        arith,
        counts-tally empty_tally q.round_id (pre ++ q ∷ post),
        count-append (in_round q.round_id) pre (q ∷ post),
      );
      number_positive = omega (arith, at.1);
      number_le_total = omega (arith, at.1, at.2);
    })
  where
    at :
        (k : ℕ) × (round_number_from q.round_id 0 (order (pre ++ q ∷ post)) ≡ 0 + suc k)
        × (k < length (order (pre ++ q ∷ post)))
        × (get_elem? (order (pre ++ q ∷ post)) k ≡ some q.round_id)
    at = order-number (pre ++ q ∷ post) q (In-append_right q pre _ (inl refl))

-- The number of a question that an id finds is one past the place of its round in the order.
number-progress :
    (questions : List Question) (i : ℕ) (q : Question)
    → find (has_id i) questions ≡ some q
    → (k : ℕ) × ((question_round_progress questions i).round_number ≡ suc k)
      × (get_elem? (order questions) k ≡ some q.round_id)
      × ((question_round_progress questions i).round_number
          ≡ round_number_from q.round_id 0 (order questions))
unfolding progress_at
number-progress questions i q e =
    let (k, n, l, g) = order-number questions q (find-In (has_id i) questions q e) in
    rw (progress-find questions i q e) (k, omega arith, g, refl)

-- Two questions that the ids i and j find have the same round number exactly when they are in the
-- same round.
pub round_number_iff :
    (questions : List Question) (i j : ℕ) (q r : Question)
    → find (has_id i) questions ≡ some q
    → find (has_id j) questions ≡ some r
    → ((question_round_progress questions i).round_number
        ≡ (question_round_progress questions j).round_number)
      ↔ (q.round_id ≡ r.round_id)
round_number_iff questions i j q r e f =
    let (k, n, g, x) = number-progress questions i q e in
    let (l, m, h, y) = number-progress questions j r f in
    (
      λ s.
          let same : k ≡ l = omega arith in
          let held : some q.round_id ≡ some r.round_id =
            sym g ∙ ap (get_elem? (order questions)) same ∙ h in
          cc,
      λ s. x ∙ ap (λ z. round_number_from z 0 (order questions)) s ∙ sym y,
    )

-- A question that is not among the questions has no progress.
pub progress-missing :
    (questions : List Question) (question_id : ℕ)
    → find (has_id question_id) questions ≡ none
    → question_round_progress questions question_id ≡ no_progress
unfolding question_round_progress
progress-missing questions question_id e = rw (e, question_round_progress) refl
