-- ===== src/Live/Plan.antt =====
-- The runner's question plan, questionPlan of internal/livesession/runner.go. The stable sort by position
-- is an insertion sort.
use topbanana.Base.{ℕ, Option, none, some, List, [], ◌∷◌, ◌++◌, leb, ◌==◌, if◌then◌else◌, any}
use topbanana.Quiz.{Quiz, Question}

pub record QuestionPlan : Type 0 where
  pub rounds : List ℕ
  pub questions_by_round : ℕ → List Question

unfoldable pub insert_question : Question → List Question → List Question
insert_question q [] = q ∷ []
insert_question q (x ∷ xs) =
    if leb q.position x.position then q ∷ x ∷ xs else x ∷ insert_question q xs

unfoldable pub sort_questions : List Question → List Question
unfolding insert_question
sort_questions [] = []
sort_questions (q ∷ qs) = insert_question q (sort_questions qs)

abbrev add_to_plan : QuestionPlan → Question → QuestionPlan
add_to_plan p q = record {
  rounds = if any (λ r. r == q.round_id) p.rounds then p.rounds else p.rounds ++ q.round_id ∷ [];
  questions_by_round =
      λ k. if k == q.round_id then p.questions_by_round k ++ q ∷ [] else p.questions_by_round k;
}

unfoldable pub build_plan : QuestionPlan → List Question → QuestionPlan
build_plan p [] = p
build_plan p (q ∷ qs) = build_plan (add_to_plan p q) qs

abbrev pub empty_plan : QuestionPlan
empty_plan = record { rounds = []; questions_by_round = λ k. [] }

unfoldable pub new_question_plan : Quiz → QuestionPlan
unfolding build_plan sort_questions
new_question_plan qz = build_plan empty_plan (sort_questions qz.questions)

abbrev pub first_of {ℓ} : {A : Type ℓ} → List A → Option A
first_of [] = none
first_of (x ∷ xs) = some x

unfoldable pub first_round : QuestionPlan → Option ℕ
first_round p = first_of p.rounds

unfoldable pub first_question_of_round : QuestionPlan → Option ℕ → Option Question
first_question_of_round p none = none
first_question_of_round p (some round_id) = first_of (p.questions_by_round round_id)

unfoldable pub question_after : ℕ → List Question → Option Question
question_after id [] = none
question_after id (q ∷ []) = none
question_after id (q ∷ r ∷ qs) = if q.id == id then some r else question_after id (r ∷ qs)

unfoldable pub next_question_in_round : QuestionPlan → Option ℕ → Option ℕ → Option Question
unfolding question_after
next_question_in_round p none question_id = none
next_question_in_round p (some round_id) none = none
next_question_in_round p (some round_id) (some question_id) =
    question_after question_id (p.questions_by_round round_id)

unfoldable pub round_after : ℕ → List ℕ → Option ℕ
round_after id [] = none
round_after id (r ∷ []) = none
round_after id (r ∷ s ∷ rs) = if r == id then some s else round_after id (s ∷ rs)

unfoldable pub next_round : QuestionPlan → Option ℕ → Option ℕ
unfolding round_after
next_round p none = none
next_round p (some round_id) = round_after round_id p.rounds
