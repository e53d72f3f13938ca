-- ===== src/Quiz/Progress.antt =====
-- Where a question stands among a quiz's rounds, internal/quiz/round_progress.go.
mod Loops
pub mod Places
use topbanana.Base.{
  ℕ, ◌+◌, Bool, true, false, none, some, List, [], ◌∷◌, ◌++◌, ◌==◌, if◌then◌else◌, length, find,
}
use topbanana.Quiz.{Question}

pub record RoundProgress : Type 0 where
  pub round_number : ℕ
  pub round_total : ℕ
  pub round_position : ℕ
  pub round_questions : ℕ

abbrev pub no_progress : RoundProgress
no_progress = record { round_number = 0; round_total = 0; round_position = 0; round_questions = 0 }

-- The three variables of the first loop; a map is a function from its keys.
pub record Tally : Type 0 where
  pub round_order : List ℕ
  pub seen : ℕ → Bool
  pub counts : ℕ → ℕ

abbrev pub empty_tally : Tally
empty_tally = record { round_order = []; seen = λ r. false; counts = λ r. 0 }

abbrev pub add_round : Tally → ℕ → Tally
add_round t r = if t.seen r then t else record t {
  seen = λ k. if k == r then true else t.seen k;
  round_order = t.round_order ++ r ∷ [];
}

pub tally_question : Tally → Question → Tally
tally_question t q =
    let t' = add_round t q.round_id in
    record t' { counts = λ k. if k == q.round_id then t'.counts k + 1 else t'.counts k }

pub tally : Tally → List Question → Tally
unfolding tally_question
tally t [] = t
tally t (q ∷ qs) = tally (tally_question t q) qs

-- The 1-indexed place of a round in the order, 0 if it is not there.
pub round_number_from : ℕ → ℕ → List ℕ → ℕ
round_number_from r i [] = 0
round_number_from r i (id ∷ ids) =
    let rest = round_number_from r (i + 1) ids in if id == r then i + 1 else rest

-- How many questions of the round stand up to and including the question.
pub round_position_from : Question → ℕ → List Question → ℕ
round_position_from q acc [] = acc
round_position_from q acc (sib ∷ sibs) =
    let same = round_position_from q (acc + 1) sibs in
    let other = round_position_from q acc sibs in
    if sib.round_id == q.round_id then if sib.id == q.id then acc + 1 else same else other

unfoldable pub question_round_progress : List Question → ℕ → RoundProgress
unfolding tally round_number_from round_position_from
question_round_progress questions question_id =
    let t = tally empty_tally questions in
    elim (find (λ q. q.id == question_id) questions) [
      | none ↦ no_progress
      | some q ↦ record {
        round_number = round_number_from q.round_id 0 t.round_order;
        round_total = length t.round_order;
        round_position = round_position_from q 0 questions;
        round_questions = t.counts q.round_id;
      }
    ]
