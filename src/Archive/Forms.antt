-- ===== src/Archive/Forms.antt =====
-- The validation of a quiz before it is stored: quizForm, questionForm and optionForm of
-- internal/admin/forms.go and roundForm of internal/admin/rounds.go. The problems are listed by what
-- they are about; the source's texts for the templates are left out.
pub mod Exact
use package.text.Mathlib.Text.{◌==◌ as str_eq}
use topbanana.Quiz.{
  is_valid_language, is_valid_mode, is_valid_visibility, Round, QuizOption, Question, Quiz,
}
use topbanana.Base.{
  ℕ, ◌+◌, Bool, true, false, not, ◌&&◌, ◌||◌, Option, none, some, List, [], ◌∷◌, ◌++◌, map, ltb,
  ◌==◌, length, ltb_ℤ, from_nat, is_zero, ℤ,
}

abbrev pub min_time_limit_seconds : ℕ
min_time_limit_seconds = 1

abbrev pub max_time_limit_seconds : ℕ
max_time_limit_seconds = 600

abbrev pub max_options : ℕ
max_options = 4

-- The keys of a problem map.
pub data Field : Type 0 where
  title slug description timelimitseconds visibility mode language : Field
  text options boundarydurationseconds : Field

-- Where a problem is: on the quiz, on a question, on an option of a question, or on a round.
pub data Problem : Type 0 where
  of_quiz : Field → Problem
  of_question of_round : ℕ → Field → Problem
  of_option : ℕ → ℕ → Field → Problem

abbrev pub flag : Bool → Field → List Field
flag true field = field ∷ []
flag false field = []

-- Outside the range, if it is set.
abbrev pub out_of_range : Option ℕ → Bool
out_of_range none = false
out_of_range (some v) = ltb v min_time_limit_seconds || ltb max_time_limit_seconds v

-- Set, since 0 stands for unset, and outside the range.
abbrev pub limit_out_of_range : ℤ → Bool
limit_out_of_range v =
    not (is_zero v)
    && (ltb_ℤ v (from_nat min_time_limit_seconds) || ltb_ℤ (from_nat max_time_limit_seconds) v)

pub option_form_valid : QuizOption → List Field
option_form_valid o = flag (str_eq o.text "") text

pub question_form_valid : Question → List Field
question_form_valid q =
    flag (str_eq q.text "") text
    ++ (flag ((length q.options == 0) || ltb max_options (length q.options)) options
        ++ flag (out_of_range q.time_limit_seconds) timelimitseconds)

pub round_form_valid : Round → List Field
round_form_valid r =
    flag (str_eq r.title "") title
    ++ flag (out_of_range r.boundary_duration_seconds) boundarydurationseconds

pub add_option_problems : ℕ → ℕ → List QuizOption → List Problem
unfolding option_form_valid
add_option_problems q_index o_index [] = []
add_option_problems q_index o_index (o ∷ os) =
    map (of_option q_index o_index) (option_form_valid o)
    ++ add_option_problems q_index (o_index + 1) os

pub add_question_problems : ℕ → List Question → List Problem
unfolding question_form_valid
add_question_problems i [] = []
add_question_problems i (q ∷ qs) =
    map (of_question i) (question_form_valid q)
    ++ (add_option_problems i 0 q.options ++ add_question_problems (i + 1) qs)

pub add_round_problems : ℕ → List Round → List Problem
unfolding round_form_valid
add_round_problems i [] = []
add_round_problems i (r ∷ rs) =
    map (of_round i) (round_form_valid r) ++ add_round_problems (i + 1) rs

pub quiz_fields : Quiz → List Field
quiz_fields q =
    flag (str_eq q.title "") title
    ++ (flag (str_eq q.slug "") slug
        ++ (flag (str_eq q.description "") description
            ++ (flag (limit_out_of_range q.time_limit_seconds) timelimitseconds
                ++ (flag (not (str_eq q.visibility "") && not (is_valid_visibility q.visibility))
                      visibility
                    ++ (flag (not (str_eq q.mode "") && not (is_valid_mode q.mode)) mode
                        ++ flag (not (str_eq q.language "") && not (is_valid_language q.language))
                            language)))))

-- `quizForm.Valid`; the form is valid if there is no problem.
unfoldable pub quiz_form_valid : Quiz → List Problem
unfolding quiz_fields
quiz_form_valid q =
    map of_quiz (quiz_fields q)
    ++ (add_question_problems 0 q.questions ++ add_round_problems 0 q.rounds)
