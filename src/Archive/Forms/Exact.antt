-- ===== src/Archive/Forms/Exact.antt =====
-- The form has no problem exactly if the quiz satisfies every rule.
use Prim.Native.String.{String}
use package.text.Mathlib.Text.{◌==◌ as str_eq}
use topbanana.Quiz.{
  is_valid_language, is_valid_mode, QuizOption, is_valid_visibility, Question, Quiz, Round,
}
use topbanana.Archive.Forms.{
  limit_out_of_range, visibility, mode, language, description, of_quiz, slug, quiz_form_valid,
  quiz_fields, boundarydurationseconds, title, timelimitseconds, of_round, options,
  round_form_valid, text, of_question, of_option, question_form_valid, add_round_problems,
  max_options, add_question_problems, option_form_valid, flag, Field, out_of_range,
  add_option_problems,
}
use topbanana.Base.{
  pos, negsuc, ℕ, ◌+◌, ◌≤◌, ◌≡◌, refl, ◌↔◌, ◌⊎◌, Bool, true, false, not, ◌&&◌, ◌||◌, Option, none,
  some, List, [], ◌∷◌, ◌++◌, map, arith, ltb, ◌==◌, length, All, ℤ,
}

-- Set to at least 1 and at most 600, or not set.
abbrev pub InRange : Option ℕ → Type 0
InRange none = Unit
InRange (some v) = (1 ≤ v) × (v ≤ 600)

pub record QuestionIsValid (q : Question) : Type 0 where
  pub has_text : str_eq q.text "" ≡ false
  pub some_option : 1 ≤ length q.options
  pub few_options : length q.options ≤ 4
  pub limit : InRange q.time_limit_seconds
  pub options_have_text : All (λ (o : QuizOption). str_eq o.text "" ≡ false) q.options

pub record RoundIsValid (r : Round) : Type 0 where
  pub has_title : str_eq r.title "" ≡ false
  pub boundary : InRange r.boundary_duration_seconds

-- From 0 to 600.
abbrev pub LimitIsValid : ℤ → Type 0
LimitIsValid (pos n) = n ≤ 600
LimitIsValid (negsuc n) = ⊥

pub record QuizIsValid (q : Quiz) : Type 0 where
  pub has_title : str_eq q.title "" ≡ false
  pub has_slug : str_eq q.slug "" ≡ false
  pub has_description : str_eq q.description "" ≡ false
  pub limit : LimitIsValid q.time_limit_seconds
  pub visibility : (str_eq q.visibility "" ≡ true) ⊎ (is_valid_visibility q.visibility ≡ true)
  pub mode : (str_eq q.mode "" ≡ true) ⊎ (is_valid_mode q.mode ≡ true)
  pub language : (str_eq q.language "" ≡ true) ⊎ (is_valid_language q.language ≡ true)
  pub questions : All QuestionIsValid q.questions
  pub rounds : All RoundIsValid q.rounds

module _ {A : Type 0} {P Q : Type 0} where
  nil-append : (xs ys : List A) → (xs ≡ []) ↔ P → (ys ≡ []) ↔ Q → (xs ++ ys ≡ []) ↔ (P × Q)
  nil-append [] ys p q = (λ h. (p.0 refl, q.0 h), λ (a, b). q.1 b)
  nil-append (x ∷ xs) ys p q = (λ h. cc, λ (a, b). cc (p.1 a))

nil-map : {A B P : Type 0} (f : A → B) (xs : List A) → (xs ≡ []) ↔ P → (map f xs ≡ []) ↔ P
nil-map f [] p = (λ h. p.0 refl, λ h. refl)
nil-map f (x ∷ xs) p = (λ h. cc, λ a. cc (p.1 a))

nil-flag : {P : Type 0} (b : Bool) (field : Field) → (b ≡ false) ↔ P → (flag b field ≡ []) ↔ P
nil-flag true field p = (λ h. cc, λ a. cc (p.1 a))
nil-flag false field p = (λ h. p.0 refl, λ h. refl)

same_iff : {P : Type 0} → P ↔ P
same_iff = (λ h. h, λ h. h)

out_of_range_iff : (o : Option ℕ) → (out_of_range o ≡ false) ↔ InRange o
out_of_range_iff none = (λ h. tt, λ h. refl)
out_of_range_iff (some v) = (λ h. (ground arith, ground arith), λ (a, b). ground arith)

options_iff :
    (i j : ℕ) (os : List QuizOption)
    → (add_option_problems i j os ≡ []) ↔ All (λ (o : QuizOption). str_eq o.text "" ≡ false) os
unfolding add_option_problems option_form_valid
options_iff i j [] = (λ h. tt, λ h. refl)
options_iff i j (o ∷ os) =
    nil-append (map (of_option i j) (flag (str_eq o.text "") text))
      (add_option_problems i (j + 1) os)
      (nil-map (of_option i j) (flag (str_eq o.text "") text)
        (nil-flag (str_eq o.text "") text same_iff))
      (options_iff i (j + 1) os)

count_iff : (n : ℕ) → (((n == 0) || ltb max_options n) ≡ false) ↔ ((1 ≤ n) × (n ≤ 4))
count_iff n = (λ h. (ground arith, ground arith), λ (a, b). ground arith)

question_fields_iff :
    (q : Question)
    → (question_form_valid q ≡ []) ↔ (
        (str_eq q.text "" ≡ false)
        × (((1 ≤ length q.options) × (length q.options ≤ 4)) × InRange q.time_limit_seconds))
unfolding question_form_valid
question_fields_iff q =
    let n = (length q.options == 0) || ltb max_options (length q.options) in
    nil-append (flag (str_eq q.text "") text)
      (flag n options ++ flag (out_of_range q.time_limit_seconds) timelimitseconds)
      (nil-flag (str_eq q.text "") text same_iff)
      (nil-append (flag n options) (flag (out_of_range q.time_limit_seconds) timelimitseconds)
        (nil-flag n options (count_iff (length q.options)))
        (nil-flag (out_of_range q.time_limit_seconds) timelimitseconds
          (out_of_range_iff q.time_limit_seconds)))

questions_iff :
    (i : ℕ) (qs : List Question) → (add_question_problems i qs ≡ []) ↔ All QuestionIsValid qs
unfolding add_question_problems
questions_iff i [] = (λ h. tt, λ h. refl)
questions_iff i (q ∷ qs) =
    let parts =
      nil-append (map (of_question i) (question_form_valid q))
        (add_option_problems i 0 q.options ++ add_question_problems (i + 1) qs)
        (nil-map (of_question i) (question_form_valid q) (question_fields_iff q))
        (nil-append (add_option_problems i 0 q.options) (add_question_problems (i + 1) qs)
          (options_iff i 0 q.options) (questions_iff (i + 1) qs)) in
    (
      λ h.
          let ((t, (n, r)), (os, rest)) = parts.0 h in
          (
            record {
              has_text = t;
              some_option = n.0;
              few_options = n.1;
              limit = r;
              options_have_text = os;
            },
            rest,
          ),
      λ (v, rest).
          parts.1
            ((v.has_text, ((v.some_option, v.few_options), v.limit)), (v.options_have_text, rest)),
    )

rounds_iff : (i : ℕ) (rs : List Round) → (add_round_problems i rs ≡ []) ↔ All RoundIsValid rs
unfolding add_round_problems round_form_valid
rounds_iff i [] = (λ h. tt, λ h. refl)
rounds_iff i (r ∷ rs) =
    let parts =
      nil-append (map (of_round i) (round_form_valid r)) (add_round_problems (i + 1) rs)
        (nil-map (of_round i) (round_form_valid r) (
          nil-append (flag (str_eq r.title "") title)
            (flag (out_of_range r.boundary_duration_seconds) boundarydurationseconds)
            (nil-flag (str_eq r.title "") title same_iff)
            (nil-flag (out_of_range r.boundary_duration_seconds) boundarydurationseconds
              (out_of_range_iff r.boundary_duration_seconds))))
        (rounds_iff (i + 1) rs) in
    (
      λ h. let ((t, b), rest) = parts.0 h in (record { has_title = t; boundary = b }, rest),
      λ (v, rest). parts.1 ((v.has_title, v.boundary), rest),
    )

-- An unset value, or one that a test knows.
recognised_iff :
    (s : String) (known : Bool)
    → ((not (str_eq s "") && not known) ≡ false) ↔ ((str_eq s "" ≡ true) ⊎ (known ≡ true))
recognised_iff s known = (λ h. ground arith, λ h. ground arith)

limit_iff : (v : ℤ) → (limit_out_of_range v ≡ false) ↔ LimitIsValid v
limit_iff (pos n) = (λ h. ground arith, λ h. ground arith)
limit_iff (negsuc n) = (λ h. ground arith, λ h. absurd h)

abbrev HeadIsValid : Quiz → Type 0
HeadIsValid q =
    (str_eq q.title "" ≡ false)
    × ((str_eq q.slug "" ≡ false)
        × ((str_eq q.description "" ≡ false)
            × (LimitIsValid q.time_limit_seconds
                × (((str_eq q.visibility "" ≡ true) ⊎ (is_valid_visibility q.visibility ≡ true))
                    × (((str_eq q.mode "" ≡ true) ⊎ (is_valid_mode q.mode ≡ true))
                        × ((str_eq q.language "" ≡ true)
                            ⊎ (is_valid_language q.language ≡ true)))))))

quiz_fields_iff : (q : Quiz) → (quiz_fields q ≡ []) ↔ HeadIsValid q
unfolding quiz_fields
quiz_fields_iff q =
    nil-append (flag (str_eq q.title "") title) _ (nil-flag (str_eq q.title "") title same_iff) (
      nil-append (flag (str_eq q.slug "") slug) _ (nil-flag (str_eq q.slug "") slug same_iff) (
        nil-append (flag (str_eq q.description "") description) _
          (nil-flag (str_eq q.description "") description same_iff)
          (nil-append (flag (limit_out_of_range q.time_limit_seconds) timelimitseconds) _
            (nil-flag (limit_out_of_range q.time_limit_seconds) timelimitseconds
              (limit_iff q.time_limit_seconds))
            (nil-append
              (flag (not (str_eq q.visibility "") && not (is_valid_visibility q.visibility))
                visibility)
              _
              (nil-flag (not (str_eq q.visibility "") && not (is_valid_visibility q.visibility))
                visibility (recognised_iff q.visibility (is_valid_visibility q.visibility)))
              (nil-append (flag (not (str_eq q.mode "") && not (is_valid_mode q.mode)) mode)
                (flag (not (str_eq q.language "") && not (is_valid_language q.language)) language)
                (nil-flag (not (str_eq q.mode "") && not (is_valid_mode q.mode)) mode
                  (recognised_iff q.mode (is_valid_mode q.mode)))
                (nil-flag (not (str_eq q.language "") && not (is_valid_language q.language))
                  language (recognised_iff q.language (is_valid_language q.language))))))))

-- The form reports no problem exactly if the title, the slug and the description are not empty, the time
-- limit is from 0 to 600 (0 stands for the default), the visibility, the mode and the language are empty or
-- known, every question has a text, one to four options that have a text, and no limit or one from 1 to
-- 600, and every round has a title and no boundary time or one from 1 to 600.
pub quiz_form_valid_iff : (q : Quiz) → (quiz_form_valid q ≡ []) ↔ QuizIsValid q
unfolding quiz_form_valid
quiz_form_valid_iff q =
    let parts =
      nil-append (map of_quiz (quiz_fields q))
        (add_question_problems 0 q.questions ++ add_round_problems 0 q.rounds)
        (nil-map of_quiz (quiz_fields q) (quiz_fields_iff q))
        (nil-append (add_question_problems 0 q.questions) (add_round_problems 0 q.rounds)
          (questions_iff 0 q.questions) (rounds_iff 0 q.rounds)) in
    (
      λ h.
          let ((t, (s, (d, (l, (v, (m, g)))))), (qs, rs)) = parts.0 h in
          record {
            has_title = t;
            has_slug = s;
            has_description = d;
            limit = l;
            visibility = v;
            mode = m;
            language = g;
            questions = qs;
            rounds = rs;
          },
      λ x. parts.1 (
        (
          x.has_title,
          (x.has_slug, (x.has_description, (x.limit, (x.visibility, (x.mode, x.language))))),
        ),
        (x.questions, x.rounds),
      ),
    )
