-- ===== src/Archive/Paste.antt =====
-- The import of a pasted text, internal/admin/quizimport.go: stripCodeFences on the bytes of the text, and
-- quizFromImportPayload. The payload has no media, no visibility and no mode.
pub mod Same
use topbanana.Archive.Import.{both_or_neither, or_default_limit}
use text.Mathlib.Text.{◌==◌ as str_eq}
use topbanana.Archive.Paths.{codes}
use Prim.Native.String.{String}
use topbanana.Quiz.{Quiz, Question, Round, QuizOption}
use topbanana.Archive.{
  ◌>>=◌, questions_or_rounds, round_no_questions, err, round_title_required, ok, Result,
  ImportError,
}
use topbanana.Base.{
  ℕ, ◌+◌, Bool, true, false, not, ◌&&◌, Option, none, some, List, [], ◌∷◌, ◌++◌, map, ltb, ◌==◌,
  if◌then◌else◌, length, ℤ,
}

pub record PayloadOption : Type 0 where
  pub text : String
  pub correct : Bool

pub record PayloadQuestion : Type 0 where
  pub text : String
  pub time_limit_seconds : Option ℕ
  pub options : List PayloadOption

pub record PayloadRound : Type 0 where
  pub title : String
  pub summary : String
  pub boundary_duration_seconds : Option ℕ
  pub questions : List PayloadQuestion

pub record Payload : Type 0 where
  pub title : String
  pub description : String
  pub language : String
  pub time_limit_seconds : Option ℤ
  pub questions : List PayloadQuestion
  pub rounds : List PayloadRound

pub option_from_payload : PayloadOption → QuizOption
option_from_payload o = record { id = 0; question_id = 0; text = o.text; correct = o.correct }

pub question_from_import_payload : PayloadQuestion → ℕ → Question
question_from_import_payload q position = record {
  id = 0;
  quiz_id = 0;
  round_id = 0;
  text = q.text;
  image_media_id = none;
  audio_media_id = none;
  audio_repeat = false;
  position = position;
  time_limit_seconds = q.time_limit_seconds;
  options = map option_from_payload q.options;
}

pub payload_questions : ℕ → List PayloadQuestion → List Question
payload_questions pos [] = []
payload_questions pos (q ∷ qs) =
    question_from_import_payload q (pos + 1) ∷ payload_questions (pos + 1) qs

pub round_from_payload : PayloadRound → ℕ → ℕ → Round
round_from_payload r i pos = record {
  id = 0;
  quiz_id = 0;
  position = i;
  title = r.title;
  summary = r.summary;
  boundary_duration_seconds = r.boundary_duration_seconds;
  created_at = 0;
  updated_at = 0;
  questions = payload_questions pos r.questions;
}

pub payload_round_error : PayloadRound → Option ImportError
payload_round_error r =
    if str_eq r.title ""
    then some round_title_required
    else if length r.questions == 0
    then some round_no_questions
    else none

-- The rounds and the questions that the loop adds to the quiz.
abbrev pub add_payload_round :
    PayloadRound → ℕ → ℕ → List Round × List Question → List Round × List Question
add_payload_round r i pos rest =
    (round_from_payload r i pos ∷ rest.0, payload_questions pos r.questions ++ rest.1)

pub fill_quiz_from_rounds : ℕ → ℕ → List PayloadRound → Result (List Round × List Question)
fill_quiz_from_rounds i pos [] = ok ([], [])
fill_quiz_from_rounds i pos (r ∷ rs) =
    let rest = fill_quiz_from_rounds (i + 1) (pos + length r.questions) rs in
    elim (payload_round_error r) [
      | some e ↦ err e
      | none ↦ rest >>= λ filled. ok (add_payload_round r i pos filled)
    ]

module _ (slug_make : String → String) where
  unfoldable pub payload_head : Payload → List Question → List Round → Quiz
  payload_head p questions rounds = record {
    id = 0;
    title = p.title;
    slug = slug_make p.title;
    description = p.description;
    created_at = 0;
    updated_at = 0;
    created_by_player_id = 0;
    created_by_display_name = "";
    time_limit_seconds = or_default_limit p.time_limit_seconds;
    visibility = "";
    mode = "";
    language = p.language;
    play_count = 0;
    published = false;
    questions = questions;
    rounds = rounds;
  }

  unfoldable pub quiz_from_import_payload : Payload → Result Quiz
  unfolding payload_head
  quiz_from_import_payload p =
      if both_or_neither p.questions p.rounds
      then err questions_or_rounds
      else if ltb 0 (length p.rounds)
      then (fill_quiz_from_rounds 0 0 p.rounds >>= λ f. ok (payload_head p f.1 f.0))
      else ok (payload_head p (payload_questions 0 p.questions) [])

abbrev fence : List ℕ
fence = codes "```"

abbrev starts_with : List ℕ → List ℕ → Bool
starts_with [] s = true
starts_with (p ∷ ps) [] = false
starts_with (p ∷ ps) (c ∷ s) = (p == c) && starts_with ps s

-- What follows the first line feed.
after_line : List ℕ → Option (List ℕ)
after_line [] = none
after_line (c ∷ s) = let later = after_line s in if c == 10 then some s else later

-- What stands before the last fence, if there is one.
before_last_fence : List ℕ → Option (List ℕ)
before_last_fence [] = none
before_last_fence (c ∷ s) = elim (before_last_fence s) [
  | some front ↦ some (c ∷ front)
  | none ↦ if starts_with fence (c ∷ s) then some [] else none
]

-- `strings.TrimSpace` is a parameter, since it reads Unicode.
unfoldable pub strip_code_fences : (List ℕ → List ℕ) → List ℕ → List ℕ
unfolding after_line before_last_fence
strip_code_fences trim_space s =
    let t = trim_space s in
    if not (starts_with fence t) then s else elim (after_line t) [
      | none ↦ s
      | some body ↦ elim (before_last_fence body) [
        | none ↦ trim_space body
        | some front ↦ trim_space front
      ]
    ]
