-- ===== src/Archive/Import.antt =====
-- From a decoded manifest to a quiz and its media plan: quizFromArchiveManifest and its helpers of
-- internal/admin/quizimportarchivemedia.go, and the overrides of internal/admin/quizimportarchive.go. The
-- slug is made by a package outside the repository, a parameter.
pub mod RoundTrip
pub mod Positions
pub mod Whole
use Prim.Native.String.{String}
use topbanana.Quiz.{is_valid_mode, is_valid_visibility, QuizOption, Question, Round, Quiz}
use topbanana.Archive.{
  questions_or_rounds, Manifest, ◌>>=◌, err, round_no_questions, ok, round_title_required, AudioRef,
  Result, ImportError, ImageRef, ArchiveRound, ArchiveQuestion, ArchiveOption,
}
use text.Mathlib.Text.{◌==◌ as str_eq}
use topbanana.Base.{
  ℕ, ◌+◌, Bool, true, false, ◌||◌, Option, none, some, List, [], ◌∷◌, ◌++◌, map, ltb, ◌==◌,
  if◌then◌else◌, length, from_nat, ℤ,
}

abbrev pub default_time_limit_seconds : ℤ
default_time_limit_seconds = from_nat 10

-- A plan's pointer to a built question is the question's position.
pub record PlanEntry : Type 0 where
  pub place : ℕ
  pub image : Option ImageRef
  pub audio : Option AudioRef

-- `builtArchiveQuiz`.
pub record Built : Type 0 where
  pub quiz : Quiz
  pub plan : List PlanEntry

unfoldable pub option_from_archive : ArchiveOption → QuizOption
option_from_archive o = record { id = 0; question_id = 0; text = o.text; correct = o.correct }

unfoldable pub question_from_archive : ArchiveQuestion → ℕ → Question
question_from_archive e position = record {
  id = 0;
  quiz_id = 0;
  round_id = 0;
  text = e.text;
  image_media_id = none;
  audio_media_id = none;
  audio_repeat = false;
  position = position;
  time_limit_seconds = e.time_limit_seconds;
  options = map option_from_archive e.options;
}

-- One entry for a question with media, none for one without.
unfoldable pub plan_entry : ℕ → Option ImageRef → Option AudioRef → List PlanEntry
plan_entry position none none = []
plan_entry position (some i) audio = record { place = position; image = some i; audio = audio } ∷ []
plan_entry position none (some a) = record { place = position; image = none; audio = some a } ∷ []

unfoldable pub plan_from_archive : ArchiveQuestion → ℕ → List PlanEntry
plan_from_archive e position = plan_entry position e.image e.audio

-- The questions of a list at the positions after `pos`, and their plan.
unfoldable pub fill_questions : ℕ → List ArchiveQuestion → List Question
fill_questions pos [] = []
fill_questions pos (e ∷ es) = question_from_archive e (pos + 1) ∷ fill_questions (pos + 1) es

unfoldable pub plan_questions : ℕ → List ArchiveQuestion → List PlanEntry
plan_questions pos [] = []
plan_questions pos (e ∷ es) = plan_from_archive e (pos + 1) ++ plan_questions (pos + 1) es

unfoldable pub round_from_archive : ArchiveRound → ℕ → ℕ → Round
round_from_archive a i pos = record {
  id = 0;
  quiz_id = 0;
  position = i;
  title = a.title;
  summary = a.summary;
  boundary_duration_seconds = a.boundary_duration_seconds;
  created_at = 0;
  updated_at = 0;
  questions = fill_questions pos a.questions;
}

-- The checks of a round before it is added.
unfoldable pub round_error : ArchiveRound → Option ImportError
round_error a =
    if str_eq a.title ""
    then some round_title_required
    else if length a.questions == 0
    then some round_no_questions
    else none

-- What the loop over the rounds adds to the quiz: its rounds, its questions and the plan.
pub record Filled : Type 0 where
  pub rounds : List Round
  pub questions : List Question
  pub plan : List PlanEntry

unfoldable pub add_round : ArchiveRound → ℕ → ℕ → Filled → Filled
add_round a i pos rest = record {
  rounds = round_from_archive a i pos ∷ rest.rounds;
  questions = fill_questions pos a.questions ++ rest.questions;
  plan = plan_questions pos a.questions ++ rest.plan;
}

unfoldable pub fill_rounds : ℕ → ℕ → List ArchiveRound → Result Filled
fill_rounds i pos [] = ok (record { rounds = []; questions = []; plan = [] })
fill_rounds i pos (a ∷ as') =
    let rest = fill_rounds (i + 1) (pos + length a.questions) as' in
    elim (round_error a) [
      | some e ↦ err e
      | none ↦ rest >>= λ filled. ok (add_round a i pos filled)
    ]

unfoldable pub or_default_limit : Option ℤ → ℤ
or_default_limit none = default_time_limit_seconds
or_default_limit (some v) = v

-- `(len(m.Questions) == 0) == (len(m.Rounds) == 0)`.
abbrev pub both_or_neither : {A B : Type 0} → List A → List B → Bool
both_or_neither [] [] = true
both_or_neither [] (y ∷ ys) = false
both_or_neither (x ∷ xs) [] = false
both_or_neither (x ∷ xs) (y ∷ ys) = true

module _ (slug_make : String → String) where
  unfoldable pub quiz_head : Manifest → ℕ → String → String → List Question → List Round → Quiz
  quiz_head m creator visibility mode questions rounds = record {
    id = 0;
    title = m.title;
    slug = slug_make m.title;
    description = m.description;
    created_at = 0;
    updated_at = 0;
    created_by_player_id = creator;
    created_by_display_name = "";
    time_limit_seconds = or_default_limit m.time_limit_seconds;
    visibility = visibility;
    mode = mode;
    language = m.language;
    play_count = 0;
    published = false;
    questions = questions;
    rounds = rounds;
  }

  unfoldable pub quiz_from_archive_manifest : Manifest → ℕ → String → String → Result Built
  quiz_from_archive_manifest m creator visibility mode =
      if both_or_neither m.questions m.rounds
      then err questions_or_rounds
      else if ltb 0 (length m.rounds)
      then (fill_rounds 0 0 m.rounds >>= λ f. ok (record {
        quiz = quiz_head m creator visibility mode f.questions f.rounds;
        plan = f.plan;
      }))
      else ok (record {
        quiz = quiz_head m creator visibility mode (fill_questions 0 m.questions) [];
        plan = plan_questions 0 m.questions;
      })

abbrev pub use_archive_value : String
use_archive_value = ""

-- `resolveVisibilityOverride`; none is the source's false.
unfoldable pub resolve_visibility_override : String → String → Option String
resolve_visibility_override form_value manifest_value =
    if str_eq form_value use_archive_value
    then (if str_eq manifest_value "" || is_valid_visibility manifest_value
        then some manifest_value
        else none)
    else if is_valid_visibility form_value
    then some form_value
    else none

unfoldable pub resolve_mode_override : String → String → Option String
resolve_mode_override form_value manifest_value =
    if str_eq form_value use_archive_value
    then (if str_eq manifest_value "" || is_valid_mode manifest_value
        then some manifest_value
        else none)
    else if is_valid_mode form_value
    then some form_value
    else none
