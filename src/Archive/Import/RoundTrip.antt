-- ===== src/Archive/Import/RoundTrip.antt =====
-- A quiz that was exported and is imported again.
pub mod Archived
use mathlib.Core.Option.{map as map_option}
use topbanana.Archive.{AudioRef, ImageRef, ArchiveQuestion, Media}
use topbanana.Archive.Export.Faithful.{AudioOf, ImageOf, AllExported, Exported, IsRead}
use topbanana.Quiz.{Round, Question, QuizOption}
use topbanana.Archive.Export.{
  image_ref_of, audio_ref_of, in_round, archive_option, MediaArchiver, Cache,
}
use topbanana.Archive.Import.{
  plan_from_archive, plan_entry, plan_questions, PlanEntry, option_from_archive,
  question_from_archive, fill_questions,
}
use topbanana.Base.{
  ℕ, suc, ◌+◌, ◌≡◌, refl, sym, ap, ◌∙◌, Bool, false, Option, none, some, List, [], ◌∷◌, ◌++◌, map,
  length, All-In,
}

-- What an import makes of a question of the exported quiz: its text, its limit and its options.
abbrev pub copy_option : QuizOption → QuizOption
copy_option o = record { id = 0; question_id = 0; text = o.text; correct = o.correct }

abbrev pub copy_question : Question → ℕ → Question
copy_question q position = record {
  id = 0;
  quiz_id = 0;
  round_id = 0;
  text = q.text;
  image_media_id = none;
  audio_media_id = none;
  audio_repeat = false;
  position = position;
  time_limit_seconds = q.time_limit_seconds;
  options = map copy_option q.options;
}

abbrev pub copy_questions : ℕ → List Question → List Question
copy_questions pos [] = []
copy_questions pos (q ∷ qs) = copy_question q (pos + 1) ∷ copy_questions (pos + 1) qs

-- The rounds of the exported quiz from index `i` on, each with its questions from `qs`.
abbrev pub copy_rounds : ℕ → ℕ → List Question → List Round → List Round
copy_rounds i pos qs [] = []
copy_rounds i pos qs (r ∷ rs) =
    record {
      id = 0;
      quiz_id = 0;
      position = i;
      title = r.title;
      summary = r.summary;
      boundary_duration_seconds = r.boundary_duration_seconds;
      created_at = 0;
      updated_at = 0;
      questions = copy_questions pos (in_round r.id qs);
    }
    ∷ copy_rounds (i + 1) (pos + length (in_round r.id qs)) qs rs

-- The questions of the rounds, round by round.
abbrev pub play_order : List Question → List Round → List Question
play_order qs [] = []
play_order qs (r ∷ rs) = in_round r.id qs ++ play_order qs rs

-- The media of a question, as references to the rows that the service has for it.
abbrev pub row_of : MediaArchiver → Option ℕ → Option Media
row_of svc none = none
row_of svc (some id) = svc.get id

abbrev pub copy_plan : MediaArchiver → ℕ → List Question → List PlanEntry
copy_plan svc pos [] = []
copy_plan svc pos (q ∷ qs) =
    plan_entry (pos + 1) (map_option image_ref_of (row_of svc q.image_media_id))
      (map_option (λ m. audio_ref_of m q.audio_repeat) (row_of svc q.audio_media_id))
    ++ copy_plan svc (pos + 1) qs

copy_options :
    (os : List QuizOption) → map option_from_archive (map archive_option os) ≡ map copy_option os
unfolding option_from_archive archive_option
copy_options [] = refl
copy_options (o ∷ os) = ap (◌∷◌ (copy_option o)) (copy_options os)

question-copy :
    (c : Cache) (q : Question) (e : ArchiveQuestion) (pos : ℕ)
    → Exported c q e
    → question_from_archive e pos ≡ copy_question q pos
unfolding question_from_archive
question-copy c q e pos x =
    let options : map option_from_archive e.options ≡ map copy_option q.options =
      ap (map option_from_archive) x.options ∙ copy_options q.options in
    cc (x.text, x.limit, options)

pub fill_questions-copy :
    (c : Cache) (pos : ℕ) (qs : List Question) (es : List ArchiveQuestion)
    → AllExported c qs es
    → fill_questions pos es ≡ copy_questions pos qs
unfolding fill_questions
fill_questions-copy c pos [] [] x = refl
fill_questions-copy c pos [] (e ∷ es) x = absurd x
fill_questions-copy c pos (q ∷ qs) [] x = absurd x
fill_questions-copy c pos (q ∷ qs) (e ∷ es) (x, xs) =
    cc (question-copy c q e (pos + 1) x, fill_questions-copy c (pos + 1) qs es xs)

pub AllExported-length :
    (c : Cache) (qs : List Question) (es : List ArchiveQuestion)
    → AllExported c qs es
    → length es ≡ length qs
AllExported-length c [] [] x = refl
AllExported-length c [] (e ∷ es) x = absurd x
AllExported-length c (q ∷ qs) [] x = absurd x
AllExported-length c (q ∷ qs) (e ∷ es) (x, xs) = ap suc (AllExported-length c qs es xs)

module _ (svc : MediaArchiver) (c : Cache) (r : IsRead svc c) where
  image-copy :
      (id : Option ℕ) (o : Option ImageRef)
      → ImageOf c id o
      → o ≡ map_option image_ref_of (row_of svc id)
  image-copy none o h = h
  image-copy (some id) o (m, i, e) = e ∙ sym (ap (map_option image_ref_of) (All-In _ c (id, m) r i))

  audio-copy :
      (id : Option ℕ) (b : Bool) (o : Option AudioRef)
      → AudioOf c id b o
      → o ≡ map_option (λ m. audio_ref_of m b) (row_of svc id)
  audio-copy none b o h = h
  audio-copy (some id) b o (m, i, e) =
      e ∙ sym (ap (map_option (λ m. audio_ref_of m b)) (All-In _ c (id, m) r i))

  pub plan_questions-copy :
      (pos : ℕ) (qs : List Question) (es : List ArchiveQuestion)
      → AllExported c qs es
      → plan_questions pos es ≡ copy_plan svc pos qs
  unfolding plan_questions plan_from_archive
  plan_questions-copy pos [] [] x = refl
  plan_questions-copy pos [] (e ∷ es) x = absurd x
  plan_questions-copy pos (q ∷ qs) [] x = absurd x
  plan_questions-copy pos (q ∷ qs) (e ∷ es) (x, xs) = rw (
    image-copy q.image_media_id e.image x.image,
    audio-copy q.audio_media_id q.audio_repeat e.audio x.audio,
    plan_questions-copy (pos + 1) qs es xs,
  )
