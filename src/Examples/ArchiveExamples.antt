-- ===== src/Examples/ArchiveExamples.antt =====
-- A quiz of two rounds with a picture and a sound, exported and imported again.
use topbanana.Archive.Return.Restored.{export_import_quiz_archive}
use topbanana.Archive.Import.RoundTrip.{play_order}
use Prim.Native.String.{String}
use topbanana.Archive.Restore.Rollback.{Outcome, import_quiz_with_media-Outcome}
use topbanana.Archive.Import.RoundTrip.Archived.{copy_authored}
use topbanana.Archive.Paste.Same.{paste-archive, plain, archived}
use topbanana.Archive.Forms.Exact.{RoundIsValid, QuestionIsValid, quiz_form_valid_iff, QuizIsValid}
use topbanana.Archive.Whole.{import_quiz_archive-Imported, import_quiz_archive, Imported}
use topbanana.Archive.Export.Built.{flat_export_forgets}
use topbanana.Archive.Forms.{quiz_form_valid}
use topbanana.Archive.Limits.Bounds.{check_archive_limits_iff, total_size, WithinCaps}
use topbanana.Archive.Import.Whole.{quiz_from_archive_manifest-IsBuilt, IsBuilt}
use topbanana.Archive.Restore.{import_quiz_with_media, Services}
use topbanana.Archive.Paste.{quiz_from_import_payload, Payload, strip_code_fences}
use topbanana.Archive.Import.{quiz_from_archive_manifest, Built}
use topbanana.Archive.Paths.{archive_media_path, codes}
use topbanana.Examples.Data.{round_at, question_at, two_rounds, quiz_with}
use topbanana.Archive.Return.{MediaOpens, export_import, Returns, Decodes}
use topbanana.Archive.Export.{
  close_archive, write_media_entries, load_media, resolve, audio_ref, image_ref, export_question,
  export_questions, export_rounds, manifest_head, in_round, Cache, build, MediaArchiver,
  write_quiz_archive, is_flat_quiz,
}
use topbanana.Quiz.{is_valid_language, is_valid_mode, is_valid_visibility, Round, Question, Quiz}
use topbanana.Archive.Limits.{
  per_entry_cap, check_entries, check_archive_limits, ArchiveImportLimits,
}
use topbanana.Archive.{ok, Entry, Media, Json, Manifest}
use topbanana.Base.{
  ℕ, ◌≤◌, ◌≡◌, refl, ap, ◌↔◌, ◌⊎◌, inr, true, Option, none, some, List, [], ◌∷◌, ◌++◌, map, arith,
  ◌==◌, if◌then◌else◌, length,
}

abbrev picture : Media
picture = record {
  id = 1;
  mime = "image/jpeg";
  path = codes "q/a.jpg";
  description = "";
  duration_ms = none;
  original_filename = "cat.jpg";
}

abbrev sound : Media
sound = record {
  id = 2;
  mime = "audio/x";
  path = codes "q/b.ogg";
  description = "a cat";
  duration_ms = some 900;
  original_filename = "";
}

abbrev library : MediaArchiver
library = record {
  get = λ id. if id == 1 then some picture else if id == 2 then some sound else none;
  open_file = λ path. some path;
}

library_keyed : (id : ℕ) (m : Media) → library.get id ≡ some m → m.id ≡ id
library_keyed id m h = ground arith

abbrev seen_question : ℕ → ℕ → Question
seen_question id round_id = record (question_at id round_id) {
  image_media_id = some 1;
  audio_media_id = some 2;
  audio_repeat = true;
}

abbrev shown_quiz : Quiz
shown_quiz = record (quiz_with "solo" true) {
  description = "cats";
  questions = seen_question 1 1 ∷ question_at 2 2 ∷ seen_question 3 1 ∷ [];
}

abbrev manifest_of : Option (Manifest × Cache) → Manifest
manifest_of (some (m, c)) = m
manifest_of none = manifest_head shown_quiz [] []

abbrev json : Json
json = record {
  encode = λ m. 7 ∷ [];
  decode = λ s. some (manifest_of (build library shown_quiz two_rounds []));
}

json_decodes : Decodes json library (λ s. s) shown_quiz two_rounds
json_decodes m c h = ap (λ o. some (manifest_of o)) h

abbrev entries_of : Option (List Entry) → List Entry
entries_of none = []
entries_of (some es) = es

abbrev archive : List Entry
archive = entries_of (write_quiz_archive json library (some shown_quiz) (some two_rounds))

abbrev limits : ArchiveImportLimits
limits = record { image_max_bytes = 100; audio_max_bytes = 100; total_max_bytes = 200 }

written : write_quiz_archive json library (some shown_quiz) (some two_rounds) ≡ some archive
unfolding write_quiz_archive build is_flat_quiz export_rounds export_questions export_question
    image_ref audio_ref resolve load_media in_round write_media_entries close_archive
written = refl

fits : check_archive_limits archive limits ≡ none
unfolding write_quiz_archive build is_flat_quiz export_rounds export_questions export_question
    image_ref audio_ref resolve load_media in_round write_media_entries close_archive
    check_archive_limits check_entries per_entry_cap archive_media_path
fits = refl

returned : Returns json library (λ s. s) shown_quiz two_rounds 5 limits archive
unfolding is_flat_quiz in_round
returned =
    export_import json library (λ s. s) shown_quiz two_rounds 5 limits archive json_decodes
      library_keyed refl (omega arith) ((refl, omega arith), ((refl, omega arith), tt)) written fits

-- The store numbers the quiz 9 and its questions by their positions; media gets the ids 71 and 72.
abbrev services : Services
services = record {
  create = λ w qz. ok (record qz {
    id = 9;
    questions = map (λ (q : Question). record q { id = q.position }) qz.questions;
  });
  update = λ w qz. ok qz;
  image = λ w quiz_id creator filename content. ok 71;
  audio = λ w quiz_id creator ms description filename content. ok 72;
  set_question_media = λ w id image audio repeats. ok tt;
  delete = λ w id. ok tt;
  remove_dir = λ w id. ok tt;
}

abbrev copied : Built
copied = copy_authored (λ s. s) library shown_quiz 5 two_rounds

import_quiz_with_media-Outcome_example :
    Outcome services copied (import_quiz_with_media services archive copied 5 [])
import_quiz_with_media-Outcome_example =
    import_quiz_with_media-Outcome services archive copied 5 refl

import_quiz_archive-Imported_example :
    Imported json
      (λ s. s)
      services
      archive
      5
      limits
      (import_quiz_archive json (λ s. s) services archive 5 limits [])
import_quiz_archive-Imported_example =
    import_quiz_archive-Imported json (λ s. s) services archive 5 limits

shown_question : (id round_id : ℕ) → QuestionIsValid (question_at id round_id)
shown_question id round_id = record {
  has_text = refl;
  some_option = omega arith;
  few_options = omega arith;
  limit = tt;
  options_have_text = (refl, (refl, tt));
}

heard_question : (id round_id : ℕ) → QuestionIsValid (seen_question id round_id)
heard_question id round_id = record {
  has_text = refl;
  some_option = omega arith;
  few_options = omega arith;
  limit = tt;
  options_have_text = (refl, (refl, tt));
}

shown_round : (id : ℕ) (summary : String) → RoundIsValid (round_at id summary)
shown_round id summary = record { has_title = refl; boundary = tt }

shown_quiz-QuizIsValid : QuizIsValid shown_quiz
unfolding is_valid_visibility is_valid_mode is_valid_language
shown_quiz-QuizIsValid = record {
  has_title = refl;
  has_slug = refl;
  has_description = refl;
  limit = omega arith;
  visibility = inr refl;
  mode = inr refl;
  language = inr refl;
  questions = (heard_question 1 1, (shown_question 2 2, (heard_question 3 1, tt)));
  rounds = (shown_round 1 "first", (shown_round 2 "", tt));
}

export_import_quiz_archive_example :
    (import_quiz_archive json (λ s. s) services archive 5 limits []
      ≡ import_quiz_with_media services archive copied 5 [])
    × MediaOpens library archive (play_order shown_quiz.questions two_rounds)
unfolding is_flat_quiz in_round
export_import_quiz_archive_example =
    export_import_quiz_archive json library (λ s. s) shown_quiz two_rounds services 5 limits archive
      json_decodes library_keyed shown_quiz-QuizIsValid
      (shown_round 1 "first", (shown_round 2 "", tt)) refl refl (omega arith)
      ((refl, omega arith), ((refl, omega arith), tt)) written fits

quiz_from_archive_manifest-IsBuilt_example : IsBuilt returned.manifest copied
quiz_from_archive_manifest-IsBuilt_example =
    quiz_from_archive_manifest-IsBuilt (λ s. s) returned.manifest 5 returned.manifest.visibility
      returned.manifest.mode copied returned.built

check_archive_limits_iff_example :
    (check_archive_limits archive limits ≡ none)
    ↔ (length archive ≤ 1000)
      × WithinCaps limits archive
      × ((limits.total_max_bytes ≡ 0) ⊎ (total_size archive ≤ limits.total_max_bytes))
check_archive_limits_iff_example = check_archive_limits_iff archive limits (omega arith)

quiz_form_valid_iff_example : (quiz_form_valid copied.quiz ≡ []) ↔ QuizIsValid copied.quiz
quiz_form_valid_iff_example = quiz_form_valid_iff copied.quiz

abbrev pasted : Payload
pasted = record {
  title = "t";
  description = "d";
  language = "";
  time_limit_seconds = none;
  questions = [];
  rounds =
      record {
        title = "one";
        summary = "";
        boundary_duration_seconds = some 5;
        questions =
            record {
              text = "?";
              time_limit_seconds = none;
              options = record { text = "a"; correct = true } ∷ [];
            }
            ∷ [];
      }
      ∷ [];
}

paste-archive_example :
    quiz_from_archive_manifest (λ s. s) (archived pasted) 0 "" ""
    ≡ plain (quiz_from_import_payload (λ s. s) pasted)
paste-archive_example = paste-archive (λ s. s) pasted

abbrev default_round : Round
default_round = record (round_at 1 "kept?") { title = "Round 1" }

flat_export_forgets_example :
    (build library shown_quiz
        (record default_round { summary = ""; boundary_duration_seconds = none } ∷ [])
        []
      ≡ build library shown_quiz (default_round ∷ []) [])
    × ((m : Manifest) (c : Cache)
        → build library shown_quiz (default_round ∷ []) [] ≡ some (m, c)
        → m.rounds ≡ [])
flat_export_forgets_example = flat_export_forgets library shown_quiz default_round "" none refl

-- A fenced text loses its fences.
unfenced : strip_code_fences (λ s. s) (codes "```json" ++ (10 ∷ codes "{}```")) ≡ codes "{}"
unfolding strip_code_fences
unfenced = refl
