-- ===== src/Archive/Restore.antt =====
-- Persisting a built quiz and its media, internal/admin/quizimportrestore.go, and ImportQuizArchive of
-- internal/admin/quizimportarchive.go. The stores and the media service are asked in turn: what each
-- answers depends on the calls before, newest first, and every call is recorded with the entry or the ids
-- that it is about. The two steps of a rollback may fail; a failure is logged, which is recorded as a call.
pub mod Ensures
pub mod Once
pub mod Stored
pub mod Wired
pub mod Rollback
use Prim.Native.String.{String}
use topbanana.Archive.Export.Found.{open_entry}
use topbanana.Archive.Import.{PlanEntry, Built}
use topbanana.Quiz.{Question, Quiz}
use topbanana.Archive.{media_missing, err, ImageRef, ok, Result, Entry, ImportError, AudioRef}
use topbanana.Archive.Paths.{text_eq}
use topbanana.Base.{ℕ, Bool, false, Option, none, some, List, [], ◌∷◌, ◌==◌, if◌then◌else◌}

pub data Call : Type 0 where
  create_quiz update_quiz : Call
  store_image store_audio : List ℕ → Option ℕ → Call
  set_media : ℕ → Option ℕ → Option ℕ → Bool → Call
  delete_quiz remove_quiz_dir : ℕ → Call
  warn_delete_failed warn_remove_failed : ℕ → Call

-- `quiz.Store` and MediaImporter: the quiz that a create leaves, with its ids, and the ids of stored media.
pub record Services : Type 0 where
  pub create : List Call → Quiz → Result Quiz
  pub update : List Call → Quiz → Result Quiz
  pub image : List Call → ℕ → ℕ → String → List ℕ → Result ℕ
  pub audio : List Call → ℕ → ℕ → ℕ → String → String → List ℕ → Result ℕ
  pub set_question_media : List Call → ℕ → Option ℕ → Option ℕ → Bool → Result (Unit {0})
  pub delete : List Call → ℕ → Result (Unit {0})
  pub remove_dir : List Call → ℕ → Result (Unit {0})

abbrev pub M : Type 0 → Type 0
M A = List Call → Result A × List Call

module _ {A B : Type 0} where
  abbrev pub bind_result : (A → M B) → Result A × List Call → Result B × List Call
  bind_result f (ok a, w) = f a w
  bind_result f (err e, w) = (err e, w)

  infixl 5 ◌>>=◌
  abbrev pub ◌>>=◌ : M A → (A → M B) → M B
  ◌>>=◌ m f w = bind_result f (m w)

abbrev pub return : {A : Type 0} → A → M A
return a w = (ok a, w)

abbrev pub fail : {A : Type 0} → ImportError → M A
fail e w = (err e, w)

-- The map of a mediaRestorer from entry names to ids.
abbrev pub Ids : Type 0
Ids = List (List ℕ × ℕ)

abbrev pub restored : List ℕ → Ids → Option ℕ
restored file [] = none
restored file ((f, id) ∷ ids) = if text_eq f file then some id else restored file ids

pub duration_ms_for : Option ℕ → ℕ
duration_ms_for none = 0
duration_ms_for (some ms) = ms

pub audio_repeat_for : Option AudioRef → Bool
audio_repeat_for none = false
audio_repeat_for (some ref) = ref.repeats

abbrev pub stored_id : Result ℕ → Option ℕ
stored_id (ok id) = some id
stored_id (err e) = none

-- The position stands for the plan's pointer to the question that the store filled in.
pub question_id_at : ℕ → List Question → ℕ
question_id_at place [] = 0
question_id_at place (q ∷ qs) = if q.position == place then q.id else question_id_at place qs

-- What the calls after the first look up get: the id, and the map.
abbrev pub keep_id : List ℕ → Ids → Result ℕ → Result (Option ℕ × Ids)
keep_id file ids (ok id) = ok (some id, (file, id) ∷ ids)
keep_id file ids (err e) = err e

-- `openArchiveFile`.
pub open_archive_file : List Entry → List ℕ → Result (List ℕ)
open_archive_file archive name = elim (open_entry name archive) [
  | none ↦ err media_missing
  | some content ↦ ok content
]

module _ (svc : Services) (archive : List Entry) (quiz_id importer : ℕ) where
  pub store_image_entry : ImageRef → Ids → List ℕ → M (Option ℕ × Ids)
  store_image_entry ref ids content w =
      let answer = svc.image w quiz_id importer ref.original_filename content in
      (keep_id ref.file ids answer, store_image ref.file (stored_id answer) ∷ w)

  pub store_audio_entry : AudioRef → Ids → List ℕ → M (Option ℕ × Ids)
  unfolding duration_ms_for
  store_audio_entry ref ids content w =
      let answer =
        svc.audio w quiz_id importer (duration_ms_for ref.duration_ms) ref.description
          ref.original_filename content in
      (keep_id ref.file ids answer, store_audio ref.file (stored_id answer) ∷ w)

  abbrev pub opened : (List ℕ → M (Option ℕ × Ids)) → Result (List ℕ) → M (Option ℕ × Ids)
  opened f (ok content) = f content
  opened f (err e) = fail e

  pub resolve_image : Option ImageRef → Ids → M (Option ℕ × Ids)
  unfolding open_archive_file
  resolve_image none ids = return (none, ids)
  resolve_image (some ref) ids = elim (restored ref.file ids) [
    | some id ↦ return (some id, ids)
    | none ↦ opened (store_image_entry ref ids) (open_archive_file archive ref.file)
  ]

  pub resolve_audio : Option AudioRef → Ids → M (Option ℕ × Ids)
  unfolding open_archive_file
  resolve_audio none ids = return (none, ids)
  resolve_audio (some ref) ids = elim (restored ref.file ids) [
    | some id ↦ return (some id, ids)
    | none ↦ opened (store_audio_entry ref ids) (open_archive_file archive ref.file)
  ]

  pub wire_question : List Question → PlanEntry → Option ℕ → Option ℕ → M (Unit {0})
  unfolding audio_repeat_for question_id_at
  wire_question qs entry image audio w =
      let id = question_id_at entry.place qs in
      let repeats = audio_repeat_for entry.audio in
      (svc.set_question_media w id image audio repeats, set_media id image audio repeats ∷ w)

  pub restore_plan : List Question → List PlanEntry → Ids → Ids → M (Unit {0})
  restore_plan qs [] images audios = return tt
  restore_plan qs (entry ∷ plan) images audios = do
    (image, images') ← resolve_image entry.image images
    (audio, audios') ← resolve_audio entry.audio audios
    done ← wire_question qs entry image audio
    restore_plan qs plan images' audios'

pub restore_archive_media : Services → List Entry → ℕ → Quiz → List PlanEntry → M (Unit {0})
restore_archive_media svc archive importer qz plan =
    restore_plan svc archive qz.id importer qz.questions plan [] []

pub store_quiz : Services → Quiz → M Quiz
store_quiz svc qz w =
    if qz.id == 0 then (svc.create w qz, create_quiz ∷ w) else (svc.update w qz, update_quiz ∷ w)

-- `logger.WarnContext`, if the step failed.
abbrev pub warn_if_failed : Result (Unit {0}) → Call → List Call → List Call
warn_if_failed (ok done) warning w = w
warn_if_failed (err e) warning w = warning ∷ w

abbrev pub rollback_import : Services → ℕ → List Call → List Call
rollback_import svc id w =
    let deleted = warn_if_failed (svc.delete w id) (warn_delete_failed id) (delete_quiz id ∷ w) in
    warn_if_failed (svc.remove_dir deleted id) (warn_remove_failed id)
      (remove_quiz_dir id ∷ deleted)

-- The quiz as stored, or the error of the restore after the clean-up.
abbrev pub finish_import : Services → Quiz → Result (Unit {0}) × List Call → Result Quiz × List Call
finish_import svc qz (ok done, w) = (ok qz, w)
finish_import svc qz (err e, w) = (err e, rollback_import svc qz.id w)

pub import_quiz_with_media : Services → List Entry → Built → ℕ → M Quiz
import_quiz_with_media svc archive built importer = store_quiz svc built.quiz >>= λ qz w.
    finish_import svc qz (restore_archive_media svc archive importer qz built.plan w)
