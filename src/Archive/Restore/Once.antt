-- ===== src/Archive/Restore/Once.antt =====
-- Restoring the media of an import stores every entry of the archive at most once for each kind.
use topbanana.Archive.Restore.Ensures.{>>=-Ensures, Ensures}
use topbanana.Archive.Import.{PlanEntry}
use topbanana.Quiz.{Question}
use topbanana.Archive.Paths.Unique.{text_eq_iff}
use topbanana.Archive.Paths.{text_eq}
use topbanana.Archive.{AudioRef, Result-cases, err, ok, ImageRef, Entry, Result}
use topbanana.Archive.Restore.{
  warn_delete_failed, warn_remove_failed, set_media, audio_repeat_for, question_id_at,
  duration_ms_for, wire_question, restore_plan, store_audio_entry, resolve_audio, remove_quiz_dir,
  store_image, opened, delete_quiz, open_archive_file, store_audio, store_image_entry,
  resolve_image, restored, Call, Ids, Services,
}
use topbanana.Base.{
  ℕ, ◌≤◌, ◌≡◌, inl, inr, Bool, true, false, Option, none, some, List, [], ◌∷◌, arith, Option-cases,
  count,
}

-- What a run guarantees: of its value and the calls when it succeeds, of the calls when it fails.

abbrev pub stores_image : List ℕ → Call → Bool
stores_image file (store_image f id) = text_eq f file
stores_image file c = false

abbrev pub stores_audio : List ℕ → Call → Bool
stores_audio file (store_audio f id) = text_eq f file
stores_audio file c = false

abbrev pub cleans_up : Call → Bool
cleans_up (delete_quiz id) = true
cleans_up (remove_quiz_dir id) = true
cleans_up (warn_delete_failed id) = true
cleans_up (warn_remove_failed id) = true
cleans_up c = false

-- An entry that the map has was stored once, any other not at all.
abbrev pub budget : List ℕ → Ids → ℕ
budget file ids = elim (restored file ids) [ some id ↦ 1 | none ↦ 0 ]

pub record IsTracked (file : List ℕ) (images audios : Ids) (w : List Call) : Type 0 where
  pub image_once : count (stores_image file) w ≤ budget file images
  pub audio_once : count (stores_audio file) w ≤ budget file audios
  pub no_cleanup : count cleans_up w ≡ 0

pub record IsRestored (file : List ℕ) (w : List Call) : Type 0 where
  pub image_once : count (stores_image file) w ≤ 1
  pub audio_once : count (stores_audio file) w ≤ 1
  pub no_cleanup : count cleans_up w ≡ 0

budget-le-1 : (file : List ℕ) (ids : Ids) → budget file ids ≤ 1
budget-le-1 file ids = ground arith

IsTracked-IsRestored :
    (file : List ℕ) (images audios : Ids) (w : List Call)
    → IsTracked file images audios w
    → IsRestored file w
IsTracked-IsRestored file images audios w t =
    ground (arith, budget-le-1 file images, budget-le-1 file audios)

module _ (svc : Services) (archive : List Entry) (quiz_id importer : ℕ) (file : List ℕ) where
  store_image_entry-IsTracked :
      (ref : ImageRef) (images audios : Ids) (content : List ℕ) (w : List Call)
      → restored ref.file images ≡ none
      → IsTracked file images audios w
      → Ensures
          (λ (p : Option ℕ × Ids) w. IsTracked file p.1 audios w)
          (IsRestored file)
          (store_image_entry svc archive quiz_id importer ref images content w)
  unfolding store_image_entry
  store_image_entry-IsTracked ref images audios content w fresh t =
      elim (Result-cases (svc.image w quiz_id importer ref.original_filename content)) [
        | inl (id, e) ↦ rw e (new_id id)
        | inr (x, e) ↦ rw e bad
      ]
    where
      bad : IsRestored file (store_image ref.file none ∷ w)
      bad = ground (arith, text_eq_iff ref.file file, budget-le-1 file audios)

      new_id :
          (id : ℕ)
          → IsTracked file ((ref.file, id) ∷ images) audios (store_image ref.file (some id) ∷ w)
      new_id id = ground (arith, text_eq_iff ref.file file, budget-le-1 file audios)

  opened-IsTracked :
      (ref : ImageRef) (images audios : Ids) (r : Result (List ℕ)) (w : List Call)
      → restored ref.file images ≡ none
      → IsTracked file images audios w
      → Ensures
          (λ (p : Option ℕ × Ids) w. IsTracked file p.1 audios w)
          (IsRestored file)
          (opened svc archive quiz_id importer
            (store_image_entry svc archive quiz_id importer ref images)
            r
            w)
  opened-IsTracked ref images audios (ok content) w fresh t =
      store_image_entry-IsTracked ref images audios content w fresh t
  opened-IsTracked ref images audios (err e) w fresh t = IsTracked-IsRestored file images audios w t

  resolve_image-IsTracked :
      (ref : Option ImageRef) (images audios : Ids) (w : List Call)
      → IsTracked file images audios w
      → Ensures
          (λ (p : Option ℕ × Ids) w. IsTracked file p.1 audios w)
          (IsRestored file)
          (resolve_image svc archive quiz_id importer ref images w)
  unfolding resolve_image
  resolve_image-IsTracked none images audios w t = t
  resolve_image-IsTracked (some ref) images audios w t =
      elim (Option-cases (restored ref.file images)) [
        | inl e ↦
            rw (e, resolve_image)
              (opened-IsTracked ref images audios (open_archive_file archive ref.file) w e t)
        | inr (id, e) ↦ rw (e, resolve_image) t
      ]

  store_audio_entry-IsTracked :
      (ref : AudioRef) (images audios : Ids) (content : List ℕ) (w : List Call)
      → restored ref.file audios ≡ none
      → IsTracked file images audios w
      → Ensures
          (λ (p : Option ℕ × Ids) w. IsTracked file images p.1 w)
          (IsRestored file)
          (store_audio_entry svc archive quiz_id importer ref audios content w)
  unfolding store_audio_entry
  store_audio_entry-IsTracked ref images audios content w fresh t =
      elim (Result-cases (
        svc.audio w quiz_id importer (duration_ms_for ref.duration_ms) ref.description
          ref.original_filename content)) [ inl (id, e) ↦ rw e (new_id id) | inr (x, e) ↦ rw e bad ]
    where
      bad : IsRestored file (store_audio ref.file none ∷ w)
      bad = ground (arith, text_eq_iff ref.file file, budget-le-1 file images)

      new_id :
          (id : ℕ)
          → IsTracked file images ((ref.file, id) ∷ audios) (store_audio ref.file (some id) ∷ w)
      new_id id = ground (arith, text_eq_iff ref.file file, budget-le-1 file images)

  opened_audio-IsTracked :
      (ref : AudioRef) (images audios : Ids) (r : Result (List ℕ)) (w : List Call)
      → restored ref.file audios ≡ none
      → IsTracked file images audios w
      → Ensures
          (λ (p : Option ℕ × Ids) w. IsTracked file images p.1 w)
          (IsRestored file)
          (opened svc archive quiz_id importer
            (store_audio_entry svc archive quiz_id importer ref audios)
            r
            w)
  opened_audio-IsTracked ref images audios (ok content) w fresh t =
      store_audio_entry-IsTracked ref images audios content w fresh t
  opened_audio-IsTracked ref images audios (err e) w fresh t =
      IsTracked-IsRestored file images audios w t

  resolve_audio-IsTracked :
      (ref : Option AudioRef) (images audios : Ids) (w : List Call)
      → IsTracked file images audios w
      → Ensures
          (λ (p : Option ℕ × Ids) w. IsTracked file images p.1 w)
          (IsRestored file)
          (resolve_audio svc archive quiz_id importer ref audios w)
  unfolding resolve_audio
  resolve_audio-IsTracked none images audios w t = t
  resolve_audio-IsTracked (some ref) images audios w t =
      elim (Option-cases (restored ref.file audios)) [
        | inl e ↦
            rw (e, resolve_audio)
              (opened_audio-IsTracked ref images audios (open_archive_file archive ref.file) w e t)
        | inr (id, e) ↦ rw (e, resolve_audio) t
      ]

  wire_question-IsTracked :
      (qs : List Question) (entry : PlanEntry) (image audio : Option ℕ) (images audios : Ids)
      (w : List Call)
      → IsTracked file images audios w
      → Ensures
          (λ (done : Unit {0}) w. IsTracked file images audios w)
          (IsRestored file)
          (wire_question svc archive quiz_id importer qs entry image audio w)
  unfolding wire_question
  wire_question-IsTracked qs entry image audio images audios w t =
      wired (svc.set_question_media w id image audio repeats)
    where
      id : ℕ
      id = question_id_at entry.place qs

      repeats : Bool
      repeats = audio_repeat_for entry.audio

      kept : IsTracked file images audios (set_media id image audio repeats ∷ w)
      kept = ground arith

      wired :
          (r : Result (Unit {0}))
          → Ensures
              (λ (done : Unit {0}) w. IsTracked file images audios w)
              (IsRestored file)
              (r, set_media id image audio repeats ∷ w)
      wired (ok done) = kept
      wired (err e) =
          IsTracked-IsRestored file images audios (set_media id image audio repeats ∷ w) kept

  pub restore_plan-IsRestored :
      (qs : List Question) (plan : List PlanEntry) (images audios : Ids) (w : List Call)
      → IsTracked file images audios w
      → Ensures
          (λ (done : Unit {0}) w. IsRestored file w)
          (IsRestored file)
          (restore_plan svc archive quiz_id importer qs plan images audios w)
  unfolding restore_plan
  restore_plan-IsRestored qs [] images audios w t = IsTracked-IsRestored file images audios w t
  restore_plan-IsRestored qs (entry ∷ plan) images audios w t =
      >>=-Ensures (λ (p : Option ℕ × Ids) w. IsTracked file p.1 audios w) _ (IsRestored file) _
        (λ (p : Option ℕ × Ids) w t.
          >>=-Ensures (λ (q : Option ℕ × Ids) w. IsTracked file p.1 q.1 w) _ (IsRestored file) _
            (λ (q : Option ℕ × Ids) w t.
              >>=-Ensures (λ (done : Unit {0}) w. IsTracked file p.1 q.1 w) _ (IsRestored file) _
                (λ done w t. restore_plan-IsRestored qs plan p.1 q.1 w t)
                (wire_question svc archive quiz_id importer qs entry p.0 q.0) w
                (wire_question-IsTracked qs entry p.0 q.0 p.1 q.1 w t))
            (resolve_audio svc archive quiz_id importer entry.audio audios) w
            (resolve_audio-IsTracked entry.audio p.1 audios w t))
        (resolve_image svc archive quiz_id importer entry.image images) w
        (resolve_image-IsTracked entry.image images audios w t)
