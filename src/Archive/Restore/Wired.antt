-- ===== src/Archive/Restore/Wired.antt =====
-- After an import each question of the plan refers to the media that was stored from its own entries.
use topbanana.Archive.Restore.Ensures.{Ensures-mono, >>=-Ensures, Ensures}
use topbanana.Archive.Restore.Stored.{
  IsSound-grow, IsWired-grow, AudioStored-grow, audios-grow, restored_lem, images-grow,
  ImageStored-grow, AllWired, IsWired, Any, AudioStored, Grows, ImageStored, IsSound,
}
use topbanana.Archive.Import.{PlanEntry}
use topbanana.Archive.{err, ok, Result, Entry, AudioRef, ImageRef}
use topbanana.Archive.Restore.{
  wire_question, restore_plan, open_archive_file, duration_ms_for, stored_id, keep_id, opened,
  audio_repeat_for, store_audio_entry, store_image_entry, question_id_at, set_media, resolve_audio,
  resolve_image, store_audio, restored, store_image, Ids, Services, Call,
}
use topbanana.Quiz.{Question}
use topbanana.Base.{ℕ, refl, inl, inr, Bool, Option, none, some, List, [], ◌∷◌, Option-cases}

module _ (svc : Services) (archive : List Entry) (quiz_id importer : ℕ) where
  abbrev AfterImage : Option ImageRef → Ids → List Call → Option ℕ × Ids → List Call → Type 0
  AfterImage r audios v p w = Grows v w × ImageStored r p.0 w × IsSound p.1 audios w

  abbrev AfterAudio : Option AudioRef → Ids → List Call → Option ℕ × Ids → List Call → Type 0
  AfterAudio r images v p w = Grows v w × AudioStored r p.0 w × IsSound images p.1 w

  image_stored :
      (ref : ImageRef) (images audios : Ids) (v : List Call) (answer : Result ℕ)
      → IsSound images audios v
      → Ensures
          (AfterImage (some ref) audios v)
          Any
          (keep_id ref.file images answer, store_image ref.file (stored_id answer) ∷ v)
  image_stored ref images audios v (ok id) s = (
    λ c i. inr i,
    (id, refl, inl refl),
    record {
      images_stored = (
        inl refl,
        images-grow v (store_image ref.file (some id) ∷ v) (λ c i. inr i) images s.images_stored,
      );
      audios_stored =
          audios-grow v (store_image ref.file (some id) ∷ v) (λ c i. inr i) audios s.audios_stored;
    },
  )
  image_stored ref images audios v (err e) s = tt

  audio_stored :
      (ref : AudioRef) (images audios : Ids) (v : List Call) (answer : Result ℕ)
      → IsSound images audios v
      → Ensures
          (AfterAudio (some ref) images v)
          Any
          (keep_id ref.file audios answer, store_audio ref.file (stored_id answer) ∷ v)
  audio_stored ref images audios v (ok id) s = (
    λ c i. inr i,
    (id, refl, inl refl),
    record {
      images_stored =
          images-grow v (store_audio ref.file (some id) ∷ v) (λ c i. inr i) images s.images_stored;
      audios_stored = (
        inl refl,
        audios-grow v (store_audio ref.file (some id) ∷ v) (λ c i. inr i) audios s.audios_stored,
      );
    },
  )
  audio_stored ref images audios v (err e) s = tt

  resolve_image-After :
      (r : Option ImageRef) (images audios : Ids) (v : List Call)
      → IsSound images audios v
      → Ensures (AfterImage r audios v) Any (resolve_image svc archive quiz_id importer r images v)
  unfolding resolve_image store_image_entry
  resolve_image-After none images audios v s = (λ c i. i, refl, s)
  resolve_image-After (some ref) images audios v s =
      elim (Option-cases (restored ref.file images)) [
        | inl e ↦ rw (e, resolve_image) (content (open_archive_file archive ref.file))
        | inr (id, e) ↦
            rw (e, resolve_image)
              (λ c i. i, (id, refl, restored_lem _ ref.file images id s.images_stored e), s)
      ]
    where
      content :
          (r : Result (List ℕ))
          → Ensures (AfterImage (some ref) audios v) Any (
              opened svc archive quiz_id importer
                (store_image_entry svc archive quiz_id importer ref images)
                r
                v)
      content (ok bytes) =
          image_stored ref images audios v
            (svc.image v quiz_id importer ref.original_filename bytes) s
      content (err e) = tt

  resolve_audio-After :
      (r : Option AudioRef) (images audios : Ids) (v : List Call)
      → IsSound images audios v
      → Ensures (AfterAudio r images v) Any (resolve_audio svc archive quiz_id importer r audios v)
  unfolding resolve_audio store_audio_entry
  resolve_audio-After none images audios v s = (λ c i. i, refl, s)
  resolve_audio-After (some ref) images audios v s =
      elim (Option-cases (restored ref.file audios)) [
        | inl e ↦ rw (e, resolve_audio) (content (open_archive_file archive ref.file))
        | inr (id, e) ↦
            rw (e, resolve_audio)
              (λ c i. i, (id, refl, restored_lem _ ref.file audios id s.audios_stored e), s)
      ]
    where
      content :
          (r : Result (List ℕ))
          → Ensures (AfterAudio (some ref) images v) Any (
              opened svc archive quiz_id importer
                (store_audio_entry svc archive quiz_id importer ref audios)
                r
                v)
      content (ok bytes) =
          audio_stored ref images audios v
            (svc.audio v quiz_id importer (duration_ms_for ref.duration_ms) ref.description
              ref.original_filename bytes)
            s
      content (err e) = tt

  wire_question-Wired :
      (qs : List Question) (entry : PlanEntry) (image audio : Option ℕ) (v : List Call)
      → ImageStored entry.image image v
      → AudioStored entry.audio audio v
      → Ensures
          (λ (done : Unit {0}) w. Grows v w × IsWired qs entry w)
          Any
          (wire_question svc archive quiz_id importer qs entry image audio v)
  unfolding wire_question
  wire_question-Wired qs entry image audio v hi ha =
      wired (svc.set_question_media v id image audio repeats)
    where
      id : ℕ
      id = question_id_at entry.place qs

      repeats : Bool
      repeats = audio_repeat_for entry.audio

      after : List Call
      after = set_media id image audio repeats ∷ v

      wired :
          (r : Result (Unit {0}))
          → Ensures (λ (done : Unit {0}) w. Grows v w × IsWired qs entry w) Any (r, after)
      wired (ok done) = (
        λ c i. inr i,
        (
          image,
          audio,
          ImageStored-grow v after (λ c i. inr i) entry.image image hi,
          AudioStored-grow v after (λ c i. inr i) entry.audio audio ha,
          inl refl,
        ),
      )
      wired (err e) = tt

  pub restore_plan-AllWired :
      (qs : List Question) (plan : List PlanEntry) (images audios : Ids) (v : List Call)
      → IsSound images audios v
      → Ensures
          (λ (done : Unit {0}) w. Grows v w × AllWired qs plan w)
          Any
          (restore_plan svc archive quiz_id importer qs plan images audios v)
  unfolding restore_plan
  restore_plan-AllWired qs [] images audios v s = (λ c i. i, tt)
  restore_plan-AllWired qs (entry ∷ plan) images audios v s =
      >>=-Ensures (AfterImage entry.image audios v) whole Any _
        (λ p w (g, hi, s).
          >>=-Ensures (AfterAudio entry.audio p.1 w) whole Any _
            (λ q w' (g', ha, s').
              >>=-Ensures
                (λ (done : Unit {0}) w. Grows w' w × IsWired qs entry w × IsSound p.1 q.1 w) whole
                Any _
                (λ done w'' (g'', hw, s'').
                  Ensures-mono (λ (done : Unit {0}) w3. Grows w'' w3 × AllWired qs plan w3) whole
                    Any _
                    (λ done w3 (g3, all). (
                      λ c i. g3 c (g'' c (g' c (g c i))),
                      (IsWired-grow w'' w3 g3 qs entry hw, all),
                    ))
                    (restore_plan-AllWired qs plan p.1 q.1 w'' s''))
                (wire_question svc archive quiz_id importer qs entry p.0 q.0) w'
                (Ensures-mono (λ (done : Unit {0}) w''. Grows w' w'' × IsWired qs entry w'') _ Any _
                  (λ done w'' (g'', hw). (g'', hw, IsSound-grow p.1 q.1 w' w'' g'' s'))
                  (wire_question-Wired qs entry p.0 q.0 w'
                    (ImageStored-grow w w' g' entry.image p.0 hi) ha)))
            (resolve_audio svc archive quiz_id importer entry.audio audios) w
            (resolve_audio-After entry.audio p.1 audios w s))
        (resolve_image svc archive quiz_id importer entry.image images) v
        (resolve_image-After entry.image images audios v s)
    where
      whole : Unit {0} → List Call → Type 0
      whole done w = Grows v w × AllWired qs (entry ∷ plan) w
