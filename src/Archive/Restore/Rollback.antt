-- ===== src/Archive/Restore/Rollback.antt =====
-- What an import of a built quiz leaves, when it succeeds and when it fails.
use topbanana.Archive.Restore.Wired.{restore_plan-AllWired}
use topbanana.Archive.Restore.Stored.{Any, Grows, AllWired}
use topbanana.Archive.Restore.Ensures.{Ensures}
use topbanana.Archive.Restore.Once.{
  stores_audio, stores_image, IsRestored, cleans_up, restore_plan-IsRestored, IsTracked,
}
use topbanana.Quiz.{Quiz}
use topbanana.Archive.Import.{Built}
use topbanana.Archive.{Result-cases, err, ImportError, ok, Result, Entry}
use topbanana.Archive.Restore.{
  warn_if_failed, warn_delete_failed, warn_remove_failed, finish_import, delete_quiz, restore_plan,
  remove_quiz_dir, restore_archive_media, create_quiz, store_quiz, import_quiz_with_media, Call,
  Services,
}
use topbanana.Base.{ℕ, ◌≤◌, ◌≡◌, refl, ◌⊎◌, inl, inr, List, [], ◌∷◌, arith, count}

-- A step of the rollback was made, and its failure was logged after it.
abbrev pub StepMade : Result (Unit {0}) → Call → Call → List Call → List Call → Type 0
StepMade r call warning v u =
    ((r ≡ ok tt) × (u ≡ call ∷ v)) ⊎ ((e : ImportError) × (r ≡ err e) × (u ≡ warning ∷ call ∷ v))

-- The store refused the quiz, or the quiz was created, and the calls end with the deletion of the quiz and
-- then of its directory.
abbrev pub RolledBack : Services → Built → List Call → Type 0
RolledBack svc b w =
    ((w ≡ create_quiz ∷ []) × ((e : ImportError) × (svc.create [] b.quiz ≡ err e)))
    ⊎ ((qz : Quiz) × (v : List Call) × (u : List Call) × (svc.create [] b.quiz ≡ ok qz)
        × (count cleans_up v ≡ 0)
        × StepMade (svc.delete v qz.id) (delete_quiz qz.id) (warn_delete_failed qz.id) v u
        × StepMade (svc.remove_dir u qz.id) (remove_quiz_dir qz.id) (warn_remove_failed qz.id) u w)

-- The calls of a whole import, by its result.
abbrev pub Outcome : Services → Built → Result Quiz × List Call → Type 0
Outcome svc b (ok qz, w) =
    (svc.create [] b.quiz ≡ ok qz)
    × AllWired qz.questions b.plan w
    × (count cleans_up w ≡ 0)
    × ((file : List ℕ) → (count (stores_image file) w ≤ 1) × (count (stores_audio file) w ≤ 1))
Outcome svc b (err e, w) = RolledBack svc b w

warn_if_failed-StepMade :
    (r : Result (Unit {0})) (call warning : Call) (v : List Call)
    → StepMade r call warning v (warn_if_failed r warning (call ∷ v))
warn_if_failed-StepMade (ok done) call warning v = inl (refl, refl)
warn_if_failed-StepMade (err e) call warning v = inr (e, refl, refl)

module _ (svc : Services) (archive : List Entry) (b : Built) (importer : ℕ) where
  created : (file : List ℕ) → IsTracked file [] [] (create_quiz ∷ [])
  created file = record { image_once = omega arith; audio_once = omega arith; no_cleanup = refl }

  both :
      (qz : Quiz) (r : Result (Unit {0}) × List Call)
      → svc.create [] b.quiz ≡ ok qz
      → ((file : List ℕ) → Ensures (λ (done : Unit {0}) w. IsRestored file w) (IsRestored file) r)
      → Ensures
          (λ (done : Unit {0}) w. Grows (create_quiz ∷ []) w × AllWired qz.questions b.plan w)
          Any
          r
      → Outcome svc b (finish_import svc qz r)
  both qz (ok done, w) e once wired =
      (e, wired.1, (once []).no_cleanup, λ file. ((once file).image_once, (once file).audio_once))
  both qz (err x, w) e once wired =
      let deleted =
        warn_if_failed (svc.delete w qz.id) (warn_delete_failed qz.id) (delete_quiz qz.id ∷ w) in
      inr (
        qz,
        w,
        deleted,
        e,
        (once []).no_cleanup,
        warn_if_failed-StepMade (svc.delete w qz.id) (delete_quiz qz.id) (warn_delete_failed qz.id)
            w,
        warn_if_failed-StepMade (svc.remove_dir deleted qz.id) (remove_quiz_dir qz.id)
            (warn_remove_failed qz.id) deleted,
      )

  -- The calls of an import of a quiz without an id, whatever the stores and the media service answer. On
  -- success the quiz is the one that the store created, every question of the plan was given the media that
  -- was stored from its own entries, with the repeat flag of its sound, no entry was stored twice as an
  -- image or twice as a sound, and nothing was cleaned up. On failure either the store refused the quiz and
  -- no other call was made, or the last calls delete the created quiz and then its directory, the second
  -- also when the first failed, a failure of either is logged right after it, and no call before them
  -- cleaned up.
  pub import_quiz_with_media-Outcome :
      b.quiz.id ≡ 0 → Outcome svc b (import_quiz_with_media svc archive b importer [])
  unfolding import_quiz_with_media restore_archive_media
  import_quiz_with_media-Outcome new = elim (Result-cases (svc.create [] b.quiz)) [
    | inl (qz, e) ↦ rw (stored (ok qz) e) (
        both qz
          (restore_plan svc archive qz.id importer qz.questions b.plan [] [] (create_quiz ∷ [])) e
          (λ file.
            restore_plan-IsRestored svc archive qz.id importer file qz.questions b.plan [] []
              (create_quiz ∷ []) (created file))
          (restore_plan-AllWired svc archive qz.id importer qz.questions b.plan [] []
            (create_quiz ∷ []) record { images_stored = tt; audios_stored = tt }))
    | inr (x, e) ↦ rw (stored (err x) e) (inl (refl, (x, e)))
  ]
    where
      stored :
          (r : Result Quiz)
          → svc.create [] b.quiz ≡ r
          → store_quiz svc b.quiz [] ≡ (r, create_quiz ∷ [])
      stored r e = unfold store_quiz in ground arith
