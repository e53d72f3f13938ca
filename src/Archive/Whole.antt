-- ===== src/Archive/Whole.antt =====
-- ImportQuizArchive of internal/admin/quizimportarchive.go: the guards, the manifest, the validation and
-- the restore, one after the other.
use topbanana.Archive.Import.Whole.{quiz_from_archive_manifest-new}
use topbanana.Archive.Forms.Exact.{QuizIsValid, quiz_form_valid_iff}
use topbanana.Archive.Restore.Rollback.{import_quiz_with_media-Outcome, RolledBack, Outcome}
use topbanana.Quiz.{Quiz}
use topbanana.Archive.Forms.{quiz_form_valid, Problem}
use topbanana.Archive.Limits.{decode_archive_manifest, check_archive_limits, ArchiveImportLimits}
use topbanana.Archive.Import.{quiz_from_archive_manifest, Built}
use topbanana.Archive.Restore.{fail, import_quiz_with_media, Call, M, Services}
use Prim.Native.String.{String}
use topbanana.Archive.{invalid_quiz, err, ok, ImportError, Manifest, Result, Entry, Json}
use topbanana.Base.{ℕ, ◌≡◌, refl, ◌⊎◌, inl, inr, Option, none, some, List, [], ◌∷◌}

module _ (json : Json) (slug_make : String → String) (svc : Services) (archive : List Entry)
    (creator : ℕ) where
  abbrev restore_valid : Built → List Problem → M Quiz
  restore_valid b [] = import_quiz_with_media svc archive b creator
  restore_valid b (p ∷ ps) = fail invalid_quiz

  -- An error of the structure is wrapped as ErrArchiveInvalidQuiz.
  abbrev validate : Result Built → M Quiz
  validate (ok b) = restore_valid b (quiz_form_valid b.quiz)
  validate (err e) = fail invalid_quiz

  abbrev build_manifest : Result Manifest → M Quiz
  build_manifest (ok m) =
      validate (quiz_from_archive_manifest slug_make m creator m.visibility m.mode)
  build_manifest (err e) = fail e

  abbrev after_limits : ArchiveImportLimits → Option ImportError → M Quiz
  after_limits limits none = build_manifest (decode_archive_manifest json archive limits)
  after_limits limits (some e) = fail e

  pub import_quiz_archive : ArchiveImportLimits → M Quiz
  import_quiz_archive limits = after_limits limits (check_archive_limits archive limits)

  -- What an import started from: an archive within the limits, whose manifest builds a valid quiz.
  pub record Admitted (limits : ArchiveImportLimits) (b : Built) : Type 0 where
    pub within : check_archive_limits archive limits ≡ none
    pub manifest : Manifest
    pub decoded : decode_archive_manifest json archive limits ≡ ok manifest
    pub built :
        quiz_from_archive_manifest slug_make manifest creator manifest.visibility manifest.mode
        ≡ ok b
    pub valid : QuizIsValid b.quiz

  abbrev pub Imported : ArchiveImportLimits → Result Quiz × List Call → Type 0
  Imported limits (ok qz, w) = (b : Built) × Admitted limits b × Outcome svc b (ok qz, w)
  Imported limits (err e, w) = (w ≡ []) ⊎ ((b : Built) × Admitted limits b × RolledBack svc b w)

  outcome-Imported :
      (limits : ArchiveImportLimits) (b : Built) (r : Result Quiz × List Call)
      → Admitted limits b
      → Outcome svc b r
      → Imported limits r
  outcome-Imported limits b (ok qz, w) a o = (b, a, o)
  outcome-Imported limits b (err e, w) a o = inr (b, a, o)

  restore-Imported :
      (limits : ArchiveImportLimits) (b : Built) (m : Manifest) (ps : List Problem)
      → check_archive_limits archive limits ≡ none
      → decode_archive_manifest json archive limits ≡ ok m
      → quiz_from_archive_manifest slug_make m creator m.visibility m.mode ≡ ok b
      → quiz_form_valid b.quiz ≡ ps
      → Imported limits (restore_valid b ps [])
  restore-Imported limits b m (p ∷ ps) l d q v = inl refl
  restore-Imported limits b m [] l d q v =
      outcome-Imported limits b (import_quiz_with_media svc archive b creator [])
        record {
          within = l;
          manifest = m;
          decoded = d;
          built = q;
          valid = (quiz_form_valid_iff b.quiz).0 v;
        }
        (import_quiz_with_media-Outcome svc archive b creator
          (quiz_from_archive_manifest-new slug_make m creator m.visibility m.mode b q))

  validate-Imported :
      (limits : ArchiveImportLimits) (m : Manifest) (r : Result Built)
      → check_archive_limits archive limits ≡ none
      → decode_archive_manifest json archive limits ≡ ok m
      → quiz_from_archive_manifest slug_make m creator m.visibility m.mode ≡ r
      → Imported limits (validate r [])
  validate-Imported limits m (ok b) l d q =
      restore-Imported limits b m (quiz_form_valid b.quiz) l d q refl
  validate-Imported limits m (err e) l d q = inl refl

  build-Imported :
      (limits : ArchiveImportLimits) (r : Result Manifest)
      → check_archive_limits archive limits ≡ none
      → decode_archive_manifest json archive limits ≡ r
      → Imported limits (build_manifest r [])
  build-Imported limits (ok m) l d = validate-Imported limits m _ l d refl
  build-Imported limits (err e) l d = inl refl

  limits-Imported :
      (limits : ArchiveImportLimits) (o : Option ImportError)
      → check_archive_limits archive limits ≡ o
      → Imported limits (after_limits limits o [])
  limits-Imported limits none l = build-Imported limits _ l refl
  limits-Imported limits (some e) l = inl refl

  -- Whatever the archive, the stores and the media service: a quiz that an import returns comes from an
  -- archive within the limits whose manifest builds a valid quiz, and has the media of the archive at the
  -- questions of the plan; an import that fails made no call at all, or it started from such an archive and
  -- either the store refused the quiz at once or the last calls delete the created quiz and its directory,
  -- with a failure of either logged.
  pub import_quiz_archive-Imported :
      (limits : ArchiveImportLimits) → Imported limits (import_quiz_archive limits [])
  unfolding import_quiz_archive
  import_quiz_archive-Imported limits = limits-Imported limits _ refl

  -- An archive that is within the limits and whose manifest builds a valid quiz is not turned away: the
  -- import goes on to restore that quiz.
  pub import_quiz_archive-restores :
      (limits : ArchiveImportLimits) (b : Built) (w : List Call)
      → Admitted limits b
      → import_quiz_archive limits w ≡ import_quiz_with_media svc archive b creator w
  unfolding import_quiz_archive
  import_quiz_archive-restores limits b w a =
      let fine = (quiz_form_valid_iff b.quiz).1 a.valid in
      rw (a.within, a.decoded, a.built, fine) refl
