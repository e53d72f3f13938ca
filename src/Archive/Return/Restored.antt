-- ===== src/Archive/Return/Restored.antt =====
-- The copy of a valid quiz is valid, so that the import of its archive goes on to store it.
use topbanana.Archive.Whole.{import_quiz_archive, import_quiz_archive-restores}
use topbanana.Archive.Return.{Decodes, export_import, MediaOpens}
use topbanana.Archive.Limits.{check_archive_limits, ArchiveImportLimits}
use topbanana.Archive.Import.RoundTrip.Archived.{Importable, copy_authored}
use topbanana.Archive.Restore.{Services, import_quiz_with_media}
use Prim.Native.String.{String}
use topbanana.Archive.Import.{default_time_limit_seconds}
use topbanana.Archive.Import.RoundTrip.{
  copy_rounds, copy_questions, copy_question, play_order, copy_option,
}
use text.Mathlib.Text.{◌==◌ as str_eq}
use topbanana.Archive.Forms.Exact.{QuizIsValid, RoundIsValid, QuestionIsValid, LimitIsValid}
use topbanana.Archive.{Media, Entry, Json}
use topbanana.Quiz.{Quiz, Round, Question, QuizOption}
use topbanana.Archive.Export.{write_quiz_archive, is_flat_quiz, MediaArchiver, in_round}
use topbanana.Base.{
  pos, negsuc, ℕ, suc, ◌+◌, ◌≤◌, ◌<◌, ◌≡◌, refl, sym, ap, subst, inl, inr, false, none, some, List,
  [], ◌∷◌, ◌++◌, map, arith, ◌==◌, if◌then◌else◌, Bool-cases, length, All, is_zero, ℤ,
}

copied_options_have_text :
    (os : List QuizOption)
    → All (λ (o : QuizOption). str_eq o.text "" ≡ false) os
    → All (λ (o : QuizOption). str_eq o.text "" ≡ false) (map copy_option os)
copied_options_have_text [] a = tt
copied_options_have_text (o ∷ os) (h, a) = (h, copied_options_have_text os a)

length-copy_option : (os : List QuizOption) → length (map copy_option os) ≡ length os
length-copy_option [] = refl
length-copy_option (o ∷ os) = ap suc (length-copy_option os)

copy_question-QuestionIsValid :
    (q : Question) (place : ℕ) → QuestionIsValid q → QuestionIsValid (copy_question q place)
copy_question-QuestionIsValid q place v = record {
  has_text = v.has_text;
  some_option = subst (λ n. 1 ≤ n) (sym (length-copy_option q.options)) v.some_option;
  few_options = subst (λ n. n ≤ 4) (sym (length-copy_option q.options)) v.few_options;
  limit = v.limit;
  options_have_text = copied_options_have_text q.options v.options_have_text;
}

copy_questions-All :
    (place : ℕ) (qs : List Question)
    → All QuestionIsValid qs
    → All QuestionIsValid (copy_questions place qs)
copy_questions-All place [] a = tt
copy_questions-All place (q ∷ qs) (v, a) =
    (copy_question-QuestionIsValid q (place + 1) v, copy_questions-All (place + 1) qs a)

in_round-All :
    (id : ℕ) (qs : List Question) → All QuestionIsValid qs → All QuestionIsValid (in_round id qs)
unfolding in_round
in_round-All id [] a = tt
in_round-All id (q ∷ qs) (v, a) = elim (Bool-cases (q.round_id == id)) [
  | inl e ↦ rw e (v, in_round-All id qs a)
  | inr e ↦ rw e (in_round-All id qs a)
]

All-append :
    (xs ys : List Question)
    → All QuestionIsValid xs
    → All QuestionIsValid ys
    → All QuestionIsValid (xs ++ ys)
All-append [] ys a b = b
All-append (x ∷ xs) ys (v, a) b = (v, All-append xs ys a b)

play_order-All :
    (qs : List Question) (rs : List Round)
    → All QuestionIsValid qs
    → All QuestionIsValid (play_order qs rs)
play_order-All qs [] a = tt
play_order-All qs (r ∷ rs) a =
    All-append (in_round r.id qs) (play_order qs rs) (in_round-All r.id qs a)
      (play_order-All qs rs a)

copy_rounds-All :
    (i place : ℕ) (qs : List Question) (rs : List Round)
    → All RoundIsValid rs
    → All RoundIsValid (copy_rounds i place qs rs)
copy_rounds-All i place qs [] a = tt
copy_rounds-All i place qs (r ∷ rs) (v, a) = (
  record { has_title = v.has_title; boundary = v.boundary },
  copy_rounds-All (i + 1) (place + length (in_round r.id qs)) qs rs a,
)

copied_limit :
    (v : ℤ) → LimitIsValid v → LimitIsValid (if is_zero v then default_time_limit_seconds else v)
copied_limit (pos n) h = elim (Bool-cases (n == 0)) [ inl e ↦ rw e (omega arith) | inr e ↦ rw e h ]
copied_limit (negsuc n) h = h

module _ (json : Json) (media : MediaArchiver) (slug_make : String → String) (qz : Quiz)
    (rounds : List Round) where
  copy_authored-QuizIsValid :
      (creator : ℕ)
      → QuizIsValid qz
      → All RoundIsValid rounds
      → str_eq (slug_make qz.title) "" ≡ false
      → QuizIsValid (copy_authored slug_make media qz creator rounds).quiz
  copy_authored-QuizIsValid creator v r s = record {
    has_title = v.has_title;
    has_slug = s;
    has_description = v.has_description;
    limit = copied_limit qz.time_limit_seconds v.limit;
    visibility = v.visibility;
    mode = v.mode;
    language = v.language;
    questions =
        copy_questions-All 0 (play_order qz.questions rounds)
          (play_order-All qz.questions rounds v.questions);
    rounds = copy_rounds-All 0 0 qz.questions rounds r;
  }

  -- An exported quiz is imported as its copy. Let JSON decode the manifest that it encoded, and the media
  -- service answer a row under its own id. Take a quiz that the form accepts, with authored rounds that it
  -- accepts, each with a question, that are not exported flat, and a title from which a slug can be made.
  -- Whatever archive the exporter wrote that passes the importer's size guards, the import gets past every
  -- check and goes on to store the copy of the quiz and its media: the copy has the title, the description,
  -- the time limit (the default for 0), the visibility, the mode and the language, the rounds with their
  -- titles, summaries and boundary times, the questions round by round at positions 1, 2, 3 and so on with
  -- their texts, limits and options, and a plan that refers to the media rows that the questions had; and
  -- the archive opens each such row to the bytes that the service has for it. The copy has the slug of the
  -- title, the importer as its creator, no ids, no times and no plays, and is not published.
  pub export_import_quiz_archive :
      (svc : Services) (creator : ℕ) (limits : ArchiveImportLimits) (es : List Entry)
      → Decodes json media slug_make qz rounds
      → ((id : ℕ) (m : Media) → media.get id ≡ some m → m.id ≡ id)
      → QuizIsValid qz
      → All RoundIsValid rounds
      → str_eq (slug_make qz.title) "" ≡ false
      → is_flat_quiz rounds ≡ false
      → 0 < length rounds
      → Importable qz.questions rounds
      → write_quiz_archive json media (some qz) (some rounds) ≡ some es
      → check_archive_limits es limits ≡ none
      → (import_quiz_archive json slug_make svc es creator limits []
          ≡ import_quiz_with_media svc es
              (copy_authored slug_make media qz creator rounds)
              creator
              [])
        × MediaOpens media es (play_order qz.questions rounds)
  export_import_quiz_archive svc creator limits es faithful keyed v r s flat n h w fits =
      let back =
        export_import json media slug_make qz rounds creator limits es faithful keyed flat n h w
          fits in
      (
        import_quiz_archive-restores json slug_make svc es creator limits
            (copy_authored slug_make media qz creator rounds) []
            (record {
              within = fits;
              manifest = back.manifest;
              decoded = back.decoded;
              built = back.built;
              valid = copy_authored-QuizIsValid creator v r s;
            }),
        back.media,
      )
