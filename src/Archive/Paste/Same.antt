-- ===== src/Archive/Paste/Same.antt =====
-- A pasted text imports like an archive without media.
use Prim.Native.String.{String}
use topbanana.Quiz.{Question, Round, Quiz}
use topbanana.Archive.{
  err, ok, ◌>>=◌, archive_format_version, ArchiveOption, Manifest, ArchiveRound, ArchiveQuestion,
  Result,
}
use topbanana.Archive.Import.{
  quiz_from_archive_manifest, quiz_head, both_or_neither, round_from_archive, round_error,
  add_round, Filled, plan_entry, Built, question_from_archive, plan_from_archive, fill_rounds,
  plan_questions, fill_questions, option_from_archive,
}
use topbanana.Archive.Paste.{
  payload_head, quiz_from_import_payload, round_from_payload, add_payload_round,
  payload_round_error, question_from_import_payload, fill_quiz_from_rounds, payload_questions,
  option_from_payload, PayloadRound, Payload, PayloadQuestion, PayloadOption,
}
use topbanana.Base.{
  ℕ, suc, ◌+◌, ◌≡◌, refl, ap, inl, inr, none, List, [], ◌∷◌, map, ltb, Bool-cases, Option-cases,
  length,
}

abbrev archived_option : PayloadOption → ArchiveOption
archived_option o = record { text = o.text; correct = o.correct }

abbrev archived_question : PayloadQuestion → ArchiveQuestion
archived_question q = record {
  text = q.text;
  time_limit_seconds = q.time_limit_seconds;
  image = none;
  audio = none;
  options = map archived_option q.options;
}

abbrev archived_round : PayloadRound → ArchiveRound
archived_round r = record {
  title = r.title;
  summary = r.summary;
  boundary_duration_seconds = r.boundary_duration_seconds;
  questions = map archived_question r.questions;
}

-- The manifest with the content of a payload.
abbrev pub archived : Payload → Manifest
archived p = record {
  format_version = archive_format_version;
  title = p.title;
  description = p.description;
  time_limit_seconds = p.time_limit_seconds;
  visibility = "";
  mode = "";
  language = p.language;
  questions = map archived_question p.questions;
  rounds = map archived_round p.rounds;
}

-- A quiz without media.
abbrev pub plain : Result Quiz → Result Built
plain r = r >>= λ qz. ok (record { quiz = qz; plan = [] })

options_same :
    (os : List PayloadOption)
    → map option_from_archive (map archived_option os) ≡ map option_from_payload os
unfolding option_from_archive option_from_payload
options_same [] = refl
options_same (o ∷ os) =
    ap (◌∷◌ (record { id = 0; question_id = 0; text = o.text; correct = o.correct }))
      (options_same os)

questions_same :
    (pos : ℕ) (qs : List PayloadQuestion)
    → fill_questions pos (map archived_question qs) ≡ payload_questions pos qs
unfolding fill_questions payload_questions question_from_archive question_from_import_payload
questions_same pos [] = refl
questions_same pos (q ∷ qs) = cc (options_same q.options, questions_same (pos + 1) qs)

no_plan : (pos : ℕ) (qs : List PayloadQuestion) → plan_questions pos (map archived_question qs) ≡ []
unfolding plan_questions plan_from_archive plan_entry
no_plan pos [] = refl
no_plan pos (q ∷ qs) = no_plan (pos + 1) qs

length-archived : (qs : List PayloadQuestion) → length (map archived_question qs) ≡ length qs
length-archived [] = refl
length-archived (q ∷ qs) = ap suc (length-archived qs)

abbrev filled_of : Result (List Round × List Question) → Result Filled
filled_of r = r >>= λ f. ok (record { rounds = f.0; questions = f.1; plan = [] })

error_same : (r : PayloadRound) → round_error (archived_round r) ≡ payload_round_error r
unfolding round_error payload_round_error
error_same r = rw (length-archived r.questions) refl

add_same :
    (i pos : ℕ) (r : PayloadRound) (f : List Round × List Question)
    → add_round (archived_round r) i pos (record { rounds = f.0; questions = f.1; plan = [] })
      ≡ record {
        rounds = (add_payload_round r i pos f).0;
        questions = (add_payload_round r i pos f).1;
        plan = [];
      }
unfolding add_round round_from_archive round_from_payload
add_same i pos r f = rw (questions_same pos r.questions, no_plan pos r.questions) refl

fill_same :
    (i pos : ℕ) (r : PayloadRound) (a : Result Filled) (b : Result (List Round × List Question))
    → a ≡ filled_of b
    → (a >>= λ filled. ok (add_round (archived_round r) i pos filled))
      ≡ filled_of (b >>= λ filled. ok (add_payload_round r i pos filled))
fill_same i pos r a (ok f) e = rw e (ap ok (add_same i pos r f))
fill_same i pos r a (err x) e = rw e refl

rounds_same :
    (i pos : ℕ) (rs : List PayloadRound)
    → fill_rounds i pos (map archived_round rs) ≡ filled_of (fill_quiz_from_rounds i pos rs)
unfolding fill_rounds fill_quiz_from_rounds
rounds_same i pos [] = refl
rounds_same i pos (r ∷ rs) =
    let len = length-archived r.questions in
    let rest : fill_rounds (i + 1) (pos + length (map archived_question r.questions))
          (map archived_round rs)
        ≡ filled_of (fill_quiz_from_rounds (i + 1) (pos + length r.questions) rs) =
      rw len (rounds_same (i + 1) (pos + length r.questions) rs) in
    elim (Option-cases (payload_round_error r)) [
      | inr (x, e) ↦ rw (error_same r, e, fill_rounds, fill_quiz_from_rounds) refl
      | inl e ↦
          rw (error_same r, e, fill_rounds, fill_quiz_from_rounds) (fill_same i pos r _ _ rest)
    ]

shape_same :
    (qs : List PayloadQuestion) (rs : List PayloadRound)
    → both_or_neither (map archived_question qs) (map archived_round rs) ≡ both_or_neither qs rs
shape_same [] [] = refl
shape_same [] (r ∷ rs) = refl
shape_same (q ∷ qs) [] = refl
shape_same (q ∷ qs) (r ∷ rs) = refl

length-rounds : (rs : List PayloadRound) → length (map archived_round rs) ≡ length rs
length-rounds [] = refl
length-rounds (r ∷ rs) = ap suc (length-rounds rs)

module _ (slug_make : String → String) (p : Payload) where
  plain_same :
      (b : Result (List Round × List Question))
      → (filled_of b >>= λ f. ok (record {
        quiz = quiz_head slug_make (archived p) 0 "" "" f.questions f.rounds;
        plan = f.plan;
      }))
        ≡ plain (b >>= λ f. ok (payload_head slug_make p f.1 f.0))
  unfolding quiz_head payload_head
  plain_same (ok f) = refl
  plain_same (err e) = refl

  flat_same :
      (qs : List PayloadQuestion)
      → ok (record {
        quiz =
            quiz_head slug_make
              (archived p)
              0
              ""
              ""
              (fill_questions 0 (map archived_question qs))
              [];
        plan = plan_questions 0 (map archived_question qs);
      })
        ≡ plain (ok (payload_head slug_make p (payload_questions 0 qs) []))
  unfolding quiz_head payload_head
  flat_same qs = rw (questions_same 0 qs, no_plan 0 qs) refl

  -- The two imports agree: whatever the payload, a pasted text builds the quiz that an archive with the
  -- same content and no media builds, with an empty plan, or fails with the same error.
  pub paste-archive :
      quiz_from_archive_manifest slug_make (archived p) 0 "" ""
      ≡ plain (quiz_from_import_payload slug_make p)
  unfolding quiz_from_archive_manifest quiz_from_import_payload
  paste-archive = elim (Bool-cases (both_or_neither p.questions p.rounds)) [
    | inl e ↦ rw (shape_same p.questions p.rounds, e) refl
    | inr one ↦ elim (Bool-cases (ltb 0 (length p.rounds))) [
      | inl e ↦
          rw
            (
              shape_same p.questions p.rounds,
              one,
              length-rounds p.rounds,
              e,
              rounds_same 0 0 p.rounds,
            )
            (plain_same (fill_quiz_from_rounds 0 0 p.rounds))
      | inr e ↦
          rw (shape_same p.questions p.rounds, one, length-rounds p.rounds, e)
            (flat_same p.questions)
    ]
  ]
