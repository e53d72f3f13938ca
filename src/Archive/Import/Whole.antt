-- ===== src/Archive/Import/Whole.antt =====
-- What a decoded manifest is built to, in both shapes.
use topbanana.Archive.Import.Positions.{
  fill_rounds-IsFilled, round_questions, Matched, Numbered, fill_questions-Numbered, IsFilled,
  all_questions,
}
use topbanana.Archive.{ok-inj, >>=-eq-ok, ok, Manifest}
use topbanana.Archive.Import.{
  fill_rounds, plan_questions, Filled, fill_questions, quiz_head, Built, quiz_from_archive_manifest,
  both_or_neither,
}
use Prim.Native.String.{String}
use mathlib.Core.List.{append-nil}
use topbanana.Base.{
  ℕ, ◌<◌, ◌≡◌, refl, sym, ap, subst, ◌∙◌, inl, inr, true, false, List, [], ◌∷◌, ◌++◌, arith, ltb,
  Bool-cases, length,
}

-- What a manifest is built to.
pub record IsBuilt (m : Manifest) (b : Built) : Type 0 where
  pub one_shape : both_or_neither m.questions m.rounds ≡ false
  pub questions : b.quiz.questions ≡ fill_questions 0 (m.questions ++ all_questions m.rounds)
  pub numbered : Numbered 0 b.quiz.questions
  pub plan : b.plan ≡ plan_questions 0 (m.questions ++ all_questions m.rounds)
  pub mirrored : 0 < length m.rounds → round_questions b.quiz.rounds ≡ b.quiz.questions
  pub matched : Matched m.rounds b.quiz.rounds

only_rounds :
    {A B : Type 0} (xs : List A) (ys : List B)
    → both_or_neither xs ys ≡ false
    → ltb 0 (length ys) ≡ true
    → xs ≡ []
only_rounds [] ys h k = refl
only_rounds (x ∷ xs) [] h k = cc
only_rounds (x ∷ xs) (y ∷ ys) h k = cc

no_rounds : {B : Type 0} (ys : List B) → ltb 0 (length ys) ≡ false → ys ≡ []
no_rounds [] k = refl
no_rounds (y ∷ ys) k = ground arith

module _ (slug_make : String → String) (m : Manifest) (creator : ℕ) (visibility mode : String) where
  rounds-IsBuilt :
      (f : Filled)
      → both_or_neither m.questions m.rounds ≡ false
      → m.questions ≡ []
      → IsFilled 0 m.rounds f
      → IsBuilt m (record {
        quiz = quiz_head slug_make m creator visibility mode f.questions f.rounds;
        plan = f.plan;
      })
  unfolding quiz_head
  rounds-IsBuilt f one e v = record {
    one_shape = one;
    questions = v.questions ∙ ap (λ qs. fill_questions 0 (qs ++ all_questions m.rounds)) (sym e);
    numbered =
        subst (Numbered 0) (sym v.questions) (fill_questions-Numbered 0 (all_questions m.rounds));
    plan = v.plan ∙ ap (λ qs. plan_questions 0 (qs ++ all_questions m.rounds)) (sym e);
    mirrored = λ h. v.mirrored;
    matched = v.matched;
  }

  flat-IsBuilt :
      both_or_neither m.questions m.rounds ≡ false
      → m.rounds ≡ []
      → IsBuilt m (record {
        quiz = quiz_head slug_make m creator visibility mode (fill_questions 0 m.questions) [];
        plan = plan_questions 0 m.questions;
      })
  unfolding quiz_head
  flat-IsBuilt one e =
      let all : m.questions ≡ m.questions ++ all_questions m.rounds =
        sym (ap (λ rs. m.questions ++ all_questions rs) e ∙ append-nil m.questions) in
      record {
        one_shape = one;
        questions = ap (fill_questions 0) all;
        numbered = fill_questions-Numbered 0 m.questions;
        plan = ap (plan_questions 0) all;
        mirrored = λ h. absurd (omega (arith, ap length e));
        matched = subst (λ rs. Matched rs []) (sym e) tt;
      }

  -- A manifest that builds has either questions or rounds. The quiz holds its questions in order at the
  -- positions 1, 2, 3 and so on across all rounds, the plan has the media of each of them at its position,
  -- and with rounds every round has its title and its number of questions, at least one, and the rounds'
  -- questions are the quiz's.
  pub quiz_from_archive_manifest-IsBuilt :
      (b : Built)
      → quiz_from_archive_manifest slug_make m creator visibility mode ≡ ok b
      → IsBuilt m b
  unfolding quiz_from_archive_manifest
  quiz_from_archive_manifest-IsBuilt b h =
      elim (Bool-cases (both_or_neither m.questions m.rounds)) [
        | inl e ↦ cc (rw e at h)
        | inr one ↦ elim (Bool-cases (ltb 0 (length m.rounds))) [
          | inl e ↦
              let (f, r, k) = >>=-eq-ok (fill_rounds 0 0 m.rounds) _ (rw (one, e) at h) in
              subst (IsBuilt m) (ok-inj k) (
                rounds-IsBuilt f one (only_rounds m.questions m.rounds one e)
                  (fill_rounds-IsFilled 0 0 m.rounds f r))
          | inr e ↦
              subst (IsBuilt m) (ok-inj (rw (one, e) at h))
                (flat-IsBuilt one (no_rounds m.rounds e))
        ]
      ]

  pub quiz_from_archive_manifest-new :
      (b : Built)
      → quiz_from_archive_manifest slug_make m creator visibility mode ≡ ok b
      → b.quiz.id ≡ 0
  unfolding quiz_from_archive_manifest quiz_head
  quiz_from_archive_manifest-new b h = elim (Bool-cases (both_or_neither m.questions m.rounds)) [
    | inl e ↦ cc (rw e at h)
    | inr one ↦ elim (Bool-cases (ltb 0 (length m.rounds))) [
      | inl e ↦
          let (f, r, k) = >>=-eq-ok (fill_rounds 0 0 m.rounds) _ (rw (one, e) at h) in
          ap (λ (b : Built). b.quiz.id) (sym (ok-inj k))
      | inr e ↦ ap (λ (b : Built). b.quiz.id) (sym (ok-inj (rw (one, e) at h)))
    ]
  ]
