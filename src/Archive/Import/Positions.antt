-- ===== src/Archive/Import/Positions.antt =====
-- The questions of an import stand at the positions 1, 2, 3 and so on, across all rounds.
use topbanana.Archive.Import.{
  plan_from_archive, plan_questions, round_from_archive, round_error, add_round, Filled,
  question_from_archive, fill_questions, fill_rounds,
}
use topbanana.Archive.{>>=-eq-ok, ok-inj, ok, ArchiveQuestion, ArchiveRound}
use topbanana.Quiz.{Question, Round}
use mathlib.Core.List.{append_assoc}
use topbanana.Base.{
  ℕ, suc, ◌+◌, ◌<◌, ◌≡◌, refl, sym, ap, subst, ◌∙◌, inl, inr, none, List, [], ◌∷◌, ◌++◌, arith,
  Option-cases, length,
}

abbrev pub Numbered : ℕ → List Question → Type 0
Numbered pos [] = Unit
Numbered pos (q ∷ qs) = (q.position ≡ pos + 1) × Numbered (pos + 1) qs

pub length-fill_questions :
    (pos : ℕ) (es : List ArchiveQuestion) → length (fill_questions pos es) ≡ length es
unfolding fill_questions
length-fill_questions pos [] = refl
length-fill_questions pos (e ∷ es) = ap suc (length-fill_questions (pos + 1) es)

abbrev pub all_questions : List ArchiveRound → List ArchiveQuestion
all_questions [] = []
all_questions (a ∷ as') = a.questions ++ all_questions as'

fill_questions-append :
    (pos : ℕ) (xs ys : List ArchiveQuestion)
    → fill_questions pos (xs ++ ys) ≡ fill_questions pos xs ++ fill_questions (pos + length xs) ys
unfolding fill_questions
fill_questions-append pos [] ys = ap (λ n. fill_questions n ys) (omega arith)
fill_questions-append pos (x ∷ xs) ys =
    let shift : pos + 1 + length xs ≡ pos + suc (length xs) = omega arith in
    ap (◌∷◌ (question_from_archive x (pos + 1))) (
      fill_questions-append (pos + 1) xs ys
      ∙ ap (λ n. fill_questions (pos + 1) xs ++ fill_questions n ys) shift)

plan_questions-append :
    (pos : ℕ) (xs ys : List ArchiveQuestion)
    → plan_questions pos (xs ++ ys) ≡ plan_questions pos xs ++ plan_questions (pos + length xs) ys
unfolding plan_questions
plan_questions-append pos [] ys = ap (λ n. plan_questions n ys) (omega arith)
plan_questions-append pos (x ∷ xs) ys =
    let shift : pos + 1 + length xs ≡ pos + suc (length xs) = omega arith in
    ap (◌++◌ (plan_from_archive x (pos + 1))) (plan_questions-append (pos + 1) xs ys)
    ∙ (ap
          (λ n.
            plan_from_archive x (pos + 1) ++ (plan_questions (pos + 1) xs ++ plan_questions n ys))
          shift
        ∙ sym (
            append_assoc (plan_from_archive x (pos + 1)) (plan_questions (pos + 1) xs)
              (plan_questions (pos + suc (length xs)) ys)))

pub fill_questions-Numbered :
    (pos : ℕ) (es : List ArchiveQuestion) → Numbered pos (fill_questions pos es)
unfolding fill_questions question_from_archive
fill_questions-Numbered pos [] = tt
fill_questions-Numbered pos (e ∷ es) = (refl, fill_questions-Numbered (pos + 1) es)

abbrev pub round_questions : List Round → List Question
round_questions [] = []
round_questions (r ∷ rs) = r.questions ++ round_questions rs

-- A round keeps its title, its summary and its number of questions.
abbrev pub Matched : List ArchiveRound → List Round → Type 0
Matched [] [] = Unit
Matched [] (r ∷ rs) = ⊥
Matched (a ∷ as') [] = ⊥
Matched (a ∷ as') (r ∷ rs) =
    (r.title ≡ a.title)
    × (length r.questions ≡ length a.questions)
    × (0 < length r.questions)
    × Matched as' rs

pub record IsFilled (pos : ℕ) (as' : List ArchiveRound) (f : Filled) : Type 0 where
  pub questions : f.questions ≡ fill_questions pos (all_questions as')
  pub plan : f.plan ≡ plan_questions pos (all_questions as')
  pub mirrored : round_questions f.rounds ≡ f.questions
  pub matched : Matched as' f.rounds

pub fill_rounds_inv :
    (i pos : ℕ) (a : ArchiveRound) (as' : List ArchiveRound) (f : Filled)
    → fill_rounds i pos (a ∷ as') ≡ ok f
    → (rest : Filled) × (round_error a ≡ none)
      × (fill_rounds (i + 1) (pos + length a.questions) as' ≡ ok rest)
      × (add_round a i pos rest ≡ f)
unfolding fill_rounds
fill_rounds_inv i pos a as' f h = elim (Option-cases (round_error a)) [
  | inl e ↦
      let (rest, r, k) =
        >>=-eq-ok (fill_rounds (i + 1) (pos + length a.questions) as')
          (λ filled. ok (add_round a i pos filled)) (rw (e, fill_rounds) at h) in
      (rest, e, r, ok-inj k)
  | inr (x, e) ↦ cc (rw (e, fill_rounds) at h)
]

round_error-pos : (a : ArchiveRound) → round_error a ≡ none → 0 < length a.questions
unfolding round_error
round_error-pos a h = ground arith

add_round-IsFilled :
    (i pos : ℕ) (a : ArchiveRound) (as' : List ArchiveRound) (rest : Filled)
    → round_error a ≡ none
    → IsFilled (pos + length a.questions) as' rest
    → IsFilled pos (a ∷ as') (add_round a i pos rest)
unfolding add_round round_from_archive
add_round-IsFilled i pos a as' rest e v =
    let len = length-fill_questions pos a.questions in
    record {
      questions =
          ap (λ qs. fill_questions pos a.questions ++ qs) v.questions
          ∙ sym (fill_questions-append pos a.questions (all_questions as'));
      plan =
          ap (λ ps. plan_questions pos a.questions ++ ps) v.plan
          ∙ sym (plan_questions-append pos a.questions (all_questions as'));
      mirrored = ap (λ qs. fill_questions pos a.questions ++ qs) v.mirrored;
      matched = (refl, len, omega (arith, len, round_error-pos a e), v.matched);
    }

pub fill_rounds-IsFilled :
    (i pos : ℕ) (as' : List ArchiveRound) (f : Filled)
    → fill_rounds i pos as' ≡ ok f
    → IsFilled pos as' f
unfolding fill_rounds
fill_rounds-IsFilled i pos [] f h = subst (IsFilled pos []) (ok-inj h) record {
  questions = unfold fill_questions in refl;
  plan = unfold plan_questions in refl;
  mirrored = refl;
  matched = tt;
}
fill_rounds-IsFilled i pos (a ∷ as') f h =
    let (rest, e, r, k) = fill_rounds_inv i pos a as' f h in
    subst (IsFilled pos (a ∷ as')) k (
      add_round-IsFilled i pos a as' rest e
        (fill_rounds-IsFilled (i + 1) (pos + length a.questions) as' rest r))
