-- ===== src/Examples/OptionExamples.antt =====
-- A question with two options and a save that renames one, drops one and adds one.
use topbanana.QuizStore.Options.Refused.{foreign_option_refused}
use topbanana.QuizStore.Options.Handled.{handle_options-Synced, Synced}
use topbanana.QuizStore.Options.{
  delete_option, delete_options, option_ids, update_option, create_option, write_option,
  write_options, updating_option_no_rows_affected, refused, saved, handle_options, next_id,
}
use Prim.Native.String.{String}
use topbanana.QuizStore.Options.Written.{Named}
use topbanana.Quiz.{QuizOption}
use topbanana.Base.{
  ℕ, ◌≡◌, refl, sym, ap, ◌≢◌, inl, inr, Bool, true, false, List, [], ◌∷◌, arith, In,
}

abbrev option : ℕ → ℕ → String → Bool → QuizOption
option id question_id text correct = record {
  id = id;
  question_id = question_id;
  text = text;
  correct = correct;
}

-- The options 1 and 2 of question 5, and option 3 of question 6.
abbrev stored : List QuizOption
stored = option 1 5 "red" true ∷ option 2 5 "blue" false ∷ option 3 6 "five" true ∷ []

abbrev submitted : List QuizOption
submitted = option 2 5 "navy" false ∷ option 0 5 "green" true ∷ []

handled :
    handle_options 5 submitted stored
    ≡ saved (option 4 5 "green" true ∷ option 2 5 "navy" false ∷ option 3 6 "five" true ∷ [])
unfolding handle_options write_options write_option create_option next_id update_option option_ids
    delete_options delete_option
handled = refl

submitted_own : (o : QuizOption) → In o submitted → o.question_id ≡ 5
submitted_own o (inl e) = ap (λ (x : QuizOption). x.question_id) e
submitted_own o (inr (inl e)) = ap (λ (x : QuizOption). x.question_id) e
submitted_own o (inr (inr m)) = absurd m

submitted-Named : (o : QuizOption) → In o submitted → o.id ≢ 0 → Named 5 o.id stored
submitted-Named o (inl e) z =
    (option 2 5 "blue" false, inr (inl refl), sym (ap (λ (x : QuizOption). x.id) e), refl)
submitted-Named o (inr (inl e)) z = absurd (z (ap (λ (x : QuizOption). x.id) e))
submitted-Named o (inr (inr m)) z = absurd m

handle_options-Synced_example :
    (t' : List QuizOption) × (handle_options 5 submitted stored ≡ saved t')
    × Synced 5 submitted stored t'
handle_options-Synced_example =
    handle_options-Synced 5 submitted stored submitted_own submitted-Named (refl, (refl, tt))
      (λ m. omega arith, (λ m. omega arith, (λ m. m, tt)))

abbrev foreign : QuizOption
foreign = option 3 5 "six" true

foreign-Named : Named 5 3 stored → ⊥
foreign-Named (r, inl e, h, k) = let i = ap (λ (x : QuizOption). x.id) e in omega arith
foreign-Named (r, inr (inl e), h, k) = let i = ap (λ (x : QuizOption). x.id) e in omega arith
foreign-Named (r, inr (inr (inl e)), h, k) =
    let i = ap (λ (x : QuizOption). x.question_id) e in omega arith
foreign-Named (r, inr (inr (inr m)), h, k) = absurd m

foreign_option_refused_example :
    handle_options 5 (option 0 5 "green" true ∷ foreign ∷ []) stored
    ≡ refused updating_option_no_rows_affected
unfolding next_id
foreign_option_refused_example =
    foreign_option_refused 5 (option 0 5 "green" true ∷ foreign ∷ []) stored foreign
      (inr (inl refl)) (λ e. omega arith) (omega arith) foreign-Named
