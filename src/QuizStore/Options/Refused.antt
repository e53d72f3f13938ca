-- ===== src/QuizStore/Options/Refused.antt =====
-- A save with an option that the question does not have.
use topbanana.Quiz.{QuizOption}
use topbanana.QuizStore.Options.Written.{
  next_id-written, set_option-question, set_option-id, Named, written,
}
use topbanana.QuizStore.Options.{
  is_row, updating_option_no_rows_affected, refused, set_option, saved, next_id, update_option,
  create_option, write_options, write_option, handle_options,
}
use topbanana.Base.{
  ℕ, ◌<◌, ◌≡◌, refl, sym, ap, subst, ◌∙◌, ◌≢◌, ◌⊎◌, inl, inr, false, List, [], ◌∷◌, map, arith,
  ◌==◌, Bool-cases, any, In, any_sound, In-map_inv,
}

module _ (q : ℕ) where
  foreign_stays :
      (o : QuizOption) (t : List QuizOption) (id : ℕ)
      → id < next_id t
      → (Named q id t → ⊥)
      → Named q id (written q o t)
      → ⊥
  unfolding written create_option
  foreign_stays o t id below foreign = elim (Bool-cases (o.id == 0)) [
    | inl z ↦ rw z (λ (n : Named q id (create_option o t)).
        let (r, m, e, f) = n in
        elim m [
          | inl y ↦ let k = ap (λ (x : QuizOption). x.id) y in omega arith
          | inr k ↦ foreign (r, k, e, f)
        ])
    | inr z ↦ rw z (λ (n : Named q id (map (set_option q o) t)).
        let (r, m, e, f) = n in
        let (s, k, y) = In-map_inv (set_option q o) t r m in
        foreign (
          s,
          k,
          sym (set_option-id q o s) ∙ ap (λ (x : QuizOption). x.id) (sym y) ∙ e,
          sym (set_option-question q o s) ∙ ap (λ (x : QuizOption). x.question_id) (sym y) ∙ f,
        ))
  ]

  refused_here :
      (o : QuizOption) (t : List QuizOption)
      → o.id ≢ 0
      → (Named q o.id t → ⊥)
      → write_option q o t ≡ refused updating_option_no_rows_affected
  unfolding write_option update_option
  refused_here o t z foreign =
      let some_id : (o.id == 0) ≡ false = ground arith in
      elim (Bool-cases (any (is_row q o.id) t)) [
        | inl h ↦
            let (r, m, e) = any_sound (is_row q o.id) t h in
            absurd (foreign (r, m, ground arith, ground arith))
        | inr h ↦ rw (some_id, h) refl
      ]

  write_option-cases :
      (o : QuizOption) (t : List QuizOption)
      → (write_option q o t ≡ saved (written q o t))
        ⊎ (write_option q o t ≡ refused updating_option_no_rows_affected)
  unfolding write_option update_option written
  write_option-cases o t = elim (Bool-cases (o.id == 0)) [
    | inl z ↦ inl (rw z refl)
    | inr z ↦ elim (Bool-cases (any (is_row q o.id) t)) [
      | inl h ↦ inl (rw (z, h) refl)
      | inr h ↦ inr (rw (z, h) refl)
    ]
  ]

  foreign-write_options :
      (os t : List QuizOption) (o : QuizOption)
      → In o os
      → o.id ≢ 0
      → o.id < next_id t
      → (Named q o.id t → ⊥)
      → write_options q os t ≡ refused updating_option_no_rows_affected
  unfolding write_options
  foreign-write_options [] t o m z below foreign = absurd m
  foreign-write_options (p ∷ os) t o (inl e) z below foreign =
      rw
        (subst (λ (x : QuizOption). write_option q x t ≡ refused updating_option_no_rows_affected) e
          (refused_here o t z foreign))
        refl
  foreign-write_options (p ∷ os) t o (inr m) z below foreign = elim (write_option-cases p t) [
    | inr h ↦ rw h refl
    | inl h ↦ rw h (
        foreign-write_options os (written q p t) o m z
          (let up = next_id-written q p t in omega arith) (foreign_stays p t o.id below foreign))
  ]

  -- An option that belongs to another question, or that is gone, cannot be saved: when a submitted option
  -- has an id up to the largest of the table, and no row of the question has that id, saving the options
  -- of the question is refused, whatever else was submitted.
  pub foreign_option_refused :
      (os t : List QuizOption) (o : QuizOption)
      → In o os
      → o.id ≢ 0
      → o.id < next_id t
      → (Named q o.id t → ⊥)
      → handle_options q os t ≡ refused updating_option_no_rows_affected
  unfolding handle_options
  foreign_option_refused os t o m z below foreign =
      rw (foreign-write_options os t o m z below foreign) refl
