-- ===== src/QuizStore/Options/Written.antt =====
-- The loop over the submitted options, on a table that has every row that it updates.
use topbanana.Quiz.{QuizOption}
use topbanana.QuizStore.Options.{
  saved, update_option, is_incoming, is_row, write_option, write_options, set_option, next_id,
  create_option,
}
use topbanana.Base.{
  ℕ, ◌≤◌, ◌<◌, ◌≡◌, refl, ap, subst, ◌∙◌, ◌≢◌, inl, inr, Bool, false, ◌&&◌, List, [], ◌∷◌, map,
  arith, ◌==◌, if◌then◌else◌, Bool-cases, In, any-In, In-map,
}

pub next_id-gt : (t : List QuizOption) (r : QuizOption) → In r t → r.id < next_id t
unfolding next_id
next_id-gt [] r m = absurd m
next_id-gt (s ∷ t) r (inl e) = let k = ap (λ (z : QuizOption). z.id) e in ground arith
next_id-gt (s ∷ t) r (inr m) = let k = next_id-gt t r m in ground arith

next_id_least :
    (n : ℕ) (t : List QuizOption) → 0 < n → ((r : QuizOption) → In r t → r.id < n) → next_id t ≤ n
unfolding next_id
next_id_least n [] p h = omega arith
next_id_least n (s ∷ t) p h =
    let k = next_id_least n t p (λ r m. h r (inr m)) in let g = h s (inl refl) in ground arith

pub next_id_pos : (t : List QuizOption) → 0 < next_id t
unfolding next_id
next_id_pos [] = omega arith
next_id_pos (s ∷ t) = let k = next_id_pos t in ground arith

-- What a round of the loop makes of the table when it is not refused, and what the loop makes of it.
unfoldable pub written : ℕ → QuizOption → List QuizOption → List QuizOption
unfolding create_option
written q o t = if o.id == 0 then create_option o t else map (set_option q o) t

unfoldable pub all_written : ℕ → List QuizOption → List QuizOption → List QuizOption
all_written q [] t = t
all_written q (o ∷ os) t = all_written q os (written q o t)

-- A row with this id of this question.
abbrev pub Named : ℕ → ℕ → List QuizOption → Type 0
Named q id t = (r : QuizOption) × In r t × (r.id ≡ id) × (r.question_id ≡ q)

module _ (q : ℕ) where
  pub set_option-id : (o r : QuizOption) → (set_option q o r).id ≡ r.id
  set_option-id o r = ground arith

  pub set_option-question : (o r : QuizOption) → (set_option q o r).question_id ≡ r.question_id
  set_option-question o r = ground arith

  pub written-Named :
      (o : QuizOption) (t : List QuizOption) (id : ℕ) → Named q id t → Named q id (written q o t)
  unfolding written create_option
  written-Named o t id (r, m, e, f) = elim (Bool-cases (o.id == 0)) [
    | inl z ↦ rw z (r, inr m, e, f)
    | inr z ↦ rw z (
      set_option q o r,
      In-map (set_option q o) t r m,
      set_option-id o r ∙ e,
      set_option-question o r ∙ f,
    )
  ]

  pub next_id-written : (o : QuizOption) (t : List QuizOption) → next_id t ≤ next_id (written q o t)
  unfolding written create_option
  next_id-written o t = elim (Bool-cases (o.id == 0)) [
    | inl z ↦
        rw z
          let new = next_id-gt (create_option o t) (record o { id = next_id t }) (inl refl) in
            omega arith
    | inr z ↦ rw z (
        next_id_least (next_id (map (set_option q o) t)) t (next_id_pos (map (set_option q o) t))
          (λ r m.
            let k =
              next_id-gt (map (set_option q o) t) (set_option q o r)
                (In-map (set_option q o) t r m) in
            let e = set_option-id o r in omega arith))
  ]

  write_option-written :
      (o : QuizOption) (t : List QuizOption)
      → (o.id ≢ 0 → Named q o.id t)
      → write_option q o t ≡ saved (written q o t)
  unfolding write_option update_option written
  write_option-written o t h = elim (Bool-cases (o.id == 0)) [
    | inl z ↦ rw z refl
    | inr z ↦
        let (r, m, e, f) = h (λ k. ground arith) in
        rw (z, any-In (is_row q o.id) t r m (ground arith)) refl
  ]

  pub all_written-Named :
      (os t : List QuizOption) (id : ℕ) → Named q id t → Named q id (all_written q os t)
  unfolding all_written
  all_written-Named [] t id h = h
  all_written-Named (o ∷ os) t id h =
      all_written-Named os (written q o t) id (written-Named o t id h)

  pub write_options-all_written :
      (os t : List QuizOption)
      → ((o : QuizOption) → In o os → o.id ≢ 0 → Named q o.id t)
      → write_options q os t ≡ saved (all_written q os t)
  unfolding write_options all_written
  write_options-all_written [] t h = refl
  write_options-all_written (o ∷ os) t h = rw (write_option-written o t (h o (inl refl))) (
      write_options-all_written os (written q o t)
        (λ p m z. written-Named o t p.id (h p (inr m) z)))

  -- The loop updates this row.
  abbrev pub touches : List QuizOption → QuizOption → Bool
  touches os r = is_incoming os r.id && (r.question_id == q)

  pub set_option_kept : (o r : QuizOption) → is_row q o.id r ≡ false → set_option q o r ≡ r
  set_option_kept o r h = rw h refl

  written_kept :
      (o : QuizOption) (os t : List QuizOption) (r : QuizOption)
      → In r t
      → touches (o ∷ os) r ≡ false
      → In r (written q o t)
  unfolding written create_option
  written_kept o os t r m h = elim (Bool-cases (o.id == 0)) [
    | inl z ↦ rw z (inr m)
    | inr z ↦ rw z (
        subst (λ (x : QuizOption). In x (map (set_option q o) t))
          (set_option_kept o r (ground arith)) (In-map (set_option q o) t r m))
  ]

  pub all_written_kept :
      (os t : List QuizOption) (r : QuizOption)
      → In r t
      → touches os r ≡ false
      → In r (all_written q os t)
  unfolding all_written
  all_written_kept [] t r m h = m
  all_written_kept (o ∷ os) t r m h =
      all_written_kept os (written q o t) r (written_kept o os t r m h) (ground arith)
