-- ===== src/QuizStore/Options/Synced.antt =====
-- After a save, the rows of a question are the submitted options.
use topbanana.QuizStore.Options.{next_id, set_option, is_row, create_option, is_incoming}
use topbanana.Quiz.{QuizOption}
use topbanana.QuizStore.Options.Written.{
  written-Named, next_id-written, all_written_kept, set_option-id, Named, set_option_kept,
  all_written, touches, written,
}
use topbanana.Base.{
  ℕ, ◌≤◌, ◌<◌, ◌≡◌, refl, sym, subst, ◌∙◌, ◌≢◌, ◌⊎◌, inl, inr, true, false, List, [], ◌∷◌, map,
  arith, ◌==◌, Bool-cases, In, In-map, In-map_inv,
}

-- The row holds what was submitted.
pub record Holds (question : ℕ) (o r : QuizOption) : Type 0 where
  pub own : r.question_id ≡ question
  pub text : r.text ≡ o.text
  pub correct : r.correct ≡ o.correct
  pub same : (o.id ≡ 0) ⊎ (r.id ≡ o.id)

-- No two submitted options name the same row.
abbrev pub NoRepeat : List QuizOption → Type 0
NoRepeat [] = Unit
NoRepeat (o ∷ os) = (is_incoming os o.id ≡ false) × NoRepeat os

is_incoming-fresh :
    (os : List QuizOption) (n : ℕ)
    → ((o : QuizOption) → In o os → o.id < n)
    → is_incoming os n ≡ false
is_incoming-fresh [] n h = refl
is_incoming-fresh (o ∷ os) n h =
    let k = h o (inl refl) in let rest = is_incoming-fresh os n (λ p m. h p (inr m)) in ground arith

module _ (q : ℕ) where
  set_option-Holds :
      (o r : QuizOption) → o.id ≢ 0 → is_row q o.id r ≡ true → Holds q o (set_option q o r)
  set_option-Holds o r z h =
      rw h (record { own = ground arith; text = refl; correct = refl; same = inr (ground arith) })

  written_update :
      (o : QuizOption) (t : List QuizOption)
      → (o.id == 0) ≡ false
      → written q o t ≡ map (set_option q o) t
  unfolding written
  written_update o t z = rw z refl

  untouched : (o r : QuizOption) → is_row q o.id r ≡ false → touches q (o ∷ []) r ≡ false
  untouched o r h = ground arith

  -- A row after one round is as before, or it holds the option.
  written_back :
      (o : QuizOption) (t : List QuizOption) (r : QuizOption)
      → o.question_id ≡ q
      → In r (written q o t)
      → (In r t × (touches q (o ∷ []) r ≡ false)) ⊎ Holds q o r
  unfolding written create_option
  written_back o t r own = elim (Bool-cases (o.id == 0)) [
    | inl z ↦ rw z (λ (m : In r (create_option o t)). elim m [
      | inl e ↦ inr (
          subst (Holds q o) (sym e)
            (record { own = own; text = refl; correct = refl; same = inl (ground arith) }))
      | inr k ↦ inl (k, ground arith)
    ])
    | inr z ↦ λ m.
        let (x, k, e) = In-map_inv (set_option q o) t r (subst (In r) (written_update o t z) m) in
        elim (Bool-cases (is_row q o.id x)) [
          | inl h ↦ inr (subst (Holds q o) (sym e) (set_option-Holds o x (λ y. ground arith) h))
          | inr h ↦
              let same = sym (e ∙ set_option_kept q o x h) in
              inl (
                subst (λ (y : QuizOption). In y t) same k,
                subst (λ (y : QuizOption). touches q (o ∷ []) y ≡ false) same (untouched o x h),
              )
        ]
  ]

  pub all_written_back :
      (os t : List QuizOption) (r : QuizOption)
      → ((o : QuizOption) → In o os → o.question_id ≡ q)
      → In r (all_written q os t)
      → (In r t × (touches q os r ≡ false)) ⊎ ((o : QuizOption) × In o os × Holds q o r)
  unfolding all_written
  all_written_back [] t r own m = inl (m, refl)
  all_written_back (o ∷ os) t r own m =
      elim (all_written_back os (written q o t) r (λ p k. own p (inr k)) m) [
        | inr (p, k, h) ↦ inr (p, inr k, h)
        | inl (k, f) ↦ elim (written_back o t r (own o (inl refl)) k) [
          | inl (l, g) ↦ inl (l, ground arith)
          | inr h ↦ inr (o, inl refl, h)
        ]
      ]

  -- The row that one round writes is there after it and after the rounds that follow.
  written_there :
      (o : QuizOption) (os t : List QuizOption)
      → o.question_id ≡ q
      → (o.id ≢ 0 → Named q o.id t)
      → is_incoming os o.id ≡ false
      → ((p : QuizOption) → In p os → p.id < next_id t)
      → (r : QuizOption) × In r (written q o t)
        × Holds q o r
        × (touches q os r ≡ false)
        × ((o.id ≡ 0) × (next_id t ≤ r.id) ⊎ (r.id ≡ o.id) × (o.id ≢ 0))
  unfolding written create_option
  written_there o os t own h once below = elim (Bool-cases (o.id == 0)) [
    | inl z ↦
        rw z
          let fresh = is_incoming-fresh os (next_id t) below in
            (
              record o { id = next_id t },
              inl refl,
              record { own = own; text = refl; correct = refl; same = inl (ground arith) },
              rw fresh refl,
              inl (ground arith, omega arith),
            )
    | inr z ↦
        rw z
          let (x, k, e, f) = h (λ y. ground arith) in
            let at : is_row q o.id x ≡ true = ground arith in
            (
              set_option q o x,
              In-map (set_option q o) t x k,
              set_option-Holds o x (λ y. ground arith) at,
              rw (set_option-id q o x, e, once) refl,
              inr (set_option-id q o x ∙ e, λ y. ground arith),
            )
  ]

  pub all_written_there :
      (os t : List QuizOption)
      → ((o : QuizOption) → In o os → o.question_id ≡ q)
      → ((o : QuizOption) → In o os → o.id ≢ 0 → Named q o.id t)
      → NoRepeat os
      → ((o : QuizOption) → In o os → o.id < next_id t)
      → (o : QuizOption) → In o os
      → (r : QuizOption) × In r (all_written q os t)
        × Holds q o r
        × ((o.id ≡ 0) × (next_id t ≤ r.id) ⊎ (r.id ≡ o.id) × (o.id ≢ 0))
  unfolding all_written
  all_written_there [] t own h once below o m = absurd m
  all_written_there (p ∷ os) t own h (f, once) below o (inl e) =
      let (r, k, holds, free, g) =
        written_there p os t (own p (inl refl)) (h p (inl refl)) f (λ s l. below s (inr l)) in
      subst
        (λ (z : QuizOption).
          (r : QuizOption) × In r (all_written q os (written q p t))
          × Holds q z r
          × ((z.id ≡ 0) × (next_id t ≤ r.id) ⊎ (r.id ≡ z.id) × (z.id ≢ 0)))
        (sym e) (r, all_written_kept q os (written q p t) r k free, holds, g)
  all_written_there (p ∷ os) t own h (f, once) below o (inr m) =
      let up = next_id-written q p t in
      let (r, k, holds, g) =
        all_written_there os (written q p t) (λ s l. own s (inr l))
          (λ s l z. written-Named q p t s.id (h s (inr l) z)) once
          (λ s l. let b = below s (inr l) in omega arith) o m in
      (r, k, holds, elim g [ inl (z, y) ↦ inl (z, omega arith) | inr y ↦ inr y ])
