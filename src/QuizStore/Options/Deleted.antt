-- ===== src/QuizStore/Options/Deleted.antt =====
-- The deletion of rows that are there.
use topbanana.QuizStore.Options.Written.{Named}
use topbanana.QuizStore.Order.{keep-In}
use topbanana.QuizStore.Positions.Dense.{Distinct}
use topbanana.QuizStore.Options.{saved, is_row, delete_option, option_ids, delete_options}
use topbanana.Quiz.{QuizOption}
use topbanana.Base.{
  ℕ, ◌≡◌, refl, sym, subst, ◌∙◌, ◌≢◌, inl, inr, Bool, not, List, [], ◌∷◌, map, arith, ◌==◌,
  Bool-cases, keep, In, any-In, In-keep, In-map, In-map_inv,
}

unfoldable pub deleted : ℕ → List ℕ → List QuizOption → List QuizOption
deleted q [] t = t
deleted q (id ∷ ids) t = deleted q ids (keep (λ (r : QuizOption). not (is_row q id r)) t)

pub keep_ids-Distinct : (p : ℕ → Bool) (ids : List ℕ) → Distinct ids → Distinct (keep p ids)
keep_ids-Distinct p [] d = tt
keep_ids-Distinct p (x ∷ ids) (f, d) = elim (Bool-cases (p x)) [
  | inl e ↦ rw e (λ m. f (keep-In p ids x m).0, keep_ids-Distinct p ids d)
  | inr e ↦ rw e (keep_ids-Distinct p ids d)
]

pub option_ids-Distinct :
    (q : ℕ) (t : List QuizOption)
    → Distinct (map (λ (r : QuizOption). r.id) t)
    → Distinct (option_ids q t)
unfolding option_ids
option_ids-Distinct q [] d = tt
option_ids-Distinct q (x ∷ t) (f, d) = elim (Bool-cases (x.question_id == q)) [
  | inl e ↦ rw e (
    λ m.
        let (r, k, h) = In-map_inv (λ (r : QuizOption). r.id) _ x.id m in
        f (
          subst (λ (n : ℕ). In n (map (λ (r : QuizOption). r.id) t)) (sym h)
            (In-map (λ (r : QuizOption). r.id) t r (keep-In _ t r k).0)),
    option_ids-Distinct q t d,
  )
  | inr e ↦ rw e (option_ids-Distinct q t d)
]

module _ (q : ℕ) where
  pub delete_options-deleted :
      (ids : List ℕ) (t : List QuizOption)
      → Distinct ids
      → ((id : ℕ) → In id ids → Named q id t)
      → delete_options q ids t ≡ saved (deleted q ids t)
  unfolding delete_options delete_option deleted
  delete_options-deleted [] t d h = refl
  delete_options-deleted (id ∷ ids) t (f, d) h =
      let (r, m, e, g) = h id (inl refl) in
      rw (any-In (is_row q id) t r m (ground arith)) (
        delete_options-deleted ids _ d (λ i k.
          let (s, l, a, b) = h i (inr k) in
          let other : s.id ≢ id = λ z. f (subst (λ (n : ℕ). In n ids) (sym a ∙ z) k) in
          (s, In-keep (λ (r : QuizOption). not (is_row q id r)) t s l (ground arith), a, b)))

  pub deleted_kept :
      (ids : List ℕ) (t : List QuizOption) (r : QuizOption)
      → In r t
      → (r.question_id ≡ q → In r.id ids → ⊥)
      → In r (deleted q ids t)
  unfolding deleted
  deleted_kept [] t r m h = m
  deleted_kept (id ∷ ids) t r m h =
      let out = λ (y : r.question_id ≡ q) (z : r.id ≡ id). h y (inl z) in
      deleted_kept ids _ r (In-keep (λ (r : QuizOption). not (is_row q id r)) t r m (ground arith))
        (λ y z. h y (inr z))

  pub deleted_back :
      (ids : List ℕ) (t : List QuizOption) (r : QuizOption)
      → In r (deleted q ids t)
      → In r t × (r.question_id ≡ q → In r.id ids → ⊥)
  unfolding deleted
  deleted_back [] t r m = (m, λ y z. z)
  deleted_back (id ∷ ids) t r m =
      let (k, h) = deleted_back ids _ r m in
      let (l, e) = keep-In (λ (r : QuizOption). not (is_row q id r)) t r k in
      (l, λ y z. elim z [ inl w ↦ ground arith | inr w ↦ h y w ])
