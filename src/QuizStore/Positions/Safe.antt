-- ===== src/QuizStore/Positions/Safe.antt =====
-- An update that no other row of the quiz stands in the way of.
use topbanana.QuizStore.Positions.{clamp_index}
use topbanana.QuizStore.{set_at, ok, Row, update_position, is_taken, Table}
use topbanana.Base.{
  pos, negsuc, ℕ, zero, suc, ◌-◌, ◌<◌, min, ◌≡◌, refl, ◌≢◌, ◌↔◌, inl, inr, Bool, true, false, ◌&&◌,
  List, [], ◌∷◌, arith, ◌==◌, Bool-cases, any, In, neg, ◌==ℤ◌, ℤ,
}

pub any-false :
    {A : Type 0} (p : A → Bool) (xs : List A) → ((a : A) → In a xs → p a ≡ false) → any p xs ≡ false
any-false p [] h = refl
any-false p (x ∷ xs) h = rw (h x (inl refl)) (any-false p xs (λ a m. h a (inr m)))

pub ==ℤ_iff : (a b : ℤ) → ((a ==ℤ b) ≡ true) ↔ (a ≡ b)
==ℤ_iff (pos a) (pos b) = ground arith
==ℤ_iff (pos a) (negsuc b) = ground arith
==ℤ_iff (negsuc a) (pos b) = ground arith
==ℤ_iff (negsuc a) (negsuc b) = ground arith

pub ==ℤ_false : (a b : ℤ) → a ≢ b → (a ==ℤ b) ≡ false
==ℤ_false a b h = elim (Bool-cases (a ==ℤ b)) [ inl e ↦ absurd (h ((==ℤ_iff a b).0 e)) | inr e ↦ e ]

-- A parked position is not a proper one, and two ids have different parked positions.
pub neg-ne-pos : (id n : ℕ) → 0 < id → neg id ≢ pos n
neg-ne-pos zero n h e = absurd (omega arith)
neg-ne-pos (suc id) n h e = cc

pub neg_inj : (a b : ℕ) → neg a ≡ neg b → a ≡ b
neg_inj zero zero e = refl
neg_inj zero (suc b) e = cc
neg_inj (suc a) zero e = cc
neg_inj (suc a) (suc b) e = ground arith

pub pos_inj : (a b : ℕ) → pos a ≡ pos b → a ≡ b
pos_inj a b e = cc

module _ (t : Table) (p : ℤ) (id quiz : ℕ) where
  free_row :
      ((s : Row) → In s t.rows → s.quiz_id ≡ quiz → s.id ≢ id → t.position s.id ≢ p)
      → (r : Row) → r.id ≡ id
      → r.quiz_id ≡ quiz
      → is_taken t p r ≡ false
  unfolding is_taken
  free_row h r e q = any-false _ t.rows (λ s m. elim (Bool-cases (s.id == r.id)) [
    | inl same ↦ rw same refl
    | inr other ↦ elim (Bool-cases (s.quiz_id == r.quiz_id)) [
      | inl quizzes ↦
          rw (other, quizzes)
            (==ℤ_false (t.position s.id) p (h s m (ground arith) (λ k. ground arith)))
      | inr elsewhere ↦ rw (other, elsewhere) refl
    ]
  ])

  pub update_position_free :
      ((r : Row) → In r t.rows → r.id ≡ id → r.quiz_id ≡ quiz)
      → ((s : Row) → In s t.rows → s.quiz_id ≡ quiz → s.id ≢ id → t.position s.id ≢ p)
      → update_position p id t ≡ ok (record t { position = set_at t.position id p })
  unfolding update_position
  update_position_free own h =
      rw
        (any-false (λ (r : Row). (r.id == id) && is_taken t p r) t.rows
          (λ r m. elim (Bool-cases (r.id == id)) [
            | inl e ↦ rw e (free_row h r (ground arith) (own r m (ground arith)))
            | inr e ↦ rw e refl
          ]))
        refl

pub clamp_index_lem : (position len : ℕ) → clamp_index position len ≡ min (position - 1) len
unfolding clamp_index
clamp_index_lem position len = ground arith
