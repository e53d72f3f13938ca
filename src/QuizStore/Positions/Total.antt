-- ===== src/QuizStore/Positions/Total.antt =====
-- Renumbering the rows of a quiz always succeeds.
use topbanana.QuizStore.Positions.Safe.{pos_inj, neg_inj, neg-ne-pos, update_position_free}
use topbanana.QuizStore.Positions.Renumber.{
  park_all-other, park_all-moved, settle_all-other, settle_all-moved, park_all, settle_all,
}
use topbanana.QuizStore.Positions.Dense.{
  moves_from-stays, has, moves_from-AtPlace, place_inj, place, AtPlace, Distinct,
}
use topbanana.QuizStore.Positions.{renumber_dense_positions, moves_from, park, settle}
use topbanana.QuizStore.{Result, set_at, Table, update_position, ok, Row}
use topbanana.Base.{
  neg, pos, ℤ, ℕ, ◌+◌, ◌<◌, ◌≡◌, refl, sym, ap, subst, ◌∙◌, ◌⊎◌, inl, inr, false, List, [], ◌∷◌,
  map, arith, ◌==◌, ==_iff, Bool-cases, In, any_sound,
}

-- The ids of a quiz: exactly its rows, each once, and every one is positive.
pub record AreRows (quiz : ℕ) (rows : List Row) (ids : List ℕ) : Type 0 where
  pub distinct : Distinct ids
  pub own : (r : Row) → In r rows → In r.id ids → r.quiz_id ≡ quiz
  pub listed : (r : Row) → In r rows → r.quiz_id ≡ quiz → In r.id ids
  pub positive : (id : ℕ) → In id ids → 0 < id

-- A row of the quiz stands at a proper position or is parked.
abbrev pub Parking : ℕ → List Row → (ℕ → ℤ) → Type 0
Parking quiz rows f =
    (s : Row) → In s rows → s.quiz_id ≡ quiz → ((n : ℕ) × (f s.id ≡ pos n)) ⊎ (f s.id ≡ neg s.id)

-- A row of the quiz is parked or stands at its place.
abbrev pub Settling : ℕ → List Row → List ℕ → (ℕ → ℤ) → Type 0
Settling quiz rows ids f =
    (s : Row)
    → In s rows
    → s.quiz_id ≡ quiz
    → (f s.id ≡ neg s.id) ⊎ (f s.id ≡ pos (place s.id ids + 1))

module _ (quiz : ℕ) (rows : List Row) (ids : List ℕ) (v : AreRows quiz rows ids) where
  abbrev pub at : (ℕ → ℤ) → Table
  at f = record { rows = rows; position = f }

  park-step :
      (f : ℕ → ℤ) (id : ℕ)
      → In id ids
      → Parking quiz rows f
      → (update_position (neg id) id (at f) ≡ ok (at (set_at f id (neg id))))
        × Parking quiz rows (set_at f id (neg id))
  park-step f id i p = (
    update_position_free (at f) (neg id) id quiz
        (λ r m e. v.own r m (subst (λ (z : ℕ). In z ids) (sym e) i))
        (λ s m q ne k. elim (p s m q) [
          | inl (n, e) ↦ neg-ne-pos id n (v.positive id i) (sym k ∙ e)
          | inr e ↦ ne (neg_inj s.id id (sym e ∙ k))
        ]),
    λ s m q. elim (Bool-cases (s.id == id)) [
      | inl e ↦ inr (rw e (ap neg (sym ((==_iff s.id id).0 e))))
      | inr e ↦ rw e (p s m q)
    ],
  )

  park-park_all :
      (ms : List (ℕ × ℕ)) (f : ℕ → ℤ)
      → ((m : ℕ × ℕ) → In m ms → In m.0 ids)
      → Parking quiz rows f
      → park ms (at f) ≡ ok (at (park_all ms f))
  unfolding park
  park-park_all [] f i p = refl
  park-park_all (m ∷ ms) f i p =
      let (e, p') = park-step f m.0 (i m (inl refl)) p in
      rw e (park-park_all ms (set_at f m.0 (neg m.0)) (λ k h. i k (inr h)) p')

  settle-step :
      (f : ℕ → ℤ) (m : ℕ × ℕ)
      → AtPlace 0 ids m
      → Settling quiz rows ids f
      → (update_position (pos m.1) m.0 (at f) ≡ ok (at (set_at f m.0 (pos m.1))))
        × Settling quiz rows ids (set_at f m.0 (pos m.1))
  settle-step f m (i, at_place) p = (
    update_position_free (at f) (pos m.1) m.0 quiz
        (λ r h e. v.own r h (subst (λ (z : ℕ). In z ids) (sym e) i))
        (λ s h q ne k. elim (p s h q) [
          | inl e ↦ neg-ne-pos s.id m.1 (v.positive s.id (v.listed s h q)) (sym e ∙ k)
          | inr e ↦ ne (
              place_inj s.id m.0 ids (v.listed s h q) i
                (omega (arith, pos_inj _ _ (sym e ∙ k), at_place)))
        ]),
    λ s h q. elim (Bool-cases (s.id == m.0)) [
      | inl e ↦ inr (
          rw e
            (ap pos (omega (arith, at_place, ap (λ (x : ℕ). place x ids) ((==_iff s.id m.0).0 e)))))
      | inr e ↦ rw e (p s h q)
    ],
  )

  settle-settle_all :
      (ms : List (ℕ × ℕ)) (f : ℕ → ℤ)
      → ((m : ℕ × ℕ) → In m ms → AtPlace 0 ids m)
      → Settling quiz rows ids f
      → settle ms (at f) ≡ ok (at (settle_all ms f))
  unfolding settle
  settle-settle_all [] f i p = refl
  settle-settle_all (m ∷ ms) f i p =
      let (e, p') = settle-step f m (i m (inl refl)) p in
      rw e (settle-settle_all ms (set_at f m.0 (pos m.1)) (λ k h. i k (inr h)) p')

  module _ (f : ℕ → ℤ) where
    abbrev moves : List (ℕ × ℕ)
    moves = moves_from 0 ids (map f ids)

    placed : (m : ℕ × ℕ) → In m moves → AtPlace 0 ids m
    placed m h = moves_from-AtPlace f 0 ids m v.distinct h

    stays : (x : ℕ) → In x ids → has x moves ≡ false → f x ≡ pos (place x ids + 1)
    stays x i h = moves_from-stays f 0 ids x v.distinct i h ∙ ap pos (omega arith)

    parked-Settling : Settling quiz rows ids (park_all moves f)
    parked-Settling s m q = elim (Bool-cases (has s.id moves)) [
      | inl e ↦ inl (park_all-moved moves f s.id (inl e))
      | inr e ↦ inr (park_all-other moves f s.id e ∙ stays s.id (v.listed s m q) e)
    ]

    settled : (x : ℕ) → In x ids → settle_all moves (park_all moves f) x ≡ pos (place x ids + 1)
    settled x i = elim (Bool-cases (has x moves)) [
      | inl e ↦
          settle_all-moved moves (park_all moves f) x (place x ids + 1)
            (λ m h e. omega (arith, (placed m h).1, ap (λ (y : ℕ). place y ids) e)) (inl e)
      | inr e ↦
          settle_all-other moves (park_all moves f) x e ∙ (park_all-other moves f x e ∙ stays x i e)
    ]

    untouched : (x : ℕ) → (In x ids → ⊥) → settle_all moves (park_all moves f) x ≡ f x
    untouched x out = elim (Bool-cases (has x moves)) [
      | inl e ↦
          let (m, h, k) = any_sound _ moves e in
          absurd (out (subst (λ (z : ℕ). In z ids) ((==_iff m.0 x).0 k) (placed m h).0))
      | inr e ↦ settle_all-other moves (park_all moves f) x e ∙ park_all-other moves f x e
    ]

  -- Rows renumbered: every row of the quiz at its place counted from 1, every other position as it was.
  pub record Renumbered (f : ℕ → ℤ) (r : Result Table) : Type 0 where
    pub column : ℕ → ℤ
    pub succeeded : r ≡ ok (at column)
    pub dense : (x : ℕ) → In x ids → column x ≡ pos (place x ids + 1)
    pub others : (x : ℕ) → (In x ids → ⊥) → column x ≡ f x

  -- The two passes never violate the unique index, which is checked at every update, whatever the positions
  -- were, if the rows of the quiz have positions that are not negative, or are already parked: afterwards
  -- each row of the quiz has its place in the given order, counted from 1, and no other position changed.
  pub renumber_dense_positions-Renumbered :
      (f : ℕ → ℤ)
      → Parking quiz rows f
      → Renumbered f (renumber_dense_positions ids (map f ids) (at f))
  unfolding renumber_dense_positions
  renumber_dense_positions-Renumbered f p =
      let ms = moves f in
      let parked = park-park_all ms f (λ m h. (placed f m h).0) p in
      let all_settled = settle-settle_all ms (park_all ms f) (placed f) (parked-Settling f) in
      record {
        column = settle_all ms (park_all ms f);
        succeeded = rw parked all_settled;
        dense = settled f;
        others = untouched f;
      }
