-- ===== src/QuizStore/Rounds/Moved.antt =====
-- A round that is dragged to a position stands there, and the others keep their order.
use topbanana.QuizStore.Positions.Safe.{clamp_index_lem}
use topbanana.QuizStore.Positions.Total.{renumber_dense_positions-Renumbered, Renumbered, AreRows}
use topbanana.QuizStore.Rounds.{move_listed, move_round_to_position}
use topbanana.Archive.Export.Faithful.{some-inj}
use topbanana.QuizStore.Order.{
  valid-Parking, list_by_quiz-AreRows, Rearranged-refl, Rearranged-insert_at, Rearranged,
  insert_at-delete_at, In-list_by_quiz, IsValid,
}
use topbanana.QuizStore.Positions.{renumber, clamp_index, delete_at, ids_of, insert_at, index_of}
use topbanana.QuizStore.{round_not_found, err, list_by_quiz, Row, Table}
use topbanana.Base.{
  ℕ, ◌-◌, min, ◌≡◌, refl, sym, ap, subst, ◌∙◌, ◌≢◌, ◌⊎◌, inl, inr, none, some, List, [], ◌∷◌, ◌==◌,
  ==_iff, Bool-cases, Option-cases, length, get_elem?, In,
}

pub index_of-get_elem? :
    (id : ℕ) (rs : List Row) (k : ℕ)
    → index_of id rs ≡ some k
    → (r : Row) × (get_elem? rs k ≡ some r) × (r.id ≡ id)
index_of-get_elem? id [] k h = cc
index_of-get_elem? id (r ∷ rs) k h = elim (Bool-cases (r.id == id)) [
  | inl e ↦ (
    r,
    subst (λ (n : ℕ). get_elem? (r ∷ rs) n ≡ some r) (some-inj (rw e at h)) refl,
    (==_iff r.id id).0 e,
  )
  | inr e ↦ elim (Option-cases (index_of id rs)) [
    | inl n ↦ cc (rw (e, n) at h)
    | inr (j, n) ↦
        let (s, g, q) = index_of-get_elem? id rs j n in
        (s, subst (λ (n : ℕ). get_elem? (r ∷ rs) n ≡ some s) (some-inj (rw (e, n) at h)) g, q)
  ]
]

pub index_of-none :
    (id : ℕ) (rs : List Row) → index_of id rs ≡ none → (r : Row) → In r rs → r.id ≢ id
index_of-none id [] h r m = absurd m
index_of-none id (s ∷ rs) h r m = elim (Bool-cases (s.id == id)) [
  | inl e ↦ cc (rw e at h)
  | inr e ↦ elim (Option-cases (index_of id rs)) [
    | inl n ↦ elim m [
      | inl same ↦ λ q. cc ((==_iff s.id id).1 (ap (λ (r : Row). r.id) (sym same) ∙ q), e)
      | inr k ↦ index_of-none id rs n r k
    ]
    | inr (j, n) ↦ cc (rw (e, n) at h)
  ]
]

not_found :
    (quiz round_id new_position : ℕ) (t : Table)
    → index_of round_id (list_by_quiz quiz t) ≡ none
    → move_round_to_position quiz round_id new_position t ≡ err round_not_found
unfolding move_round_to_position
not_found quiz round_id new_position t e = rw (e, move_round_to_position) refl

found :
    (quiz round_id new_position : ℕ) (t : Table) (idx : ℕ) (moved : Row)
    → index_of round_id (list_by_quiz quiz t) ≡ some idx
    → get_elem? (list_by_quiz quiz t) idx ≡ some moved
    → move_round_to_position quiz round_id new_position t
      ≡ renumber
          (insert_at
            (clamp_index new_position (length (delete_at idx (list_by_quiz quiz t))))
            moved
            (delete_at idx (list_by_quiz quiz t)))
          t
unfolding move_round_to_position move_listed
found quiz round_id new_position t idx moved e g =
    rw (e, move_round_to_position) (rw (g, move_listed) refl)

module _ (quiz round_id new_position : ℕ) (t : Table) (v : IsValid t) where
  -- The listed rounds are the others with the moved one at its old index; renumbered, they are the others
  -- with it at the clamped one.
  pub record RoundMoved : Type 0 where
    pub old_index : ℕ
    pub moved : Row
    pub others : List Row
    pub new_index : ℕ
    pub is_it : moved.id ≡ round_id
    pub clamped : new_index ≡ min (new_position - 1) (length others)
    pub before : list_by_quiz quiz t ≡ insert_at old_index moved others
    pub rows : AreRows quiz t.rows (ids_of (insert_at new_index moved others))
    pub after :
        Renumbered quiz t.rows
          (ids_of (insert_at new_index moved others))
          rows
          t.position
          (move_round_to_position quiz round_id new_position t)

  -- A round of the quiz can be moved to any position: the move succeeds, and the rounds are then at the
  -- places 1, 2, 3 and so on in the listed order from which the round was taken out and put back at the
  -- position, or at the end if there are fewer others. A round that the quiz does not have is not found.
  pub move_round_to_position-RoundMoved :
      RoundMoved
      ⊎ ((move_round_to_position quiz round_id new_position t ≡ err round_not_found)
          × ((r : Row) → In r t.rows → r.quiz_id ≡ quiz → r.id ≢ round_id))
  unfolding renumber
  move_round_to_position-RoundMoved =
      elim (Option-cases (index_of round_id (list_by_quiz quiz t))) [
        | inl e ↦ inr (
          not_found quiz round_id new_position t e,
          λ r m q.
              index_of-none round_id (list_by_quiz quiz t) e r (In-list_by_quiz quiz t v r m q),
        )
        | inr (idx, e) ↦
            let (moved, g, q) = index_of-get_elem? round_id (list_by_quiz quiz t) idx e in
            let others = delete_at idx (list_by_quiz quiz t) in
            let whole = insert_at-delete_at idx moved (list_by_quiz quiz t) g in
            let target = clamp_index new_position (length others) in
            let again : Rearranged (list_by_quiz quiz t) (insert_at target moved others) =
              subst (λ rs. Rearranged rs (insert_at target moved others)) whole
                (Rearranged-insert_at idx target moved others others (Rearranged-refl others)) in
            let rows = list_by_quiz-AreRows quiz t v (insert_at target moved others) again in
            inl record {
              old_index = idx;
              moved = moved;
              others = others;
              new_index = target;
              clamped = clamp_index_lem new_position (length others);
              is_it = q;
              before = sym whole;
              rows = rows;
              after =
                  subst
                    (Renumbered quiz t.rows (ids_of (insert_at target moved others)) rows
                      t.position)
                    (sym (found quiz round_id new_position t idx moved e g))
                    (renumber_dense_positions-Renumbered quiz t.rows
                      (ids_of (insert_at target moved others)) rows t.position
                      (valid-Parking quiz t v));
            }
      ]
