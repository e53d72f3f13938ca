-- ===== src/QuizStore/Options/Handled.antt =====
-- A save of the options of a question, from the rows before to the rows after.
use topbanana.QuizStore.Positions.Dense.{Distinct}
use topbanana.QuizStore.Options.Deleted.{
  option_ids-Distinct, keep_ids-Distinct, delete_options-deleted, deleted_kept, deleted_back,
  deleted,
}
use topbanana.QuizStore.Order.{keep-In}
use topbanana.QuizStore.Options.Synced.{all_written_there, all_written_back, NoRepeat, Holds}
use topbanana.QuizStore.Options.Written.{
  write_options-all_written, all_written-Named, all_written_kept, all_written, next_id-gt,
  next_id_pos, touches, Named,
}
use topbanana.Quiz.{QuizOption}
use topbanana.QuizStore.Options.{saved, handle_options, next_id, is_incoming, option_ids}
use topbanana.Base.{
  ℕ, ◌≤◌, ◌<◌, ◌≡◌, sym, ◌≢◌, ◌↔◌, ◌⊎◌, inl, inr, true, false, not, ◌&&◌, List, map, arith, ◌==◌,
  Bool-cases, keep, In, any-In, In-keep, In-map, In-map_inv,
}

pub record Synced (q : ℕ) (os t t' : List QuizOption) : Type 0 where
  pub others : (r : QuizOption) → r.question_id ≢ q → In r t' ↔ In r t
  pub every : (o : QuizOption) → In o os → (r : QuizOption) × In r t' × Holds q o r
  pub only :
      (r : QuizOption) → In r t' → r.question_id ≡ q → (o : QuizOption) × In o os × Holds q o r

module _ (q : ℕ) where
  In-option_ids :
      (t : List QuizOption) (r : QuizOption) → In r t → r.question_id ≡ q → In r.id (option_ids q t)
  unfolding option_ids
  In-option_ids t r m e =
      In-map (λ (s : QuizOption). s.id) _ r
        (In-keep (λ (s : QuizOption). s.question_id == q) t r m (ground arith))

  option_ids-Named : (t : List QuizOption) (id : ℕ) → In id (option_ids q t) → Named q id t
  unfolding option_ids
  option_ids-Named t id m =
      let (r, k, e) = In-map_inv (λ (s : QuizOption). s.id) _ id m in
      let (l, f) = keep-In (λ (s : QuizOption). s.question_id == q) t r k in
      (r, l, sym e, ground arith)

  -- The rows of the question that the submitted options leave out.
  dropped : List QuizOption → List QuizOption → List ℕ
  dropped os t = keep (λ id. not (is_incoming os id)) (option_ids q t)

  dropped_iff :
      (os t : List QuizOption) (r : QuizOption)
      → In r t
      → r.question_id ≡ q
      → touches q os r ≡ false
      → In r.id (dropped os t)
  unfolding dropped
  dropped_iff os t r m e h =
      In-keep (λ id. not (is_incoming os id)) (option_ids q t) r.id (In-option_ids t r m e)
        (ground arith)

  -- A row that was written is not dropped: an updated one is named, and a new one has a new id.
  written_not_dropped :
      (os t : List QuizOption) (o r : QuizOption)
      → In o os
      → ((o.id ≡ 0) × (next_id t ≤ r.id) ⊎ (r.id ≡ o.id) × (o.id ≢ 0))
      → In r.id (dropped os t)
      → ⊥
  unfolding dropped
  written_not_dropped os t o r m h k =
      let (l, f) = keep-In (λ id. not (is_incoming os id)) (option_ids q t) r.id k in
      elim h [
        | inl (z, g) ↦
            let (s, n, e, y) = option_ids-Named t r.id l in let b = next_id-gt t s n in omega arith
        | inr (e, z) ↦
            let named : is_incoming os r.id ≡ true =
              any-In (λ (p : QuizOption). not (p.id == 0) && (p.id == r.id)) os o m
                (ground arith) in
            ground arith
      ]

  Named-below :
      (os t : List QuizOption)
      → ((o : QuizOption) → In o os → o.id ≢ 0 → Named q o.id t)
      → (o : QuizOption) → In o os
      → o.id < next_id t
  Named-below os t h o m = elim (Bool-cases (o.id == 0)) [
    | inl z ↦ let p = next_id_pos t in ground arith
    | inr z ↦
        let (s, n, e, y) = h o m (λ w. ground arith) in let b = next_id-gt t s n in omega arith
  ]

  handled_Synced :
      (os t : List QuizOption)
      → ((o : QuizOption) → In o os → o.question_id ≡ q)
      → ((o : QuizOption) → In o os → o.id ≢ 0 → Named q o.id t)
      → NoRepeat os
      → Synced q os t (deleted q (dropped os t) (all_written q os t))
  handled_Synced os t own named once = record {
    others = λ r e. (
      λ m. elim (all_written_back q os t r own (deleted_back q (dropped os t) _ r m).0) [
        | inl (k, f) ↦ k
        | inr (o, k, h) ↦ absurd (e h.own)
      ],
      λ m.
          deleted_kept q (dropped os t) _ r (all_written_kept q os t r m (ground arith))
            (λ y. absurd (e y)),
    );
    every = λ o m.
        let (r, k, h, g) = all_written_there q os t own named once (Named-below os t named) o m in
        (r, deleted_kept q (dropped os t) _ r k (λ y. written_not_dropped os t o r m g), h);
    only = λ r m e.
        let (k, f) = deleted_back q (dropped os t) _ r m in
        elim (all_written_back q os t r own k) [
          | inl (l, free) ↦ absurd (f e (dropped_iff os t r l e free))
          | inr h ↦ h
        ];
  }

  -- Saving the options of a question succeeds when every submitted option with an id names a row of the
  -- question, no two of them the same one, and ids are unique in the table. Afterwards every submitted
  -- option has a row of the question with its text and its flag, and with its id if it had one; every row
  -- of the question is the row of a submitted option, so the rows left out are gone; and the rows of other
  -- questions are those of before.
  pub handle_options-Synced :
      (os t : List QuizOption)
      → ((o : QuizOption) → In o os → o.question_id ≡ q)
      → ((o : QuizOption) → In o os → o.id ≢ 0 → Named q o.id t)
      → NoRepeat os
      → Distinct (map (λ (r : QuizOption). r.id) t)
      → (t' : List QuizOption) × (handle_options q os t ≡ saved t') × Synced q os t t'
  unfolding handle_options dropped
  handle_options-Synced os t own named once d =
      let gone =
        delete_options-deleted q (dropped os t) (all_written q os t)
          (keep_ids-Distinct _ (option_ids q t) (option_ids-Distinct q t d))
          (λ id m.
            all_written-Named q os t id
              (option_ids-Named t id (keep-In _ (option_ids q t) id m).0)) in
      (
        deleted q (dropped os t) (all_written q os t),
        rw (write_options-all_written q os t named) gone,
        handled_Synced os t own named once,
      )
