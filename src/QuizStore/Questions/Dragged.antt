-- ===== src/QuizStore/Questions/Dragged.antt =====
-- A question that is dragged to a place of a round.
use topbanana.QuizStore.Questions.Ordered.{flatten-Distinct, flatten-In, In-flatten}
use topbanana.QuizStore.Order.{
  Rearranged, insert_at-In, ids-In, Distinct-insert_at, map-insert_at, In-insert_at, keep-Distinct,
  keep-In, id_unique,
}
use topbanana.QuizStore.Positions.{clamp_index, ids_of}
use topbanana.QuizStore.Positions.Dense.{Distinct}
use topbanana.QuizStore.Questions.{
  reorder_questions_for_move, by_round, moved_question, others_in, set_round,
}
use topbanana.QuizStore.Positions.Total.{Parking, AreRows}
use topbanana.QuizStore.{Row}
use topbanana.Base.{
  neg, pos, ℤ, ℕ, ◌≡◌, refl, sym, ap, subst, ◌∙◌, ◌≢◌, ◌⊎◌, inl, inr, true, not, ◌&&◌, List, map,
  arith, ◌==◌, if◌then◌else◌, ==_iff, Bool-cases, Option-cases, length, find, find-test, In,
  find-In, find-none, In-keep, In-map_inv,
}

set_round-id : (k id : ℕ) (r : Row) → (set_round k id r).id ≡ r.id
set_round-id k id r = ground arith

set_round-quiz : (k id : ℕ) (r : Row) → (set_round k id r).quiz_id ≡ r.quiz_id
set_round-quiz k id r = ground arith

-- The rows of a quiz are the same ones after one of them changed its round.
pub AreRows-set_round :
    (quiz k id : ℕ) (rows : List Row) (ids : List ℕ)
    → AreRows quiz rows ids
    → AreRows quiz (map (set_round k id) rows) ids
AreRows-set_round quiz k id rows ids v = record {
  distinct = v.distinct;
  own = λ r m h.
      let (s, i, e) = In-map_inv (set_round k id) rows r m in
      let same : r.id ≡ s.id = ap (λ (r : Row). r.id) e ∙ set_round-id k id s in
      ap (λ (r : Row). r.quiz_id) e
      ∙ (set_round-quiz k id s ∙ v.own s i (subst (λ (n : ℕ). In n ids) same h));
  listed = λ r m q.
      let (s, i, e) = In-map_inv (set_round k id) rows r m in
      let same : r.id ≡ s.id = ap (λ (r : Row). r.id) e ∙ set_round-id k id s in
      let quizzes : s.quiz_id ≡ quiz =
        sym (set_round-quiz k id s) ∙ (sym (ap (λ (r : Row). r.quiz_id) e) ∙ q) in
      subst (λ (n : ℕ). In n ids) (sym same) (v.listed s i quizzes);
  positive = v.positive;
}

pub Parking-set_round :
    (quiz k id : ℕ) (rows : List Row) (f : ℕ → ℤ)
    → Parking quiz rows f
    → Parking quiz (map (set_round k id) rows) f
Parking-set_round quiz k id rows f p r m q =
    let (s, i, e) = In-map_inv (set_round k id) rows r m in
    let same : r.id ≡ s.id = ap (λ (r : Row). r.id) e ∙ set_round-id k id s in
    let quizzes : s.quiz_id ≡ quiz =
      sym (set_round-quiz k id s) ∙ (sym (ap (λ (r : Row). r.quiz_id) e) ∙ q) in
    subst (λ (n : ℕ). ((m : ℕ) × (f n ≡ pos m)) ⊎ (f n ≡ neg n)) (sym same) (p s i quizzes)

-- Where each question of the list goes: the moved one to the target, the others where they are.
module _ (L : List Row) (id target new_position : ℕ) (distinct : Distinct (ids_of L)) (moved : Row)
    (mine : In moved L) (is_it : moved.id ≡ id) where
  abbrev pub goes_to : Row → ℕ
  goes_to r = if r.id == id then target else r.round_id

  abbrev group : ℕ → List Row
  group k = by_round L id target new_position k

  moved_question-moved : moved_question id L ≡ moved
  moved_question-moved = elim (Option-cases (find (λ (r : Row). r.id == id) L)) [
    | inl e ↦ cc (find-none (λ (r : Row). r.id == id) L moved e mine, (==_iff moved.id id).1 is_it)
    | inr (r, e) ↦ rw e (
        id_unique L r moved distinct (find-In _ L r e) mine
          ((==_iff r.id id).0 (find-test _ L r e) ∙ sym is_it))
  ]

  others-inside :
      (k : ℕ) (r : Row) → In r (others_in id k L) → In r L × (goes_to r ≡ k) × (r.id ≢ id)
  others-inside k r m =
      let (h, e) = keep-In (λ (r : Row). not (r.id == id) && (r.round_id == k)) L r m in
      (h, ground arith, λ q. ground arith)

  group-inside : (k : ℕ) (r : Row) → In r (group k) → In r L × (goes_to r ≡ k)
  unfolding by_round
  group-inside k r m = elim (Bool-cases (k == target)) [
    | inl e ↦
        elim (In-insert_at (clamp_index new_position (length (others_in id k L)))
          (moved_question id L) r (others_in id k L) (rw (e, by_round) at m)) [
            | inl s ↦
                let same : r ≡ moved = s ∙ moved_question-moved in
                (subst (λ (x : Row). In x L) (sym same) mine, rw same (ground arith))
            | inr h ↦ let (i, q, n) = others-inside k r h in (i, q)
          ]
    | inr e ↦ let (i, q, n) = others-inside k r (rw (e, by_round) at m) in (i, q)
  ]

  group-Distinct : (k : ℕ) → Distinct (ids_of (group k))
  unfolding by_round
  group-Distinct k =
      let rest = keep-Distinct (λ (r : Row). not (r.id == id) && (r.round_id == k)) L distinct in
      elim (Bool-cases (k == target)) [
        | inl e ↦ rw e (
            subst Distinct
              (sym (
                map-insert_at (λ (r : Row). r.id)
                  (clamp_index new_position (length (others_in id k L))) (moved_question id L)
                  (others_in id k L)))
              (Distinct-insert_at (clamp_index new_position (length (others_in id k L)))
                (moved_question id L).id (ids_of (others_in id k L))
                (λ m.
                  let (s, h, q) = ids-In (moved_question id L).id (others_in id k L) m in
                  let (i, g, n) = others-inside k s h in
                  n (sym q ∙ (ap (λ (r : Row). r.id) moved_question-moved ∙ is_it)))
                rest))
        | inr e ↦ rw e rest
      ]

  In-group : (k : ℕ) (r : Row) → goes_to r ≡ k → In r L → In r (group k)
  unfolding by_round
  In-group k r e m = elim (Bool-cases (r.id == id)) [
    | inl q ↦
        let same : r ≡ moved_question id L =
          id_unique L r moved distinct m mine ((==_iff r.id id).0 q ∙ sym is_it)
          ∙ sym moved_question-moved in
        let there : (k == target) ≡ true = ground arith in
        rw there (
          insert_at-In (clamp_index new_position (length (others_in id k L))) (moved_question id L)
            r (others_in id k L) (inl same))
    | inr q ↦
        let kept : In r (others_in id k L) =
          In-keep (λ (r : Row). not (r.id == id) && (r.round_id == k)) L r m (ground arith) in
        elim (Bool-cases (k == target)) [
          | inl t ↦ rw t (
              insert_at-In (clamp_index new_position (length (others_in id k L)))
                (moved_question id L) r (others_in id k L) (inr kept))
          | inr t ↦ rw t kept
        ]
  ]

  pub ordered-Rearranged :
      (rounds : List Row)
      → Distinct (ids_of rounds)
      → ((r : Row) → In r L → In (goes_to r) (ids_of rounds))
      → Rearranged L (reorder_questions_for_move rounds L id target new_position)
  unfolding reorder_questions_for_move
  ordered-Rearranged rounds d housed = record {
    to = λ r m.
        In-flatten L goes_to group group-inside rounds r (housed r m)
          (In-group (goes_to r) r refl m);
    from = λ r m. flatten-In L goes_to group group-inside rounds r m;
    distinct = λ dl. flatten-Distinct L goes_to group group-inside rounds dl group-Distinct d;
  }
