-- ===== src/Quiz/Progress/Loops.antt =====
-- What each loop of QuestionRoundProgress computes.
use topbanana.Base.{
  ℕ, suc, ◌+◌, ◌<◌, ◌≡◌, refl, inl, inr, Bool, true, false, some, List, [], ◌∷◌, ◌++◌, arith, ◌==◌,
  ==_iff, Bool-cases, length, get_elem?, count, All, In, In-append_left, In-append_right,
}
use topbanana.Quiz.{Question}
use topbanana.Quiz.Progress.{Tally, tally_question, tally, round_number_from, round_position_from}

-- The specification counts: the questions of a round, and the rounds in order of appearance.
abbrev pub in_round : ℕ → Question → Bool
in_round r q = q.round_id == r

pub counts-tally :
    (t : Tally) (r : ℕ) (qs : List Question)
    → (tally t qs).counts r ≡ t.counts r + count (in_round r) qs
unfolding tally
counts-tally t r [] = omega arith
counts-tally t r (q ∷ qs) = ground (arith, counts-tally (tally_question t q) r qs)

-- What is marked as seen stands in the order.
abbrev pub SeenListed : Tally → Type 0
SeenListed t = (r : ℕ) → t.seen r ≡ true → In r t.round_order

tally_question-SeenListed :
    (t : Tally) (q : Question)
    → SeenListed t
    → SeenListed (tally_question t q) × In q.round_id (tally_question t q).round_order
unfolding tally_question
tally_question-SeenListed t q h = elim (Bool-cases (t.seen q.round_id)) [
  | inl e ↦ rw e (h, h q.round_id e)
  | inr e ↦ rw e (
    (λ r s. elim (Bool-cases (r == q.round_id)) [
      | inl same ↦ In-append_right r t.round_order _ (inl ((==_iff r q.round_id).0 same))
      | inr other ↦ In-append_left r t.round_order _ (h r (ground arith))
    ]),
    In-append_right q.round_id t.round_order _ (inl refl),
  )
]

tally_question-In :
    (t : Tally) (q : Question) (r : ℕ) → In r t.round_order → In r (tally_question t q).round_order
unfolding tally_question
tally_question-In t q r h = elim (Bool-cases (t.seen q.round_id)) [
  | inl e ↦ rw e h
  | inr e ↦ rw e (In-append_left r t.round_order _ h)
]

tally-In :
    (t : Tally) (qs : List Question) (r : ℕ) → In r t.round_order → In r (tally t qs).round_order
unfolding tally
tally-In t [] r h = h
tally-In t (q ∷ qs) r h = tally-In (tally_question t q) qs r (tally_question-In t q r h)

-- The round of every question is in the order.
pub round_order-In :
    (t : Tally) (qs : List Question) (q : Question)
    → SeenListed t
    → In q qs
    → In q.round_id (tally t qs).round_order
unfolding tally
round_order-In t [] q s m = absurd m
round_order-In t (x ∷ qs) q s (inl e) =
    rw e (tally-In (tally_question t x) qs x.round_id (tally_question-SeenListed t x s).1)
round_order-In t (x ∷ qs) q s (inr m) =
    round_order-In (tally_question t x) qs q (tally_question-SeenListed t x s).0 m

-- The number of a listed round is one past an index at which the order holds it.
pub round_number_at :
    (r i : ℕ) (ids : List ℕ)
    → In r ids
    → (k : ℕ) × (round_number_from r i ids ≡ i + suc k)
      × (k < length ids)
      × (get_elem? ids k ≡ some r)
unfolding round_number_from
round_number_at r i [] m = absurd m
round_number_at r i (id ∷ ids) m = elim (Bool-cases (id == r)) [
  | inl e ↦ (0, rw e (omega arith), omega arith, ground arith)
  | inr e ↦
      let (k, p, l, g) = round_number_at r (i + 1) ids (ground arith) in
      (suc k, rw e (omega arith), omega arith, g)
]

pub round_position-count :
    (q : Question) (acc : ℕ) (pre post : List Question)
    → All (λ x. (x.id == q.id) ≡ false) pre
    → round_position_from q acc (pre ++ q ∷ post) ≡ acc + count (in_round q.round_id) pre + 1
unfolding round_position_from
round_position-count q acc [] post h = ground arith
round_position-count q acc (x ∷ pre) post h =
    ground (
      arith,
      round_position-count q acc pre post h.1,
      round_position-count q (acc + 1) pre post h.1,
    )
