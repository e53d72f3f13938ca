-- ===== src/Game/Slots/Sequence.antt =====
-- The walk returns the first pending slot of the play sequence.
use mathlib.Core.List.{append-nil, append_assoc}
use mathlib.Core.Option
use topbanana.Base.{
  ℕ, ◌≡◌, refl, sym, ◌∙◌, Bool, false, not, Option, none, some, List, [], ◌∷◌, ◌++◌, map, arith,
  ◌==◌, if◌then◌else◌, find, keep, find-append, find-keep,
}
use topbanana.Quiz.{Question, Round}
use topbanana.Game.{RoundPhase, intro, results}
use topbanana.Game.Slots.{
  RoundSlot, question, round_boundary, no_slot, Walked, by_round, has_summary, unasked, round_slot,
  walk_rounds, is_known, next_round_slot,
}

-- A slot that is behind the player: an issued question or a boundary phase that was acknowledged.
abbrev pub is_pending : Walked → RoundSlot → Bool
is_pending w (question q) = unasked w q
is_pending w (round_boundary r phase) = not (w.seen_round_phases r.id phase)
is_pending w no_slot = false

abbrev pub boundary : Round → RoundPhase → List RoundSlot
boundary r phase = if has_summary r then round_boundary r phase ∷ [] else []

-- A round in full: its intro, its questions, its results; no cards without a summary.
abbrev pub round_sequence : List Question → Round → List RoundSlot
round_sequence questions r =
    boundary r intro
    ++ (map question (keep (λ q. q.round_id == r.id) questions) ++ boundary r results)

abbrev pub rounds_sequence : List Question → List Round → List RoundSlot
rounds_sequence questions [] = []
rounds_sequence questions (r ∷ rs) = round_sequence questions r ++ rounds_sequence questions rs

-- The whole play sequence: the rounds in order, then the questions of no listed round.
abbrev pub play_sequence : List Round → List Question → List RoundSlot
play_sequence rounds questions =
    rounds_sequence questions rounds ++ map question (keep (λ q. not (is_known rounds q)) questions)

abbrev pub slot_or_none : Option RoundSlot → RoundSlot
slot_or_none none = no_slot
slot_or_none (some s) = s

by_round-keep :
    (m : ℕ → List Question) (qs : List Question) (k : ℕ)
    → by_round m qs k ≡ m k ++ keep (λ q. q.round_id == k) qs
unfolding by_round
by_round-keep m [] k = sym (append-nil (m k))
by_round-keep m (q ∷ qs) k =
    by_round-keep (λ j. if j == q.round_id then m j ++ q ∷ [] else m j) qs k
    ∙ ground (arith, append_assoc (m k) (q ∷ []) (keep (λ x. x.round_id == k) qs))

-- Searching the questions of a list is searching their slots.
find-map_question :
    (w : Walked) (qs : List Question)
    → find (is_pending w) (map question qs) ≡ Option.map question (find (unasked w) qs)
find-map_question w [] = refl
find-map_question w (q ∷ qs) = ground (arith, find-map_question w qs)

round_slot-find :
    (w : Walked) (qs : List Question) (r : Round)
    → round_slot w (keep (λ q. q.round_id == r.id) qs) r ≡ find (is_pending w) (round_sequence qs r)
unfolding round_slot
round_slot-find w qs r = ground (
  arith,
  find-append (is_pending w) (boundary r intro)
      (map question (keep (λ q. q.round_id == r.id) qs) ++ boundary r results),
  find-append (is_pending w) (map question (keep (λ q. q.round_id == r.id) qs))
      (boundary r results),
  find-map_question w (keep (λ q. q.round_id == r.id) qs),
)

walk_rounds-find :
    (w : Walked) (m : ℕ → List Question) (qs : List Question) (rounds : List Round)
    → ((k : ℕ) → m k ≡ keep (λ q. q.round_id == k) qs)
    → walk_rounds w m rounds ≡ find (is_pending w) (rounds_sequence qs rounds)
unfolding walk_rounds
walk_rounds-find w m qs [] h = refl
walk_rounds-find w m qs (r ∷ rs) h = ground (
  arith,
  h r.id,
  round_slot-find w qs r,
  walk_rounds-find w m qs rs h,
  find-append (is_pending w) (round_sequence qs r) (rounds_sequence qs rs),
)

-- The slot that the walk returns is the first pending slot of the play sequence, and there is none
-- exactly when nothing of the sequence is pending.
pub next_round_slot-find :
    (rounds : List Round) (questions : List Question) (w : Walked)
    → next_round_slot rounds questions w
      ≡ slot_or_none (find (is_pending w) (play_sequence rounds questions))
unfolding next_round_slot
next_round_slot-find rounds questions w = ground (
  arith,
  walk_rounds-find w _ questions rounds (by_round-keep (λ k. []) questions),
  find-append (is_pending w) (rounds_sequence questions rounds)
      (map question (keep (λ q. not (is_known rounds q)) questions)),
  find-map_question w (keep (λ q. not (is_known rounds q)) questions),
  find-keep (unasked w) (λ q. not (is_known rounds q)) questions,
)
