-- ===== src/Game/Slots.antt =====
-- The round-driven play sequence: nextRoundSlot of internal/game/game.go.
pub mod Sequence
pub mod Drain
use text.Mathlib.Text.{◌==◌ as str_eq}
use topbanana.Base.{
  ℕ, Bool, not, ◌&&◌, Option, none, some, List, [], ◌∷◌, ◌++◌, ◌==◌, if◌then◌else◌, find, any,
}
use topbanana.Quiz.{Question, Round}
use topbanana.Game.{RoundPhase, intro, results}

-- `roundSlot`; the zero value is no_slot.
pub data RoundSlot : Type 0 where
  question : Question → RoundSlot
  round_boundary : Round → RoundPhase → RoundSlot
  no_slot : RoundSlot

-- The two maps that the walk reads.
pub record Walked : Type 0 where
  pub asked : ℕ → Bool
  pub seen_round_phases : ℕ → RoundPhase → Bool

-- The loop that builds the map from a round's id to its questions.
unfoldable pub by_round : (ℕ → List Question) → List Question → ℕ → List Question
by_round m [] = m
by_round m (q ∷ qs) = by_round (λ k. if k == q.round_id then m k ++ q ∷ [] else m k) qs

abbrev pub has_summary : Round → Bool
has_summary r = not (str_eq r.summary "")

abbrev pub unasked : Walked → Question → Bool
unasked w q = not (w.asked q.id)

-- One round of the loop: the slot that it returns, if any.
unfoldable pub round_slot : Walked → List Question → Round → Option RoundSlot
round_slot w questions_of_round r =
    if has_summary r && not (w.seen_round_phases r.id intro)
    then some (round_boundary r intro)
    else elim (find (unasked w) questions_of_round) [
      | some q ↦ some (question q)
      | none ↦
          if has_summary r && not (w.seen_round_phases r.id results)
          then some (round_boundary r results)
          else none
    ]

unfoldable pub walk_rounds : Walked → (ℕ → List Question) → List Round → Option RoundSlot
walk_rounds w m [] = none
walk_rounds w m (r ∷ rs) = elim (round_slot w (m r.id) r) [
  | some s ↦ some s
  | none ↦ walk_rounds w m rs
]

abbrev pub is_known : List Round → Question → Bool
is_known rounds q = any (λ r. r.id == q.round_id) rounds

-- The sweep of the questions whose round is not in the list.
unfoldable pub sweep : Walked → List Round → List Question → RoundSlot
sweep w rounds questions = elim (find (λ q. not (is_known rounds q) && unasked w q) questions) [
  | some q ↦ question q
  | none ↦ no_slot
]

unfoldable pub next_round_slot : List Round → List Question → Walked → RoundSlot
unfolding by_round round_slot walk_rounds sweep
next_round_slot rounds questions w = elim (walk_rounds w (by_round (λ k. []) questions) rounds) [
  | some s ↦ s
  | none ↦ sweep w rounds questions
]
