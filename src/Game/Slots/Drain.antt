-- ===== src/Game/Slots/Drain.antt =====
-- Playing a quiz to its end: what the walk returns is shown and acknowledged, again and again.
use text.Mathlib.Text.{◌==◌ as str_eq}
use text.Mathlib.TextPositions.{eq_refl}
use topbanana.Base.{
  ℕ, zero, suc, ◌-◌, ◌≤◌, ◌≡◌, refl, ap, ◌∙◌, inl, inr, Bool, true, false, ◌&&◌, List, [], ◌∷◌, map,
  arith, ◌==◌, if◌then◌else◌, Bool-cases, Option-cases, find, keep, count, find-test, In,
  In-append_left, In-append_right, find-In, find-none, count-lt, find-count, In-keep, In-map,
  count-find,
}
use topbanana.Quiz.{Question, Round}
use topbanana.Game.{RoundPhase, intro, results, other_phase}
use topbanana.Game.Slots.{
  RoundSlot, question, round_boundary, no_slot, Walked, next_round_slot, is_known,
}
use topbanana.Game.Slots.Sequence.{
  is_pending, play_sequence, rounds_sequence, round_sequence, boundary, slot_or_none,
  next_round_slot-find,
}

abbrev same_phase : RoundPhase → RoundPhase → Bool
same_phase intro intro = true
same_phase results results = true
same_phase (other_phase s) (other_phase t) = str_eq s t
same_phase _ _ = false

same_phase_refl : (p : RoundPhase) → same_phase p p ≡ true
same_phase_refl intro = refl
same_phase_refl results = refl
same_phase_refl (other_phase s) = eq_refl s

-- The row that issuing a question, or acknowledging a phase, leaves in the maps of the next walk.
unfoldable pub visit : Walked → RoundSlot → Walked
visit w (question q) = record w { asked = λ k. if k == q.id then true else w.asked k }
visit w (round_boundary r p) = record w {
  seen_round_phases =
      λ k phase. if k == r.id && same_phase phase p then true else w.seen_round_phases k phase;
}
visit w no_slot = w

-- The maps after n calls, each acknowledged.
unfoldable pub play : ℕ → List Round → List Question → Walked → Walked
play zero rounds questions w = w
play (suc n) rounds questions w =
    play n rounds questions (visit w (next_round_slot rounds questions w))

visit-is_pending :
    (w : Walked) (s x : RoundSlot) → is_pending (visit w s) x ≡ true → is_pending w x ≡ true
unfolding visit
visit-is_pending w (question q) (question x) h = ground arith
visit-is_pending w (question q) (round_boundary r p) h = h
visit-is_pending w (round_boundary r p) (question x) h = h
visit-is_pending w (round_boundary r p) (round_boundary x p') h = ground arith
visit-is_pending w no_slot x h = h
visit-is_pending w _ no_slot h = cc

visit_done : (w : Walked) (s : RoundSlot) → is_pending (visit w s) s ≡ false
unfolding visit
visit_done w (question q) = ground arith
visit_done w (round_boundary r p) = ground (arith, same_phase_refl p)
visit_done w no_slot = refl

-- How much of the play sequence is ahead.
abbrev pub ahead : List Round → List Question → Walked → ℕ
ahead rounds questions w = count (is_pending w) (play_sequence rounds questions)

ahead-visit :
    (rounds : List Round) (questions : List Question) (w : Walked)
    → ahead rounds questions (visit w (next_round_slot rounds questions w))
      ≤ ahead rounds questions w - 1
unfolding visit
ahead-visit rounds questions w =
    elim (Option-cases (find (is_pending w) (play_sequence rounds questions))) [
      | inl e ↦
          rw (next_round_slot-find rounds questions w, e)
            (omega (arith, count-find (is_pending w) (play_sequence rounds questions) e))
      | inr (s, e) ↦
          rw (next_round_slot-find rounds questions w, e)
            (omega (
              arith,
              count-lt (is_pending (visit w s)) (is_pending w) (play_sequence rounds questions) s
                  (visit-is_pending w s)
                  (find-In (is_pending w) (play_sequence rounds questions) s e) (visit_done w s)
                  (find-test (is_pending w) (play_sequence rounds questions) s e),
            ))
    ]

-- As many calls as there are slots ahead bring the player to the end of the game.
pub play_ends :
    (n : ℕ) (rounds : List Round) (questions : List Question) (w : Walked)
    → ahead rounds questions w ≤ n
    → next_round_slot rounds questions (play n rounds questions w) ≡ no_slot
unfolding play
play_ends zero rounds questions w h =
    next_round_slot-find rounds questions w
    ∙ ap slot_or_none (find-count _ (play_sequence rounds questions) (omega arith))
play_ends (suc n) rounds questions w h =
    play_ends n rounds questions (visit w (next_round_slot rounds questions w))
      (omega (arith, ahead-visit rounds questions w))

-- A question of a listed round stands in that round's part of the sequence.
known-In :
    (questions : List Question) (rounds : List Round) (q : Question)
    → In q questions
    → is_known rounds q ≡ true
    → In (question q) (rounds_sequence questions rounds)
known-In questions [] q m h = cc
known-In questions (r ∷ rs) q m h = elim (Bool-cases (r.id == q.round_id)) [
  | inl e ↦ In-append_left _ (round_sequence questions r) _ (
      In-append_right _ (boundary r intro) _ (
        In-append_left _ (map question (keep (λ x. x.round_id == r.id) questions)) _
          (In-map question _ q (In-keep _ questions q m (ground arith)))))
  | inr e ↦ In-append_right _ (round_sequence questions r) _ (known-In questions rs q m (rw e at h))
]

question-In :
    (rounds : List Round) (questions : List Question) (q : Question)
    → In q questions
    → In (question q) (play_sequence rounds questions)
question-In rounds questions q m = elim (Bool-cases (is_known rounds q)) [
  | inl e ↦ In-append_left _ (rounds_sequence questions rounds) _ (known-In questions rounds q m e)
  | inr e ↦
      In-append_right _ (rounds_sequence questions rounds) _
        (In-map question _ q (In-keep _ questions q m (ground arith)))
]

-- The walk ends only when every question of the quiz has been issued, whether or not its round is
-- listed.
pub no_slot-asked :
    (rounds : List Round) (questions : List Question) (w : Walked) (q : Question)
    → next_round_slot rounds questions w ≡ no_slot
    → In q questions
    → w.asked q.id ≡ true
no_slot-asked rounds questions w q h m =
    elim (Option-cases (find (is_pending w) (play_sequence rounds questions))) [
      | inl e ↦ ground (
        arith,
        find-none (is_pending w) (play_sequence rounds questions) (question q) e
            (question-In rounds questions q m),
      )
      | inr (s, e) ↦ ground (
        arith,
        find-test (is_pending w) (play_sequence rounds questions) s e,
        next_round_slot-find rounds questions w,
      )
    ]
