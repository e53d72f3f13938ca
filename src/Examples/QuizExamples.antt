-- ===== src/Examples/QuizExamples.antt =====
-- The theorems of the quiz package at the example quiz, and of the walk through its rounds.
use topbanana.Game.Slots.Sequence.{next_round_slot-find, is_pending, slot_or_none, play_sequence}
use topbanana.Quiz.Progress.{question_round_progress}
use topbanana.Quiz.Progress.Places.{progress-Places, Places}
use topbanana.Game.Slots.{no_slot, Walked, next_round_slot}
use topbanana.Game.Slots.Drain.{play_ends, play, no_slot-asked}
use topbanana.Base.{◌≡◌, refl, inl, inr, true, false, [], ◌∷◌, arith, ◌==◌, find}
use topbanana.Examples.Data.{two_rounds, question_at, three_questions}

progress-Places_example :
    Places
      (question_at 1 1 ∷ question_at 2 2 ∷ [])
      (question_at 3 1)
      []
      (question_round_progress three_questions 3)
progress-Places_example =
    progress-Places (question_at 1 1 ∷ question_at 2 2 ∷ []) (question_at 3 1) [] (refl, (refl, tt))

abbrev start : Walked
start = record { asked = λ k. false; seen_round_phases = λ k p. false }

abbrev after_first : Walked
after_first = record { asked = λ k. k == 1; seen_round_phases = λ k p. k == 1 }

next_round_slot-find_example :
    next_round_slot two_rounds three_questions after_first
    ≡ slot_or_none (find (is_pending after_first) (play_sequence two_rounds three_questions))
next_round_slot-find_example = next_round_slot-find two_rounds three_questions after_first

play_ends_example :
    next_round_slot two_rounds three_questions (play 5 two_rounds three_questions start) ≡ no_slot
play_ends_example = play_ends 5 two_rounds three_questions start (omega arith)

abbrev everything : Walked
everything = record { asked = λ k. true; seen_round_phases = λ k p. true }

no_slot-asked_example : everything.asked (question_at 2 2).id ≡ true
unfolding next_round_slot
no_slot-asked_example =
    no_slot-asked two_rounds three_questions everything (question_at 2 2) refl (inr (inl refl))
