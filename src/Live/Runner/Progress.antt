-- ===== src/Live/Runner/Progress.antt =====
-- Each transition of a beat whose writes do not fail enters a phase and publishes it.
use topbanana.Live.Runner.Moves.{of_option}
use topbanana.Live.Plan.{first_question_of_round, next_question_in_round, next_round, QuestionPlan}
use topbanana.Live.Runner.{
  after_beat, round_over, intro_over, results_over, reveal_over, advance_reveal,
  advance_round_results, advance_round_intro, advance_after_round,
}
use topbanana.Live.Transitions.{
  all_active_answered, score_question, score_current, load_plan, has_quiz, start_round_intro,
  issue_question, end_with, start_round_results,
}
use topbanana.Live.Row.{enter_round_results, enter_question, enter_round_intro, is_over, intermit}
use topbanana.Live.{
  round_results, question, round_intro, intermission, Session, same_phase, Phase, Room,
}
use topbanana.Live.Transitions
use topbanana.Base.{
  ℕ, ◌+◌, ◌≤◌, ◌≡◌, refl, ap, subst, Bool, true, false, Option, none, some, [], ◌∷◌, ◌++◌, arith,
  ltb, if◌then◌else◌,
}
use topbanana.Quiz.{Question}
use topbanana.Live.Env.{phase_entered_at, Env, RunnerConfig, publish, entered, drop_clock}

-- The second room has entered a phase and published it.
abbrev pub Entered : Room → Room → Type 0
Entered r r' = (p : Phase) × (r'.session.phase ≡ p) × (r'.published ≡ r.published ++ p ∷ [])

same_phase_refl : (p : Phase) → same_phase p p ≡ true
same_phase_refl p = ground arith

same_phase-≡ : (p q : Phase) → p ≡ q → same_phase p q ≡ true
same_phase-≡ p q h = rw h (same_phase_refl q)

pub entered-Entered :
    (failed test : Bool) (now : ℕ) (p : Phase) (r r' : Room)
    → failed ≡ false
    → test ≡ true
    → r'.session.phase ≡ p
    → r'.published ≡ r.published
    → Entered r (entered failed now p r (if test then (true, r') else (false, r)))
entered-Entered true test now p r r' f t h k = ground arith
entered-Entered false false now p r r' f t h k = ground arith
entered-Entered false true now p r r' f t h k = (p, h, ap (λ l. l ++ p ∷ []) k)

ended-Entered :
    (failed bumps : Bool) (now : ℕ) (r : Room)
    → failed ≡ false
    → is_over r.session.phase ≡ false
    → Entered r (if failed then r else publish intermission (drop_clock (intermit now bumps r)))
unfolding intermit
ended-Entered true bumps now r f h = ground arith
ended-Entered false bumps now r f h = rw h (intermission, refl, refl)

inj : {A : Type 0} {x a : A} → some x ≡ some a → a ≡ x
inj h = cc

pub of_some :
    {A : Type 0} (P : Room → Type 0) (o : Option A) (a : A) (n : Room) (f : A → Room)
    → o ≡ some a
    → P (f a)
    → P (elim o [ none ↦ n | some x ↦ f x ])
of_some P none a n f h p = ground arith
of_some P (some x) a n f h p = subst (λ z. P (f z)) (inj h) p

pub of_false :
    (P : Room → Type 0) (b : Bool) (m n : Room) → b ≡ false → P n → P (if b then m else n)
of_false P true m n h p = ground arith
of_false P false m n h p = p

module _ (c : RunnerConfig) (env : Env) (s : Session) (now : ℕ) (writes : env.enter_fails ≡ false)
    (ends : env.intermit_fails ≡ false) where
  issue_question-Entered :
      (q : Question) (r : Room)
      → r.session.phase ≡ s.phase
      → Entered r (issue_question c env s q now r)
  unfolding issue_question enter_question
  issue_question-Entered q r h =
      entered-Entered env.enter_fails (same_phase r.session.phase s.phase) now question r _ writes
        (same_phase-≡ _ _ h) refl refl

  start_round_intro-Entered :
      (k : ℕ) (r : Room) → r.session.phase ≡ s.phase → Entered r (start_round_intro c env s k now r)
  unfolding start_round_intro enter_round_intro
  start_round_intro-Entered k r h =
      entered-Entered env.enter_fails (same_phase r.session.phase s.phase) now round_intro r _
        writes (same_phase-≡ _ _ h) refl refl

  start_round_results-Entered :
      (r : Room) → r.session.phase ≡ s.phase → Entered r (start_round_results c env s now r)
  unfolding start_round_results enter_round_results
  start_round_results-Entered r h =
      entered-Entered env.enter_fails (same_phase r.session.phase s.phase) now round_results r _
        writes (same_phase-≡ _ _ h) refl refl

  end_game-Entered :
      (r : Room) → is_over r.session.phase ≡ false → Entered r (Transitions.end_game c env s now r)
  unfolding Transitions.end_game end_with
  end_game-Entered r h = ended-Entered env.intermit_fails (has_quiz c env s.quiz_id) now r ends h

  advance_after_round-Entered :
      (plan : QuestionPlan) (r : Room)
      → r.session.phase ≡ s.phase
      → is_over r.session.phase ≡ false
      → Entered r (advance_after_round c env s plan now r)
  unfolding advance_after_round
  advance_after_round-Entered plan r h o =
      of_option (Entered r) (next_round plan s.current_round_id) (end_game-Entered r o)
        (λ k. start_round_intro-Entered k r h)

  passed :
      (P : Room → Type 0) (beat : ℕ) (next : Room → Room) (r : Room) (t : ℕ)
      → r.phase_since ≡ some t
      → t + beat ≤ now
      → P (next r)
      → P (after_beat c env beat now (phase_entered_at now r) next)
  unfolding phase_entered_at
  passed P beat next r t since b p = clocked r.phase_since since
    where
      clocked :
          (o : Option ℕ)
          → o ≡ some t
          → P (
              after_beat c env beat now
                (elim o [ none ↦ (now, record r { phase_since = some now }) | some u ↦ (u, r) ])
                next)
      clocked none e = ground arith
      clocked (some u) e = of_false P (ltb now (u + beat)) _ _ (ground arith) p

  module _ (plan : QuestionPlan) (loaded : load_plan c env s ≡ some plan) (r : Room)
      (fresh : r.session.phase ≡ s.phase) (t : ℕ) (since : r.phase_since ≡ some t)
      (o : is_over r.session.phase ≡ false) where
    pub advance_round_intro-Entered :
        t + c.round_intro_beat ≤ now → Entered r (advance_round_intro c env s now r)
    unfolding advance_round_intro intro_over
    advance_round_intro-Entered b =
        passed (Entered r) c.round_intro_beat (intro_over c env s now) r t since b (
          of_some (Entered r) (load_plan c env s) plan _ _ loaded (
            of_option (Entered r) (first_question_of_round plan s.current_round_id)
              (advance_after_round-Entered plan r fresh o) (λ q. issue_question-Entered q r fresh)))

    pub advance_reveal-Entered : t + c.reveal_beat ≤ now → Entered r (advance_reveal c env s now r)
    unfolding advance_reveal reveal_over round_over
    advance_reveal-Entered b =
        passed (Entered r) c.reveal_beat (reveal_over c env s now) r t since b (
          of_some (Entered r) (load_plan c env s) plan _ _ loaded (
            of_option (Entered r)
              (next_question_in_round plan s.current_round_id s.current_question_id)
              (of_option (Entered r) (next_round plan s.current_round_id) (end_game-Entered r o)
                (λ k. start_round_results-Entered r fresh))
              (λ q. issue_question-Entered q r fresh)))

    pub advance_round_results-Entered :
        t + c.round_results_beat ≤ now → Entered r (advance_round_results c env s now r)
    unfolding advance_round_results results_over
    advance_round_results-Entered b =
        passed (Entered r) c.round_results_beat (results_over c env s now) r t since b (
          of_some (Entered r) (load_plan c env s) plan _ _ loaded
            (advance_after_round-Entered plan r fresh o))
