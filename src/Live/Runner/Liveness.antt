-- ===== src/Live/Runner/Liveness.antt =====
-- The next beat of a phase that is over enters a phase.
use topbanana.Live.Runner.Progress.{
  of_some, advance_round_results-Entered, advance_reveal-Entered, entered-Entered,
  advance_round_intro-Entered, of_false, Entered,
}
use topbanana.Live.Runner.Questions.{not_before, awake, score_current-session}
use topbanana.Live.Plan.{QuestionPlan}
use topbanana.Live.Runner.{unless_closed, advance_question, close_question, advance_phase, advance}
use topbanana.Live.Transitions.{all_active_answered, score_question, score_current, load_plan}
use topbanana.Live.Row.{enter_reveal}
use topbanana.Live.{reveal, round_results, question, round_intro, Session, Phase, Room}
use topbanana.Base.{
  ℕ, ◌+◌, ◌≤◌, ◌≡◌, refl, sym, ap, subst, ◌∙◌, false, not, ◌&&◌, some, [], ◌∷◌, ◌++◌, arith, ltb,
}
use topbanana.Live.Env.{host_last_seen, Env, RunnerConfig, entered}

-- What a phase waits for has come, for a room that entered its phase at t.
pub data Ripe (c : RunnerConfig) (now t : ℕ) (s : Session) : Type 0 where
  intro_shown : s.phase ≡ round_intro → t + c.round_intro_beat ≤ now → Ripe c now t s
  window_closed :
      (q e : ℕ)
      → s.phase ≡ question
      → s.current_question_id ≡ some q
      → s.question_expires_at ≡ some e
      → e ≤ now
      → Ripe c now t s
  reveal_shown : s.phase ≡ reveal → t + c.reveal_beat ≤ now → Ripe c now t s
  results_shown : s.phase ≡ round_results → t + c.round_results_beat ≤ now → Ripe c now t s

Entered-from : (r x y : Room) → x.published ≡ r.published → Entered x y → Entered r y
Entered-from r x y e (p, h, k) = (p, h, k ∙ ap (λ l. l ++ p ∷ []) e)

module _ (c : RunnerConfig) (env : Env) (now : ℕ) (r : Room) where
  abbrev s : Session
  s = r.session

  score_current-published : (q e : ℕ) → (score_current c env s q e r).published ≡ r.published
  unfolding score_current score_question
  score_current-published q e = ground arith

  written-reveal :
      (q : ℕ) (x : Room)
      → env.enter_fails ≡ false
      → x.session.phase ≡ s.phase
      → x.session.current_question_id ≡ some q
      → Entered x (entered env.enter_fails now reveal x (enter_reveal s.phase q x))
  unfolding enter_reveal
  written-reveal q x f h k =
      entered-Entered env.enter_fails _ now reveal x _ f (rw (h, k) (ground arith)) refl refl

  close_question-Entered :
      (q e : ℕ)
      → env.enter_fails ≡ false
      → s.current_question_id ≡ some q
      → e ≤ now
      → Entered r (close_question c env s q e now r)
  unfolding close_question
  close_question-Entered q e f k l =
      let x = score_current c env s q e r in
      let same = score_current-session c env s q e r in
      of_false (Entered r) (ltb now e && not (all_active_answered c env q now)) _ _
        (rw (not_before now e l) refl)
        (Entered-from r x (entered env.enter_fails now reveal x (enter_reveal s.phase q x))
          (score_current-published q e)
          (written-reveal q x f (ap (λ z. z.phase) same)
            (ap (λ z. z.current_question_id) same ∙ k)))

  phase-Entered :
      (plan : QuestionPlan) (t : ℕ) (p : Phase)
      → env.enter_fails ≡ false
      → env.intermit_fails ≡ false
      → load_plan c env s ≡ some plan
      → r.phase_since ≡ some t
      → p ≡ s.phase
      → Ripe c now t s
      → Entered r (advance_phase c env p s now r)
  unfolding advance_phase advance_question
  phase-Entered plan t p f g l k h (intro_shown a b) =
      subst (λ z. Entered r (advance_phase c env z s now r)) (sym (h ∙ a))
        (advance_round_intro-Entered c env s now f g plan l r refl t k (rw a refl) b)
  phase-Entered plan t p f g l k h (reveal_shown a b) =
      subst (λ z. Entered r (advance_phase c env z s now r)) (sym (h ∙ a))
        (advance_reveal-Entered c env s now f g plan l r refl t k (rw a refl) b)
  phase-Entered plan t p f g l k h (results_shown a b) =
      subst (λ z. Entered r (advance_phase c env z s now r)) (sym (h ∙ a))
        (advance_round_results-Entered c env s now f g plan l r refl t k (rw a refl) b)
  phase-Entered plan t p f g l k h (window_closed q e a b d b') =
      subst (λ z. Entered r (advance_phase c env z s now r)) (sym (h ∙ a))
        (of_some (Entered r) s.current_question_id q _ _ b
          (of_some (Entered r) s.question_expires_at e _ _ d (close_question-Entered q e f b b')))

  -- No phase of a running game gets stuck: once its beat or its window is over, the next beat that loads the
  -- row as it is enters a phase and publishes it, if the quiz can be read, no write fails and the host has
  -- been seen within the idle timeout.
  pub beat_progresses :
      (plan : QuestionPlan) (t : ℕ)
      → env.enter_fails ≡ false
      → env.intermit_fails ≡ false
      → load_plan c env r.session ≡ some plan
      → r.phase_since ≡ some t
      → now ≤ host_last_seen r.session + c.idle_close_timeout
      → Ripe c now t r.session
      → Entered r (advance c env r.session now r)
  unfolding advance
  beat_progresses plan t f g l k seen ripe =
      subst (λ w. Entered r (unless_closed c env s now w)) (sym (awake c env s now r seen))
        (phase-Entered plan t s.phase f g l k refl ripe)
