-- ===== src/Live/Runner/Beats.antt =====
-- Every beat of a room is a move.
use topbanana.Live.Runner.Writes.{
  start_round_results-Move, start_round_intro-Move, end_with-Move, finish_terminal-Move,
  issue_question-Move,
}
use topbanana.Live.Plan.{
  next_question_in_round, first_question_of_round, first_round, next_round, QuestionPlan,
}
use topbanana.Live.Row.{mark_started, enter_reveal}
use topbanana.Live.Transitions
use topbanana.Live.Runner.{
  begin_session, rearm_runner, unless_closed, round_over, advance_phase, reveal_over, results_over,
  intro_over, started_room, after_beat, advance_reveal, advance_round_results, advance,
  close_question, first_round_of, advance_question, advance_round_intro, enter_first_round,
  advance_lobby, advance_after_round,
}
use topbanana.Live.Transitions.{
  close_if_idle, all_active_answered, end_empty_game, score_question, load_plan, score_current,
  has_quiz, finish_terminal, start_round_intro, end_with, start_round_results, issue_question,
}
use topbanana.Live.{
  finished, intermission, round_results, reveal, question, Session, round_intro, lobby, Room, Phase,
}
use topbanana.Live.Env.{phase_entered_at, drop_clock, drop_clock, entered, Env, RunnerConfig}
use topbanana.Base.{
  ℕ, ◌+◌, ◌≡◌, refl, ◌⊎◌, inl, inr, Bool, true, false, not, ◌&&◌, Option, none, some, arith, ltb,
}
use topbanana.Live.Runner.Moves.{
  ask_next, and-true, ask, sum_up, ends_results, ends_intro, start, same_phase→≡, close, skip,
  ends_reveal, go_on, move_from, ends_lobby, entered-Move, of_if, of_option, Edge, stay, row, Ends,
  Move,
}

module _ (c : RunnerConfig) (env : Env) (s : Session) (now : ℕ) where
  abbrev pub Moved : Room → Room → Type 0
  Moved r r' = Move s.phase (row r) (row r')

  advance_after_round-Move :
      (plan : QuestionPlan) (r : Room)
      → Edge s.phase round_intro
      → Ends s.phase
      → Moved r (advance_after_round c env s plan now r)
  unfolding advance_after_round Transitions.end_game
  advance_after_round-Move plan r e f =
      of_option (Moved r) (next_round plan s.current_round_id)
        (end_with-Move c env s now (has_quiz c env s.quiz_id) r f)
        (λ k. start_round_intro-Move c env s now k r e)

  enter_first_round-Move : (r : Room) → s.phase ≡ lobby → Moved r (enter_first_round c env s now r)
  unfolding enter_first_round first_round_of end_empty_game
  enter_first_round-Move r h = of_option (Moved r) (load_plan c env s) stay (λ plan.
      of_option (Moved r) (first_round plan) (end_with-Move c env s now false r (rw h ends_lobby))
        (λ k. start_round_intro-Move c env s now k r (rw h start)))

  advance_lobby-Move : (r : Room) → s.phase ≡ lobby → Moved r (advance_lobby c env s now r)
  unfolding advance_lobby started_room mark_started
  advance_lobby-Move r h =
      of_option (Moved r) s.started_at
        (of_option (Moved r) s.start_at stay (λ t.
          of_if (Moved r) (ltb now t) stay
            (of_if (Moved r) env.mark_started_fails stay (marked r.session.started_at))))
        (λ t. enter_first_round-Move r h)
    where
      marked :
          (o : Option ℕ)
          → Moved r (
              started_room c env s now (elim o [
                | none ↦ (true, record r { session = record (r.session) { started_at = some now } })
                | some t ↦ (false, r)
              ]))
      marked none = enter_first_round-Move _ h
      marked (some t) = stay

  after_beat-Move :
      (beat : ℕ) (next : Room → Room) (r : Room)
      → ((o : Option ℕ) → Moved r (next (record r { phase_since = o })))
      → Moved r (after_beat c env beat now (phase_entered_at now r) next)
  unfolding phase_entered_at
  after_beat-Move beat next r h = of_clock r.phase_since (h r.phase_since)
    where
      of_clock :
          (o : Option ℕ)
          → Moved r (next r)
          → Moved r (
              after_beat c env beat now
                (elim o [ none ↦ (now, record r { phase_since = some now }) | some t ↦ (t, r) ])
                next)
      of_clock none g = of_if (Moved r) (ltb now (now + beat)) stay (h (some now))
      of_clock (some t) g = of_if (Moved r) (ltb now (t + beat)) stay g

  advance_round_intro-Move :
      (r : Room) → s.phase ≡ round_intro → Moved r (advance_round_intro c env s now r)
  unfolding advance_round_intro intro_over
  advance_round_intro-Move r h = after_beat-Move c.round_intro_beat (intro_over c env s now) r (λ o.
      of_option (Moved r) (load_plan c env s) stay (λ plan.
        of_option (Moved r) (first_question_of_round plan s.current_round_id)
          (advance_after_round-Move plan _ (rw h skip) (rw h ends_intro))
          (λ q. issue_question-Move c env s now q _ (rw h ask))))

  advance_reveal-Move : (r : Room) → s.phase ≡ reveal → Moved r (advance_reveal c env s now r)
  unfolding advance_reveal reveal_over round_over Transitions.end_game
  advance_reveal-Move r h = after_beat-Move c.reveal_beat (reveal_over c env s now) r (λ o.
      of_option (Moved r) (load_plan c env s) stay (λ plan.
        of_option (Moved r) (next_question_in_round plan s.current_round_id s.current_question_id)
          (of_option (Moved r) (next_round plan s.current_round_id)
            (end_with-Move c env s now (has_quiz c env s.quiz_id) _ (rw h ends_reveal))
            (λ k. start_round_results-Move c env s now _ (rw h sum_up)))
          (λ q. issue_question-Move c env s now q _ (rw h ask_next))))

  advance_round_results-Move :
      (r : Room) → s.phase ≡ round_results → Moved r (advance_round_results c env s now r)
  unfolding advance_round_results results_over
  advance_round_results-Move r h =
      after_beat-Move c.round_results_beat (results_over c env s now) r (λ o.
        of_option (Moved r) (load_plan c env s) stay
          (λ plan. advance_after_round-Move plan _ (rw h go_on) (rw h ends_results)))

  score_current-row : (id expires : ℕ) (r : Room) → row (score_current c env s id expires r) ≡ row r
  unfolding score_current score_question
  score_current-row id expires r = ground arith

  revealed-Move :
      (id : ℕ) (r : Room)
      → Edge s.phase reveal
      → Moved r (entered env.enter_fails now reveal r (enter_reveal s.phase id r))
  unfolding enter_reveal
  revealed-Move id r e =
      entered-Move env.enter_fails now r _ _ e
        (λ t. same_phase→≡ r.session.phase s.phase (and-true _ _ t)) refl

  close_question-Move :
      (id expires : ℕ) (r : Room)
      → s.phase ≡ question
      → Moved r (close_question c env s id expires now r)
  unfolding close_question
  close_question-Move id expires r h =
      of_if (Moved r) (ltb now expires && not (all_active_answered c env id now)) stay (
        move_from (score_current-row id expires r)
          (revealed-Move id (score_current c env s id expires r) (rw h close)))

  advance_question-Move : (r : Room) → s.phase ≡ question → Moved r (advance_question c env s now r)
  unfolding advance_question
  advance_question-Move r h =
      of_option (Moved r) s.current_question_id stay
        (λ id. of_option (Moved r) s.question_expires_at stay (λ t. close_question-Move id t r h))

  -- Of the idle check: the room is closed by a move, or is what it was.
  abbrev Checked : Room → Bool × Room → Type 0
  Checked r w = ((w.0 ≡ true) × Moved r w.1) ⊎ ((w.0 ≡ false) × (w.1 ≡ r))

  close_if_idle-Checked : (r : Room) → Checked r (close_if_idle c env s now r)
  unfolding close_if_idle
  close_if_idle-Checked r = grind (arith, finish_terminal-Move c env s now r)

  phase-Move : (p : Phase) (r : Room) → s.phase ≡ p → Moved r (advance_phase c env p s now r)
  unfolding advance_phase
  phase-Move lobby r h = advance_lobby-Move r h
  phase-Move round_intro r h = advance_round_intro-Move r h
  phase-Move question r h = advance_question-Move r h
  phase-Move reveal r h = advance_reveal-Move r h
  phase-Move round_results r h = advance_round_results-Move r h
  phase-Move intermission r h = stay
  phase-Move finished r h = stay

  unless_closed-Move :
      (r : Room) (w : Bool × Room) → Checked r w → Moved r (unless_closed c env s now w)
  unless_closed-Move r (true, x) (inl (e, m)) = m
  unless_closed-Move r (false, x) (inl (e, m)) = ground arith
  unless_closed-Move r (true, x) (inr (e, m)) = ground arith
  unless_closed-Move r (false, x) (inr (e, m)) = rw m (phase-Move s.phase r refl)

  -- A beat keeps the phase, follows an edge of the runner's graph from the phase that it loaded if the row
  -- is still in that phase, ends a game that is not over, adding at most one play count, or closes the
  -- room; the game number stays.
  pub advance-Move : (r : Room) → Move s.phase (row r) (row (advance c env s now r))
  unfolding advance
  advance-Move r = unless_closed-Move r (close_if_idle c env s now r) (close_if_idle-Checked r)

  pub begin_session-Move : (r : Room) → Moved r (begin_session c env s now r)
  unfolding begin_session
  begin_session-Move r = begun s.phase refl
    where
      begun :
          (p : Phase)
          → s.phase ≡ p
          → Moved r (elim p [ lobby ↦ enter_first_round c env s now r | _ ↦ r ])
      begun lobby h = enter_first_round-Move r h
      begun round_intro h = stay
      begun question h = stay
      begun reveal h = stay
      begun round_results h = stay
      begun intermission h = stay
      begun finished h = stay

  pub rearm_runner-Move : (r : Room) → Moved r (rearm_runner c env s now r)
  unfolding rearm_runner
  rearm_runner-Move r = begin_session-Move (drop_clock r)
