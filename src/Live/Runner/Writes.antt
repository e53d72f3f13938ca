-- ===== src/Live/Runner/Writes.antt =====
-- Each write of a beat is a move.
use topbanana.Quiz.{Question}
use topbanana.Live.Row.{finish, enter_round_intro, enter_round_results, enter_question}
use topbanana.Live.Transitions.{
  finish_terminal, start_round_intro, end_with, start_round_results, issue_question,
}
use topbanana.Live.{finished, round_results, question, Session, round_intro, same_phase, Room}
use topbanana.Live.Env.{publish, drop_clock, drop_clock, Env, RunnerConfig}
use topbanana.Base.{ℕ, refl, ◌≢◌, Bool, true, false, if◌then◌else◌}
use topbanana.Live.Runner.Moves.{
  same_phase→≡, ended-Move, close_room, entered-Move, Edge, stay, row, Ends, Move,
}

module _ (c : RunnerConfig) (env : Env) (s : Session) (now : ℕ) where
  pub issue_question-Move :
      (q : Question) (r : Room)
      → Edge s.phase question
      → Move s.phase (row r) (row (issue_question c env s q now r))
  unfolding issue_question enter_question
  issue_question-Move q r e =
      entered-Move env.enter_fails now r _ (same_phase r.session.phase s.phase) e
        (same_phase→≡ r.session.phase s.phase) refl

  pub start_round_intro-Move :
      (k : ℕ) (r : Room)
      → Edge s.phase round_intro
      → Move s.phase (row r) (row (start_round_intro c env s k now r))
  unfolding start_round_intro enter_round_intro
  start_round_intro-Move k r e =
      entered-Move env.enter_fails now r _ (same_phase r.session.phase s.phase) e
        (same_phase→≡ r.session.phase s.phase) refl

  pub start_round_results-Move :
      (r : Room)
      → Edge s.phase round_results
      → Move s.phase (row r) (row (start_round_results c env s now r))
  unfolding start_round_results enter_round_results
  start_round_results-Move r e =
      entered-Move env.enter_fails now r _ (same_phase r.session.phase s.phase) e
        (same_phase→≡ r.session.phase s.phase) refl

  pub end_with-Move :
      (bumps : Bool) (r : Room)
      → Ends s.phase
      → Move s.phase (row r) (row (end_with c env bumps now r))
  unfolding end_with
  end_with-Move bumps r e = ended-Move env.intermit_fails now bumps r e

  pub finish_terminal-Move :
      (r : Room) → s.phase ≢ finished → Move s.phase (row r) (row (finish_terminal c env now r))
  unfolding finish_terminal finish
  finish_terminal-Move r h = closed env.finish_fails
    where
      closed :
          (failed : Bool)
          → Move s.phase (row r) (
              row (
                if failed
                then r
                else record (publish finished (drop_clock (finish now r))) { forgotten = true }))
      closed true = stay
      closed false = close_room h
