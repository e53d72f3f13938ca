-- ===== src/Live/Runner/Races.antt =====
-- A room under any sequence of the runner's beats and the service's writes, each with the snapshot that it
-- loaded, at its own time and with its own failures: the callers of the row's statements in
-- internal/livesession.
use topbanana.Live.Runner.Beats.{rearm_runner-Move, begin_session-Move, advance-Move}
use topbanana.Live.Runner.Writes.{finish_terminal-Move}
use topbanana.Live.Runner.Moves.{
  edge_running, Ends, Row, Edge, Move, stay, enter, end_game, close_room, row,
}
use topbanana.Live.Runner.{rearm_runner, begin_session, advance}
use topbanana.Live.Transitions.{finish_terminal}
use topbanana.Live.Runner.Moves.{Move, Row}
use topbanana.Live.{intermission, lobby, finished, Session, Phase, Room}
use topbanana.Live.Row.{is_over, rearm_session, cancel_start, arm_start, mark_started}
use topbanana.Live.Env.{Env, RunnerConfig}
use topbanana.Base.{
  ℕ, ◌+◌, ◌≤◌, ◌≡◌, refl, sym, ap, ◌∙◌, ◌≢◌, ◌⊎◌, inl, inr, List, [], ◌∷◌, arith, if◌then◌else◌,
  length,
}

pub data Write : Type 0 where
  beat : RunnerConfig → Env → Session → ℕ → Write
  begin : RunnerConfig → Env → Session → ℕ → Write
  rearm_run : RunnerConfig → Env → Session → ℕ → Write
  end_room : RunnerConfig → Env → ℕ → Write
  starts : ℕ → Write
  arms : ℕ → Write
  cancels : Write
  rearms : ℕ → Write

unfoldable pub write : Room → Write → Room
unfolding mark_started arm_start cancel_start rearm_session
write r (beat c env s now) = advance c env s now r
write r (begin c env s now) = begin_session c env s now r
write r (rearm_run c env s now) = rearm_runner c env s now r
write r (end_room c env now) = finish_terminal c env now r
write r (starts now) = (mark_started now r).1
write r (arms deadline) = (arm_start deadline r).1
write r cancels = (cancel_start r).1
write r (rearms quiz_id) = (rearm_session quiz_id r).1

unfoldable pub write_all : Room → List Write → Room
unfolding write
write_all r [] = r
write_all r (w ∷ ws) = write_all (write r w) ws

-- The service ends a room that its snapshot does not show as finished.
end_room-Move :
    (c : RunnerConfig) (env : Env) (now : ℕ) (r : Room)
    → Move lobby (row r) (row (finish_terminal c env now r))
end_room-Move c env now r =
    finish_terminal-Move c env (record (r.session) { phase = lobby }) now r (λ e. ground arith)

-- A finished row stays what it is.
finished-Move : {p : Phase} {a b : Row} → a.phase ≡ finished → Move p a b → b ≡ a
finished-Move h stay = refl
finished-Move h (enter e w eq) = let f = (edge_running e).0 in ground arith
finished-Move h (end_game e f g k q) = ground arith
finished-Move {a = a} h (close_room n) = ap (λ p. record a { phase = p }) (sym h)

finished-write : (r : Room) (w : Write) → r.session.phase ≡ finished → row (write r w) ≡ row r
unfolding write mark_started arm_start cancel_start rearm_session
finished-write r (beat c env s now) h = finished-Move h (advance-Move c env s now r)
finished-write r (begin c env s now) h = finished-Move h (begin_session-Move c env s now r)
finished-write r (rearm_run c env s now) h = finished-Move h (rearm_runner-Move c env s now r)
finished-write r (end_room c env now) h = finished-Move h (end_room-Move c env now r)
finished-write r (starts now) h = ground arith
finished-write r (arms now) h = ground arith
finished-write r cancels h = ground arith
finished-write r (rearms now) h = ground arith

-- Once a room is finished, no sequence of beats and writes, whatever snapshots the beats loaded and
-- whichever writes fail, changes its phase, adds a play count or starts another game.
pub finished_final :
    (r : Room) (ws : List Write) → r.session.phase ≡ finished → row (write_all r ws) ≡ row r
unfolding write_all
finished_final r [] h = refl
finished_final r (w ∷ ws) h =
    let e = finished-write r w h in finished_final (write r w) ws (ap (λ a. a.phase) e ∙ h) ∙ e

-- What a row may still count: a game that is over has been counted.
abbrev slack : Phase → ℕ
slack p = if is_over p then 1 else 0

abbrev Counted : Row → Row → Type 0
Counted a b = b.counts + a.seq + slack a.phase ≤ a.counts + b.seq + slack b.phase

Counted-Move : {p : Phase} {a b : Row} → Move p a b → Counted a b
Counted-Move stay = omega arith
Counted-Move {a = a} (enter e w eq) = let f = edge_running e in ground arith
Counted-Move (end_game e f g k q) = ground arith
Counted-Move (close_room n) = ground arith

Counted-write : (r : Room) (w : Write) → Counted (row r) (row (write r w))
unfolding write mark_started arm_start cancel_start rearm_session
Counted-write r (beat c env s now) = Counted-Move (advance-Move c env s now r)
Counted-write r (begin c env s now) = Counted-Move (begin_session-Move c env s now r)
Counted-write r (rearm_run c env s now) = Counted-Move (rearm_runner-Move c env s now r)
Counted-write r (end_room c env now) = Counted-Move (end_room-Move c env now r)
Counted-write r (starts now) = ground arith
Counted-write r (arms now) = ground arith
Counted-write r cancels = ground arith
Counted-write r (rearms now) = ground arith

Counted-all : (r : Room) (ws : List Write) → Counted (row r) (row (write_all r ws))
unfolding write_all
Counted-all r [] = omega arith
Counted-all r (w ∷ ws) = omega (arith, Counted-write r w, Counted-all (write r w) ws)

-- Whatever sequence of beats and writes a room sees, with stale snapshots and failing writes, it adds at
-- most one play count for its current game and one for each game that it starts.
pub play_count_once :
    (r : Room) (ws : List Write)
    → length (write_all r ws).play_counts + r.session.game_seq
      ≤ length r.play_counts + (write_all r ws).session.game_seq + 1
play_count_once r ws = ground (arith, Counted-all r ws)

pub data Step : Phase → Phase → Type 0 where
  same : {p : Phase} → Step p p
  edge : {p q : Phase} → Edge p q → Step p q
  over : {p : Phase} → Ends p → Step p intermission
  closed : {p : Phase} → p ≢ finished → Step p finished

fresh-Move : {a b : Row} → Move a.phase a b → Step a.phase b.phase
fresh-Move stay = same
fresh-Move {a} (enter e w eq) = rw eq (edge e)
fresh-Move (end_game e f g k q) = rw g (over e)
fresh-Move (close_room n) = closed n

stale-Move :
    {p : Phase} {a b : Row}
    → a.phase ≢ p
    → Move p a b
    → (b.phase ≡ a.phase) ⊎ ((b.phase ≡ intermission) ⊎ (b.phase ≡ finished))
stale-Move h stay = inl refl
stale-Move h (enter e w eq) = absurd (h w)
stale-Move h (end_game e f g k q) = inr (inl g)
stale-Move h (close_room n) = inr (inr refl)

-- A beat whose snapshot shows another phase than the row's leaves the row's phase, ends its game or closes
-- its room: it enters no other phase.
pub stale_beat :
    (c : RunnerConfig) (env : Env) (s : Session) (now : ℕ) (r : Room)
    → s.phase ≢ r.session.phase
    → ((advance c env s now r).session.phase ≡ r.session.phase)
      ⊎ (((advance c env s now r).session.phase ≡ intermission)
          ⊎ ((advance c env s now r).session.phase ≡ finished))
stale_beat c env s now r h = stale-Move (λ e. h (sym e)) (advance-Move c env s now r)

-- A beat that loaded the row as it is keeps its phase or follows an edge of the graph of a game; it ends
-- the game only from the lobby, a round's intro, a reveal or a round's results, so never while a question
-- is open, and it closes the room only from a phase other than finished.
pub beat_follows_graph :
    (c : RunnerConfig) (env : Env) (now : ℕ) (r : Room)
    → Step r.session.phase (advance c env r.session now r).session.phase
beat_follows_graph c env now r = fresh-Move (advance-Move c env r.session now r)
