-- ===== src/Live/Service.antt =====
-- What the host and the players ask of a room, internal/livesession/livesession.go and empty_room.go. The
-- session that a call loads by its code, none if there is none, is an argument beside the room, whose row
-- may have moved on since; so is the session that the runner loads when it is told to begin. The publisher and
-- the runner are set.
pub mod Hosting
use topbanana.Game.TimeLimit.{second}
use topbanana.Live.Runner.{begin_session, rearm_runner}
use topbanana.Live.Row.{finish, arm_start, cancel_start, is_armable, rearm_session, mark_started}
use topbanana.Live.{finished, lobby, same_phase, Room, Session}
use text.Mathlib.Text.{◌==◌ as str_eq}
use topbanana.Live.Env.{publish, RunnerConfig, Env}
use topbanana.Base.{
  ℕ, ◌+◌, ◌*◌, Bool, true, false, not, ◌&&◌, Option, none, some, leb, ◌==◌, if◌then◌else◌,
}
use topbanana.Quiz.{Quiz, Question, mode_live}

pub data LiveError : Type 0 where
  session_not_found not_host no_quiz_to_start session_already_started not_in_lobby : LiveError
  game_in_flight quiz_not_found not_live_quiz quiz_not_owned : LiveError
  not_participant question_not_open store_failure : LiveError

-- No error, and the room that a call leaves.
abbrev pub Outcome : Type 0
Outcome = Option LiveError × Room

-- `hostableQuizErr`.
unfoldable pub hostable_quiz_err : Quiz → ℕ → Bool → Option LiveError
hostable_quiz_err qz requester is_admin =
    if not (str_eq qz.mode mode_live)
    then some not_live_quiz
    else if not is_admin && not (qz.created_by_player_id == requester)
    then some quiz_not_owned
    else none

-- The load by code and the check of the host, with which each of the host's calls begins.
abbrev pub as_host : Option Session → ℕ → Room → (Session → Outcome) → Outcome
as_host none host r next = (some session_not_found, r)
as_host (some s) host r next = if s.host_player_id == host then next s else (some not_host, r)

-- A call on a session without a quiz is refused.
abbrev pub with_quiz : Option ℕ → Room → Outcome → Outcome
with_quiz none r next = (some no_quiz_to_start, r)
with_quiz (some q) r next = next

-- The answer of a write that names the error of a lost one; a lost write changes nothing.
abbrev pub written : Bool → LiveError → Room → Bool × Room → (Room → Outcome) → Outcome
written true lost r w next = (some store_failure, r)
written false lost r (true, r') next = next r'
written false lost r (false, r') next = (some lost, r')

abbrev pub done : Room → Outcome
done r = (none, r)

module _ (c : RunnerConfig) (env : Env) where
  -- The runner's part, which a failed load leaves out.
  abbrev begun : (Session → Room → Room) → Option Session → Room → Room
  begun f none r = r
  begun f (some s) r = f s r

  unfoldable pub start : Option Session → Option Session → ℕ → ℕ → Room → Outcome
  unfolding mark_started
  start loaded reloaded host now r = as_host loaded host r (λ s. with_quiz s.quiz_id r (
      written env.mark_started_fails session_already_started r (mark_started now r)
        (λ r'. done (begun (λ t. begin_session c env t now) reloaded r'))))

  unfoldable pub arm_countdown : Bool → ℕ → Option Session → ℕ → ℕ → Room → Outcome
  arm_countdown fails countdown loaded host now r = as_host loaded host r (λ s.
      with_quiz s.quiz_id r (
        written fails not_in_lobby r
          (arm_start (now + (if leb countdown 0 then 60 * second else countdown)) r)
          (λ r'. done (publish s.phase r'))))

  unfoldable pub cancel_countdown : Bool → Option Session → ℕ → Room → Outcome
  cancel_countdown fails loaded host r =
      as_host loaded host r
        (λ s. written fails not_in_lobby r (cancel_start r) (λ r'. done (publish s.phase r')))

  unfoldable pub end_session : Option Session → ℕ → ℕ → Room → Outcome
  end_session loaded host now r = as_host loaded host r (λ s.
      if same_phase s.phase finished
      then done r
      else if env.finish_fails
      then (some store_failure, r)
      else done (publish finished (finish now r)))

  pub arm_hostable : Bool → Quiz → Option LiveError → Room → (Room → Outcome) → Outcome
  arm_hostable fails qz (some e) r next = (some e, r)
  arm_hostable fails qz none r next = written fails game_in_flight r (rearm_session qz.id r) next

  pub arm_quiz_found : Bool → Option Quiz → ℕ → Bool → Room → (Room → Outcome) → Outcome
  unfolding arm_hostable
  arm_quiz_found fails none host is_admin r next = (some quiz_not_found, r)
  arm_quiz_found fails (some qz) host is_admin r next =
      arm_hostable fails qz (hostable_quiz_err qz host is_admin) r next

  -- `armRoomForHost`, and what its caller does next.
  unfoldable pub arm_room_for_host :
      Bool → Option Session → ℕ → ℕ → Bool → Room → (Session → Room → Outcome) → Outcome
  unfolding arm_quiz_found
  arm_room_for_host fails loaded host quiz_id is_admin r next = as_host loaded host r (λ s.
      if not (is_armable s)
      then (some game_in_flight, r)
      else arm_quiz_found fails (env.get_quiz quiz_id) host is_admin r (next s))

  unfoldable pub arm_quiz : Bool → Option Session → ℕ → ℕ → Bool → Room → Outcome
  unfolding arm_room_for_host
  arm_quiz fails loaded host quiz_id is_admin r =
      arm_room_for_host fails loaded host quiz_id is_admin r (λ s r'. done (publish lobby r'))

  -- The result of MarkStarted is ignored unless it is an error.
  unfoldable pub start_quiz :
      Bool → Option Session → Option Session → ℕ → ℕ → Bool → ℕ → Room → Outcome
  unfolding arm_room_for_host
  start_quiz fails loaded reloaded host quiz_id is_admin now r =
      arm_room_for_host fails loaded host quiz_id is_admin r (λ s r'.
        if env.mark_started_fails
        then (some store_failure, r')
        else done (
            begun (λ t. rearm_runner c env t now) reloaded (publish lobby (mark_started now r').1)))
