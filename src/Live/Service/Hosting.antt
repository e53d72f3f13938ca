-- ===== src/Live/Service/Hosting.antt =====
-- Who arms a quiz, and who wins a race for a room.
use topbanana.Live.Row.{rearm_session, is_armable, mark_started}
use topbanana.Live.Service.{
  arm_hostable, arm_quiz_found, hostable_quiz_err, arm_room_for_host, start, arm_quiz,
}
use topbanana.Quiz.{Quiz}
use topbanana.Live.{intermission, same_phase, lobby, Room, Session}
use topbanana.Live.Env.{Env, RunnerConfig}
use topbanana.Base.{
  ℕ, ◌+◌, ◌≡◌, ◌≢◌, inl, inr, Bool, false, Option, none, some, arith, if◌then◌else◌, Option-cases,
}

module _ (c : RunnerConfig) (env : Env) (s : Session) (host now : ℕ) (r : Room) where
  -- A quiz is never armed over a game in flight: whatever session the call loaded, if the row is neither in a
  -- lobby that has not started nor in intermission, arming fails and the room stays as it is.
  pub arm_never_interrupts :
      (fails is_admin : Bool) (quiz_id : ℕ)
      → is_armable r.session ≡ false
      → ((arm_quiz c env fails (some s) host quiz_id is_admin r).0 ≢ none)
        × ((arm_quiz c env fails (some s) host quiz_id is_admin r).1 ≡ r)
  unfolding arm_quiz arm_room_for_host arm_quiz_found arm_hostable rearm_session
  arm_never_interrupts fails is_admin quiz_id h = (ground arith, ground arith)

  pub record Armed (quiz_id : ℕ) (is_admin : Bool) (r' : Room) : Type 0 where
    pub armed : Quiz
    pub found : env.get_quiz quiz_id ≡ some armed
    pub hostable : hostable_quiz_err armed host is_admin ≡ none
    pub chosen : r'.session.quiz_id ≡ some armed.id
    pub in_lobby : r'.session.phase ≡ lobby
    pub not_started : r'.session.started_at ≡ none
    pub no_question : r'.session.current_question_id ≡ none
    pub counted : r'.session.game_seq ≡ (
        if same_phase r.session.phase intermission
        then r.session.game_seq + 1
        else r.session.game_seq)

  -- A quiz that was armed is the room's, it is a live quiz that the host made or an admin armed, and the room
  -- is an unstarted lobby without a question; a new game is counted exactly if the room was in intermission.
  pub arm_quiz-Armed :
      (fails is_admin : Bool) (quiz_id : ℕ) (r' : Room)
      → arm_quiz c env fails (some s) host quiz_id is_admin r ≡ (none, r')
      → Armed quiz_id is_admin r'
  unfolding arm_quiz arm_room_for_host arm_quiz_found arm_hostable rearm_session
  arm_quiz-Armed fails is_admin quiz_id r' h = elim (Option-cases (env.get_quiz quiz_id)) [
    | inl n ↦ absurd (ground arith)
    | inr (qz, e) ↦ elim (Option-cases (hostable_quiz_err qz host is_admin)) [
      | inr (x, n) ↦ absurd (ground arith)
      | inl n ↦ record {
        armed = qz;
        found = e;
        hostable = n;
        chosen = ground arith;
        in_lobby = ground arith;
        not_started = ground arith;
        no_question = ground arith;
        counted = ground arith;
      }
    ]
  ]

  -- A start wins once: when the row is marked as started, a start fails and leaves the room as it is.
  pub start_once :
      (reloaded : Option Session) (t : ℕ)
      → r.session.started_at ≡ some t
      → ((start c env (some s) reloaded host now r).0 ≢ none)
        × ((start c env (some s) reloaded host now r).1 ≡ r)
  unfolding start mark_started
  start_once reloaded t h = (ground arith, ground arith)
