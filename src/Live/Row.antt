-- ===== src/Live/Row.antt =====
-- The store's writes to a room's row, internal/store/livesession.go, with the WHERE clauses of their
-- statements: a write whose clause does not match changes nothing.
use topbanana.Base.{
  ℕ, ◌+◌, Bool, true, false, ◌&&◌, Option, none, some, List, [], ◌∷◌, ◌++◌, ◌==◌, if◌then◌else◌,
}
use topbanana.Live.{
  Session, Room, Phase, lobby, round_intro, question, reveal, round_results, intermission, finished,
  same_phase,
}

-- StartSession.
unfoldable pub mark_started : ℕ → Room → Bool × Room
mark_started now r = elim r.session.started_at [
  | none ↦ (true, record r { session = record (r.session) { started_at = some now } })
  | some t ↦ (false, r)
]

-- ArmSessionStart; false is ErrNotInLobby.
unfoldable pub arm_start : ℕ → Room → Bool × Room
arm_start deadline r = elim r.session.started_at [
  | none ↦ (true, record r { session = record (r.session) { start_at = some deadline } })
  | some t ↦ (false, r)
]

-- CancelSessionStart; false is ErrNotInLobby.
unfoldable pub cancel_start : Room → Bool × Room
cancel_start r = elim r.session.started_at [
  | none ↦ (true, record r { session = record (r.session) { start_at = none } })
  | some t ↦ (false, r)
]

unfoldable pub enter_round_intro : Phase → ℕ → Room → Bool × Room
enter_round_intro expected round_id r =
    if same_phase r.session.phase expected
    then (
      true,
      record r {
        session = record (r.session) {
          phase = round_intro;
          current_round_id = some round_id;
          current_question_id = none;
          question_started_at = none;
          question_expires_at = none;
        };
      },
    )
    else (false, r)

unfoldable pub enter_question : Phase → ℕ → ℕ → ℕ → ℕ → Room → Bool × Room
enter_question expected round_id question_id started_at expires_at r =
    if same_phase r.session.phase expected
    then (
      true,
      record r {
        session = record (r.session) {
          phase = question;
          current_round_id = some round_id;
          current_question_id = some question_id;
          question_started_at = some started_at;
          question_expires_at = some expires_at;
        };
      },
    )
    else (false, r)

abbrev is_some_of : Option ℕ → ℕ → Bool
is_some_of none n = false
is_some_of (some k) n = k == n

unfoldable pub enter_reveal : Phase → ℕ → Room → Bool × Room
enter_reveal expected question_id r =
    if same_phase r.session.phase expected && is_some_of r.session.current_question_id question_id
    then (true, record r { session = record (r.session) { phase = reveal } })
    else (false, r)

unfoldable pub enter_round_results : Phase → Room → Bool × Room
enter_round_results expected r =
    if same_phase r.session.phase expected
    then (
      true,
      record r {
        session = record (r.session) {
          phase = round_results;
          current_question_id = none;
          question_started_at = none;
          question_expires_at = none;
        };
      },
    )
    else (false, r)

unfoldable pub finish : ℕ → Room → Room
finish now r = record r {
  session = record (r.session) {
    phase = finished;
    current_question_id = none;
    question_started_at = none;
    question_expires_at = none;
    finished_at = some now;
  };
}

abbrev pub is_over : Phase → Bool
is_over intermission = true
is_over finished = true
is_over _ = false

abbrev pub bump : Bool → Option ℕ → List ℕ → List ℕ
bump false q counts = counts
bump true none counts = counts
bump true (some quiz_id) counts = counts ++ quiz_id ∷ []

-- SetSessionIntermission, and the bump of the quiz's play count in the same transaction.
unfoldable pub intermit : ℕ → Bool → Room → Room
intermit now bump_play_count r = if is_over r.session.phase then r else record r {
  play_counts = bump bump_play_count r.session.quiz_id r.play_counts;
  session = record (r.session) {
    phase = intermission;
    current_question_id = none;
    question_started_at = none;
    question_expires_at = none;
    finished_at = some now;
  };
}

-- The WHERE clause of RearmSession.
abbrev pub is_armable : Session → Bool
is_armable s = elim s.phase [
  | intermission ↦ true
  | lobby ↦ elim s.started_at [ none ↦ true | some t ↦ false ]
  | _ ↦ false
]

abbrev next_seq : Phase → ℕ → ℕ
next_seq intermission n = n + 1
next_seq _ n = n

-- RearmSession; false is ErrGameInFlight. The players' ready flags, which it clears, are not kept here.
unfoldable pub rearm_session : ℕ → Room → Bool × Room
rearm_session quiz_id r =
    if is_armable r.session
    then (
      true,
      record r {
        session = record (r.session) {
          quiz_id = some quiz_id;
          game_seq = next_seq r.session.phase r.session.game_seq;
          phase = lobby;
          current_round_id = none;
          current_question_id = none;
          question_started_at = none;
          question_expires_at = none;
          started_at = none;
          finished_at = none;
          start_at = none;
        };
      },
    )
    else (false, r)
