-- ===== src/Live/Env.antt =====
-- What a beat of a room is given, internal/livesession/runner.go: the runner's settings, the answers of the
-- stores, and the clock that it keeps for the phase. A duration is in nanoseconds; `now - d` is compared
-- with d moved across, or handed to the store.
use topbanana.Base.{
  ℕ, ◌*◌, Bool, true, false, Option, none, some, [], ◌∷◌, ◌++◌, leb, if◌then◌else◌,
}
use topbanana.Quiz.{Quiz}
use topbanana.Game.TimeLimit.{second}
use topbanana.Live.{Phase, Session, Room}

abbrev pub active_window : ℕ
active_window = 30 * second

abbrev pub default_question_window : ℕ
default_question_window = 10 * second

pub record RunnerConfig : Type 0 where
  pub beat_interval : ℕ
  pub round_intro_beat : ℕ
  pub reveal_beat : ℕ
  pub round_results_beat : ℕ
  pub question_read_beat : ℕ
  pub idle_close_timeout : ℕ

abbrev or_default : ℕ → ℕ → ℕ
or_default n d = if leb n 0 then d else n

unfoldable pub with_defaults : RunnerConfig → RunnerConfig
with_defaults c = record {
  beat_interval = or_default c.beat_interval 250_000_000;
  round_intro_beat = or_default c.round_intro_beat (3 * second);
  reveal_beat = or_default c.reveal_beat (4 * second);
  round_results_beat = or_default c.round_results_beat (6 * second);
  question_read_beat = or_default c.question_read_beat (3 * second);
  idle_close_timeout = or_default c.idle_close_timeout (1800 * second);
}

-- What the stores, the quiz reader and the scorer answer during a beat; none is an error. A question that a
-- beat asks twice has one answer.
pub record Env : Type 0 where
  pub get_quiz : ℕ → Option Quiz
  pub count_active : ℕ → Option ℕ
  pub count_active_unanswered : ℕ → ℕ → Option ℕ
  pub score_answer : Bool → ℕ → ℕ → ℕ → ℕ
  pub list_answers_fails : Bool
  pub set_score_fails : ℕ → Bool
  pub mark_started_fails : Bool
  pub enter_fails : Bool
  pub finish_fails : Bool
  pub intermit_fails : Bool

abbrev pub publish : Phase → Room → Room
publish p r = record r { published = r.published ++ p ∷ [] }

abbrev pub mark_phase : ℕ → Room → Room
mark_phase now r = record r { phase_since = some now }

-- `forget`.
abbrev pub drop_clock : Room → Room
drop_clock r = record r { phase_since = none }

-- `phaseEnteredAt`: a cold start measures from now.
unfoldable pub phase_entered_at : ℕ → Room → ℕ × Room
phase_entered_at now r = elim r.phase_since [
  | none ↦ (now, record r { phase_since = some now })
  | some t ↦ (t, r)
]

unfoldable pub host_last_seen : Session → ℕ
host_last_seen s = elim s.host_last_seen_at [
  | some t ↦ t
  | none ↦ elim s.started_at [ some t ↦ t | none ↦ s.created_at ]
]

-- What follows an optimistic write: a failed or lost one leaves the room.
abbrev pub entered : Bool → ℕ → Phase → Room → Bool × Room → Room
entered true now p r written = r
entered false now p r (true, r') = publish p (mark_phase now r')
entered false now p r (false, r') = r'
