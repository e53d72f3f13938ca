-- ===== src/Game/TimeLimit.antt =====
-- The priority chains of answer and boundary windows, internal/game/time_limit.go. A nil pointer is
-- none; durations are nanoseconds.
use topbanana.Base.{
  ℕ, ◌*◌, ◌≤◌, ◌<◌, ◌≡◌, ◌⊎◌, true, false, Option, none, some, arith, ltb, if◌then◌else◌,
  is_positive, magnitude,
}
use topbanana.Quiz.{Quiz, Question, Round}

abbrev pub second : ℕ
second = 1_000_000_000

abbrev pub default_expiration : ℕ
default_expiration = 10 * second

quiz_window : Option Quiz → ℕ
quiz_window none = default_expiration
quiz_window (some qz) =
    if is_positive qz.time_limit_seconds
    then magnitude qz.time_limit_seconds * second
    else default_expiration

-- A positive number of seconds that is set wins over what follows in the chain.
own_or : Option ℕ → ℕ → ℕ
own_or none rest = rest
own_or (some s) rest = if ltb 0 s then s * second else rest

unfoldable pub resolve_answer_window : Option Question → Option Quiz → ℕ
unfolding quiz_window own_or
resolve_answer_window none qz = quiz_window qz
resolve_answer_window (some q) qz = own_or q.time_limit_seconds (quiz_window qz)

unfoldable pub resolve_round_boundary_window : Option Round → Option Quiz → ℕ
unfolding resolve_answer_window own_or
resolve_round_boundary_window none qz = resolve_answer_window none qz
resolve_round_boundary_window (some r) qz =
    own_or r.boundary_duration_seconds (resolve_answer_window none qz)

-- No window is shorter than a second, whatever is set or left out.
pub windows_positive :
    (q : Option Question) (r : Option Round) (qz : Option Quiz)
    → (second ≤ resolve_answer_window q qz) × (second ≤ resolve_round_boundary_window r qz)
unfolding resolve_answer_window resolve_round_boundary_window
windows_positive none none none = ground arith
windows_positive none none (some qz) = ground arith
windows_positive none (some r) none = ground arith
windows_positive none (some r) (some qz) = ground arith
windows_positive (some q) none none = ground arith
windows_positive (some q) none (some qz) = ground arith
windows_positive (some q) (some r) none = ground arith
windows_positive (some q) (some r) (some qz) = ground arith

-- The question's own limit wins if it is set and not 0; else the quiz's, if it is positive; else ten
-- seconds.
pub answer_window_chain :
    (q : Question) (qz : Quiz)
    → ((s : ℕ)
        → q.time_limit_seconds ≡ some s
        → 0 < s
        → resolve_answer_window (some q) (some qz) ≡ s * second)
      × ((q.time_limit_seconds ≡ none) ⊎ (q.time_limit_seconds ≡ some 0)
          → is_positive qz.time_limit_seconds ≡ true
          → resolve_answer_window (some q) (some qz) ≡ magnitude qz.time_limit_seconds * second)
      × ((q.time_limit_seconds ≡ none) ⊎ (q.time_limit_seconds ≡ some 0)
          → is_positive qz.time_limit_seconds ≡ false
          → resolve_answer_window (some q) (some qz) ≡ 10 * second)
unfolding resolve_answer_window
answer_window_chain q qz = (λ s e p. ground arith, λ h p. ground arith, λ h p. ground arith)
