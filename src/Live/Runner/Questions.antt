-- ===== src/Live/Runner/Questions.antt =====
-- When a beat opens a question, and when it closes one.
use topbanana.Live.{
  same_phase, lobby, round_intro, round_results, intermission, finished, Phase, Room,
}
use topbanana.Live.Row.{finish, enter_reveal}
use topbanana.Live.{reveal}
use topbanana.Live.Runner.{unless_closed, advance_question, advance_phase, advance, close_question}
use topbanana.Live.Transitions.{
  finish_terminal, close_if_idle, score_question, score_current, all_active_answered,
}
use topbanana.Live.{question, Room, Session}
use topbanana.Live.Env.{entered, host_last_seen, active_window, RunnerConfig, Env}
use topbanana.Base.{
  ℕ, zero, suc, ◌+◌, ◌-◌, ◌≤◌, ◌≡◌, refl, ◌≢◌, ◌⊎◌, inl, inr, Bool, true, false, Option, none, some,
  arith, ltb, ◌==◌, if◌then◌else◌, Bool-cases,
}

-- A question closes for a reason.
abbrev pub Due : Env → Session → ℕ → Type 0
Due env s now =
    (q : ℕ) × (e : ℕ) × ((s.current_question_id ≡ some q)
      × ((s.question_expires_at ≡ some e)
          × ((e ≤ now)
              ⊎ ((n : ℕ) × ((env.count_active (now - active_window) ≡ some (suc n))
                    × (env.count_active_unanswered q (now - active_window) ≡ some 0))))))

pub not_before : (now e : ℕ) → e ≤ now → ltb now e ≡ false
not_before now e h = ground arith

module _ (c : RunnerConfig) (env : Env) where
  all_active_answered_lem :
      (q now : ℕ)
      → all_active_answered c env q now ≡ true
      → (n : ℕ) × ((env.count_active (now - active_window) ≡ some (suc n))
          × (env.count_active_unanswered q (now - active_window) ≡ some 0))
  unfolding all_active_answered
  all_active_answered_lem q now h =
      go (env.count_active (now - active_window))
        (env.count_active_unanswered q (now - active_window)) h
    where
      go :
          (a u : Option ℕ)
          → (elim a [
            | none ↦ false
            | some active ↦ if active == 0 then false else elim u [ none ↦ false | some n ↦ n == 0 ]
          ])
            ≡ true
          → (n : ℕ) × ((a ≡ some (suc n)) × (u ≡ some 0))
      go none u h = ground arith
      go (some a) none h = ground arith
      go (some zero) (some u) h = ground arith
      go (some (suc n)) (some u) h = (n, (refl, ground arith))

  close_question-Due :
      (s : Session) (q e now : ℕ) (r : Room)
      → r.session.phase ≡ question
      → (close_question c env s q e now r).session.phase ≡ reveal
      → (e ≤ now)
        ⊎ ((n : ℕ) × ((env.count_active (now - active_window) ≡ some (suc n))
              × (env.count_active_unanswered q (now - active_window) ≡ some 0)))
  unfolding close_question
  close_question-Due s q e now r p h = elim (Bool-cases (ltb now e)) [
    | inl t ↦ elim (Bool-cases (all_active_answered c env q now)) [
      | inl a ↦ inr (all_active_answered_lem q now a)
      | inr a ↦ absurd (still (rw (t, a) at h))
    ]
    | inr f ↦ inl (ground arith)
  ]
    where
      still : r.session.phase ≢ reveal
      still h = ground arith

  advance_question-Due :
      (s : Session) (now : ℕ) (r : Room)
      → r.session.phase ≡ question
      → (advance_question c env s now r).session.phase ≡ reveal
      → Due env s now
  unfolding advance_question
  advance_question-Due s now r t h = go s.current_question_id s.question_expires_at refl refl h
    where
      go :
          (a b : Option ℕ)
          → s.current_question_id ≡ a
          → s.question_expires_at ≡ b
          → (elim a as (λ x. Room) [
            | none ↦ r
            | some q ↦ elim b as (λ x. Room) [
              | none ↦ r
              | some e ↦ close_question c env s q e now r
            ]
          ]).session.phase
            ≡ reveal
          → Due env s now
      go none b x y h = ground arith
      go (some q) none x y h = ground arith
      go (some q) (some e) x y h = (q, e, (x, (y, close_question-Due s q e now r t h)))

  idle_or_same :
      (s : Session) (now : ℕ) (r : Room)
      → r.session.phase ≡ question
      → (((close_if_idle c env s now r).0 ≡ true)
          × ((close_if_idle c env s now r).1.session.phase ≢ reveal))
        ⊎ (((close_if_idle c env s now r).0 ≡ false) × ((close_if_idle c env s now r).1 ≡ r))
  unfolding close_if_idle finish_terminal finish
  idle_or_same s now r t = ground arith

  phase-Due :
      (s : Session) (now : ℕ) (r : Room)
      → r.session.phase ≡ question
      → (p : Phase) → p ≡ question
      → (advance_phase c env p s now r).session.phase ≡ reveal
      → Due env s now
  unfolding advance_phase
  phase-Due s now r t question e h = advance_question-Due s now r t h
  phase-Due s now r t lobby e h = ground arith
  phase-Due s now r t round_intro e h = ground arith
  phase-Due s now r t reveal e h = ground arith
  phase-Due s now r t round_results e h = ground arith
  phase-Due s now r t intermission e h = ground arith
  phase-Due s now r t finished e h = ground arith

  unless_closed-Due :
      (s : Session) (now : ℕ) (r : Room)
      → s.phase ≡ question
      → r.session.phase ≡ question
      → (w : Bool × Room)
      → ((w.0 ≡ true) × (w.1.session.phase ≢ reveal)) ⊎ ((w.0 ≡ false) × (w.1 ≡ r))
      → (unless_closed c env s now w).session.phase ≡ reveal
      → Due env s now
  unless_closed-Due s now r p t (true, x) (inl (e, n)) h = absurd (n h)
  unless_closed-Due s now r p t (false, x) (inl (e, n)) h = ground arith
  unless_closed-Due s now r p t (true, x) (inr (e, n)) h = ground arith
  unless_closed-Due s now r p t (false, x) (inr (e, n)) h =
      phase-Due s now r t s.phase p (rw n at h)

  -- A beat that loaded a session in its question phase takes a room in that phase to the reveal only if
  -- the window of the question that it loaded has run out, or if at least one player is active and no
  -- active player's answer to it is missing.
  pub question_closes_for_cause :
      (s : Session) (now : ℕ) (r : Room)
      → s.phase ≡ question
      → r.session.phase ≡ question
      → (advance c env s now r).session.phase ≡ reveal
      → Due env s now
  unfolding advance
  question_closes_for_cause s now r p t h =
      unless_closed-Due s now r p t (close_if_idle c env s now r) (idle_or_same s now r t) h

  pub awake :
      (s : Session) (now : ℕ) (r : Room)
      → now ≤ host_last_seen s + c.idle_close_timeout
      → close_if_idle c env s now r ≡ (false, r)
  unfolding close_if_idle
  awake s now r h = ground arith

  pub score_current-session :
      (s : Session) (q e : ℕ) (r : Room) → (score_current c env s q e r).session ≡ r.session
  unfolding score_current score_question
  score_current-session s q e r = ground arith

  reveal_written :
      (s : Session) (q now : ℕ) (r : Room)
      → same_phase r.session.phase s.phase ≡ true
      → r.session.current_question_id ≡ some q
      → (entered false now reveal r (enter_reveal s.phase q r)).session.phase ≡ reveal
  unfolding enter_reveal
  reveal_written s q now r h hq = rw (h, hq) (ground arith)

  expired-reveal :
      (s : Session) (q e now : ℕ) (r : Room)
      → e ≤ now
      → env.enter_fails ≡ false
      → same_phase r.session.phase s.phase ≡ true
      → r.session.current_question_id ≡ some q
      → (close_question c env s q e now r).session.phase ≡ reveal
  unfolding close_question
  expired-reveal s q e now r le ok h hq =
      rw (not_before now e le, ok)
        (reveal_written s q now (score_current c env s q e r) (rw (score_current-session s q e r) h)
          (rw (score_current-session s q e r) hq))

  -- A question whose window has run out is revealed by the next beat that loads the row as it is, if the
  -- host has been seen within the idle timeout and the write does not fail.
  pub expired_question_closes :
      (r : Room) (q e now : ℕ)
      → r.session.phase ≡ question
      → r.session.current_question_id ≡ some q
      → r.session.question_expires_at ≡ some e
      → e ≤ now
      → now ≤ host_last_seen r.session + c.idle_close_timeout
      → env.enter_fails ≡ false
      → (advance c env r.session now r).session.phase ≡ reveal
  unfolding advance advance_phase advance_question close_question
  expired_question_closes r q e now h hq he le seen ok =
      let known = record (r.session) {
        phase = question;
        current_question_id = some q;
        question_expires_at = some e;
      } in
      rw (awake r.session now r seen, h, hq, he)
        (expired-reveal known q e now (record r { session = known }) le ok refl refl)
