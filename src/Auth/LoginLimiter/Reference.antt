-- ===== src/Auth/LoginLimiter/Reference.antt =====
-- Pruning is invisible: the limiter decides like one that forgets nothing.
use Prim.Native.String.{String}
use text.Mathlib.Text.{◌==◌ as str_eq}
use topbanana.Base.{
  ℕ, ◌+◌, ◌-◌, ◌*◌, ◌≤◌, ◌<◌, ◌≡◌, refl, sym, ap, ◌∙◌, ◌⊎◌, inl, inr, Bool, true, false, Option,
  none, some, List, [], ◌∷◌, arith, ltb, Bool-cases, Option-cases,
}
use topbanana.Auth.LoginLimiter.{LastSeen, LoginRateLimiter, put, prune, wait_for, allow}

-- An attempt is refused, with the time to wait, exactly if the last allowed one from its address is
-- less than a window ago.
abbrev reference_step : ℕ → LastSeen → String → ℕ → Option ℕ → (ℕ × Bool) × LastSeen
reference_step window m ip now (some wait) = ((wait, false), m)
reference_step window m ip now none = ((0, true), put m ip now)

unfoldable pub reference_allow : ℕ → LastSeen → String → ℕ → (ℕ × Bool) × LastSeen
reference_allow window m ip now = reference_step window m ip now (wait_for window now (m ip))

abbrev pub Attempts : Type 0
Attempts = List (String × ℕ)

unfoldable pub decisions : LoginRateLimiter → Attempts → List (ℕ × Bool)
decisions l [] = []
decisions l ((ip, now) ∷ rest) = (allow l ip now).0 ∷ decisions (allow l ip now).1 rest

unfoldable pub reference_decisions : ℕ → LastSeen → Attempts → List (ℕ × Bool)
reference_decisions window m [] = []
reference_decisions window m ((ip, now) ∷ rest) =
    (reference_allow window m ip now).0
    ∷ reference_decisions window (reference_allow window m ip now).1 rest

-- The clock does not go back.
abbrev pub InOrder : ℕ → Attempts → Type 0
InOrder t [] = Unit {0}
InOrder t ((ip, now) ∷ rest) = (t ≤ now) × InOrder now rest

-- An entry is as in the reference, or it is gone there was one too old to matter from `t` on.
abbrev Agree : ℕ → ℕ → Option ℕ → Option ℕ → Type 0
Agree window t a b = (a ≡ b) ⊎ ((a ≡ none) × ((s : ℕ) × (b ≡ some s) × (s + window ≤ t)))

prune-Agree :
    (window t now : ℕ) (m r : LastSeen) (k : String)
    → t ≤ now
    → Agree window t (m k) (r k)
    → Agree window now (prune window now m k) (r k)
unfolding prune
prune-Agree window t now m r k h (inl e) = elim (Option-cases (m k)) [
  | inl n ↦ inl (rw (n, prune) (sym n ∙ e))
  | inr (s, n) ↦ elim (Bool-cases (ltb (s + 2 * window) now)) [
    | inl old ↦ inr (ground arith, (s, sym e ∙ n, ground arith))
    | inr young ↦ inl (ground arith)
  ]
]
prune-Agree window t now m r k h (inr (n, (s, e, l))) = inr (ground arith, (s, e, omega arith))

wait_for-Agree :
    (window now : ℕ) (a b : Option ℕ)
    → Agree window now a b
    → wait_for window now a ≡ wait_for window now b
unfolding wait_for
wait_for-Agree window now a b (inl e) = ap (wait_for window now) e
wait_for-Agree window now a b (inr (n, (s, e, l))) = ground arith

put-Agree :
    (window now : ℕ) (ip k : String) (m r : LastSeen)
    → Agree window now (m k) (r k)
    → Agree window now (put m ip now k) (put r ip now k)
put-Agree window now ip k m r a = elim (Bool-cases (str_eq k ip)) [
  | inl e ↦ rw e (inl refl)
  | inr e ↦ rw e a
]

allow-Agree :
    (l : LoginRateLimiter) (r : LastSeen) (ip : String) (t now : ℕ)
    → t ≤ now
    → ((k : String) → Agree l.window t (l.last k) (r k))
    → ((allow l ip now).0 ≡ (reference_allow l.window r ip now).0)
      × ((allow l ip now).1.window ≡ l.window)
      × ((k : String)
          → Agree l.window now
              ((allow l ip now).1.last k)
              ((reference_allow l.window r ip now).1 k))
unfolding allow reference_allow
allow-Agree l r ip t now h a =
    let pruned : (k : String) → Agree l.window now (prune l.window now l.last k) (r k) =
      λ k. prune-Agree l.window t now l.last r k h (a k) in
    let same : wait_for l.window now (prune l.window now l.last ip) ≡ wait_for l.window now (r ip) =
      wait_for-Agree l.window now _ _ (pruned ip) in
    elim (Option-cases (wait_for l.window now (r ip))) [
      | inl e ↦
          let both : wait_for l.window now (prune l.window now l.last ip) ≡ none = same ∙ e in
          rw (both, e)
            (refl, refl, λ k. put-Agree l.window now ip k (prune l.window now l.last) r (pruned k))
      | inr (wait, e) ↦
          let both : wait_for l.window now (prune l.window now l.last ip) ≡ some wait = same ∙ e in
          rw (both, e) (refl, refl, pruned)
    ]

decisions-Agree :
    (l : LoginRateLimiter) (r : LastSeen) (t : ℕ) (attempts : Attempts)
    → InOrder t attempts
    → ((k : String) → Agree l.window t (l.last k) (r k))
    → decisions l attempts ≡ reference_decisions l.window r attempts
unfolding decisions reference_decisions
decisions-Agree l r t [] o a = refl
decisions-Agree l r t ((ip, now) ∷ rest) o a =
    let (d, w, n) = allow-Agree l r ip t now o.0 a in
    let tail =
      decisions-Agree (allow l ip now).1 (reference_allow l.window r ip now).1 now rest o.1
        (rw w n) in
    ground arith

-- For attempts whose times do not go back, the limiter gives the decisions, and the waiting times, of
-- the reference that forgets nothing.
pub decisions-reference :
    (l : LoginRateLimiter) (r : LastSeen) (t : ℕ) (attempts : Attempts)
    → InOrder t attempts
    → ((k : String) → l.last k ≡ r k)
    → decisions l attempts ≡ reference_decisions l.window r attempts
decisions-reference l r t attempts o a = decisions-Agree l r t attempts o (λ k. inl (a k))

-- An attempt that is allowed comes at least a window after the last allowed one of its address, and is
-- the one that the next is measured against; an attempt that is refused is told the rest of the window
-- and does not extend it.
pub reference_allow_spaced :
    (window : ℕ) (r : LastSeen) (ip : String) (prev now : ℕ)
    → r ip ≡ some prev
    → (prev + window ≤ now → reference_allow window r ip now ≡ ((0, true), put r ip now))
      × (now < prev + window → reference_allow window r ip now ≡ ((window + prev - now, false), r))
unfolding reference_allow wait_for
reference_allow_spaced window r ip prev now e = (
  (λ h. let free : wait_for window now (some prev) ≡ none = ground arith in rw (e, free)),
  (λ h.
      let held : wait_for window now (some prev) ≡ some (window + prev - now) = ground arith in
      rw (e, held)),
)
