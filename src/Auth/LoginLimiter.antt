-- ===== src/Auth/LoginLimiter.antt =====
-- The per-address limiter, LoginRateLimiter of internal/auth/login_limiter.go. The map from an address
-- to its last allowed attempt is a function; the mutex makes each call one step.
pub mod Reference
use Prim.Native.String.{String}
use text.Mathlib.Text.{◌==◌ as str_eq}
use topbanana.Base.{ℕ, ◌+◌, ◌-◌, ◌*◌, Bool, true, false, Option, none, some, ltb, if◌then◌else◌}

abbrev pub LastSeen : Type 0
LastSeen = String → Option ℕ

pub record LoginRateLimiter : Type 0 where
  pub last : LastSeen
  pub window : ℕ

abbrev pub put : LastSeen → String → ℕ → LastSeen
put m ip now k = if str_eq k ip then some now else m k

-- `ts.Before(now - 2 * window)`, with the subtrahend moved across.
stale : ℕ → ℕ → ℕ → Bool
stale window now ts = ltb (ts + 2 * window) now

prune_entry : ℕ → ℕ → Option ℕ → Option ℕ
unfolding stale
prune_entry window now none = none
prune_entry window now (some ts) = if stale window now ts then none else some ts

-- The loop that deletes the entries older than two windows.
unfoldable pub prune : ℕ → ℕ → LastSeen → LastSeen
unfolding prune_entry
prune window now m k = prune_entry window now (m k)

-- `window - now.Sub(prev)`, which is 0 here exactly if it is not positive there.
abbrev pub remaining : ℕ → ℕ → ℕ → ℕ
remaining window now prev = window + prev - now

-- The decision for an address whose last allowed attempt is given: how long to wait, or none.
unfoldable pub wait_for : ℕ → ℕ → Option ℕ → Option ℕ
wait_for window now none = none
wait_for window now (some prev) =
    if ltb 0 (remaining window now prev) then some (remaining window now prev) else none

abbrev decide_allow : LoginRateLimiter → String → ℕ → Option ℕ → (ℕ × Bool) × LoginRateLimiter
decide_allow l ip now (some wait) = ((wait, false), l)
decide_allow l ip now none = ((0, true), record l { last = put l.last ip now })

unfoldable pub allow : LoginRateLimiter → String → ℕ → (ℕ × Bool) × LoginRateLimiter
unfolding prune wait_for
allow l ip now =
    let pruned = record l { last = prune l.window now l.last } in
    decide_allow pruned ip now (wait_for l.window now (pruned.last ip))
