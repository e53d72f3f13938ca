-- ===== src/Auth/AccountLimiter.antt =====
-- The per-account limiter, AccountLoginLimiter of internal/auth/login_limiter.go. The map of pointers is
-- a function to entries, which a call replaces; the mutex makes each call one step.
pub mod Lockout
use Prim.Native.String.{String}
use text.Mathlib.Text.{◌==◌ as str_eq}
use topbanana.Base.{ℕ, ◌+◌, Bool, false, Option, none, some, ltb, leb, if◌then◌else◌}

abbrev pub account_failure_extension_cap : ℕ
account_failure_extension_cap = 5

pub record AccountFailures : Type 0 where
  pub count : ℕ
  pub last_seen : ℕ

abbrev pub Entries : Type 0
Entries = String → Option AccountFailures

pub record AccountLoginLimiter : Type 0 where
  pub entries : Entries
  pub threshold : ℕ
  pub cooldown : ℕ

abbrev pub set_entry : Entries → String → Option AccountFailures → Entries
set_entry m account e k = if str_eq k account then e else m k

-- `e.lastSeen.Before(now - cooldown)`, with the subtrahend moved across.
unfoldable pub keep_fresh : ℕ → ℕ → Option AccountFailures → Option AccountFailures
keep_fresh cooldown now none = none
keep_fresh cooldown now (some e) = if ltb (e.last_seen + cooldown) now then none else some e

-- `pruneLocked`.
unfoldable pub prune_locked : AccountLoginLimiter → ℕ → AccountLoginLimiter
unfolding keep_fresh
prune_locked l now = record l { entries = λ k. keep_fresh l.cooldown now (l.entries k) }

unfoldable pub over_threshold : ℕ → Option AccountFailures → Bool
over_threshold threshold none = false
over_threshold threshold (some e) = leb threshold e.count

unfoldable pub in_cooldown : AccountLoginLimiter → String → ℕ → Bool × AccountLoginLimiter
unfolding prune_locked over_threshold
in_cooldown l account now =
    if str_eq account ""
    then (false, l)
    else (over_threshold l.threshold ((prune_locked l now).entries account), prune_locked l now)

-- The entry after one more failure: a new one starts at 0, one at the cap stays as it is.
unfoldable pub fail_entry : ℕ → ℕ → Option AccountFailures → AccountFailures
fail_entry threshold now none =
    if leb (threshold + account_failure_extension_cap) 0
    then record { count = 0; last_seen = 0 }
    else record { count = 1; last_seen = now }
fail_entry threshold now (some e) =
    if leb (threshold + account_failure_extension_cap) e.count
    then e
    else record { count = e.count + 1; last_seen = now }

unfoldable pub register_failure : AccountLoginLimiter → String → ℕ → AccountLoginLimiter
unfolding prune_locked fail_entry
register_failure l account now =
    let pruned = prune_locked l now in
    if str_eq account "" then l else record pruned {
      entries =
          set_entry pruned.entries account
            (some (fail_entry l.threshold now (pruned.entries account)));
    }

unfoldable pub register_success : AccountLoginLimiter → String → AccountLoginLimiter
register_success l account =
    if str_eq account "" then l else record l { entries = set_entry l.entries account none }
