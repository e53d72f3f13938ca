-- ===== src/Examples/AuthExamples.antt =====
-- The theorems of the login limiters and of the hubs at short runs.
use text.Mathlib.Text.{◌==◌ as str_eq}
use topbanana.Hub.Ticks.Fresh.{ticks_fresh}
use topbanana.Hub.Ticks.{takes, Tick, forgets, subscribe_tick, ticks, tick_run, TickCall, TickHub}
use topbanana.Auth.LoginLimiter.{LoginRateLimiter}
use topbanana.Auth.AccountLimiter.{in_cooldown, AccountLoginLimiter}
use topbanana.Auth.LoginLimiter.Reference.{decisions-reference, reference_decisions, decisions}
use Prim.Native.String.{String}
use topbanana.Live.{lobby, question, reveal}
use topbanana.Base.{
  ℕ, ◌≤◌, ◌<◌, ◌≡◌, refl, Bool, true, false, none, some, List, [], ◌∷◌, map, arith, ◌==◌,
  if◌then◌else◌,
}
use topbanana.Auth.AccountLimiter.Lockout.{
  run, fails, asks, AllCapped, run-AllCapped, lockout_ends, lockout_starts,
}
use topbanana.Hub.{Hub}
use topbanana.Hub.Safety.{Call, Inv, subscribes, publishes, unsubscribes}
use topbanana.Hub.Runs.{run as hub_run, run-total}

abbrev fresh : LoginRateLimiter
fresh = record { last = λ k. none; window = 2 }

abbrev attempts : List (String × ℕ)
attempts = ("a", 1) ∷ ("b", 2) ∷ ("a", 2) ∷ ("a", 3) ∷ ("a", 9) ∷ []

decisions-reference_example : decisions fresh attempts ≡ reference_decisions 2 (λ k. none) attempts
decisions-reference_example =
    decisions-reference fresh (λ k. none) 0 attempts
      (omega arith, (omega arith, (omega arith, (omega arith, (omega arith, tt))))) (λ k. refl)

abbrev accounts : AccountLoginLimiter
accounts = record { entries = λ k. none; threshold = 2; cooldown = 10 }

run-AllCapped_example : AllCapped (run accounts (fails "a" 1 ∷ fails "a" 2 ∷ asks "a" 3 ∷ []))
run-AllCapped_example =
    run-AllCapped accounts (fails "a" 1 ∷ fails "a" 2 ∷ asks "a" 3 ∷ []) (λ k. tt)

lockout_starts_example :
    (in_cooldown (run accounts (map (fails "a") (1 ∷ 5 ∷ 9 ∷ []))) "a" 19).0 ≡ true
lockout_starts_example =
    lockout_starts accounts "a" 1 (5 ∷ 9 ∷ []) 19 refl refl (omega arith) (omega arith)
      (omega arith, (omega arith, tt)) (omega arith)

abbrev locked : AccountLoginLimiter
locked = record accounts {
  entries = λ k. if str_eq k "a" then some (record { count = 7; last_seen = 20 }) else none;
}

lockout_ends_example : (in_cooldown (run locked (map (fails "a") (21 ∷ 29 ∷ []))) "a" 31).0 ≡ false
lockout_ends_example =
    lockout_ends locked "a" (record { count = 7; last_seen = 20 }) (21 ∷ 29 ∷ []) 31 refl
      (omega arith) (omega arith, (omega arith, tt)) (omega arith)

abbrev same_key : ℕ → ℕ → Bool
same_key k j = k == j

same_key_sound : (k j : ℕ) → same_key k j ≡ true → k ≡ j
same_key_sound k j h = ground arith

same_key_refl : (k : ℕ) → same_key k k ≡ true
same_key_refl k = ground arith

abbrev no_subscribers : Hub ℕ ℕ
no_subscribers = record {
  subs = λ k. [];
  buffer = λ id. none;
  is_closed = λ id. false;
  once_done = λ id. false;
  key_of = λ id. 0;
  next = 0;
}

no_subscribers-Inv : Inv no_subscribers
no_subscribers-Inv = record {
  listed_open = λ key id m. absurd m;
  listed_known = λ key id m. absurd m;
  listed_key = λ key id m. absurd m;
  closed_once = λ id l. refl;
}

abbrev calls : List (Call ℕ ℕ)
calls =
    subscribes 1
    ∷ publishes 1 5
    ∷ publishes 1 6
    ∷ unsubscribes 0
    ∷ unsubscribes 0
    ∷ publishes 1 7
    ∷ []

run-total_example :
    (g : Hub ℕ ℕ) × (hub_run same_key same_key_sound same_key_refl no_subscribers calls ≡ some g)
    × Inv g
run-total_example =
    run-total same_key same_key_sound same_key_refl no_subscribers calls no_subscribers-Inv

abbrev idle : TickHub ℕ
idle = record {
  hub = record {
    subs = λ k. [];
    buffer = λ id. none;
    is_closed = λ id. false;
    once_done = λ id. false;
    key_of = λ id. 0;
    next = 0;
  };
  versions = λ k. 4;
}

idle-Inv : Inv idle.hub
idle-Inv = record {
  listed_open = λ key id m. absurd m;
  listed_known = λ key id m. absurd m;
  listed_key = λ key id m. absurd m;
  closed_once = λ id l. refl;
}

abbrev tick_calls : List (TickCall ℕ)
tick_calls = ticks 1 lobby ∷ ticks 1 question ∷ forgets 2 ∷ takes 0 ∷ ticks 1 reveal ∷ []

ticks_fresh_example :
    (u : TickHub ℕ) × (tick_run same_key same_key_sound same_key_refl
        (subscribe_tick same_key same_key_sound same_key_refl idle 1).1
        tick_calls
      ≡ some u)
    × ((x : Tick)
        → u.hub.buffer (subscribe_tick same_key same_key_sound same_key_refl idle 1).0.0 ≡ some x
        → ((subscribe_tick same_key same_key_sound same_key_refl idle 1).0.1 < x.version)
          × (x.version ≤ u.versions 1))
ticks_fresh_example =
    ticks_fresh same_key same_key_sound same_key_refl idle 1 tick_calls idle-Inv
      (tt, (tt, (refl, (tt, (tt, tt))))) (omega arith)
