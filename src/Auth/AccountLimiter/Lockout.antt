-- ===== src/Auth/AccountLimiter/Lockout.antt =====
-- What failures do to an account, and what they cannot do.
use Prim.Native.String.{String}
use text.Mathlib.Text.{◌==◌ as str_eq}
use text.Mathlib.TextPositions.{eq_refl}
use topbanana.Base.{
  ℕ, ◌+◌, ◌≤◌, ◌<◌, ◌≡◌, refl, sym, subst, ◌⊎◌, inl, inr, true, false, Option, none, some, List, [],
  ◌∷◌, map, arith, ltb, Bool-cases, length, All,
}
use topbanana.Auth.AccountLimiter.{
  AccountFailures, AccountLoginLimiter, account_failure_extension_cap, keep_fresh, prune_locked,
  in_cooldown, fail_entry, register_failure, register_success,
}

-- The calls on the limiter, each with its reading of the clock.
pub data Call : Type 0 where
  asks fails succeeds : String → ℕ → Call

unfoldable pub step : AccountLoginLimiter → Call → AccountLoginLimiter
step l (asks a now) = (in_cooldown l a now).1
step l (fails a now) = register_failure l a now
step l (succeeds a now) = register_success l a

unfoldable pub run : AccountLoginLimiter → List Call → AccountLoginLimiter
run l [] = l
run l (c ∷ cs) = run (step l c) cs

abbrev pub Capped : ℕ → Option AccountFailures → Type 0
Capped n none = Unit {0}
Capped n (some e) = e.count ≤ n

abbrev pub AllCapped : AccountLoginLimiter → Type 0
AllCapped l = (k : String) → Capped (l.threshold + account_failure_extension_cap) (l.entries k)

keep_fresh-Capped :
    (n cooldown now : ℕ) (e : Option AccountFailures)
    → Capped n e
    → Capped n (keep_fresh cooldown now e)
unfolding keep_fresh
keep_fresh-Capped n cooldown now none h = tt
keep_fresh-Capped n cooldown now (some e) h = elim (Bool-cases (ltb (e.last_seen + cooldown) now)) [
  | inl p ↦ rw p tt
  | inr p ↦ rw p h
]

fail_entry-Capped :
    (threshold now : ℕ) (e : Option AccountFailures)
    → Capped (threshold + account_failure_extension_cap) e
    → (fail_entry threshold now e).count ≤ threshold + account_failure_extension_cap
unfolding fail_entry
fail_entry-Capped threshold now none h = ground arith
fail_entry-Capped threshold now (some e) h = ground arith

in_cooldown_state :
    (l : AccountLoginLimiter) (a : String) (now : ℕ)
    → ((in_cooldown l a now).1 ≡ l) ⊎ ((in_cooldown l a now).1 ≡ prune_locked l now)
unfolding in_cooldown
in_cooldown_state l a now = elim (Bool-cases (str_eq a "")) [
  | inl e ↦ inl (rw (e, in_cooldown))
  | inr e ↦ inr (rw (e, in_cooldown))
]

step-AllCapped : (l : AccountLoginLimiter) (c : Call) → AllCapped l → AllCapped (step l c)
unfolding step in_cooldown register_failure register_success prune_locked
step-AllCapped l (asks a now) h k = elim (in_cooldown_state l a now) [
  | inl e ↦ subst AllCapped (sym e) h k
  | inr e ↦ subst AllCapped (sym e) (λ j. keep_fresh-Capped _ l.cooldown now (l.entries j) (h j)) k
]
step-AllCapped l (fails a now) h k = elim (Bool-cases (str_eq a "")) [
  | inl e ↦ rw (e, register_failure) (h k)
  | inr e ↦ elim (Bool-cases (str_eq k a)) [
    | inl p ↦
        rw (e, register_failure, p)
          (fail_entry-Capped l.threshold now _
            (keep_fresh-Capped _ l.cooldown now (l.entries a) (h a)))
    | inr p ↦ rw (e, register_failure, p) (keep_fresh-Capped _ l.cooldown now (l.entries k) (h k))
  ]
]
step-AllCapped l (succeeds a now) h k = elim (Bool-cases (str_eq a "")) [
  | inl e ↦ rw (e, register_success) (h k)
  | inr e ↦ elim (Bool-cases (str_eq k a)) [
    | inl p ↦ rw (e, register_success, p) tt
    | inr p ↦ rw (e, register_success, p) (h k)
  ]
]

-- If no count exceeds the threshold by more than the extension cap, no calls make one do so.
pub run-AllCapped : (l : AccountLoginLimiter) (cs : List Call) → AllCapped l → AllCapped (run l cs)
unfolding run
run-AllCapped l [] h = h
run-AllCapped l (c ∷ cs) h = run-AllCapped (step l c) cs (step-AllCapped l c h)

-- A failure at the cap, before the cooldown is over, changes nothing of the account's entry.
register_failure_at_cap :
    (l : AccountLoginLimiter) (a : String) (e : AccountFailures) (t : ℕ)
    → l.entries a ≡ some e
    → l.threshold + account_failure_extension_cap ≤ e.count
    → t ≤ e.last_seen + l.cooldown
    → ((register_failure l a t).entries a ≡ some e)
      × ((register_failure l a t).threshold ≡ l.threshold)
      × ((register_failure l a t).cooldown ≡ l.cooldown)
unfolding register_failure
register_failure_at_cap l a e t h c d = elim (Bool-cases (str_eq a "")) [
  | inl p ↦ rw (p, register_failure) (h, refl, refl)
  | inr p ↦ rw (p, register_failure, eq_refl a) (ground arith, refl, refl)
]

in_cooldown_after :
    (l : AccountLoginLimiter) (a : String) (e : AccountFailures) (now : ℕ)
    → l.entries a ≡ some e
    → e.last_seen + l.cooldown < now
    → (in_cooldown l a now).0 ≡ false
unfolding in_cooldown keep_fresh
in_cooldown_after l a e now h n = ground arith

-- At the cap an account's lockout can no longer be extended: whatever further failures arrive while it
-- lasts, the account is free as soon as the cooldown after its last counted failure is over.
pub lockout_ends :
    (l : AccountLoginLimiter) (a : String) (e : AccountFailures) (ts : List ℕ) (now : ℕ)
    → l.entries a ≡ some e
    → l.threshold + account_failure_extension_cap ≤ e.count
    → All (λ t. t ≤ e.last_seen + l.cooldown) ts
    → e.last_seen + l.cooldown < now
    → (in_cooldown (run l (map (fails a) ts)) a now).0 ≡ false
unfolding run step
lockout_ends l a e [] now h c d n = in_cooldown_after l a e now h n
lockout_ends l a e (t ∷ ts) now h c d n =
    let (k, th, co) = register_failure_at_cap l a e t h c d.0 in
    lockout_ends (register_failure l a t) a e ts now k (omega arith) (rw co d.1) (omega arith)

-- A success frees the account at once, and touches no other.
pub register_success_frees :
    (l : AccountLoginLimiter) (a b : String) (now : ℕ)
    → ((in_cooldown (register_success l a) a now).0 ≡ false)
      × (str_eq b a ≡ false → (register_success l a).entries b ≡ l.entries b)
unfolding in_cooldown register_success
register_success_frees l a b now = (ground (arith, eq_refl a), λ h. ground arith)

-- Each time is at most a cooldown after the one before.
abbrev pub Spaced : ℕ → ℕ → List ℕ → Type 0
Spaced cooldown s [] = Unit {0}
Spaced cooldown s (t ∷ ts) = (t ≤ s + cooldown) × Spaced cooldown t ts

abbrev pub last_from : ℕ → List ℕ → ℕ
last_from s [] = s
last_from s (t ∷ ts) = last_from t ts

register_failure_counts :
    (l : AccountLoginLimiter) (a : String) (e : AccountFailures) (t : ℕ)
    → str_eq a "" ≡ false
    → l.entries a ≡ some e
    → e.count < l.threshold + account_failure_extension_cap
    → t ≤ e.last_seen + l.cooldown
    → (register_failure l a t).entries a ≡ some (record { count = e.count + 1; last_seen = t })
unfolding register_failure
register_failure_counts l a e t p h c d = rw (p, register_failure, eq_refl a) (ground arith)

register_failure_keeps :
    (l : AccountLoginLimiter) (a : String) (t : ℕ)
    → ((register_failure l a t).threshold ≡ l.threshold)
      × ((register_failure l a t).cooldown ≡ l.cooldown)
unfolding register_failure
register_failure_keeps l a t = (ground arith, ground arith)

failures_count :
    (l : AccountLoginLimiter) (a : String) (e : AccountFailures) (ts : List ℕ) (now : ℕ)
    → str_eq a "" ≡ false
    → l.entries a ≡ some e
    → e.count + length ts ≤ l.threshold + account_failure_extension_cap
    → l.threshold ≤ e.count + length ts
    → Spaced l.cooldown e.last_seen ts
    → now ≤ last_from e.last_seen ts + l.cooldown
    → (in_cooldown (run l (map (fails a) ts)) a now).0 ≡ true
unfolding run step in_cooldown keep_fresh
failures_count l a e [] now p h b c s n = ground arith
failures_count l a e (t ∷ ts) now p h b c s n =
    let (th, co) = register_failure_keeps l a t in
    failures_count (register_failure l a t) a (record { count = e.count + 1; last_seen = t }) ts now
      p (register_failure_counts l a e t p h (omega arith) s.0) (omega arith) (omega arith)
      (rw co s.1) (omega arith)

register_failure_first :
    (l : AccountLoginLimiter) (a : String) (t : ℕ)
    → str_eq a "" ≡ false
    → l.entries a ≡ none
    → (register_failure l a t).entries a ≡ some (record { count = 1; last_seen = t })
unfolding register_failure
register_failure_first l a t p h = rw (p, register_failure, eq_refl a) (ground arith)

-- A named account without failures is locked after as many as the threshold, up to the cap, if each
-- comes within the cooldown after the one before, and stays so until the cooldown after the last.
pub lockout_starts :
    (l : AccountLoginLimiter) (a : String) (t : ℕ) (ts : List ℕ) (now : ℕ)
    → str_eq a "" ≡ false
    → l.entries a ≡ none
    → l.threshold ≤ 1 + length ts
    → 1 + length ts ≤ l.threshold + account_failure_extension_cap
    → Spaced l.cooldown t ts
    → now ≤ last_from t ts + l.cooldown
    → (in_cooldown (run l (map (fails a) (t ∷ ts))) a now).0 ≡ true
unfolding run step
lockout_starts l a t ts now p h c b s n =
    let (th, co) = register_failure_keeps l a t in
    failures_count (register_failure l a t) a (record { count = 1; last_seen = t }) ts now p
      (register_failure_first l a t p h) (omega arith) (omega arith) (rw co s) (omega arith)
