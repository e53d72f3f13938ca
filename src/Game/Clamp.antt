-- ===== src/Game/Clamp.antt =====
-- The latency refund, internal/game/clamp.go. Times are nanoseconds since the zero time, so that
-- IsZero is a test for 0.
use topbanana.Base.{ℕ, ◌+◌, ◌≤◌, ◌<◌, ◌≡◌, ◌⊎◌, ◌||◌, arith, ltb, ◌==◌, if◌then◌else◌}

-- Two seconds.
abbrev pub max_latency_refund : ℕ
max_latency_refund = 2_000_000_000

-- `tappedAt.Before(serverNow - maxRefund)`, with the refund moved across so that nothing stops at 0.
unfoldable pub clamp_tapped_at : ℕ → ℕ → ℕ → ℕ
clamp_tapped_at tapped_at server_now max_refund =
    if tapped_at == 0 || (ltb (tapped_at + max_refund) server_now || ltb server_now tapped_at)
    then server_now
    else tapped_at

-- The recorded time is never after the server's time, and never more than the refund before it.
pub clamp_window :
    (tapped_at server_now max_refund : ℕ)
    → (clamp_tapped_at tapped_at server_now max_refund ≤ server_now)
      × (server_now ≤ clamp_tapped_at tapped_at server_now max_refund + max_refund)
unfolding clamp_tapped_at
clamp_window tapped_at server_now max_refund = ground arith

-- A tap that is set and falls in the window is recorded as it is; any other becomes the server's time.
pub clamp_exact :
    (tapped_at server_now max_refund : ℕ)
    → (0 < tapped_at
        → server_now ≤ tapped_at + max_refund
        → tapped_at ≤ server_now
        → clamp_tapped_at tapped_at server_now max_refund ≡ tapped_at)
      × ((tapped_at ≡ 0) ⊎ ((tapped_at + max_refund < server_now) ⊎ (server_now < tapped_at))
          → clamp_tapped_at tapped_at server_now max_refund ≡ server_now)
unfolding clamp_tapped_at
clamp_exact tapped_at server_now max_refund = (λ a b c. ground arith, λ h. ground arith)
