-- ===== src/Hub/Ticks.antt =====
-- The hub of live sessions, internal/livesession/hub.go: the same channels, with a version for each code that
-- a publish adds 1 to, a 64-bit counter. A code without a version has version 0.
pub mod Watch
pub mod Fresh
use mathlib.Core.Option
use topbanana.Base.{
  ℕ, ◌+◌, ◌%◌, ◌^◌, ◌≡◌, Bool, true, Option, none, some, List, [], ◌∷◌, map, if◌then◌else◌,
}
use topbanana.Live.{Phase}
use topbanana.Hub.{Hub, subscribe}
use topbanana.Hub.Safety.{Call, subscribes, unsubscribes, publishes, receives}
use topbanana.Hub.Runs.{step}

pub record Tick : Type 0 where
  pub version : ℕ
  pub phase : Phase

pub record TickHub (K : Type 0) : Type 0 where
  pub hub : Hub K Tick
  pub versions : K → ℕ

pub data TickCall (K : Type 0) : Type 0 where
  hears : K → TickCall K
  leaves : ℕ → TickCall K
  ticks : K → Phase → TickCall K
  takes : ℕ → TickCall K
  forgets : K → TickCall K

module _ {K : Type 0} (same : K → K → Bool) (same_sound : (k j : K) → same k j ≡ true → k ≡ j)
    (same_refl : (k : K) → same k k ≡ true) where
  abbrev pub set_version : (K → ℕ) → K → ℕ → K → ℕ
  set_version f code n k = if same k code then n else f k

  abbrev pub next_tick : TickHub K → K → Phase → Tick
  next_tick t code phase = record { version = (t.versions code + 1) % 2 ^ 64; phase = phase }

  abbrev pub on_hub : TickHub K → (K → ℕ) → Call K Tick → Option (TickHub K)
  on_hub t versions c =
      Option.map (λ h. record { hub = h; versions = versions })
        (step same same_sound same_refl t.hub c)

  -- `Subscribe`: the channel, the version at that moment, and the hub.
  unfoldable pub subscribe_tick : TickHub K → K → (ℕ × ℕ) × TickHub K
  subscribe_tick t code =
      ((t.hub.next, t.versions code), record t { hub = (subscribe same t.hub code).1 })

  unfoldable pub publish_tick : TickHub K → K → Phase → Option (TickHub K)
  publish_tick t code phase =
      let tick = next_tick t code phase in
      on_hub t (set_version t.versions code tick.version) (publishes code tick)

  -- `Forget`.
  unfoldable pub forget_tick : TickHub K → K → TickHub K
  forget_tick t code = record t { versions = set_version t.versions code 0 }

  unfoldable pub tick_step : TickHub K → TickCall K → Option (TickHub K)
  unfolding subscribe_tick publish_tick forget_tick
  tick_step t (hears code) = some (subscribe_tick t code).1
  tick_step t (leaves id) = on_hub t t.versions (unsubscribes id)
  tick_step t (ticks code phase) = publish_tick t code phase
  tick_step t (takes id) = on_hub t t.versions (receives id)
  tick_step t (forgets code) = some (forget_tick t code)

  unfoldable pub tick_run : TickHub K → List (TickCall K) → Option (TickHub K)
  tick_run t [] = some t
  tick_run t (c ∷ cs) = elim (tick_step t c) [ none ↦ none | some u ↦ tick_run u cs ]
