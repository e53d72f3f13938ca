-- ===== src/Hub.antt =====
-- The publish and subscribe hubs of internal/leaderboard/hub.go and internal/livesession/hub.go: what
-- both do with their channels. A channel is a number; a channel of capacity 1 is its buffer and whether it
-- is closed; the map of sets gives an empty list for a key that it lacks. A send on a closed channel and a
-- second close panic in Go: the step is then none. The mutex makes each call one step.
pub mod Safety
pub mod Runs
pub mod Ticks
use topbanana.Base.{
  ℕ, ◌+◌, Bool, true, false, not, Option, none, some, List, [], ◌∷◌, ◌==◌, if◌then◌else◌, keep,
}

pub record Hub (K M : Type 0) : Type 0 where
  pub subs : K → List ℕ
  pub buffer : ℕ → Option M
  pub is_closed : ℕ → Bool
  pub once_done : ℕ → Bool
  pub key_of : ℕ → K
  pub next : ℕ

abbrev pub update {ℓ} : {A : Type ℓ} → (ℕ → A) → ℕ → A → ℕ → A
update f id a k = if k == id then a else f k

-- `delete(existing, ch)`.
abbrev pub without : ℕ → List ℕ → List ℕ
without id = keep (λ k. not (k == id))

abbrev pub set_key : {K : Type 0} → (K → K → Bool) → (K → List ℕ) → K → List ℕ → K → List ℕ
set_key same f key ids k = if same k key then ids else f k

module _ {K M : Type 0} where
  -- `select { case ch <- m: default: }`: a full buffer drops the message.
  unfoldable pub send : Hub K M → M → ℕ → Option (Hub K M)
  send h m id =
      if h.is_closed id
      then none
      else some (elim (h.buffer id) [
        | some old ↦ h
        | none ↦ record h { buffer = update h.buffer id (some m) }
      ])

  unfoldable pub send_all : Hub K M → M → List ℕ → Option (Hub K M)
  unfolding send
  send_all h m [] = some h
  send_all h m (id ∷ ids) = elim (send h m id) [ none ↦ none | some h' ↦ send_all h' m ids ]

  -- The receiver takes what is in the buffer.
  unfoldable pub receive : Hub K M → ℕ → Option M × Hub K M
  receive h id = (h.buffer id, record h { buffer = update h.buffer id none })

  module _ (same : K → K → Bool) where
    -- The new channel, and the hub that has it.
    unfoldable pub subscribe : Hub K M → K → ℕ × Hub K M
    subscribe h key = (
      h.next,
      record h {
        subs = set_key same h.subs key (h.next ∷ h.subs key);
        buffer = update h.buffer h.next none;
        is_closed = update h.is_closed h.next false;
        once_done = update h.once_done h.next false;
        key_of = update h.key_of h.next key;
        next = h.next + 1;
      },
    )

    -- The function that Subscribe returned for the channel.
    unfoldable pub unsubscribe : Hub K M → ℕ → Option (Hub K M)
    unsubscribe h id =
        if h.once_done id
        then some h
        else if h.is_closed id
        then none
        else some (record h {
          subs = set_key same h.subs (h.key_of id) (without id (h.subs (h.key_of id)));
          is_closed = update h.is_closed id true;
          once_done = update h.once_done id true;
        })

    unfoldable pub publish : Hub K M → K → M → Option (Hub K M)
    unfolding send_all
    publish h key m = send_all h m (h.subs key)
