-- ===== src/Hub/Safety.antt =====
-- No interleaving of calls sends on a closed channel or closes one twice.
use topbanana.Base.{
  ℕ, ◌<◌, ◌≡◌, refl, ◌∙◌, inl, inr, false, Option, none, some, List, [], ◌∷◌, arith, ◌==◌,
  if◌then◌else◌, ==_iff, Bool-cases, Option-cases, any, In,
}
use topbanana.Hub.{send_all, Hub, update, send}

pub record Inv {K M : Type 0} (h : Hub K M) : Type 0 where
  pub listed_open : (key : K) (id : ℕ) → In id (h.subs key) → h.is_closed id ≡ false
  pub listed_known : (key : K) (id : ℕ) → In id (h.subs key) → id < h.next
  pub listed_key : (key : K) (id : ℕ) → In id (h.subs key) → h.key_of id ≡ key
  pub closed_once : (id : ℕ) → id < h.next → h.is_closed id ≡ h.once_done id

-- The calls, in the order in which the mutex lets them through. A channel that is taken from or
-- unsubscribed is one that Subscribe returned.
pub data Call (K M : Type 0) : Type 0 where
  subscribes : K → Call K M
  unsubscribes : ℕ → Call K M
  publishes : K → M → Call K M
  receives : ℕ → Call K M

-- All but the buffers is the same.
pub record Frame {K M : Type 0} (h g : Hub K M) : Type 0 where
  pub same_subs : g.subs ≡ h.subs
  pub same_closed : g.is_closed ≡ h.is_closed
  pub same_once : g.once_done ≡ h.once_done
  pub same_key : g.key_of ≡ h.key_of
  pub same_next : g.next ≡ h.next

-- What a buffer holds after a message is offered to it.
abbrev pub offered : {M : Type 0} → Option M → M → Option M
offered none m = some m
offered (some old) m = some old

offered_twice : {M : Type 0} (o : Option M) (m : M) → offered (offered o m) m ≡ offered o m
offered_twice none m = refl
offered_twice (some old) m = refl

module _ {K M : Type 0} where
  Frame-refl : (h : Hub K M) → Frame h h
  Frame-refl h = record {
    same_subs = refl;
    same_closed = refl;
    same_once = refl;
    same_key = refl;
    same_next = refl;
  }

  Frame-trans : {f g h : Hub K M} → Frame f g → Frame g h → Frame f h
  Frame-trans a b = record {
    same_subs = b.same_subs ∙ a.same_subs;
    same_closed = b.same_closed ∙ a.same_closed;
    same_once = b.same_once ∙ a.same_once;
    same_key = b.same_key ∙ a.same_key;
    same_next = b.same_next ∙ a.same_next;
  }

  sent-empty :
      (h : Hub K M) (m : M) (id k : ℕ)
      → h.buffer id ≡ none
      → update h.buffer id (some m) k ≡ (if k == id then offered (h.buffer k) m else h.buffer k)
  sent-empty h m id k b = elim (Bool-cases (k == id)) [
    | inl e ↦ rw (e, (==_iff k id).0 e, b) refl
    | inr e ↦ rw e refl
  ]

  sent-full :
      (h : Hub K M) (m : M) (id k : ℕ) (old : M)
      → h.buffer id ≡ some old
      → h.buffer k ≡ (if k == id then offered (h.buffer k) m else h.buffer k)
  sent-full h m id k old b = elim (Bool-cases (k == id)) [
    | inl e ↦ rw (e, (==_iff k id).0 e, b) refl
    | inr e ↦ rw e refl
  ]

  send-total :
      (h : Hub K M) (m : M) (id : ℕ)
      → h.is_closed id ≡ false
      → (g : Hub K M) × (send h m id ≡ some g)
        × Frame h g
        × ((k : ℕ) → g.buffer k ≡ (if k == id then offered (h.buffer k) m else h.buffer k))
  unfolding send
  send-total h m id e = elim (Option-cases (h.buffer id)) [
    | inl b ↦ (
      record h { buffer = update h.buffer id (some m) },
      rw (e, send, b),
      record {
        same_subs = refl;
        same_closed = refl;
        same_once = refl;
        same_key = refl;
        same_next = refl;
      },
      λ k. sent-empty h m id k b,
    )
    | inr (old, b) ↦ (h, rw (e, send, b), Frame-refl h, λ k. sent-full h m id k old b)
  ]

  -- A publish reaches every listed channel: it fills the empty buffers, leaves the full ones and all
  -- others as they are, and neither blocks nor panics.
  pub send_all-total :
      (h : Hub K M) (m : M) (ids : List ℕ)
      → ((id : ℕ) → In id ids → h.is_closed id ≡ false)
      → (g : Hub K M) × (send_all h m ids ≡ some g)
        × Frame h g
        × ((k : ℕ)
            → g.buffer k ≡ (if any (λ id. k == id) ids then offered (h.buffer k) m else h.buffer k))
  unfolding send_all
  send_all-total h m [] o = (h, refl, Frame-refl h, λ k. refl)
  send_all-total h m (id ∷ ids) o =
      let (g, e, f, b) = send-total h m id (o id (inl refl)) in
      let (g', e', f', b') = send_all-total g m ids (λ k i. rw f.same_closed (o k (inr i))) in
      (
        g',
        rw (e, send_all) e',
        Frame-trans f f',
        λ k. elim (Bool-cases (k == id)) [
          | inl p ↦ ground (arith, b k, b' k, offered_twice (h.buffer k) m)
          | inr p ↦ ground (arith, b k, b' k)
        ],
      )
