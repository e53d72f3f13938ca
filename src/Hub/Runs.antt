-- ===== src/Hub/Runs.antt =====
-- No interleaving of calls sends on a closed channel or closes one twice.
use topbanana.Base.{
  ℕ, ◌<◌, ◌≡◌, refl, ◌∙◌, ◌⊎◌, inl, inr, Bool, true, false, Option, none, some, List, [], ◌∷◌,
  arith, ltb, ◌==◌, if◌then◌else◌, ltb→lt, Bool-cases, In,
}
use topbanana.Hub.{Hub, update, without, receive, set_key, subscribe, unsubscribe, publish}
use topbanana.Hub.Safety.{
  Inv, Call, subscribes, unsubscribes, publishes, receives, Frame, send_all-total,
}

In-without : (a id : ℕ) (l : List ℕ) → In a (without id l) → In a l × ((a == id) ≡ false)
In-without a id [] m = absurd m
In-without a id (x ∷ l) m = elim (Bool-cases (x == id)) [
  | inl e ↦ let (i, n) = In-without a id l (ground arith) in (inr i, n)
  | inr e ↦ ground (arith, In-without a id l)
]

module _ {K M : Type 0} (same : K → K → Bool) (same_sound : (k j : K) → same k j ≡ true → k ≡ j)
    (same_refl : (k : K) → same k k ≡ true) where
  -- A channel that is unsubscribed is one that Subscribe returned; for other numbers there is no call.
  unfoldable pub step : Hub K M → Call K M → Option (Hub K M)
  step h (subscribes key) = some (subscribe same h key).1
  step h (unsubscribes id) = if ltb id h.next then unsubscribe same h id else some h
  step h (publishes key m) = publish same h key m
  step h (receives id) = some (receive h id).1

  unfoldable pub run : Hub K M → List (Call K M) → Option (Hub K M)
  run h [] = some h
  run h (c ∷ cs) = elim (step h c) [ none ↦ none | some g ↦ run g cs ]

  pub Frame-Inv : (h g : Hub K M) → Frame h g → Inv h → Inv g
  Frame-Inv h g f v = record {
    listed_open = λ key id m. rw f.same_closed (v.listed_open key id (rw f.same_subs at m));
    listed_known = λ key id m. rw f.same_next (v.listed_known key id (rw f.same_subs at m));
    listed_key = λ key id m. rw f.same_key (v.listed_key key id (rw f.same_subs at m));
    closed_once = λ id l. rw (f.same_closed, f.same_once) (v.closed_once id (rw f.same_next at l));
  }

  listed-subscribe :
      (h : Hub K M) (key k : K) (id : ℕ)
      → In id (set_key same h.subs key (h.next ∷ h.subs key) k)
      → ((id ≡ h.next) × (k ≡ key)) ⊎ In id (h.subs k)
  listed-subscribe h key k id m = elim (Bool-cases (same k key)) [
    | inl e ↦ new e (rw e at m)
    | inr e ↦ inr (rw e at m)
  ]
    where
      new :
          same k key ≡ true
          → (id ≡ h.next) ⊎ In id (h.subs key)
          → ((id ≡ h.next) × (k ≡ key)) ⊎ In id (h.subs k)
      new e (inl p) = inl (p, same_sound k key e)
      new e (inr i) = inr (rw (same_sound k key e) i)

  pub subscribe-Inv : (h : Hub K M) (key : K) → Inv h → Inv (subscribe same h key).1
  unfolding subscribe
  subscribe-Inv h key v = record {
    listed_open = λ k id m. elim (listed-subscribe h key k id m) [
      | inl (p, q) ↦ ground arith
      | inr i ↦ ground (arith, v.listed_open k id i)
    ];
    listed_known = λ k id m. elim (listed-subscribe h key k id m) [
      | inl (p, q) ↦ omega arith
      | inr i ↦ omega (arith, v.listed_known k id i)
    ];
    listed_key = λ k id m. elim (listed-subscribe h key k id m) [
      | inl (p, q) ↦ ground arith
      | inr i ↦ ground (arith, v.listed_known k id i, v.listed_key k id i)
    ];
    closed_once = λ id l. ground (arith, v.closed_once id);
  }

  listed-unsubscribe :
      (h : Hub K M) (id k' : ℕ) (k : K)
      → Inv h
      → In k' (set_key same h.subs (h.key_of id) (without id (h.subs (h.key_of id))) k)
      → In k' (h.subs k) × ((k' == id) ≡ false)
  listed-unsubscribe h id k' k v m = elim (Bool-cases (same k (h.key_of id))) [
    | inl e ↦
        let s = same_sound k (h.key_of id) e in
        let (i, n) = In-without k' id (h.subs (h.key_of id)) (rw e at m) in (rw s i, n)
    | inr e ↦ (rw e at m, ground (arith, v.listed_key k k' (rw e at m), same_refl k))
  ]

  unsubscribe-Inv :
      (h : Hub K M) (id : ℕ)
      → Inv h
      → id < h.next
      → (g : Hub K M) × (unsubscribe same h id ≡ some g) × Inv g
  unfolding unsubscribe
  unsubscribe-Inv h id v l = elim (Bool-cases (h.once_done id)) [
    | inl e ↦ (h, rw (e, unsubscribe), v)
    | inr e ↦ (
      record h {
        subs = set_key same h.subs (h.key_of id) (without id (h.subs (h.key_of id)));
        is_closed = update h.is_closed id true;
        once_done = update h.once_done id true;
      },
      rw (e, unsubscribe, v.closed_once id l ∙ e),
      record {
        listed_open = λ k k' m.
            let (i, n) = listed-unsubscribe h id k' k v m in ground (arith, v.listed_open k k' i);
        listed_known = λ k k' m. v.listed_known k k' (listed-unsubscribe h id k' k v m).0;
        listed_key = λ k k' m. v.listed_key k k' (listed-unsubscribe h id k' k v m).0;
        closed_once = λ k' l'. ground (arith, v.closed_once k' l');
      },
    )
  ]

  pub step-total :
      (h : Hub K M) (c : Call K M) → Inv h → (g : Hub K M) × (step h c ≡ some g) × Inv g
  unfolding step publish receive
  step-total h (subscribes key) v = ((subscribe same h key).1, refl, subscribe-Inv h key v)
  step-total h (unsubscribes id) v = elim (Bool-cases (ltb id h.next)) [
    | inl e ↦ let (g, p, w) = unsubscribe-Inv h id v (ltb→lt id h.next e) in (g, rw (e, step) p, w)
    | inr e ↦ (h, rw (e, step), v)
  ]
  step-total h (publishes key m) v =
      let (g, p, f, b) = send_all-total h m (h.subs key) (λ id i. v.listed_open key id i) in
      (g, p, Frame-Inv h g f v)
  step-total h (receives id) v = (
    (receive h id).1,
    refl,
    record {
      listed_open = v.listed_open;
      listed_known = v.listed_known;
      listed_key = v.listed_key;
      closed_once = v.closed_once;
    },
  )

  -- From a hub that satisfies the invariant every sequence of calls runs through: no call panics.
  pub run-total :
      (h : Hub K M) (cs : List (Call K M)) → Inv h → (g : Hub K M) × (run h cs ≡ some g) × Inv g
  unfolding run
  run-total h [] v = (h, refl, v)
  run-total h (c ∷ cs) v =
      let (g, p, w) = step-total h c v in
      let (g', p', w') = run-total g cs w in (g', rw (p, run) p', w')
