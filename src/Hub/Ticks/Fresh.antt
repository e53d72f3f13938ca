-- ===== src/Hub/Ticks/Fresh.antt =====
-- A subscriber hears only of what comes after it subscribed.
use topbanana.Hub.Ticks.Watch.{offered_newer, set_version-grows, Watch}
use topbanana.Hub.{Hub, subscribe, unsubscribe, publish, receive}
use topbanana.Hub.Runs.{step, step-total, subscribe-Inv, Frame-Inv}
use topbanana.Hub.Safety.{unsubscribes, send_all-total}
use topbanana.Hub.{receive, Hub, publish, unsubscribe, subscribe}
use topbanana.Hub.Safety.{unsubscribes, Inv}
use topbanana.Hub.Ticks.{
  forget_tick, tick_run, subscribe_tick, forgets, hears, leaves, ticks, takes, tick_step, tick_step,
  forgets,
}
use topbanana.Base.{
  ℕ, ◌+◌, ◌^◌, ◌≤◌, ◌<◌, ◌≡◌, refl, sym, ◌∙◌, Bool, true, false, some, List, [], ◌∷◌, arith, length,
  All,
}
use topbanana.Hub.Ticks.{next_tick, TickCall, set_version, Tick, TickHub}

-- A call that does not drop the version of the code.
abbrev pub Keeps : {K : Type 0} → (K → K → Bool) → K → TickCall K → Type 0
Keeps same code (forgets k) = same code k ≡ false
Keeps same code _ = Unit {0}

module _ {K : Type 0} (same : K → K → Bool) (same_sound : (k j : K) → same k j ≡ true → k ≡ j)
    (same_refl : (k : K) → same k k ≡ true) where
  unsubscribed :
      (h g : Hub K Tick) (j : ℕ)
      → step same same_sound same_refl h (unsubscribes j) ≡ some g
      → (g.next ≡ h.next) × (g.key_of ≡ h.key_of) × (g.buffer ≡ h.buffer)
  unfolding step unsubscribe
  unsubscribed h g j e = (ground arith, ground arith, ground arith)

  Watch-step :
      (t : TickHub K) (c : TickCall K) (id v : ℕ) (code : K)
      → Watch t id v code
      → Keeps same code c
      → t.versions code + 1 < 2 ^ 64
      → (u : TickHub K) × (tick_step same same_sound same_refl t c ≡ some u)
        × Watch u id v code
        × (u.versions code ≤ t.versions code + 1)
  unfolding tick_step forget_tick step subscribe publish receive
  Watch-step t (hears k) id v code w n h = (
    record t { hub = (subscribe same t.hub k).1 },
    refl,
    record {
      inv = subscribe-Inv same same_sound same_refl t.hub k w.inv;
      known = ground (arith, w.known);
      key = ground (arith, w.known, w.key);
      base = w.base;
      newer = λ x e. w.newer x (ground (arith, w.known));
    },
    omega arith,
  )
  Watch-step t (leaves j) id v code w n h =
      let (g, p, i) = step-total same same_sound same_refl t.hub (unsubscribes j) w.inv in
      let (a, b, d) = unsubscribed t.hub g j p in
      (
        record t { hub = g },
        rw p refl,
        record {
          inv = i;
          known = rw a w.known;
          key = rw b w.key;
          base = w.base;
          newer = λ x e. w.newer x (rw d at e);
        },
        omega arith,
      )
  Watch-step t (ticks k p) id v code w n h =
      let m = next_tick same same_sound same_refl t k p in
      let (g, e, f, b) = send_all-total t.hub m (t.hub.subs k) (λ i j. w.inv.listed_open k i j) in
      let (lo, hi) = set_version-grows same same_sound same_refl t.versions k code h in
      let base = w.base in
      (
        record { hub = g; versions = set_version same same_sound same_refl t.versions k m.version },
        rw e refl,
        record {
          inv = Frame-Inv same same_sound same_refl t.hub g f w.inv;
          known = rw f.same_next w.known;
          key = rw f.same_key w.key;
          base = omega arith;
          newer =
              λ x z. offered_newer same same_sound same_refl t id v code k p x w h (sym (b id) ∙ z);
        },
        hi,
      )
  Watch-step t (takes j) id v code w n h = (
    record t { hub = (receive t.hub j).1 },
    refl,
    record {
      inv = record {
        listed_open = w.inv.listed_open;
        listed_known = w.inv.listed_known;
        listed_key = w.inv.listed_key;
        closed_once = w.inv.closed_once;
      };
      known = w.known;
      key = w.key;
      base = w.base;
      newer = λ x e. w.newer x (ground arith);
    },
    omega arith,
  )
  Watch-step t (forgets k) id v code w n h = (
    forget_tick same same_sound same_refl t k,
    refl,
    record {
      inv = w.inv;
      known = w.known;
      key = w.key;
      base = rw n w.base;
      newer = λ x e. rw n (w.newer x e);
    },
    rw n (omega arith),
  )

  Watch-run :
      (t : TickHub K) (cs : List (TickCall K)) (id v : ℕ) (code : K)
      → Watch t id v code
      → All (Keeps same code) cs
      → t.versions code + length cs < 2 ^ 64
      → (u : TickHub K) × (tick_run same same_sound same_refl t cs ≡ some u) × Watch u id v code
  unfolding tick_run
  Watch-run t [] id v code w n h = (t, refl, w)
  Watch-run t (c ∷ cs) id v code w n h =
      let (u, e, w', l) = Watch-step t c id v code w n.0 (omega arith) in
      let (u', e', w'') = Watch-run u cs id v code w' n.1 (omega arith) in
      (u', rw (e, tick_run) e', w'')

  -- Take a subscription to a hub that satisfies the invariant of its channels, and calls after it of which
  -- none forgets the code and which are too few to take the code's 64-bit counter around. Then none of the
  -- calls panics, and a tick in the subscriber's channel after them has a version above the one that the
  -- subscription returned, and at most the code's current one.
  pub ticks_fresh :
      (t : TickHub K) (code : K) (cs : List (TickCall K))
      → Inv t.hub
      → All (Keeps same code) cs
      → t.versions code + length cs < 2 ^ 64
      → (u : TickHub K) × (tick_run same same_sound same_refl
            (subscribe_tick same same_sound same_refl t code).1
            cs
          ≡ some u)
        × ((x : Tick)
            → u.hub.buffer (subscribe_tick same same_sound same_refl t code).0.0 ≡ some x
            → ((subscribe_tick same same_sound same_refl t code).0.1 < x.version)
              × (x.version ≤ u.versions code))
  unfolding subscribe_tick subscribe
  ticks_fresh t code cs i n h =
      let s = record t { hub = (subscribe same t.hub code).1 } in
      let (u, e, w) =
        Watch-run s cs t.hub.next (t.versions code) code
          (record {
            inv = subscribe-Inv same same_sound same_refl t.hub code i;
            known = omega arith;
            key = ground arith;
            base = omega arith;
            newer = λ x e. ground arith;
          })
          n h in
      (u, e, w.newer)
