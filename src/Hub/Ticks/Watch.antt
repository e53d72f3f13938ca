-- ===== src/Hub/Ticks/Watch.antt =====
-- What a publish leaves in a channel that is watched.
use topbanana.Live.{Phase}
use topbanana.Hub.Safety.{offered, Inv}
use topbanana.Base.{
  ℕ, ◌+◌, ◌%◌, ◌^◌, ◌≤◌, ◌<◌, ◌≡◌, refl, sym, ap, ◌∙◌, ◌⊎◌, inl, inr, Bool, true, Option, none,
  some, arith, ◌==◌, if◌then◌else◌, ==_iff, Bool-cases, any, any_sound,
}
use topbanana.Hub.Ticks.{next_tick, set_version, Tick, TickHub}

-- What holds of a channel that was handed out for a code with version v.
pub record Watch {K : Type 0} (t : TickHub K) (id v : ℕ) (code : K) : Type 0 where
  pub inv : Inv t.hub
  pub known : id < t.hub.next
  pub key : t.hub.key_of id ≡ code
  pub base : v ≤ t.versions code
  pub newer :
      (x : Tick) → t.hub.buffer id ≡ some x → (v < x.version) × (x.version ≤ t.versions code)

below-mod : (a : ℕ) → a < 2 ^ 64 → a % 2 ^ 64 ≡ a
below-mod a h = ground arith

offered-some : (o : Option Tick) (m x : Tick) → offered o m ≡ some x → (o ≡ some x) ⊎ (m ≡ x)
offered-some none m x h = inr (ground arith)
offered-some (some old) m x h = inl h

module _ {K : Type 0} (same : K → K → Bool) (same_sound : (k j : K) → same k j ≡ true → k ≡ j)
    (same_refl : (k : K) → same k k ≡ true) where
  pub set_version-grows :
      (f : K → ℕ) (k code : K)
      → f code + 1 < 2 ^ 64
      → (f code ≤ set_version same same_sound same_refl f k ((f k + 1) % 2 ^ 64) code)
        × (set_version same same_sound same_refl f k ((f k + 1) % 2 ^ 64) code ≤ f code + 1)
  set_version-grows f k code h = elim (Bool-cases (same code k)) [
    | inl e ↦ rw (e, ← same_sound code k e, below-mod (f code + 1) h) (omega arith, omega arith)
    | inr e ↦ rw e (omega arith, omega arith)
  ]

  set_version-at :
      (f : K → ℕ) (k code : K) (n : ℕ)
      → code ≡ k
      → set_version same same_sound same_refl f k n code ≡ n
  set_version-at f k code n q = rw (q, same_refl k) refl

  pub offered_newer :
      (t : TickHub K) (id v : ℕ) (code k : K) (p : Phase) (x : Tick)
      → Watch t id v code
      → t.versions code + 1 < 2 ^ 64
      → (if any (λ j. id == j) (t.hub.subs k)
          then offered (t.hub.buffer id) (next_tick same same_sound same_refl t k p)
          else t.hub.buffer id)
        ≡ some x
      → (v < x.version)
        × (x.version
            ≤ set_version same same_sound same_refl t.versions k ((t.versions k + 1) % 2 ^ 64) code)
  offered_newer t id v code k p x w h e = elim (Bool-cases (any (λ j. id == j) (t.hub.subs k))) [
    | inr n ↦ old (rw n at e)
    | inl y ↦
        elim (offered-some (t.hub.buffer id) (next_tick same same_sound same_refl t k p) x
          (rw y at e)) [ inl o ↦ old o | inr m ↦ new (listed y) m ]
  ]
    where
      old :
          t.hub.buffer id ≡ some x
          → (v < x.version)
            × (x.version
                ≤ set_version same same_sound same_refl t.versions k
                    ((t.versions k + 1) % 2 ^ 64)
                    code)
      old o =
          let (a, b) = w.newer x o in
          let (c, d) = set_version-grows t.versions k code h in (a, omega arith)

      listed : any (λ j. id == j) (t.hub.subs k) ≡ true → code ≡ k
      listed y =
          let (j, m, q) = any_sound (λ j. id == j) (t.hub.subs k) y in
          sym w.key ∙ ap t.hub.key_of ((==_iff id j).0 q) ∙ w.inv.listed_key k j m

      exact : code ≡ k → (t.versions k + 1) % 2 ^ 64 ≡ t.versions code + 1
      exact q = ap (λ z. (t.versions z + 1) % 2 ^ 64) (sym q) ∙ below-mod (t.versions code + 1) h

      new :
          code ≡ k
          → next_tick same same_sound same_refl t k p ≡ x
          → (v < x.version)
            × (x.version
                ≤ set_version same same_sound same_refl t.versions k
                    ((t.versions k + 1) % 2 ^ 64)
                    code)
      new q m =
          let a = sym (ap (λ z. z.version) m) ∙ exact q in
          let b = set_version-at t.versions k code ((t.versions k + 1) % 2 ^ 64) q ∙ exact q in
          let c = w.base in (omega arith, omega arith)
