-- ===== src/QuizStore/Positions/Renumber.antt =====
-- The two passes of the renumbering, from a column of positions to a column of positions.
use topbanana.QuizStore.Positions.Dense.{has}
use topbanana.QuizStore.{set_at}
use topbanana.Base.{
  neg, pos, ℤ, ℕ, ◌≡◌, refl, sym, ap, ◌∙◌, ◌⊎◌, inl, inr, true, false, List, [], ◌∷◌, arith, ◌==◌,
  ==_iff, Bool-cases, In,
}

abbrev pub park_all : List (ℕ × ℕ) → (ℕ → ℤ) → ℕ → ℤ
park_all [] f = f
park_all (m ∷ ms) f = park_all ms (set_at f m.0 (neg m.0))

abbrev pub settle_all : List (ℕ × ℕ) → (ℕ → ℤ) → ℕ → ℤ
settle_all [] f = f
settle_all (m ∷ ms) f = settle_all ms (set_at f m.0 (pos m.1))

pub park_all-other :
    (ms : List (ℕ × ℕ)) (f : ℕ → ℤ) (x : ℕ) → has x ms ≡ false → park_all ms f x ≡ f x
park_all-other [] f x h = refl
park_all-other (m ∷ ms) f x h = elim (Bool-cases (m.0 == x)) [
  | inl e ↦ cc (rw e at h)
  | inr e ↦ park_all-other ms (set_at f m.0 (neg m.0)) x (rw e at h) ∙ ground arith
]

-- One step keeps that a row moves later or already has the value.
carry :
    (m : ℕ × ℕ) (ms : List (ℕ × ℕ)) (f : ℕ → ℤ) (x : ℕ) (v p : ℤ)
    → (m.0 ≡ x → v ≡ p)
    → (has x (m ∷ ms) ≡ true) ⊎ (f x ≡ p)
    → (has x ms ≡ true) ⊎ (set_at f m.0 v x ≡ p)
carry m ms f x v p u h = elim (Bool-cases (x == m.0)) [
  | inl e ↦ inr (rw e (u (sym ((==_iff x m.0).0 e))))
  | inr e ↦ elim h [ inl k ↦ inl (still (Bool-cases (m.0 == x)) e k) | inr k ↦ inr (rw e k) ]
]
  where
    still :
        ((m.0 == x) ≡ true) ⊎ ((m.0 == x) ≡ false)
        → (x == m.0) ≡ false
        → has x (m ∷ ms) ≡ true
        → has x ms ≡ true
    still (inl a) b k = ground arith
    still (inr a) b k = rw a at k

pub park_all-moved :
    (ms : List (ℕ × ℕ)) (f : ℕ → ℤ) (x : ℕ)
    → (has x ms ≡ true) ⊎ (f x ≡ neg x)
    → park_all ms f x ≡ neg x
park_all-moved [] f x (inl h) = cc
park_all-moved [] f x (inr h) = h
park_all-moved (m ∷ ms) f x h =
    park_all-moved ms (set_at f m.0 (neg m.0)) x
      (carry m ms f x (neg m.0) (neg x) (λ e. ap neg e) h)

pub settle_all-other :
    (ms : List (ℕ × ℕ)) (f : ℕ → ℤ) (x : ℕ) → has x ms ≡ false → settle_all ms f x ≡ f x
settle_all-other [] f x h = refl
settle_all-other (m ∷ ms) f x h = elim (Bool-cases (m.0 == x)) [
  | inl e ↦ cc (rw e at h)
  | inr e ↦ settle_all-other ms (set_at f m.0 (pos m.1)) x (rw e at h) ∙ ground arith
]

-- The value of a row that some move settles, if all moves of it agree on `n`.
pub settle_all-moved :
    (ms : List (ℕ × ℕ)) (f : ℕ → ℤ) (x n : ℕ)
    → ((m : ℕ × ℕ) → In m ms → m.0 ≡ x → m.1 ≡ n)
    → (has x ms ≡ true) ⊎ (f x ≡ pos n)
    → settle_all ms f x ≡ pos n
settle_all-moved [] f x n u (inl h) = cc
settle_all-moved [] f x n u (inr h) = h
settle_all-moved (m ∷ ms) f x n u h =
    settle_all-moved ms (set_at f m.0 (pos m.1)) x n (λ k i. u k (inr i))
      (carry m ms f x (pos m.1) (pos n) (λ e. ap pos (u m (inl refl) e)) h)
