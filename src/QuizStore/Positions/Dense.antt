-- ===== src/QuizStore/Positions/Dense.antt =====
-- The renumbering never meets a position that is taken, and gives each row its place in the order.
use topbanana.QuizStore.Positions.Safe.{==ℤ_iff}
use topbanana.QuizStore.Positions.{moves_from}
use topbanana.Base.{
  pos, ℤ, ◌==ℤ◌, ℕ, suc, ◌+◌, ◌≡◌, refl, sym, ap, subst, ◌∙◌, ◌⊎◌, inl, inr, Bool, false, List, [],
  ◌∷◌, map, arith, ◌==◌, if◌then◌else◌, ==_iff, Bool-cases, any, In,
}

-- The place of an id in a list, counted from 0.
abbrev pub place : ℕ → List ℕ → ℕ
place x [] = 0
place x (y ∷ ys) = if y == x then 0 else suc (place x ys)

abbrev pub Distinct : List ℕ → Type 0
Distinct [] = Unit
Distinct (x ∷ xs) = (In x xs → ⊥) × Distinct xs

abbrev pub has : ℕ → List (ℕ × ℕ) → Bool
has x ms = any (λ (m : ℕ × ℕ). m.0 == x) ms

pub place_inj : (x y : ℕ) (ids : List ℕ) → In x ids → In y ids → place x ids ≡ place y ids → x ≡ y
place_inj x y [] i j e = absurd i
place_inj x y (z ∷ ids) (inl a) (inl b) e = a ∙ sym b
place_inj x y (z ∷ ids) (inl a) (inr b) e = ground arith
place_inj x y (z ∷ ids) (inr a) (inl b) e = ground arith
place_inj x y (z ∷ ids) (inr a) (inr b) e = ground (arith, place_inj x y ids a b)

-- What holds of a place in the tail holds in the list, for an id that the head is not.
place-tail :
    (x id : ℕ) (ids : List ℕ) → (In id ids → ⊥) → In x ids → place x (id ∷ ids) ≡ suc (place x ids)
place-tail x id ids fresh h = elim (Bool-cases (id == x)) [
  | inl e ↦ absurd (fresh (subst (λ (z : ℕ). In z ids) (sym ((==_iff id x).0 e)) h))
  | inr e ↦ rw e refl
]

place-head : (x id : ℕ) (ids : List ℕ) → x ≡ id → place x (id ∷ ids) ≡ 0
place-head x id ids e = ground arith

abbrev pub AtPlace : ℕ → List ℕ → ℕ × ℕ → Type 0
AtPlace i ids m = In m.0 ids × (m.1 ≡ i + place m.0 ids + 1)

AtPlace-tail :
    (i id : ℕ) (ids : List ℕ) (m : ℕ × ℕ)
    → (In id ids → ⊥)
    → AtPlace (i + 1) ids m
    → AtPlace i (id ∷ ids) m
AtPlace-tail i id ids m fresh (h, e) = (inr h, omega (arith, e, place-tail m.0 id ids fresh h))

AtPlace-head : (i id : ℕ) (ids : List ℕ) → AtPlace i (id ∷ ids) (id, i + 1)
AtPlace-head i id ids = (inl refl, omega (arith, place-head id id ids refl))

-- A move gives its row the place that the row has in the list.
pub moves_from-AtPlace :
    (f : ℕ → ℤ) (i : ℕ) (ids : List ℕ) (m : ℕ × ℕ)
    → Distinct ids
    → In m (moves_from i ids (map f ids))
    → AtPlace i ids m
unfolding moves_from
moves_from-AtPlace f i [] m d h = absurd h
moves_from-AtPlace f i (id ∷ ids) m (fresh, d) h =
    let split : In m ((id, i + 1) ∷ moves_from (i + 1) ids (map f ids))
        → (m ≡ (id, i + 1)) ⊎ In m (moves_from (i + 1) ids (map f ids)) =
      λ k. k in
    let later = λ (k : In m (moves_from (i + 1) ids (map f ids))).
      AtPlace-tail i id ids m fresh (moves_from-AtPlace f (i + 1) ids m d k) in
    elim (Bool-cases (f id ==ℤ pos (i + 1))) [
      | inl e ↦ later (rw (e, moves_from) at h)
      | inr e ↦ elim (split (rw (e, moves_from) at h)) [
        | inl same ↦ subst (AtPlace i (id ∷ ids)) (sym same) (AtPlace-head i id ids)
        | inr k ↦ later k
      ]
    ]

-- A row that does not move is at its place.
pub moves_from-stays :
    (f : ℕ → ℤ) (i : ℕ) (ids : List ℕ) (x : ℕ)
    → Distinct ids
    → In x ids
    → has x (moves_from i ids (map f ids)) ≡ false
    → f x ≡ pos (i + place x ids + 1)
unfolding moves_from
moves_from-stays f i [] x d m h = absurd m
moves_from-stays f i (id ∷ ids) x (fresh, d) m h = elim (Bool-cases (f id ==ℤ pos (i + 1))) [
  | inl e ↦ elim m [
    | inl same ↦
        ap f same
        ∙ ((==ℤ_iff (f id) (pos (i + 1))).0 e ∙ ap pos (omega (arith, place-head x id ids same)))
    | inr k ↦
        moves_from-stays f (i + 1) ids x d k (rw (e, moves_from) at h)
        ∙ ap pos (omega (arith, place-tail x id ids fresh k))
  ]
  | inr e ↦ elim m [
    | inl same ↦ absurd (cc (rw (e, moves_from) at h, (==_iff id x).1 (sym same)))
    | inr k ↦ elim (Bool-cases (id == x)) [
      | inl same ↦ cc (rw (e, moves_from, same) at h)
      | inr other ↦
          moves_from-stays f (i + 1) ids x d k (rw (e, moves_from, other) at h)
          ∙ ap pos (omega (arith, place-tail x id ids fresh k))
    ]
  ]
]
