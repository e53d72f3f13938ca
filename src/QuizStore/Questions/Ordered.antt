-- ===== src/QuizStore/Questions/Ordered.antt =====
-- The new order of a quiz's questions holds each of them once.
use topbanana.QuizStore.Order.{id_unique, ids-In}
use topbanana.QuizStore.Positions.{ids_of}
use topbanana.QuizStore.Questions.{flatten}
use topbanana.QuizStore.Positions.Dense.{Distinct}
use topbanana.QuizStore.{Row}
use topbanana.Base.{
  ℕ, ◌≡◌, refl, sym, ap, subst, ◌∙◌, inl, inr, List, [], ◌∷◌, ◌++◌, In, In-append_left,
  In-append_right, In-append,
}

append-Distinct :
    (xs ys : List ℕ)
    → Distinct xs
    → Distinct ys
    → ((x : ℕ) → In x xs → In x ys → ⊥)
    → Distinct (xs ++ ys)
append-Distinct [] ys d e f = e
append-Distinct (x ∷ xs) ys (g, d) e f = (
  λ m. elim (In-append x xs ys m) [ inl h ↦ g h | inr h ↦ f x (inl refl) h ],
  append-Distinct xs ys d e (λ z h k. f z (inr h) k),
)

ids_of-append : (xs ys : List Row) → ids_of (xs ++ ys) ≡ ids_of xs ++ ids_of ys
ids_of-append [] ys = refl
ids_of-append (x ∷ xs) ys = ap (◌∷◌ x.id) (ids_of-append xs ys)

module _ (L : List Row) (key : Row → ℕ) (f : ℕ → List Row)
    (inside : (k : ℕ) (r : Row) → In r (f k) → In r L × (key r ≡ k)) where
  flatten-inside : (rs : List Row) (r : Row) → In r (flatten f rs) → In r L × In (key r) (ids_of rs)
  flatten-inside [] r m = absurd m
  flatten-inside (x ∷ rs) r m = elim (In-append r (f x.id) (flatten f rs) m) [
    | inl h ↦ let (i, e) = inside x.id r h in (i, inl e)
    | inr h ↦ let (i, k) = flatten-inside rs r h in (i, inr k)
  ]

  pub flatten-Distinct :
      (rs : List Row)
      → Distinct (ids_of L)
      → ((k : ℕ) → Distinct (ids_of (f k)))
      → Distinct (ids_of rs)
      → Distinct (ids_of (flatten f rs))
  flatten-Distinct [] dl each d = tt
  flatten-Distinct (x ∷ rs) dl each (fresh, d) =
      subst Distinct (sym (ids_of-append (f x.id) (flatten f rs))) (
        append-Distinct (ids_of (f x.id)) (ids_of (flatten f rs)) (each x.id)
          (flatten-Distinct rs dl each d)
          (λ z h k.
            let (r, mr, er) = ids-In z (f x.id) h in
            let (s, ms, es) = ids-In z (flatten f rs) k in
            let (ir, kr) = inside x.id r mr in
            let (is', ks) = flatten-inside rs s ms in
            let same : r ≡ s = id_unique L r s dl ir is' (sym er ∙ es) in
            fresh (subst (λ (n : ℕ). In n (ids_of rs)) (ap key (sym same) ∙ kr) ks)))

  pub In-flatten :
      (rs : List Row) (r : Row) → In (key r) (ids_of rs) → In r (f (key r)) → In r (flatten f rs)
  In-flatten [] r m h = absurd m
  In-flatten (x ∷ rs) r (inl e) h =
      In-append_left r (f x.id) (flatten f rs) (subst (λ (k : ℕ). In r (f k)) e h)
  In-flatten (x ∷ rs) r (inr m) h = In-append_right r (f x.id) (flatten f rs) (In-flatten rs r m h)

  pub flatten-In : (rs : List Row) (r : Row) → In r (flatten f rs) → In r L
  flatten-In rs r m = (flatten-inside rs r m).0
