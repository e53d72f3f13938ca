-- ===== src/QuizStore/Order.antt =====
-- Lists of rows from which one is taken and put back elsewhere, and the rows that a query lists.
use topbanana.QuizStore.Positions.Total.{AreRows, Parking}
use topbanana.Archive.Export.Faithful.{some-inj}
use topbanana.QuizStore.{list_by_quiz, Table, sort_by, insert_by, Row}
use topbanana.QuizStore.Positions.{ids_of, delete_at, insert_at}
use topbanana.QuizStore.Positions.Dense.{Distinct}
use topbanana.Base.{
  leb_ℤ, pos, ℤ, ℕ, zero, suc, ◌<◌, ◌≡◌, refl, sym, ap, subst, ◌∙◌, ◌⊎◌, inl, inr, Bool, true, some,
  List, [], ◌∷◌, map, arith, ◌==◌, ==_iff, Bool-cases, get_elem?, keep, In, In-keep, In-map,
}

module _ {A : Type 0} where
  pub In-insert_at : (k : ℕ) (a x : A) (xs : List A) → In x (insert_at k a xs) → (x ≡ a) ⊎ In x xs
  In-insert_at zero a x xs h = h
  In-insert_at (suc k) a x [] h = h
  In-insert_at (suc k) a x (y ∷ xs) (inl e) = inr (inl e)
  In-insert_at (suc k) a x (y ∷ xs) (inr h) = elim (In-insert_at k a x xs h) [
    | inl e ↦ inl e
    | inr m ↦ inr (inr m)
  ]

  pub insert_at-In : (k : ℕ) (a x : A) (xs : List A) → (x ≡ a) ⊎ In x xs → In x (insert_at k a xs)
  insert_at-In zero a x xs h = h
  insert_at-In (suc k) a x [] h = h
  insert_at-In (suc k) a x (y ∷ xs) (inl e) = inr (insert_at-In k a x xs (inl e))
  insert_at-In (suc k) a x (y ∷ xs) (inr (inl e)) = inl e
  insert_at-In (suc k) a x (y ∷ xs) (inr (inr m)) = inr (insert_at-In k a x xs (inr m))

  pub insert_at-delete_at :
      (k : ℕ) (a : A) (xs : List A) → get_elem? xs k ≡ some a → insert_at k a (delete_at k xs) ≡ xs
  insert_at-delete_at k a [] h = cc
  insert_at-delete_at zero a (x ∷ xs) h = ap (λ (z : A). z ∷ xs) (some-inj (sym h))
  insert_at-delete_at (suc k) a (x ∷ xs) h = ap (◌∷◌ x) (insert_at-delete_at k a xs h)

  pub map-insert_at :
      {B : Type 0} (f : A → B) (k : ℕ) (a : A) (xs : List A)
      → map f (insert_at k a xs) ≡ insert_at k (f a) (map f xs)
  map-insert_at f zero a xs = refl
  map-insert_at f (suc k) a [] = refl
  map-insert_at f (suc k) a (x ∷ xs) = ap (◌∷◌ (f x)) (map-insert_at f k a xs)

  pub keep-In : (p : A → Bool) (xs : List A) (a : A) → In a (keep p xs) → In a xs × (p a ≡ true)
  keep-In p [] a h = absurd h
  keep-In p (x ∷ xs) a h = ground (arith, keep-In p xs a)

pub Distinct-insert_at :
    (k x : ℕ) (xs : List ℕ) → (In x xs → ⊥) → Distinct xs → Distinct (insert_at k x xs)
Distinct-insert_at zero x xs f d = (f, d)
Distinct-insert_at (suc k) x [] f d = (f, tt)
Distinct-insert_at (suc k) x (y ∷ xs) f (g, d) = (
  λ m. elim (In-insert_at k x y xs m) [ inl e ↦ f (inl (sym e)) | inr h ↦ g h ],
  Distinct-insert_at k x xs (λ m. f (inr m)) d,
)

pub insert_at-Distinct :
    (k x : ℕ) (xs : List ℕ) → Distinct (insert_at k x xs) → (In x xs → ⊥) × Distinct xs
insert_at-Distinct zero x xs d = d
insert_at-Distinct (suc k) x [] d = (λ m. m, tt)
insert_at-Distinct (suc k) x (y ∷ xs) (g, d) =
    let (f, e) = insert_at-Distinct k x xs d in
    (
      λ m. elim m [ inl s ↦ g (insert_at-In k x y xs (inl (sym s))) | inr h ↦ f h ],
      (λ m. g (insert_at-In k x y xs (inr m)), e),
    )

pub insert_by-insert_at :
    (f : ℕ → ℤ) (r : Row) (rs : List Row) → (k : ℕ) × (insert_by f r rs ≡ insert_at k r rs)
unfolding insert_by
insert_by-insert_at f r [] = (0, refl)
insert_by-insert_at f r (s ∷ rs) = elim (Bool-cases (leb_ℤ (f r.id) (f s.id))) [
  | inl e ↦ (0, rw e refl)
  | inr e ↦ let (k, h) = insert_by-insert_at f r rs in (suc k, rw (e, h) refl)
]

pub ids-In : (x : ℕ) (rs : List Row) → In x (ids_of rs) → (r : Row) × In r rs × (x ≡ r.id)
ids-In x [] m = absurd m
ids-In x (r ∷ rs) (inl e) = (r, inl refl, e)
ids-In x (r ∷ rs) (inr m) = let (s, h, e) = ids-In x rs m in (s, inr h, e)

-- The same rows in another order.
pub record Rearranged (xs ys : List Row) : Type 0 where
  pub to : (r : Row) → In r xs → In r ys
  pub from : (r : Row) → In r ys → In r xs
  pub distinct : Distinct (ids_of xs) → Distinct (ids_of ys)

pub Rearranged-insert_at :
    (j k : ℕ) (r : Row) (xs ys : List Row)
    → Rearranged xs ys
    → Rearranged (insert_at j r xs) (insert_at k r ys)
Rearranged-insert_at j k r xs ys p = record {
  to = λ s m.
      insert_at-In k r s ys
        (elim (In-insert_at j r s xs m) [ inl e ↦ inl e | inr h ↦ inr (p.to s h) ]);
  from = λ s m.
      insert_at-In j r s xs
        (elim (In-insert_at k r s ys m) [ inl e ↦ inl e | inr h ↦ inr (p.from s h) ]);
  distinct = λ d.
      let (f, e) =
        insert_at-Distinct j r.id (ids_of xs)
          (subst Distinct (map-insert_at (λ (r : Row). r.id) j r xs) d) in
      subst Distinct (sym (map-insert_at (λ (r : Row). r.id) k r ys)) (
        Distinct-insert_at k r.id (ids_of ys)
          (λ m.
            let (s, h, q) = ids-In r.id ys m in
            f (
              subst (λ (z : ℕ). In z (ids_of xs)) (sym q)
                (In-map (λ (r : Row). r.id) xs s (p.from s h))))
          (p.distinct e));
}

pub Rearranged-refl : (xs : List Row) → Rearranged xs xs
Rearranged-refl xs = record { to = λ r m. m; from = λ r m. m; distinct = λ d. d }

pub Rearranged-trans :
    (xs ys zs : List Row) → Rearranged xs ys → Rearranged ys zs → Rearranged xs zs
Rearranged-trans xs ys zs p q = record {
  to = λ r m. q.to r (p.to r m);
  from = λ r m. p.from r (q.from r m);
  distinct = λ d. q.distinct (p.distinct d);
}

pub sort_by-Rearranged : (f : ℕ → ℤ) (rs : List Row) → Rearranged rs (sort_by f rs)
unfolding sort_by
sort_by-Rearranged f [] = Rearranged-refl []
sort_by-Rearranged f (r ∷ rs) =
    let (k, e) = insert_by-insert_at f r (sort_by f rs) in
    subst (Rearranged (r ∷ rs)) (sym e)
      (Rearranged-insert_at 0 k r rs (sort_by f rs) (sort_by-Rearranged f rs))

pub keep-Distinct :
    (p : Row → Bool) (rs : List Row) → Distinct (ids_of rs) → Distinct (ids_of (keep p rs))
keep-Distinct p [] d = tt
keep-Distinct p (r ∷ rs) (f, d) = elim (Bool-cases (p r)) [
  | inl e ↦ rw e (
    λ m.
        let (s, h, q) = ids-In r.id (keep p rs) m in
        f (
          subst (λ (z : ℕ). In z (ids_of rs)) (sym q)
            (In-map (λ (r : Row). r.id) rs s (keep-In p rs s h).0)),
    keep-Distinct p rs d,
  )
  | inr e ↦ rw e (keep-Distinct p rs d)
]

-- A table as the database keeps it: ids are unique and positive, no position is negative, and no two rows
-- of a quiz have the same one.
pub record IsValid (t : Table) : Type 0 where
  pub distinct : Distinct (ids_of t.rows)
  pub positive : (r : Row) → In r t.rows → 0 < r.id
  pub proper : (r : Row) → In r t.rows → (n : ℕ) × (t.position r.id ≡ pos n)
  pub unique :
      (r s : Row)
      → In r t.rows
      → In s t.rows
      → r.quiz_id ≡ s.quiz_id
      → t.position r.id ≡ t.position s.id
      → r.id ≡ s.id

pub id_unique :
    (rs : List Row) (r s : Row) → Distinct (ids_of rs) → In r rs → In s rs → r.id ≡ s.id → r ≡ s
id_unique [] r s d m n e = absurd m
id_unique (x ∷ rs) r s d (inl a) (inl b) e = a ∙ sym b
id_unique (x ∷ rs) r s (f, d) (inl a) (inr n) e = absurd (
    f (
      subst (λ (z : ℕ). In z (ids_of rs)) (sym e ∙ ap (λ (r : Row). r.id) a)
        (In-map (λ (r : Row). r.id) rs s n)))
id_unique (x ∷ rs) r s (f, d) (inr m) (inl b) e = absurd (
    f (
      subst (λ (z : ℕ). In z (ids_of rs)) (e ∙ ap (λ (r : Row). r.id) b)
        (In-map (λ (r : Row). r.id) rs r m)))
id_unique (x ∷ rs) r s (f, d) (inr m) (inr n) e = id_unique rs r s d m n e

module _ (quiz : ℕ) (t : Table) (v : IsValid t) where
  -- A query lists exactly the rows of the quiz, each once.
  pub list_by_quiz-In : (r : Row) → In r (list_by_quiz quiz t) → In r t.rows × (r.quiz_id ≡ quiz)
  unfolding list_by_quiz
  list_by_quiz-In r m =
      let (h, e) = keep-In _ t.rows r ((sort_by-Rearranged t.position _).from r m) in
      (h, (==_iff r.quiz_id quiz).0 e)

  pub In-list_by_quiz : (r : Row) → In r t.rows → r.quiz_id ≡ quiz → In r (list_by_quiz quiz t)
  unfolding list_by_quiz
  In-list_by_quiz r m e =
      (sort_by-Rearranged t.position _).to r
        (In-keep (λ (r : Row). r.quiz_id == quiz) t.rows r m ((==_iff r.quiz_id quiz).1 e))

  pub list_by_quiz-Distinct : Distinct (ids_of (list_by_quiz quiz t))
  unfolding list_by_quiz
  list_by_quiz-Distinct =
      (sort_by-Rearranged t.position _).distinct (keep-Distinct _ t.rows v.distinct)

  -- A rearrangement of what a query lists can be renumbered.
  pub list_by_quiz-AreRows :
      (rs : List Row) → Rearranged (list_by_quiz quiz t) rs → AreRows quiz t.rows (ids_of rs)
  list_by_quiz-AreRows rs p = record {
    distinct = p.distinct list_by_quiz-Distinct;
    own = λ r m h.
        let (s, k, e) = ids-In r.id rs h in
        let (k', q) = list_by_quiz-In s (p.from s k) in
        ap (λ (r : Row). r.quiz_id) (id_unique t.rows r s v.distinct m k' e) ∙ q;
    listed = λ r m q. In-map (λ (r : Row). r.id) rs r (p.to r (In-list_by_quiz r m q));
    positive = λ x h.
        let (s, k, e) = ids-In x rs h in
        subst (λ (z : ℕ). 0 < z) (sym e) (v.positive s (list_by_quiz-In s (p.from s k)).0);
  }

  pub valid-Parking : Parking quiz t.rows t.position
  valid-Parking s m q = inl (v.proper s m)
