-- ===== src/Base/Lists.antt =====
-- Lists measured and searched with native numbers and Boolean tests.
use Prim.Native.Nat.{◌<◌, ℕ, zero, suc, ◌+◌, ◌≤◌, min}
use mathlib.Core.Path.{ap, ◌≡◌, refl, subst, sym}
use mathlib.Core.Logic.{◌⊎◌, inl, inr}
use mathlib.Core.Bool.{◌&&◌, Bool, true, false}
use mathlib.Core.List.{map, List, [], ◌∷◌, ◌++◌}
use mathlib.Core.Option.{Option, none, some}
use native.Mathlib.Omega.{arith}
use topbanana.Base.Tests.{if◌then◌else◌, Bool-cases}

module _ {ℓ} {A : Type ℓ} where
  abbrev pub length : List A → ℕ
  length [] = 0
  length (x ∷ xs) = suc (length xs)

  abbrev pub get_elem? : List A → ℕ → Option A
  get_elem? [] i = none
  get_elem? (x ∷ xs) zero = some x
  get_elem? (x ∷ xs) (suc i) = get_elem? xs i

  abbrev pub take : ℕ → List A → List A
  take zero xs = []
  take (suc n) [] = []
  take (suc n) (x ∷ xs) = x ∷ take n xs

  -- A loop that returns the first element passing a test.
  abbrev pub find : (A → Bool) → List A → Option A
  find p [] = none
  find p (x ∷ xs) = if p x then some x else find p xs

  -- A loop that appends the elements passing a test.
  abbrev pub keep : (A → Bool) → List A → List A
  keep p [] = []
  keep p (x ∷ xs) = if p x then x ∷ keep p xs else keep p xs

  -- A loop that counts the elements passing a test.
  abbrev pub count : (A → Bool) → List A → ℕ
  count p [] = 0
  count p (x ∷ xs) = (if p x then 1 else 0) + count p xs

  -- A loop that returns true at the first element passing a test.
  abbrev pub any : (A → Bool) → List A → Bool
  any p [] = false
  any p (x ∷ xs) = if p x then true else any p xs

  abbrev pub or_else : Option A → Option A → Option A
  or_else none o = o
  or_else (some a) o = some a

  abbrev pub last? : List A → Option A
  last? [] = none
  last? (x ∷ []) = some x
  last? (x ∷ y ∷ xs) = last? (y ∷ xs)

  abbrev pub All {κ} : (A → Type κ) → List A → Type κ
  All P [] = Unit
  All P (x ∷ xs) = P x × All P xs

module _ {ℓ} {A : Type ℓ} where
  pub length-append : (xs ys : List A) → length (xs ++ ys) ≡ length xs + length ys
  length-append [] ys = omega arith
  length-append (x ∷ xs) ys = omega (arith, length-append xs ys)

  pub length-take : (n : ℕ) (xs : List A) → length (take n xs) ≡ min n (length xs)
  length-take zero xs = omega arith
  length-take (suc n) [] = omega arith
  length-take (suc n) (x ∷ xs) = omega (arith, length-take n xs)

  -- What a search returns passes its test.
  pub find-test : (p : A → Bool) (xs : List A) (a : A) → find p xs ≡ some a → p a ≡ true
  find-test p [] a h = cc
  find-test p (x ∷ xs) a h = ground (arith, find-test p xs a)

  -- A search of two lists one after the other.
  pub find-append :
      (p : A → Bool) (xs ys : List A) → find p (xs ++ ys) ≡ or_else (find p xs) (find p ys)
  find-append p [] ys = refl
  find-append p (x ∷ xs) ys = ground (arith, find-append p xs ys)

  pub find-keep : (p r : A → Bool) (xs : List A) → find p (keep r xs) ≡ find (λ x. r x && p x) xs
  find-keep p r [] = refl
  find-keep p r (x ∷ xs) = ground (arith, find-keep p r xs)

  pub get_elem?-take :
      (k n : ℕ) (xs : List A) (a : A) → get_elem? (take k xs) n ≡ some a → get_elem? xs n ≡ some a
  get_elem?-take zero n xs a h = cc
  get_elem?-take (suc k) n [] a h = cc
  get_elem?-take (suc k) zero (x ∷ xs) a h = h
  get_elem?-take (suc k) (suc n) (x ∷ xs) a h = get_elem?-take k n xs a h

  pub take-get_elem? : (k n : ℕ) (xs : List A) → n < k → get_elem? (take k xs) n ≡ get_elem? xs n
  take-get_elem? zero n xs h = absurd (omega arith)
  take-get_elem? (suc k) n [] h = refl
  take-get_elem? (suc k) zero (x ∷ xs) h = refl
  take-get_elem? (suc k) (suc n) (x ∷ xs) h = take-get_elem? k n xs (omega arith)

  pub take_all : (k : ℕ) (xs : List A) → length xs ≤ k → take k xs ≡ xs
  take_all zero [] h = refl
  take_all zero (x ∷ xs) h = absurd (omega arith)
  take_all (suc k) [] h = refl
  take_all (suc k) (x ∷ xs) h = ap (◌∷◌ x) (take_all k xs (omega arith))

  pub count-le-length : (p : A → Bool) (xs : List A) → count p xs ≤ length xs
  count-le-length p [] = omega arith
  count-le-length p (x ∷ xs) = ground (arith, count-le-length p xs)

  pub count-append : (p : A → Bool) (xs ys : List A) → count p (xs ++ ys) ≡ count p xs + count p ys
  count-append p [] ys = omega arith
  count-append p (x ∷ xs) ys = omega (arith, count-append p xs ys)

  pub length-keep : (p : A → Bool) (xs : List A) → length (keep p xs) ≡ count p xs
  length-keep p [] = refl
  length-keep p (x ∷ xs) = ground (arith, length-keep p xs)

-- Membership by recursion: the place where the element stands.
abbrev pub In : {A : Type 0} → A → List A → Type 0
In a [] = ⊥
In a (x ∷ xs) = (a ≡ x) ⊎ In a xs

module _ {A : Type 0} where
  pub In-append_left : (a : A) (xs ys : List A) → In a xs → In a (xs ++ ys)
  In-append_left a [] ys h = absurd h
  In-append_left a (x ∷ xs) ys (inl e) = inl e
  In-append_left a (x ∷ xs) ys (inr h) = inr (In-append_left a xs ys h)

  pub In-append_right : (a : A) (xs ys : List A) → In a ys → In a (xs ++ ys)
  In-append_right a [] ys h = h
  In-append_right a (x ∷ xs) ys h = inr (In-append_right a xs ys h)

  pub In-append : (a : A) (xs ys : List A) → In a (xs ++ ys) → In a xs ⊎ In a ys
  In-append a [] ys h = inr h
  In-append a (x ∷ xs) ys (inl e) = inl (inl e)
  In-append a (x ∷ xs) ys (inr h) = elim (In-append a xs ys h) [
    | inl p ↦ inl (inr p)
    | inr q ↦ inr q
  ]

  -- A search returns an element of the list, and fails only if no element passes.
  pub find-In : (p : A → Bool) (xs : List A) (a : A) → find p xs ≡ some a → In a xs
  find-In p [] a h = cc
  find-In p (x ∷ xs) a h = ground (arith, find-In p xs a)

  pub find-none : (p : A → Bool) (xs : List A) (a : A) → find p xs ≡ none → In a xs → p a ≡ false
  find-none p [] a h m = absurd m
  find-none p (x ∷ xs) a h (inl e) = ground arith
  find-none p (x ∷ xs) a h (inr m) = ground (arith, find-none p xs a)

  pub All-In : (P : A → Type 0) (xs : List A) (a : A) → All P xs → In a xs → P a
  All-In P [] a h m = absurd m
  All-In P (x ∷ xs) a h (inl e) = subst P (sym e) h.0
  All-In P (x ∷ xs) a h (inr m) = All-In P xs a h.1 m

  pub any-In : (p : A → Bool) (xs : List A) (a : A) → In a xs → p a ≡ true → any p xs ≡ true
  any-In p [] a m h = absurd m
  any-In p (x ∷ xs) a (inl e) h = ground arith
  any-In p (x ∷ xs) a (inr m) h = ground (arith, any-In p xs a m h)

  pub any_sound : (p : A → Bool) (xs : List A) → any p xs ≡ true → (a : A) × In a xs × (p a ≡ true)
  any_sound p [] h = cc
  any_sound p (x ∷ xs) h = elim (Bool-cases (p x)) [
    | inl e ↦ (x, inl refl, e)
    | inr e ↦ let (a, m, q) = any_sound p xs (rw e at h) in (a, inr m, q)
  ]

  pub count_mono :
      (p q : A → Bool) (xs : List A) → ((x : A) → p x ≡ true → q x ≡ true) → count p xs ≤ count q xs
  count_mono p q [] h = omega arith
  count_mono p q (x ∷ xs) h = ground (arith, h x, count_mono p q xs h)

  -- A test that drops an element of the list and gains none counts less.
  pub count-lt :
      (p q : A → Bool) (xs : List A) (a : A)
      → ((x : A) → p x ≡ true → q x ≡ true)
      → In a xs
      → p a ≡ false
      → q a ≡ true
      → count p xs < count q xs
  count-lt p q [] a h m e f = absurd m
  count-lt p q (x ∷ xs) a h (inl s) e f = ground (arith, count_mono p q xs h)
  count-lt p q (x ∷ xs) a h (inr m) e f = ground (arith, h x, count-lt p q xs a h m e f)

  pub find-count : (p : A → Bool) (xs : List A) → count p xs ≡ 0 → find p xs ≡ none
  find-count p [] h = refl
  find-count p (x ∷ xs) h = ground (arith, find-count p xs)

  pub In-keep : (p : A → Bool) (xs : List A) (a : A) → In a xs → p a ≡ true → In a (keep p xs)
  In-keep p [] a m h = absurd m
  In-keep p (x ∷ xs) a (inl e) h = ground arith
  In-keep p (x ∷ xs) a (inr m) h = ground (arith, In-keep p xs a m h)

  pub In-map : {B : Type 0} (f : A → B) (xs : List A) (a : A) → In a xs → In (f a) (map f xs)
  In-map f [] a m = absurd m
  In-map f (x ∷ xs) a (inl e) = inl (ap f e)
  In-map f (x ∷ xs) a (inr m) = inr (In-map f xs a m)

  pub count-find : (p : A → Bool) (xs : List A) → find p xs ≡ none → count p xs ≡ 0
  count-find p [] h = refl
  count-find p (x ∷ xs) h = ground (arith, count-find p xs)

pub In-map_inv :
    {A B : Type 0} (f : A → B) (xs : List A) (y : B)
    → In y (map f xs)
    → (x : A) × In x xs × (y ≡ f x)
In-map_inv f [] y m = absurd m
In-map_inv f (x ∷ xs) y (inl e) = (x, inl refl, e)
In-map_inv f (x ∷ xs) y (inr m) = let (z, h, e) = In-map_inv f xs y m in (z, inr h, e)
