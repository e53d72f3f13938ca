-- ===== src/Archive/Restore/Ensures.antt =====
-- Rules for the calls of a restore: what a run guarantees is put together from what its steps do.
use topbanana.Archive.{err, ok, Result}
use topbanana.Archive.Restore.{bind_result, ◌>>=◌, M, Call}
use topbanana.Base.{List}

abbrev pub Ensures :
    {A : Type 0} → (A → List Call → Type 0) → (List Call → Type 0) → Result A × List Call → Type 0
Ensures P E (ok a, w) = P a w
Ensures P E (err e, w) = E w

module _ {A B : Type 0} (P : A → List Call → Type 0) (Q : B → List Call → Type 0)
    (E : List Call → Type 0) (f : A → M B)
    (next : (a : A) (w : List Call) → P a w → Ensures Q E (f a w)) where
  pub bind_result-Ensures :
      (r : Result A × List Call) → Ensures P E r → Ensures Q E (bind_result f r)
  bind_result-Ensures (ok a, w) h = next a w h
  bind_result-Ensures (err e, w) h = h

  pub >>=-Ensures : (m : M A) (w : List Call) → Ensures P E (m w) → Ensures Q E ((m >>= f) w)
  >>=-Ensures m w h = bind_result-Ensures (m w) h

pub Ensures-mono :
    {A : Type 0} (P Q : A → List Call → Type 0) (E : List Call → Type 0) (r : Result A × List Call)
    → ((a : A) (w : List Call) → P a w → Q a w)
    → Ensures P E r
    → Ensures Q E r
Ensures-mono P Q E (ok a, w) f h = f a w h
Ensures-mono P Q E (err e, w) f h = h
