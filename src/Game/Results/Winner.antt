-- ===== src/Game/Results/Winner.antt =====
-- The winner does not depend on the order in which the map is read.
use topbanana.Base.{ℕ, ◌≤◌, ◌<◌, ◌≡◌, refl, List, [], ◌∷◌, ◌++◌, arith, All}
use topbanana.Game.Results.{pick_winner}

abbrev pub Below : ℕ → ℕ × ℕ → Type 0
Below top e = e.1 < top

abbrev pub AtMost : ℕ → ℕ × ℕ → Type 0
AtMost top e = e.1 ≤ top

pick_winner_keep : (p top : ℕ) (l : List (ℕ × ℕ)) → All (Below top) l → pick_winner p top l ≡ p
unfolding pick_winner
pick_winner_keep p top [] h = refl
pick_winner_keep p top (e ∷ l) h = ground (arith, pick_winner_keep p top l h.1)

pick_winner_strict :
    (w t p top : ℕ) (pre post : List (ℕ × ℕ))
    → t < top
    → All (Below top) pre
    → All (Below top) post
    → pick_winner w t (pre ++ (p, top) ∷ post) ≡ p
unfolding pick_winner
pick_winner_strict w t p top [] post h a b = ground (arith, pick_winner_keep p top post b)
pick_winner_strict w t p top ((id, s) ∷ pre) post h a b = ground (
  arith,
  pick_winner_strict id s p top pre post a.0 a.1 b,
  pick_winner_strict 0 t p top pre post h a.1 b,
  pick_winner_strict w t p top pre post h a.1 b,
)

pick_winner_zero : (top : ℕ) (l : List (ℕ × ℕ)) → All (AtMost top) l → pick_winner 0 top l ≡ 0
unfolding pick_winner
pick_winner_zero top [] h = refl
pick_winner_zero top (e ∷ l) h = ground (arith, pick_winner_zero top l h.1)

pick_winner_tied :
    (w top q : ℕ) (mid post : List (ℕ × ℕ))
    → All (AtMost top) mid
    → All (AtMost top) post
    → pick_winner w top (mid ++ (q, top) ∷ post) ≡ 0
unfolding pick_winner
pick_winner_tied w top q [] post a b = ground (arith, pick_winner_zero top post b)
pick_winner_tied w top q (e ∷ mid) post a b =
    ground (arith, pick_winner_tied 0 top q mid post a.1 b, pick_winner_tied w top q mid post a.1 b)

pick_winner_tie :
    (w t p q top : ℕ) (pre mid post : List (ℕ × ℕ))
    → t ≤ top
    → All (AtMost top) pre
    → All (AtMost top) mid
    → All (AtMost top) post
    → pick_winner w t (pre ++ ((p, top) ∷ (mid ++ (q, top) ∷ post))) ≡ 0
unfolding pick_winner
pick_winner_tie w t p q top [] mid post h a b c = ground (
  arith,
  pick_winner_tied p top q mid post b c,
  pick_winner_tied 0 top q mid post b c,
  pick_winner_tied w top q mid post b c,
)
pick_winner_tie w t p q top ((id, s) ∷ pre) mid post h a b c = ground (
  arith,
  pick_winner_tie id s p q top pre mid post a.0 a.1 b c,
  pick_winner_tie 0 t p q top pre mid post h a.1 b c,
  pick_winner_tie w t p q top pre mid post h a.1 b c,
)

-- Wherever the entries stand in the order of iteration: a player whose score is positive and above all
-- others wins, two players with the same top score leave no winner, and so do scores that are all 0.
pub pick_winner_exact :
    (p q top : ℕ) (pre mid post : List (ℕ × ℕ))
    → (0 < top
        → All (Below top) pre
        → All (Below top) post
        → pick_winner 0 0 (pre ++ (p, top) ∷ post) ≡ p)
      × (All (AtMost top) pre
          → All (AtMost top) mid
          → All (AtMost top) post
          → pick_winner 0 0 (pre ++ ((p, top) ∷ (mid ++ (q, top) ∷ post))) ≡ 0)
      × (All (AtMost 0) pre → pick_winner 0 0 pre ≡ 0)
pick_winner_exact p q top pre mid post = (
  (λ h a b. pick_winner_strict 0 0 p top pre post h a b),
  (λ a b c. pick_winner_tie 0 0 p q top pre mid post (omega arith) a b c),
  (λ a. pick_winner_zero 0 pre a),
)
