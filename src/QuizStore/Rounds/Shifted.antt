-- ===== src/QuizStore/Rounds/Shifted.antt =====
-- The up and down buttons of a round.
use text.Mathlib.Text.{◌==◌ as str_eq}
use Prim.Native.String.{String}
use topbanana.QuizStore.Rounds.Moved.{index_of-get_elem?, index_of-none}
use topbanana.QuizStore.Rounds.Swapped.{swap_round_positions-Swapped, Swapped}
use topbanana.QuizStore.Rounds.{
  move_round_tx, direction_down, move_round, direction_up, move_round_at, swap_listed,
}
use topbanana.QuizStore.Positions.{index_of, ids_of}
use topbanana.QuizStore.Order.{In-list_by_quiz, list_by_quiz-Distinct, list_by_quiz-In, IsValid}
use topbanana.QuizStore.Positions.Dense.{Distinct}
use topbanana.Archive.Export.Faithful.{some-inj}
use topbanana.QuizStore.{
  round_not_found, round_move_impossible, err, Result, list_by_quiz, Row, Table,
}
use topbanana.Base.{
  ℕ, zero, suc, ◌+◌, ◌-◌, ◌<◌, ◌≡◌, refl, sym, ap, subst, ◌∙◌, ◌≢◌, ◌⊎◌, inl, inr, true, false, not,
  ◌&&◌, none, some, List, [], ◌∷◌, arith, ◌==◌, if◌then◌else◌, ==_iff, Bool-cases, Option-cases,
  length, get_elem?, In, In-map,
}

get_elem?-In : (k : ℕ) (rs : List Row) (r : Row) → get_elem? rs k ≡ some r → In r rs
get_elem?-In k [] r h = cc
get_elem?-In zero (s ∷ rs) r h = inl (some-inj (sym h))
get_elem?-In (suc k) (s ∷ rs) r h = inr (get_elem?-In k rs r h)

pub get_elem?-lt : (k : ℕ) (rs : List Row) (r : Row) → get_elem? rs k ≡ some r → k < length rs
get_elem?-lt k [] r h = cc
get_elem?-lt zero (s ∷ rs) r h = omega arith
get_elem?-lt (suc k) (s ∷ rs) r h = omega (arith, get_elem?-lt k rs r h)

pub get_elem?_total :
    (k : ℕ) (rs : List Row) → k < length rs → (r : Row) × (get_elem? rs k ≡ some r)
get_elem?_total k [] h = absurd (omega arith)
get_elem?_total zero (s ∷ rs) h = (s, refl)
get_elem?_total (suc k) (s ∷ rs) h = get_elem?_total k rs (omega arith)

-- Rows at different indices have different ids.
get_elem?-ne :
    (i j : ℕ) (rs : List Row) (r s : Row)
    → Distinct (ids_of rs)
    → get_elem? rs i ≡ some r
    → get_elem? rs j ≡ some s
    → i < j
    → s.id ≢ r.id
get_elem?-ne i j [] r s d g h l = cc
get_elem?-ne i zero (x ∷ rs) r s d g h l = absurd (omega arith)
get_elem?-ne zero (suc j) (x ∷ rs) r s (f, d) g h l = λ e. f (
    subst (λ (z : ℕ). In z (ids_of rs)) (e ∙ ap (λ (r : Row). r.id) (some-inj (sym g)))
      (In-map (λ (r : Row). r.id) rs s (get_elem?-In j rs s h)))
get_elem?-ne (suc i) (suc j) (x ∷ rs) r s (f, d) g h l = get_elem?-ne i j rs r s d g h (omega arith)

up_step :
    (rs : List Row) (i : ℕ) (t : Table)
    → move_round_at rs (suc i) direction_up t ≡ swap_listed rs (suc i) i t
unfolding move_round_at
up_step rs i t =
    let one : suc i - 1 ≡ i = omega arith in
    ap (λ (k : ℕ). if suc i == 0 then err round_move_impossible else swap_listed rs (suc i) k t) one
    ∙ ground arith

down_step :
    (rs : List Row) (i : ℕ) (t : Table)
    → (i == length rs - 1) ≡ false
    → move_round_at rs i direction_down t ≡ swap_listed rs i (i + 1) t
unfolding move_round_at
down_step rs i t e = rw e refl

down_end :
    (rs : List Row) (i : ℕ) (t : Table)
    → (i == length rs - 1) ≡ true
    → move_round_at rs i direction_down t ≡ err round_move_impossible
unfolding move_round_at
down_end rs i t e = rw e refl

abbrev IsDirection : String → Type 0
IsDirection d = (not (str_eq d direction_up) && not (str_eq d direction_down)) ≡ false

missing :
    (quiz round_id : ℕ) (d : String) (t : Table)
    → IsDirection d
    → index_of round_id (list_by_quiz quiz t) ≡ none
    → move_round quiz round_id d t ≡ err round_not_found
unfolding move_round move_round_tx
missing quiz round_id d t known e = rw known (rw (e, move_round_tx) refl)

found :
    (quiz round_id : ℕ) (d : String) (t : Table) (idx : ℕ)
    → IsDirection d
    → index_of round_id (list_by_quiz quiz t) ≡ some idx
    → move_round quiz round_id d t ≡ move_round_at (list_by_quiz quiz t) idx d t
unfolding move_round move_round_tx
found quiz round_id d t idx known e = rw known (rw (e, move_round_tx) refl)

module _ (quiz : ℕ) (t : Table) (v : IsValid t) where
  abbrev pub listed : List Row
  listed = list_by_quiz quiz t

  -- Two listed rows at different indices are swapped.
  swap_listed-Swapped :
      (i j : ℕ) (a b : Row)
      → get_elem? listed i ≡ some a
      → get_elem? listed j ≡ some b
      → (i < j) ⊎ (j < i)
      → Swapped a b t (swap_listed listed i j t)
  unfolding swap_listed
  swap_listed-Swapped i j a b g h l =
      let (ma, qa) = list_by_quiz-In quiz t v a (get_elem?-In i listed a g) in
      let (mb, qb) = list_by_quiz-In quiz t v b (get_elem?-In j listed b h) in
      let distinct = list_by_quiz-Distinct quiz t v in
      let ne : b.id ≢ a.id = elim l [
        | inl k ↦ get_elem?-ne i j listed a b distinct g h k
        | inr k ↦ λ e. get_elem?-ne j i listed b a distinct h g k (sym e)
      ] in
      rw (g, swap_listed)
        (rw (h, swap_listed) (swap_round_positions-Swapped a b t v ma mb (qb ∙ sym qa) ne))

  -- The round with the id, and the one above it, in the listed order.
  pub record MovedUp (round_id : ℕ) (r : Result Table) : Type 0 where
    pub index : ℕ
    pub above : Row
    pub it : Row
    pub at_above : get_elem? listed index ≡ some above
    pub at_it : get_elem? listed (index + 1) ≡ some it
    pub is_it : it.id ≡ round_id
    pub swapped : Swapped it above t r

  pub record MovedDown (round_id : ℕ) (r : Result Table) : Type 0 where
    pub index : ℕ
    pub it : Row
    pub below : Row
    pub at_it : get_elem? listed index ≡ some it
    pub at_below : get_elem? listed (index + 1) ≡ some below
    pub is_it : it.id ≡ round_id
    pub swapped : Swapped it below t r

  abbrev pub Absent : ℕ → Type 0
  Absent round_id = (r : Row) → In r t.rows → r.quiz_id ≡ quiz → r.id ≢ round_id

  abbrev pub StandsAt : ℕ → ℕ → Type 0
  StandsAt round_id k = (r : Row) × (get_elem? listed k ≡ some r) × (r.id ≡ round_id)

  up_at :
      (round_id idx : ℕ) (it : Row)
      → get_elem? listed idx ≡ some it
      → it.id ≡ round_id
      → ((move_round_at listed idx direction_up t ≡ err round_move_impossible)
          × StandsAt round_id 0)
        ⊎ MovedUp round_id (move_round_at listed idx direction_up t)
  unfolding move_round_at
  up_at round_id zero it g e = inl (refl, (it, g, e))
  up_at round_id (suc i) it g e =
      let (above, h) = get_elem?_total i listed (omega (arith, get_elem?-lt (suc i) listed it g)) in
      inr record {
        index = i;
        above = above;
        it = it;
        at_above = h;
        at_it = subst (λ (n : ℕ). get_elem? listed n ≡ some it) (omega arith) g;
        is_it = e;
        swapped =
            subst (Swapped it above t) (sym (up_step listed i t))
              (swap_listed-Swapped (suc i) i it above g h (inr (omega arith)));
      }

  down_at :
      (round_id idx : ℕ) (it : Row)
      → get_elem? listed idx ≡ some it
      → it.id ≡ round_id
      → ((move_round_at listed idx direction_down t ≡ err round_move_impossible)
          × StandsAt round_id (length listed - 1))
        ⊎ MovedDown round_id (move_round_at listed idx direction_down t)
  down_at round_id idx it g e = elim (Bool-cases (idx == length listed - 1)) [
    | inl k ↦ inl (
      down_end listed idx t k,
      (
        it,
        subst (λ (n : ℕ). get_elem? listed n ≡ some it) ((==_iff idx (length listed - 1)).0 k) g,
        e,
      ),
    )
    | inr k ↦
        let bound : idx ≢ length listed - 1 = λ h. ground arith in
        let (below, h) =
          get_elem?_total (idx + 1) listed (omega (arith, get_elem?-lt idx listed it g)) in
        inr record {
          index = idx;
          it = it;
          below = below;
          at_it = g;
          at_below = h;
          is_it = e;
          swapped =
              subst (Swapped it below t) (sym (down_step listed idx t k))
                (swap_listed-Swapped idx (idx + 1) it below g h (inl (omega arith)));
        }
  ]

  -- What a click on a button does: the round is not the quiz's, or stands at the end already, or is swapped
  -- with its neighbour.
  pub record Clicked (round_id : ℕ) (up down : Result Table) : Type 0 where
    pub up_is :
        ((up ≡ err round_not_found) × Absent round_id)
        ⊎ (((up ≡ err round_move_impossible) × StandsAt round_id 0) ⊎ MovedUp round_id up)
    pub down_is :
        ((down ≡ err round_not_found) × Absent round_id)
        ⊎ (((down ≡ err round_move_impossible) × StandsAt round_id (length listed - 1))
            ⊎ MovedDown round_id down)

  absent : (round_id : ℕ) → index_of round_id listed ≡ none → Absent round_id
  absent round_id e r m q = index_of-none round_id listed e r (In-list_by_quiz quiz t v r m q)

  abbrev UpResult : ℕ → Result Table → Type 0
  UpResult round_id r = ((r ≡ err round_move_impossible) × StandsAt round_id 0) ⊎ MovedUp round_id r

  abbrev DownResult : ℕ → Result Table → Type 0
  DownResult round_id r =
      ((r ≡ err round_move_impossible) × StandsAt round_id (length listed - 1))
      ⊎ MovedDown round_id r

  -- A round moves by one: unless the quiz does not have it or it stands first, an up click exchanges its
  -- position with that of the round listed before it and changes no other; a down click does so with the
  -- round after it, unless it stands last. The parked position in between never collides.
  pub move_round-Clicked :
      (round_id : ℕ)
      → Clicked round_id
          (move_round quiz round_id direction_up t)
          (move_round quiz round_id direction_down t)
  move_round-Clicked round_id = elim (Option-cases (index_of round_id listed)) [
    | inl e ↦ record {
      up_is = inl (missing quiz round_id direction_up t refl e, absent round_id e);
      down_is = inl (missing quiz round_id direction_down t refl e, absent round_id e);
    }
    | inr (idx, e) ↦
        let (it, g, q) = index_of-get_elem? round_id listed idx e in
        record {
          up_is = inr (
              subst (UpResult round_id) (sym (found quiz round_id direction_up t idx refl e))
                (up_at round_id idx it g q));
          down_is = inr (
              subst (DownResult round_id) (sym (found quiz round_id direction_down t idx refl e))
                (down_at round_id idx it g q));
        }
  ]
