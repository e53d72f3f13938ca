-- ===== src/QuizStore/Positions.antt =====
-- renumberDensePositions and clampIndex of internal/store/round.go.
pub mod Safe
pub mod Dense
pub mod Renumber
pub mod Total
use mathlib.Core.Option.{map as map_option}
use topbanana.QuizStore.{update_position, ◌>>=◌, ok, Result, Row, Table}
use topbanana.Base.{
  pos, ℕ, zero, suc, ◌+◌, ◌-◌, ◌*◌, ◌/◌, ◌%◌, ◌^◌, ◌≤◌, ◌<◌, min, max, ◌≡◌, refl, sym, ap, subst,
  ◌∙◌, ◌≢◌, ◌↔◌, ◌⊎◌, inl, inr, Bool, true, false, not, ◌&&◌, ◌||◌, Option, none, some, List, [],
  ◌∷◌, ◌++◌, map, arith, dec_lt, ℕ_discrete, Text, ltb, leb, ◌==◌, if◌then◌else◌, ltb→lt, lt→ltb,
  leb→le, le→leb, ==_iff, tests, Bool-cases, Option-cases, length, get_elem?, take, find, keep,
  count, any, or_else, last?, All, length-append, length-take, find-test, find-append, find-keep,
  get_elem?-take, take-get_elem?, take_all, count-le-length, count-append, length-keep, In,
  In-append_left, In-append_right, In-append, find-In, find-none, All-In, any-In, any_sound,
  count_mono, count-lt, find-count, In-keep, In-map, count-find, In-map_inv, neg, ◌==ℤ◌, leb_ℤ,
  ltb_ℤ, from_nat, is_positive, is_zero, magnitude, ℤ,
}

-- The rows whose position is not their final one, from index `i` on, each with the final one.
unfoldable pub moves_from : ℕ → List ℕ → List ℤ → List (ℕ × ℕ)
moves_from i [] current = []
moves_from i (id ∷ ids) [] = []
moves_from i (id ∷ ids) (c ∷ current) =
    let rest = moves_from (i + 1) ids current in
    if c ==ℤ pos (i + 1) then rest else (id, i + 1) ∷ rest

unfoldable pub park : List (ℕ × ℕ) → Table → Result Table
park [] t = ok t
park (m ∷ ms) t = update_position (neg m.0) m.0 t >>= park ms

unfoldable pub settle : List (ℕ × ℕ) → Table → Result Table
settle [] t = ok t
settle (m ∷ ms) t = update_position (pos m.1) m.0 t >>= settle ms

unfoldable pub renumber_dense_positions : List ℕ → List ℤ → Table → Result Table
unfolding moves_from park settle
renumber_dense_positions ids current t =
    let moves = moves_from 0 ids current in park moves t >>= settle moves

-- `position - 1` below 0 is 0 here, which is what the source returns for it.
unfoldable pub clamp_index : ℕ → ℕ → ℕ
clamp_index position len = let idx = position - 1 in if ltb len idx then len else idx

-- slices.Insert and slices.Delete of one element.
abbrev pub insert_at {ℓ} : {A : Type ℓ} → ℕ → A → List A → List A
insert_at zero a xs = a ∷ xs
insert_at (suc k) a [] = a ∷ []
insert_at (suc k) a (x ∷ xs) = x ∷ insert_at k a xs

abbrev pub delete_at {ℓ} : {A : Type ℓ} → ℕ → List A → List A
delete_at k [] = []
delete_at zero (x ∷ xs) = xs
delete_at (suc k) (x ∷ xs) = x ∷ delete_at k xs

-- slices.IndexFunc by id.
abbrev pub index_of : ℕ → List Row → Option ℕ
index_of id [] = none
index_of id (r ∷ rs) = if r.id == id then some 0 else map_option suc (index_of id rs)

abbrev pub ids_of : List Row → List ℕ
ids_of rs = map (λ (r : Row). r.id) rs

-- Both reorders end with this: the ids and the positions read, in the new order.
unfoldable pub renumber : List Row → Table → Result Table
unfolding renumber_dense_positions
renumber rs t = renumber_dense_positions (ids_of rs) (map t.position (ids_of rs)) t
