-- ===== src/Live/Runner/Moves.antt =====
-- The phases that a beat of a room can lead to.
use topbanana.Live.Row.{intermit, bump, is_over}
use topbanana.Live.{
  finished, intermission, round_results, reveal, question, round_intro, same_phase, lobby, Room,
  Phase,
}
use topbanana.Live.Env.{publish, drop_clock, drop_clock, entered}
use topbanana.Base.{
  ℕ, ◌+◌, ◌≤◌, ◌≡◌, refl, subst, ◌≢◌, inl, inr, Bool, true, false, ◌&&◌, Option, none, some, List,
  [], ◌∷◌, arith, if◌then◌else◌, Bool-cases, length, length-append,
}

-- What the moves are about: the phase of the row, the number of play counts bumped, and the game.
pub record Row : Type 0 where
  pub phase : Phase
  pub counts : ℕ
  pub seq : ℕ

abbrev pub row : Room → Row
row r = record { phase = r.session.phase; counts = length r.play_counts; seq = r.session.game_seq }

-- The writes that name the phase they expect.
pub data Edge : Phase → Phase → Type 0 where
  start : Edge lobby round_intro
  skip : Edge round_intro round_intro
  ask : Edge round_intro question
  close : Edge question reveal
  ask_next : Edge reveal question
  sum_up : Edge reveal round_results
  go_on : Edge round_results round_intro

pub edge_running : {p q : Phase} → Edge p q → (is_over p ≡ false) × (is_over q ≡ false)
edge_running start = (refl, refl)
edge_running skip = (refl, refl)
edge_running ask = (refl, refl)
edge_running close = (refl, refl)
edge_running ask_next = (refl, refl)
edge_running sum_up = (refl, refl)
edge_running go_on = (refl, refl)

-- The phases in which the runner may find that there is nothing left to play.
pub data Ends : Phase → Type 0 where
  ends_lobby : Ends lobby
  ends_intro : Ends round_intro
  ends_reveal : Ends reveal
  ends_results : Ends round_results

-- The moves of a row, for a beat that loaded the first phase.
pub data Move : Phase → Row → Row → Type 0 where
  stay : {p : Phase} {a : Row} → Move p a a
  enter :
      {p q : Phase} {a b : Row} → Edge p q → a.phase ≡ p → b ≡ record a { phase = q } → Move p a b
  end_game :
      {p : Phase} {a b : Row}
      → Ends p
      → is_over a.phase ≡ false
      → b.phase ≡ intermission
      → b.counts ≤ a.counts + 1
      → b.seq ≡ a.seq
      → Move p a b
  close_room : {p : Phase} {a : Row} → p ≢ finished → Move p a (record a { phase = finished })

pub same_phase→≡ : (p q : Phase) → same_phase p q ≡ true → p ≡ q
same_phase→≡ p q h = ground arith

pub and-true : (a b : Bool) → (a && b) ≡ true → a ≡ true
and-true a b h = ground arith

-- A write that expects a phase, and what follows it.
pub entered-Move :
    {p q : Phase} (failed : Bool) (now : ℕ) (r r' : Room) (test : Bool)
    → Edge p q
    → (test ≡ true → r.session.phase ≡ p)
    → row r' ≡ record (row r) { phase = q }
    → Move p (row r) (row (entered failed now q r (if test then (true, r') else (false, r))))
entered-Move true now r r' test e h w = stay
entered-Move false now r r' true e h w = enter e (h refl) w
entered-Move false now r r' false e h w = stay

pub length-bump :
    (bumps : Bool) (q : Option ℕ) (l : List ℕ) → length (bump bumps q l) ≤ length l + 1
length-bump false q l = omega arith
length-bump true none l = omega arith
length-bump true (some k) l = rw (length-append l (k ∷ [])) (omega arith)

pub intermit-Move :
    {p : Phase} (now : ℕ) (bumps : Bool) (r : Room)
    → Ends p
    → Move p (row r) (row (intermit now bumps r))
unfolding intermit
intermit-Move {p} now bumps r e = elim (Bool-cases (is_over r.session.phase)) [
  | inl h ↦ rw h stay
  | inr h ↦ rw h (end_game e h refl (length-bump bumps r.session.quiz_id r.play_counts) refl)
]

pub ended-Move :
    {p : Phase} (failed : Bool) (now : ℕ) (bumps : Bool) (r : Room)
    → Ends p
    → Move p
        (row r)
        (row (if failed then r else publish intermission (drop_clock (intermit now bumps r))))
ended-Move true now bumps r e = stay
ended-Move false now bumps r e = intermit-Move now bumps r e

pub move_from : {p : Phase} {a a' b : Row} → a ≡ a' → Move p a b → Move p a' b
move_from {p} {b = b} e m = subst (λ a. Move p a b) e m

pub of_option {ℓ} :
    {A : Type ℓ} (P : Room → Type 0) (o : Option A) {n : Room} {f : A → Room}
    → P n
    → ((a : A) → P (f a))
    → P (elim o [ none ↦ n | some a ↦ f a ])
of_option P none hn hf = hn
of_option P (some a) hn hf = hf a

pub of_if : (P : Room → Type 0) (b : Bool) {m n : Room} → P m → P n → P (if b then m else n)
of_if P true hm hn = hm
of_if P false hm hn = hn
