-- ===== src/Game/Store.antt =====
-- What the game service uses of the world: its two stores (the interfaces game.Store and quiz.Store),
-- the publisher, and errors. A wrapped error is the error that errors.Is finds in it.
use Prim.Native.String.{String}
use topbanana.Base.{
  ℕ, ◌≡◌, refl, ◌⊎◌, inl, inr, Bool, true, false, Option, none, some, List, [], ◌∷◌, ◌++◌,
  if◌then◌else◌,
}
use topbanana.Quiz.{Quiz, Question, QuizOption, Round}
use topbanana.Game.{Game, GameQuestion, Answer, Participant, RoundPhase}

pub data Error : Type 0 where
  game_not_found game_already_exists preview_not_allowed answer_already_recorded : Error
  question_already_issued no_more_questions question_not_in_game option_not_in_question : Error
  answer_window_closed invalid_round_phase : Error
  quiz_not_found question_not_found round_not_found : Error
  store_failure : ℕ → Error

pub data Result {ℓ} (A : Type ℓ) : Type ℓ where
  ok : A → Result A
  err : Error → Result A

pub Result-cases :
    {A : Type 0} (r : Result A) → ((a : A) × (r ≡ ok a)) ⊎ ((e : Error) × (r ≡ err e))
Result-cases (ok a) = inl (a, refl)
Result-cases (err e) = inr (e, refl)

pub record SeenRoundPhase : Type 0 where
  pub round_id : ℕ
  pub phase : RoundPhase

-- A read gives a value or an error; a write gives the new database too. CreateQuestion also fills in
-- the row that it is given, on the error question_already_issued with the row that won.
pub record Stores : Type 1 where
  pub Db : Type 0
  pub get_game : Db → String → Result Game
  pub get_game_by_player_and_quiz : Db → ℕ → ℕ → Result Game
  pub get_real_game_by_player_and_quiz : Db → ℕ → ℕ → Result Game
  pub list_seen_round_phases_by_game : Db → String → Result (List SeenRoundPhase)
  pub create_game_and_participant : Db → Game → Participant → Result Game × Db
  pub create_question : Db → GameQuestion → Bool → Option Error × GameQuestion × Db
  pub create_answer : Db → Answer → Result Answer × Db
  pub delete_games_for_player_on_quiz : Db → ℕ → ℕ → Result (Unit {0}) × Db
  pub mark_round_seen : Db → String → ℕ → RoundPhase → Result (Unit {0}) × Db
  pub get_quiz : Db → ℕ → Result Quiz
  pub quiz_exists : Db → ℕ → Result Bool
  pub get_question : Db → ℕ → Result Question
  pub get_options_by_ids : Db → List ℕ → Result (List QuizOption)
  pub list_rounds_by_quiz : Db → ℕ → Result (List Round)
  pub get_round : Db → ℕ → Result Round

-- The database, and the quizzes for which a leaderboard tick was published, oldest first.
pub record World (D : Type 0) : Type 0 where
  pub db : D
  pub published : List ℕ

-- A service call: its result and the world that it leaves.
abbrev pub M : Type 0 → Type 0 → Type 0
M D A = World D → Result A × World D

module _ {D A B : Type 0} where
  abbrev bind_result : (A → M D B) → Result A × World D → Result B × World D
  bind_result f (ok a, w) = f a w
  bind_result f (err e, w) = (err e, w)

  infixl 5 ◌>>=◌
  abbrev pub ◌>>=◌ : M D A → (A → M D B) → M D B
  ◌>>=◌ m f w = bind_result f (m w)

infixl 5 ◌>>◌
abbrev pub ◌>>◌ : {D B : Type 0} → M D (Unit {0}) → M D B → M D B
m >> k = m >>= λ _. k

module _ {D A : Type 0} where
  abbrev pub return : A → M D A
  return a w = (ok a, w)

  abbrev pub fail : Error → M D A
  fail e w = (err e, w)

  abbrev pub read : (D → Result A) → M D A
  read f w = (f w.db, w)

  abbrev commit : World D → Result A × D → Result A × World D
  commit w (r, d) = (r, record w { db = d })

  abbrev pub write : (D → Result A × D) → M D A
  write f w = commit w (f w.db)

  -- The value of an Option, or an error.
  abbrev pub require : Option A → Error → M D A
  require none e = fail e
  require (some a) e = return a

abbrev pub ensure : {D : Type 0} → Bool → Error → M D (Unit {0})
ensure true e = return tt
ensure false e = fail e

-- `SetRevealDelay`, `SetStalePeriod` and `SetLeaderboardPublisher` set these before any call.
pub record Config : Type 0 where
  pub reveal_delay : ℕ
  pub stale_period : ℕ
  pub has_publisher : Bool

abbrev pub publish : {D : Type 0} → Config → ℕ → M D (Unit {0})
publish c quiz_id w =
    (ok tt, if c.has_publisher then record w { published = w.published ++ quiz_id ∷ [] } else w)
