-- ===== src/Quiz.antt =====
-- The quiz domain model, internal/quiz/quiz.go. A pointer field that may be nil is an Option; a
-- time.Time is a number of nanoseconds since the zero time. The time limit of a quiz is an integer; that of a
-- question or a round is a number, 0 where the int is negative, which every reader treats alike.
pub mod Progress
use text.Mathlib.Text.{◌==◌ as str_eq}
use Prim.Native.String.{String}
use topbanana.Base.{ℕ, Bool, Option, List, [], ◌∷◌, if◌then◌else◌, any, ℤ}

-- `quiz.Option`.
pub record QuizOption : Type 0 where
  pub id : ℕ
  pub question_id : ℕ
  pub text : String
  pub correct : Bool

pub record Question : Type 0 where
  pub id : ℕ
  pub quiz_id : ℕ
  pub round_id : ℕ
  pub text : String
  pub image_media_id : Option ℕ
  pub audio_media_id : Option ℕ
  pub audio_repeat : Bool
  pub position : ℕ
  pub time_limit_seconds : Option ℕ
  pub options : List QuizOption

pub record Round : Type 0 where
  pub id : ℕ
  pub quiz_id : ℕ
  pub position : ℕ
  pub title : String
  pub summary : String
  pub boundary_duration_seconds : Option ℕ
  pub created_at : ℕ
  pub updated_at : ℕ
  pub questions : List Question

pub record Quiz : Type 0 where
  pub id : ℕ
  pub title : String
  pub slug : String
  pub description : String
  pub created_at : ℕ
  pub updated_at : ℕ
  pub created_by_player_id : ℕ
  pub created_by_display_name : String
  pub time_limit_seconds : ℤ
  pub visibility : String
  pub mode : String
  pub language : String
  pub play_count : ℕ
  pub published : Bool
  pub questions : List Question
  pub rounds : List Round

abbrev pub visibility_public : String
visibility_public = "public"

abbrev pub visibility_values : List String
visibility_values = "public" ∷ "unlisted" ∷ "private" ∷ []

abbrev pub mode_solo : String
mode_solo = "solo"

abbrev pub mode_live : String
mode_live = "live"

abbrev pub mode_values : List String
mode_values = mode_solo ∷ mode_live ∷ []

abbrev pub language_en : String
language_en = "en"

abbrev pub language_values : List String
language_values = language_en ∷ "nl" ∷ []

unfoldable pub is_valid_visibility : String → Bool
is_valid_visibility v = any (str_eq v) visibility_values

unfoldable pub is_valid_mode : String → Bool
is_valid_mode m = any (str_eq m) mode_values

unfoldable pub is_valid_language : String → Bool
is_valid_language l = any (str_eq l) language_values

or_default : String → String → String
or_default s d = if str_eq s "" then d else s

-- The visibility, mode and language in that order.
unfoldable pub normalized_fields : Quiz → String × String × String
unfolding or_default
normalized_fields qz = (
  or_default qz.visibility visibility_public,
  or_default qz.mode mode_solo,
  or_default qz.language language_en,
)
