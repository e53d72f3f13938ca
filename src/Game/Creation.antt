-- ===== src/Game/Creation.antt =====
-- Creating a game, CreateGame and CreatePreviewGame of internal/game/service.go.
pub mod Attempts
use Prim.Native.String.{String}
use text.Mathlib.Text.{◌==◌ as str_eq}
use topbanana.Base.{ℕ, Bool, true, false, not, ◌&&◌, ◌||◌, Option, none, some, [], if◌then◌else◌}
use topbanana.Quiz.{Quiz, mode_solo, mode_live}
use topbanana.Game.{Game, Participant}
use topbanana.Game.Store.{
  Error, Result, ok, err, Stores, World, M, Config, ◌>>=◌, ◌>>◌, return, fail, read, write, ensure,
  publish, game_not_found, game_already_exists, preview_not_allowed, quiz_not_found,
}

abbrev pub fresh_game : ℕ → Bool → Game
fresh_game quiz_id preview = record {
  id = "";
  quiz_id = quiz_id;
  quiz = none;
  preview = preview;
  created_at = 0;
  started_at = none;
  questions = [];
  participants = [];
}

abbrev pub fresh_participant : ℕ → ℕ → Participant
fresh_participant player_id quiz_id = record {
  id = 0;
  game_id = "";
  player_id = player_id;
  quiz_id = quiz_id;
  joined_at = 0;
}

-- No game is no error: nil.
abbrev pub missing_as_none : Result Game → Result (Option Game)
missing_as_none (ok g) = ok (some g)
missing_as_none (err game_not_found) = ok none
missing_as_none (err e) = err e

module _ (st : Stores) (c : Config) where
  open st use {Db}

  unfoldable pub create_preview_game : Quiz → ℕ → M Db Game
  create_preview_game qz player_id = do
    ensure (str_eq qz.mode mode_solo && not qz.published) preview_not_allowed
    write (λ d. st.delete_games_for_player_on_quiz d player_id qz.id)
    g ← write (λ d.
        st.create_game_and_participant d (fresh_game qz.id true)
          (fresh_participant player_id qz.id))
    return (record g { quiz = some qz })

  -- A real prior game blocks; a preview is reset.
  unfoldable pub clear_prior : Quiz → ℕ → Option Game → M Db (Unit {0})
  clear_prior qz player_id none = return tt
  clear_prior qz player_id (some existing) =
      if existing.preview
      then write (λ d. st.delete_games_for_player_on_quiz d player_id qz.id)
      else fail game_already_exists

  unfoldable pub create_real_game : Quiz → ℕ → M Db Game
  unfolding clear_prior
  create_real_game qz player_id = do
    ensure (not (str_eq qz.mode mode_live || not qz.published)) quiz_not_found
    existing ← read (λ d. missing_as_none (st.get_game_by_player_and_quiz d player_id qz.id))
    clear_prior qz player_id existing
    g ← write (λ d.
        st.create_game_and_participant d (fresh_game qz.id false)
          (fresh_participant player_id qz.id))
    publish c qz.id
    return (record g { quiz = some qz })

  unfoldable pub create_game : ℕ → ℕ → Bool → M Db Game
  unfolding create_preview_game create_real_game
  create_game quiz_id player_id preview = do
    qz ← read (λ d. st.get_quiz d quiz_id)
    if preview then create_preview_game qz player_id else create_real_game qz player_id
