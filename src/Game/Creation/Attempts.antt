-- ===== src/Game/Creation/Attempts.antt =====
-- One attempt per player and quiz, and what a preview may not touch.
use text.Mathlib.Text.{◌==◌ as str_eq}
use text.Mathlib.TextEquality.{eq_iff}
use topbanana.Base.{ℕ, ◌≡◌, ◌⊎◌, true, false, arith}
use topbanana.Quiz.{Quiz, mode_solo, mode_live}
use topbanana.Game.{Game}
use topbanana.Game.Store.{
  ok, err, Stores, World, Config, game_already_exists, preview_not_allowed, quiz_not_found,
}
use topbanana.Game.Creation.{create_game}

module _ (st : Stores) (c : Config) (w : World st.Db) (quiz_id player_id : ℕ) (qz : Quiz) where
  -- A live quiz and a draft are answered like a quiz that does not exist, and nothing changes.
  pub create_game_hidden :
      st.get_quiz w.db quiz_id ≡ ok qz
      → (qz.mode ≡ mode_live) ⊎ (qz.published ≡ false)
      → create_game st c quiz_id player_id false w ≡ (err quiz_not_found, w)
  unfolding create_game
  create_game_hidden q h = ground (arith, eq_iff qz.mode mode_live)

  -- A player with a real game on a playable quiz gets no second one, and nothing changes.
  pub create_game_once :
      (g : Game)
      → st.get_quiz w.db quiz_id ≡ ok qz
      → str_eq qz.mode mode_live ≡ false
      → qz.published ≡ true
      → st.get_game_by_player_and_quiz w.db player_id qz.id ≡ ok g
      → g.preview ≡ false
      → create_game st c quiz_id player_id false w ≡ (err game_already_exists, w)
  unfolding create_game
  create_game_once g q m p e r = ground arith

  -- A preview of a published or live quiz is refused before any game is deleted.
  pub create_game_preview_guard :
      st.get_quiz w.db quiz_id ≡ ok qz
      → (str_eq qz.mode mode_solo ≡ false) ⊎ (qz.published ≡ true)
      → create_game st c quiz_id player_id true w ≡ (err preview_not_allowed, w)
  unfolding create_game
  create_game_preview_guard q h = ground arith

  -- A preview never publishes a leaderboard tick, whatever the stores answer.
  pub create_game_preview_silent :
      (create_game st c quiz_id player_id true w).1.published ≡ w.published
  unfolding create_game
  create_game_preview_silent = ground arith
