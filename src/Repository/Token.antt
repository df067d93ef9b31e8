-- ===== src/Repository/Token.antt =====
-- internal/repository/token/repository.go
pub mod Laws
use todo_chat_app.Prelude.{String, Bool, ◌==◌, str_eq}
use todo_chat_app.Outcome.{Answer, Action, pure, ◌>>=◌}
use todo_chat_app.Model.{RefreshToken, Uuid}
use todo_chat_app.Gorm.{Db}

abbrev pub has_hash : String → RefreshToken → Bool
has_hash hash t = str_eq t.token_hash hash

module _ {W : Type 0} (db : Db W) where
  unfoldable pub save : RefreshToken → Action W (Unit {0})
  save t = do _ ← db.refresh_tokens.create t; pure tt

  unfoldable pub find_by_hash : String → W → Answer RefreshToken
  find_by_hash hash = db.refresh_tokens.first (has_hash hash)

  unfoldable pub delete_by_hash : String → Action W (Unit {0})
  delete_by_hash hash = do _ ← db.refresh_tokens.delete (has_hash hash); pure tt

  unfoldable pub delete_all_by_user_id : Uuid → Action W (Unit {0})
  delete_all_by_user_id user = do _ ← db.refresh_tokens.delete (λ t. t.user_id == user); pure tt
