-- ===== src/Repository/Token/Laws.antt =====
-- What a success of the methods of the token repository stands for.
use todo_chat_app.Prelude.{ℕ, String, ◌≡◌}
use todo_chat_app.Outcome.{ok}
use todo_chat_app.Outcome.Rules.{bind-eq-ok}
use todo_chat_app.Model.{RefreshToken}
use todo_chat_app.Gorm.{Db}
use todo_chat_app.Repository.Token.{has_hash, save, delete_by_hash}

module _ {W : Type 0} (db : Db W) where
  pub save_ok :
      (t : RefreshToken) (w v : W)
      → save db t w ≡ ok tt v
      → (row : RefreshToken) × (db.refresh_tokens.create t w ≡ ok row v)
  unfolding save
  save_ok t w v h =
      let (row, u, created, done) = bind-eq-ok (db.refresh_tokens.create t) _ h in
      let same : u ≡ v = cc in (row, rw same at created)

  pub delete_by_hash_ok :
      (hash : String) (w v : W)
      → delete_by_hash db hash w ≡ ok tt v
      → (n : ℕ) × (db.refresh_tokens.delete (has_hash hash) w ≡ ok n v)
  unfolding delete_by_hash
  delete_by_hash_ok hash w v h =
      let (n, u, deleted, done) = bind-eq-ok (db.refresh_tokens.delete (has_hash hash)) _ h in
      let same : u ≡ v = cc in (n, rw same at deleted)
