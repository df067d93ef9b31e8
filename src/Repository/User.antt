-- ===== src/Repository/User.antt =====
-- internal/repository/user/repository.go
pub mod Laws
use todo_chat_app.Prelude.{String, Bool, ◌==◌, str_eq}
use todo_chat_app.Outcome.{Answer, Action, pure, ◌>>=◌}
use todo_chat_app.Model.{User, Uuid}
use todo_chat_app.Gorm.{Db}

abbrev pub has_id : Uuid → User → Bool
has_id id u = u.id == id

abbrev pub has_email : String → User → Bool
has_email email u = str_eq u.email email

module _ {W : Type 0} (db : Db W) where
  unfoldable pub create : User → Action W User
  create u = db.users.create u

  unfoldable pub find_by_email : String → W → Answer User
  find_by_email email = db.users.first (has_email email)

  unfoldable pub find_by_id : Uuid → W → Answer User
  find_by_id id = db.users.first (has_id id)

  -- `Save`, with the struct as gorm leaves it
  unfoldable pub update : User → Action W User
  update u = do at ← db.users.save u; pure (record u { updated_at = at })

  unfoldable pub delete_by_id : Uuid → Action W (Unit {0})
  delete_by_id id = do _ ← db.users.delete (has_id id); pure tt
