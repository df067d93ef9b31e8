-- ===== src/Repository/Workspace/Laws.antt =====
-- What a successful `Delete` did.
use todo_chat_app.Prelude.{ℕ, ◌≡◌}
use todo_chat_app.Outcome.{ok}
use todo_chat_app.Outcome.Rules.{bind-eq-ok, affected_some}
use todo_chat_app.Model.{Uuid}
use todo_chat_app.Gorm.{Db}
use todo_chat_app.Repository.Workspace.{has_id, delete}

pub delete_ok :
    {W : Type 0} (db : Db W) (id : Uuid) (w v : W)
    → delete db id w ≡ ok tt v
    → (n : ℕ) × (db.workspaces.delete (has_id id) w ≡ ok n v)
unfolding delete
delete_ok db id w v h =
    let (n, u, deleted, done) = bind-eq-ok (db.workspaces.delete (has_id id)) _ h in
    let (same, _) = affected_some n u v done in (n, rw same at deleted)
