-- ===== src/Repository/Task.antt =====
-- internal/repository/task/repository.go
use todo_chat_app.Prelude.{ℕ, Bool, List, not, ◌||◌, ◌&&◌, ltb, ◌==◌}
use todo_chat_app.Prelude.Int.{ℤ, ltb_ℤ}
use todo_chat_app.Outcome.{Answer, Action, pure, ◌>>=◌}
use todo_chat_app.Model.{Task, Uuid}
use todo_chat_app.Gorm.{Db}

-- `ORDER BY position ASC, created_at DESC`
abbrev before : Task → Task → Bool
before s t =
    ltb_ℤ s.position t.position
    || (not (ltb_ℤ t.position s.position) && ltb t.created_at s.created_at)

abbrev pub has_id : Uuid → Task → Bool
has_id id t = t.id == id

abbrev pub in_workspace : Uuid → Task → Bool
in_workspace ws t = t.workspace_id == ws

module _ {W : Type 0} (db : Db W) where
  unfoldable pub create : Task → Action W Task
  create t = db.tasks.create t

  unfoldable pub find_by_id : Uuid → W → Answer Task
  find_by_id id = db.tasks.first (has_id id)

  unfoldable pub find_by_workspace : Uuid → ℤ → ℤ → W → Answer (List Task)
  find_by_workspace ws offset limit = db.tasks.page before (in_workspace ws) offset limit

  unfoldable pub count_by_workspace : Uuid → W → Answer ℕ
  count_by_workspace ws = db.tasks.count (in_workspace ws)

  -- `Save`, with the struct as gorm leaves it
  unfoldable pub update : Task → Action W Task
  update t = do at ← db.tasks.save t; pure (record t { updated_at = at })

  unfoldable pub delete : Uuid → Action W (Unit {0})
  delete id = do _ ← db.tasks.delete (has_id id); pure tt
