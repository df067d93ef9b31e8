-- ===== src/Repository/Workspace.antt =====
-- internal/repository/workspace/repository.go
pub mod Laws
use todo_chat_app.Prelude.{ℕ, Bool, List, map, ltb, ◌==◌, if◌then◌else◌}
use todo_chat_app.Prelude.Int.{ℤ, pos, sub_int, mul_int}
use todo_chat_app.Outcome.{Answer, answer, fails, Action, pure, raise, ◌>>=◌, record_not_found}
use todo_chat_app.Model.{Workspace, WorkspaceMember, Uuid}
use todo_chat_app.Gorm.{Db}

abbrev pub has_id : Uuid → Workspace → Bool
has_id id ws = ws.id == id

-- `workspace_members.user_id = ?`, and `workspaces.created_at DESC`
abbrev pub is_of : Uuid → Workspace × WorkspaceMember → Bool
is_of user row = row.1.user_id == user

abbrev pub newest : Workspace × WorkspaceMember → Workspace × WorkspaceMember → Bool
newest a b = ltb b.0.created_at a.0.created_at

abbrev pub selected : Answer (List (Workspace × WorkspaceMember)) → ℕ → Answer (List Workspace × ℕ)
selected (answer rows) total = answer (map (λ row. row.0) rows, total)
selected (fails e) total = fails e

abbrev pub counted_then :
    Answer ℕ → Answer (List (Workspace × WorkspaceMember)) → Answer (List Workspace × ℕ)
counted_then (answer total) rows = selected rows total
counted_then (fails e) rows = fails e

module _ {W : Type 0} (db : Db W) where
  unfoldable pub create : Workspace → Action W Workspace
  create ws = db.workspaces.create ws

  unfoldable pub find_by_id : Uuid → W → Answer Workspace
  find_by_id id = db.workspaces.first (has_id id)

  -- The total is read first, and the page only if that works.
  unfoldable pub find_by_user_id : Uuid → ℤ → ℤ → W → Answer (List Workspace × ℕ)
  find_by_user_id user page size w =
      counted_then (db.member_workspaces.count (is_of user) w)
        (db.member_workspaces.page newest (is_of user) (mul_int (sub_int page (pos 1)) size) size w)

  -- `Save`, with the struct as gorm leaves it
  unfoldable pub update : Workspace → Action W Workspace
  update ws = do at ← db.workspaces.save ws; pure (record ws { updated_at = at })

  unfoldable pub delete : Uuid → Action W (Unit {0})
  delete id = do
    affected ← db.workspaces.delete (has_id id)
    if affected == 0 then raise record_not_found else pure tt
