-- ===== src/Service/Workspace/Hiding.antt =====
-- `GetByID`, `Update` and `Delete` of internal/service/workspace_service.go for a user who is no
-- member.
use todo_chat_app.Prelude.{◌≡◌, ◌⊎◌, inl, inr, ◌||◌, false, String}
use todo_chat_app.Prelude.Text.{trim_space, is_empty}
use todo_chat_app.Outcome.{
  answer, fails, err, record_not_found, workspace_not_found, ask, ask_or, refuse_if,
}
use todo_chat_app.Model.{Workspace, Uuid, is_nil}
use todo_chat_app.Gorm.{Db}
use todo_chat_app.Repository.Workspace as repo
use todo_chat_app.Repository.Member
use todo_chat_app.Service.Workspace.{is_bad_name, require_seen, get_by_id, update, delete}

module _ {W : Type 0} (db : Db W) where
  -- The database answers the look-up, with the workspace or with `ErrRecordNotFound`.
  abbrev pub LooksUp : Uuid → W → Type 0
  LooksUp id w =
      ((ws : Workspace) × (repo.find_by_id db id w ≡ answer ws))
      ⊎ (repo.find_by_id db id w ≡ fails record_not_found)

  -- To a user that is no member, `GetByID`, `Update` and `Delete` with valid arguments answer
  -- `ErrWorkspaceNotFound` and write nothing, whether or not the workspace exists.
  pub workspace_hidden :
      (actor id : Uuid) (raw : String) (w : W)
      → (is_nil actor || is_nil id) ≡ false
      → is_empty (trim_space raw) ≡ false
      → is_bad_name (trim_space raw) ≡ false
      → LooksUp id w
      → Member.is_member db id actor w ≡ answer false
      → (get_by_id db actor id w ≡ err workspace_not_found w)
        × (update db actor id raw w ≡ err workspace_not_found w)
        × (delete db actor id w ≡ err workspace_not_found w)
  unfolding get_by_id update delete require_seen ask ask_or refuse_if
  workspace_hidden actor id raw w ids name short (inl (ws, found)) outside =
      (rw (ids, found, outside), rw (ids, name, short, found, outside), rw (ids, found, outside))
  workspace_hidden actor id raw w ids name short (inr missing) outside =
      (rw (ids, missing), rw (ids, name, short, missing), rw (ids, missing))
