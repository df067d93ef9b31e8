-- ===== src/Service/Workspace.antt =====
-- internal/service/workspace_service.go
pub mod Slug
pub mod Hiding
pub mod Owner
use Prim.Native.String.{len}
use todo_chat_app.Prelude.{ℕ, String, Bool, List, not, ◌||◌, ltb, ◌==◌, if◌then◌else◌}
use todo_chat_app.Prelude.Int.{ℤ, pos, ltb_ℤ}
use todo_chat_app.Prelude.Text.{trim_space, is_empty}
use todo_chat_app.Outcome.{
  Action, pure, ◌>>=◌, ◌>>◌, ask, ask_or, refuse_if, workspace_invalid_input, workspace_not_found,
  forbidden,
}
use todo_chat_app.Model.{Workspace, WorkspaceMemberInfo, Uuid, is_nil, admin_role}
use todo_chat_app.Gorm.{Db}
use todo_chat_app.Repository.Workspace as repo
use todo_chat_app.Repository.Member
use todo_chat_app.Service.Libs.{Formats, Host}
use Slug.{generate_slug}

-- `len(name) > 100` counts bytes.
abbrev pub is_bad_name : String → Bool
is_bad_name name = ltb 100 (len name)

module _ {W : Type 0} (db : Db W) where
  -- `IsMember`, and `ErrWorkspaceNotFound` for all others
  unfoldable pub require_seen : Uuid → Uuid → Action W (Unit {0})
  require_seen ws actor = do
    member ← ask (Member.is_member db ws actor)
    refuse_if (not member) workspace_not_found

  unfoldable pub get_by_id : Uuid → Uuid → Action W Workspace
  get_by_id actor id = do
    refuse_if (is_nil actor || is_nil id) workspace_invalid_input
    ws ← ask_or workspace_not_found (repo.find_by_id db id)
    require_seen id actor
    pure ws

  unfoldable pub update : Uuid → Uuid → String → Action W Workspace
  update actor id raw = do
    let name = trim_space raw
    refuse_if (is_nil actor || is_nil id || is_empty name) workspace_invalid_input
    refuse_if (is_bad_name name) workspace_invalid_input
    ws ← ask_or workspace_not_found (repo.find_by_id db id)
    require_seen id actor
    repo.update db (record ws { name = name })

  unfoldable pub delete : Uuid → Uuid → Action W (Unit {0})
  delete actor id = do
    refuse_if (is_nil actor || is_nil id) workspace_invalid_input
    ws ← ask_or workspace_not_found (repo.find_by_id db id)
    require_seen id actor
    refuse_if (not (ws.owner_id == actor)) forbidden
    repo.delete db id

-- `if page <= 0`, and `if pageSize <= 0 || pageSize > 100` with the size that stands in then.
abbrev pub page_or_first : ℤ → ℤ
page_or_first page = if ltb_ℤ page (pos 1) then pos 1 else page

abbrev pub size_or : ℤ → ℤ → ℤ
size_or usual size = if ltb_ℤ size (pos 1) || ltb_ℤ (pos 100) size then usual else size

module _ {W : Type 0} (db : Db W) where
  unfoldable pub list_by_user : Uuid → ℤ → ℤ → Action W (List Workspace × ℕ)
  list_by_user user page size = do
    refuse_if (is_nil user) workspace_invalid_input
    ask (repo.find_by_user_id db user (page_or_first page) (size_or (pos 20) size))

  unfoldable pub list_members : Uuid → Uuid → ℤ → ℤ → Action W (List WorkspaceMemberInfo × ℕ)
  list_members actor ws page size = do
    refuse_if (is_nil actor || is_nil ws) workspace_invalid_input
    require_seen db ws actor
    ask (Member.list_with_users db ws (page_or_first page) (size_or (pos 50) size))

-- The struct that `Create` hands to the repository.
abbrev pub new_workspace : Uuid → String → String → Workspace
new_workspace owner name slug = record {
  id = 0;
  name = name;
  slug = slug;
  owner_id = owner;
  created_at = 0;
  updated_at = 0;
}

module _ {W : Type 0} (db : Db W) (host : Host W) (f : Formats) where
  -- The body of the transaction of `Create`, with the workspace that it leaves in `ws`.
  unfoldable pub create_with_admin : Uuid → String → Action W Workspace
  create_with_admin owner name = do
    random ← host.rand_text
    ws ← repo.create db (new_workspace owner name (generate_slug f.unicode name random))
    Member.add_member db ws.id owner admin_role
    pure ws

  unfoldable pub create : Uuid → String → Action W Workspace
  create owner raw = do
    let name = trim_space raw
    refuse_if (is_nil owner || is_empty name) workspace_invalid_input
    refuse_if (is_bad_name name) workspace_invalid_input
    db.transaction (create_with_admin owner name)
