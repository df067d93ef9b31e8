-- ===== src/Handler/Workspace.antt =====
-- internal/handler/workspace_handler.go
use todo_chat_app.Prelude.{ℕ, String, not, ◌&&◌, none, some, if◌then◌else◌}
use todo_chat_app.Prelude.Int.{ℤ, pos, ltb_ℤ}
use todo_chat_app.Prelude.Text.{is_empty}
use todo_chat_app.Outcome.{Error, workspace_not_found, workspace_invalid_input}
use todo_chat_app.Outcome
use todo_chat_app.Gorm.{Db}
use todo_chat_app.Service.Libs.{Formats, Host}
use todo_chat_app.Service.Workspace as service
use todo_chat_app.Response as response
use todo_chat_app.Response.{
  Reply, PaginationMeta, a_workspace, workspaces, members, ok_reply, created, no_content, list,
  not_found, internal_error, code_workspace_not_found,
}
use todo_chat_app.Handler.{
  Request, Handling, ◌>>=◌, call, require, known_user, present_user, invalid_input, cause, write,
}
use todo_chat_app.Handler.Requests.{Binder}

abbrev no_workspace : Reply
no_workspace = not_found code_workspace_not_found "workspace not found"

abbrev create_reply : Error → Reply
create_reply workspace_invalid_input = invalid_input "invalid workspace name"
create_reply _ = internal_error

-- The switches of `GetByID` and `Update`, of `GetMembers`, and of `Delete`.
abbrev workspace_reply : Error → Reply
workspace_reply workspace_invalid_input = invalid_input "invalid input"
workspace_reply workspace_not_found = no_workspace
workspace_reply _ = internal_error

abbrev members_reply : Error → Reply
members_reply workspace_not_found = no_workspace
members_reply _ = internal_error

abbrev delete_reply : Error → Reply
delete_reply workspace_invalid_input = invalid_input "invalid input"
delete_reply workspace_not_found = no_workspace
delete_reply Outcome.forbidden = response.forbidden
delete_reply _ = internal_error

-- `c.Query(key)`: a parameter that is missing reads as the empty text.
abbrev pub query : Request → String → String
query req key = elim (req.query key) [ none ↦ "" | some s ↦ s ]

-- `if n, err := strconv.Atoi(p); err == nil && n > 0 { page = n }`, and the same with a bound.
abbrev pub page_of : Formats → String → ℤ
page_of f text =
    if not (is_empty text) && (f.atoi text).1 && ltb_ℤ (pos 0) ((f.atoi text).0)
    then (f.atoi text).0
    else pos 1

abbrev pub size_of : Formats → ℤ → String → ℤ
size_of f usual text =
    if not (is_empty text)
      && (f.atoi text).1
      && ltb_ℤ (pos 0) ((f.atoi text).0)
      && not (ltb_ℤ (pos 100) ((f.atoi text).0))
    then (f.atoi text).0
    else usual

abbrev pub page_meta : Formats → ℕ → ℤ → ℤ → PaginationMeta
page_meta f total page size = record {
  total = total;
  page = page;
  page_size = size;
  total_pages = f.ceil_div total size;
}

module _ {W : Type 0} (db : Db W) (host : Host W) (f : Formats) (bind : Binder) where
  unfoldable pub create : Request → Handling W Reply
  create req = do
    name ← require (invalid_input "invalid request body") (bind.workspace_name req.body)
    creator ← present_user req
    ws ← call (λ e. create_reply (cause e)) (service.create db host f creator name)
    write (created (a_workspace ws))

  unfoldable pub get_by_id : Request → Handling W Reply
  get_by_id req = do
    actor ← known_user req
    id ← require (invalid_input "invalid workspace id") (f.parse_uuid req.param)
    ws ← call (λ e. workspace_reply (cause e)) (service.get_by_id db actor id)
    write (ok_reply (a_workspace ws))

  unfoldable pub list_by_user : Request → Handling W Reply
  list_by_user req = do
    user ← known_user req
    let page = page_of f (query req "page")
    let size = size_of f (pos 20) (query req "page_size")
    found ← call (λ e. internal_error) (service.list_by_user db user page size)
    write (list (workspaces (found.0)) (some (page_meta f (found.1) page size)))

  unfoldable pub update : Request → Handling W Reply
  update req = do
    name ← require (invalid_input "invalid request body") (bind.workspace_name req.body)
    actor ← present_user req
    id ← require (invalid_input "invalid workspace id") (f.parse_uuid req.param)
    ws ← call (λ e. workspace_reply (cause e)) (service.update db actor id name)
    write (ok_reply (a_workspace ws))

  unfoldable pub get_members : Request → Handling W Reply
  get_members req = do
    actor ← known_user req
    id ← require (invalid_input "invalid workspace id") (f.parse_uuid req.param)
    let page = page_of f (query req "page")
    let size = size_of f (pos 50) (query req "page_size")
    found ← call (λ e. members_reply (cause e)) (service.list_members db actor id page size)
    write (list (members (found.0)) (some (page_meta f (found.1) page size)))

  unfoldable pub delete : Request → Handling W Reply
  delete req = do
    actor ← known_user req
    id ← require (invalid_input "invalid workspace id") (f.parse_uuid req.param)
    _ ← call (λ e. delete_reply (cause e)) (service.delete db actor id)
    write no_content
