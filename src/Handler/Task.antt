-- ===== src/Handler/Task.antt =====
-- internal/handler/task_handler.go
pub mod Pages
use todo_chat_app.Prelude.{ℕ, String, Bool, ◌||◌, Option, none, some, if◌then◌else◌}
use todo_chat_app.Prelude.Int.{ℤ, pos, ltb_ℤ, add_int, sub_int, div_int, of_pattern}
use todo_chat_app.Prelude.Text.{is_empty}
use todo_chat_app.Outcome.{Error, task_not_found, task_invalid_input}
use todo_chat_app.Outcome
use todo_chat_app.Model.{Uuid, Time}
use todo_chat_app.Model as rows
use todo_chat_app.Gorm.{Db}
use todo_chat_app.Service.Libs.{Formats}
use todo_chat_app.Service.Task as service
use todo_chat_app.Response as response
use todo_chat_app.Response.{
  Reply, a_task, tasks, ok_reply, created, no_content, list, not_found, internal_error,
  code_not_found,
}
use todo_chat_app.Handler.{
  Request, Handling, Turn, going, replied, ◌>>=◌, call, require, known_user, present_user,
  invalid_input, cause, write,
}
use todo_chat_app.Handler.Requests.{Binder, CreateTaskRequest}

abbrev create_reply : Error → Reply
create_reply Outcome.forbidden = response.forbidden
create_reply task_invalid_input = invalid_input "invalid task input"
create_reply _ = internal_error

abbrev list_reply : Error → Reply
list_reply Outcome.forbidden = response.forbidden
list_reply task_invalid_input = invalid_input "invalid input"
list_reply _ = internal_error

-- The switches of the other three methods have the same cases.
abbrev pub task_reply : Error → Reply
task_reply Outcome.forbidden = response.forbidden
task_reply task_not_found = not_found code_not_found "task not found"
task_reply task_invalid_input = invalid_input "invalid task input"
task_reply _ = internal_error

abbrev pub new_task : Uuid → CreateTaskRequest → Option Time → rows.Task
new_task ws body due = record {
  id = 0;
  workspace_id = ws;
  channel_id = none;
  title = body.title;
  description = body.description;
  status = "";
  priority = body.priority;
  assignee_id = none;
  created_by = 0;
  parent_task_id = none;
  position = pos 0;
  due_date = due;
  created_at = 0;
  updated_at = 0;
}

-- `c.DefaultQuery(key, usual)`
abbrev pub default_query : String → Option String → String
default_query usual none = usual
default_query usual (some s) = s

-- What `List` shows of the page and its size in the reply.
abbrev pub shown_page : ℤ → ℤ
shown_page page = if ltb_ℤ page (pos 1) then pos 1 else page

abbrev pub shown_size : ℤ → ℤ
shown_size size = if ltb_ℤ size (pos 1) || ltb_ℤ (pos 100) size then pos 20 else size

unfoldable pub total_pages : ℕ → ℤ → ℤ
total_pages total size = div_int (sub_int (add_int (of_pattern total) size) (pos 1)) size

module _ {W : Type 0} (f : Formats) where
  unfoldable pub due_of : String → Handling W (Option Time)
  due_of text w = if is_empty text then going none w else elim (f.parse_time text) [
    | none ↦ replied (invalid_input "due_date must be RFC3339 format") w
    | some t ↦ going (some t) w
  ]

module _ {W : Type 0} (db : Db W) (f : Formats) (bind : Binder) where
  unfoldable pub create : Request → Handling W Reply
  create req = do
    body ← require (invalid_input "invalid request body") (bind.create_task req.body)
    ws ← require (invalid_input "invalid workspace_id") (f.parse_uuid body.workspace_id)
    creator ← present_user req
    due ← due_of f body.due_date
    task ←
        call (λ e. create_reply (cause e))
          (service.create db f creator (some (new_task ws body due)))
    write (created (a_task task))

  unfoldable pub get_by_id : Request → Handling W Reply
  get_by_id req = do
    requester ← known_user req
    id ← require (invalid_input "invalid task id") (f.parse_uuid req.param)
    task ← call (λ e. task_reply (cause e)) (service.get_by_id db f requester id)
    write (ok_reply (a_task task))

  unfoldable pub list_tasks : Request → Handling W Reply
  list_tasks req = do
    requester ← known_user req
    ws ←
        require (invalid_input "workspace_id is required and must be a valid UUID")
          (f.parse_uuid (default_query "" (req.query "workspace_id")))
    let page = (f.atoi (default_query "1" (req.query "page"))).0
    let size = (f.atoi (default_query "20" (req.query "page_size"))).0
    found ← call (λ e. list_reply (cause e)) (service.list_by_workspace db f requester ws page size)
    write (
        list (tasks (found.0)) (
          some (record {
            total = found.1;
            page = shown_page page;
            page_size = shown_size size;
            total_pages = total_pages (found.1) (shown_size size);
          })))

  -- `updateTaskRequest` has the fields of `TaskUpdateInput`, and is copied field by field.
  unfoldable pub update_task : Request → Handling W Reply
  update_task req = do
    requester ← known_user req
    id ← require (invalid_input "invalid task id") (f.parse_uuid req.param)
    input ← require (invalid_input "invalid request body") (bind.update_task req.body)
    task ← call (λ e. task_reply (cause e)) (service.update_task db f requester id input)
    write (ok_reply (a_task task))

  unfoldable pub delete_task : Request → Handling W Reply
  delete_task req = do
    requester ← known_user req
    id ← require (invalid_input "invalid task id") (f.parse_uuid req.param)
    _ ← call (λ e. task_reply (cause e)) (service.delete_task db f requester id)
    write no_content
