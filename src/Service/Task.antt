-- ===== src/Service/Task.antt =====
-- internal/service/task_service.go: the five methods. `UpdateTask` changes a draft of the row field
-- by field, and writes it only if some field changed.
pub mod Access
pub mod Validity
pub mod Paging
pub mod Edits
pub mod Reading
use todo_chat_app.Prelude.{
  ℕ, String, Bool, true, false, not, ◌||◌, Option, none, some, List, if◌then◌else◌, str_eq,
}
use todo_chat_app.Prelude.Int.{ℤ, pos, ltb_ℤ, sub_int, mul_int}
use todo_chat_app.Prelude.Text.{trim_space, to_upper, is_empty}
use todo_chat_app.Outcome.{
  Action, pure, raise, ◌>>=◌, ◌>>◌, ask, ask_or, refuse_if, task_invalid_input, task_not_found,
  forbidden,
}
use todo_chat_app.Model.{Task, Uuid, is_nil}
use todo_chat_app.Gorm.{Db}
use todo_chat_app.Repository.Task as repo
use todo_chat_app.Repository.Member
use todo_chat_app.Service.Libs.{Formats}

pub record TaskUpdateInput : Type 0 where
  pub title : Option String
  pub description : Option String
  pub status : Option String
  pub priority : Option String
  pub due_date : Option String
  pub assignee_id : Option String

-- `case "LOW", "MEDIUM", "HIGH", "URGENT":`
abbrev pub is_priority : String → Bool
is_priority s = str_eq s "LOW" || str_eq s "MEDIUM" || str_eq s "HIGH" || str_eq s "URGENT"

-- `case "TODO", "IN_PROGRESS", "DONE":`
abbrev pub is_status : String → Bool
is_status s = str_eq s "TODO" || str_eq s "IN_PROGRESS" || str_eq s "DONE"

-- The variables `t` and `changed` of `UpdateTask`.
pub record Draft : Type 0 where
  pub task : Task
  pub changed : Bool

abbrev edited : Draft → Task → Draft
edited d t = record d { task = t; changed = true }

module _ {W : Type 0} where
  unfoldable pub edit_title : Option String → Draft → Action W Draft
  edit_title none d = pure d
  edit_title (some raw) d = do
    let title = trim_space raw
    refuse_if (is_empty title) task_invalid_input
    pure (if str_eq d.task.title title then d else edited d (record (d.task) { title = title }))

  unfoldable pub edit_description : Option String → Draft → Action W Draft
  edit_description none d = pure d
  edit_description (some text) d = pure (
      if str_eq d.task.description text
      then d
      else edited d (record (d.task) { description = text }))

  module _ (f : Formats) where
    unfoldable pub edit_status : Option String → Draft → Action W Draft
    edit_status none d = pure d
    edit_status (some raw) d = do
      let status = to_upper f.unicode (trim_space raw)
      refuse_if (not (is_status status)) task_invalid_input
      pure (
          if str_eq d.task.status status then d else edited d (record (d.task) { status = status }))

    unfoldable pub edit_priority : Option String → Draft → Action W Draft
    edit_priority none d = pure d
    edit_priority (some raw) d = do
      let priority = to_upper f.unicode (trim_space raw)
      refuse_if (not (is_priority priority)) task_invalid_input
      pure (
          if str_eq d.task.priority priority
          then d
          else edited d (record (d.task) { priority = priority }))

    unfoldable pub edit_due_date : Option String → Draft → Action W Draft
    edit_due_date none d = pure d
    edit_due_date (some raw) d =
        if is_empty raw
        then pure (edited d (record (d.task) { due_date = none }))
        else elim (f.parse_time raw) [
          | none ↦ raise task_invalid_input
          | some parsed ↦ pure (edited d (record (d.task) { due_date = some parsed }))
        ]

    unfoldable pub edit_assignee : Option String → Draft → Action W Draft
    edit_assignee none d = pure d
    edit_assignee (some raw) d =
        if is_empty raw
        then pure (edited d (record (d.task) { assignee_id = none }))
        else elim (f.parse_uuid raw) [
          | none ↦ raise task_invalid_input
          | some id ↦ do
            refuse_if (is_nil id) task_invalid_input
            pure (edited d (record (d.task) { assignee_id = some id }))
        ]

    -- The six `if input.X != nil` blocks, in order.
    unfoldable pub edit : TaskUpdateInput → Draft → Action W Draft
    edit input d = do
      d ← edit_title input.title d
      d ← edit_description input.description d
      d ← edit_status input.status d
      d ← edit_priority input.priority d
      d ← edit_due_date input.due_date d
      edit_assignee input.assignee_id d

-- The struct that `Create` hands to the repository.
unfoldable pub prepared : Formats → Uuid → Task → Task
prepared f actor t =
    let given = to_upper f.unicode (trim_space t.priority) in
    record t {
      created_by = actor;
      status = "TODO";
      priority = if is_empty given then "MEDIUM" else given;
    }

-- The offset and the page size that `ListByWorkspace` asks for.
abbrev clamp_page : ℤ → ℤ
clamp_page page = if ltb_ℤ page (pos 1) then pos 1 else page

abbrev clamp_size : ℤ → ℤ
clamp_size size = if ltb_ℤ size (pos 1) || ltb_ℤ (pos 100) size then pos 20 else size

unfoldable pub page_offset : ℤ → ℤ → ℤ
page_offset page size = mul_int (sub_int page (pos 1)) size

module _ {W : Type 0} (db : Db W) (f : Formats) where
  -- `IsMember`, and `ErrForbidden` for all others
  unfoldable pub require_member : Uuid → Uuid → Action W (Unit {0})
  require_member ws actor = do
    member ← ask (Member.is_member db ws actor)
    refuse_if (not member) forbidden

  unfoldable pub create : Uuid → Option Task → Action W Task
  create actor none = raise task_invalid_input
  create actor (some t) = do
    refuse_if (is_nil actor || is_nil t.workspace_id) task_invalid_input
    require_member t.workspace_id actor
    refuse_if (not (is_priority (prepared f actor t).priority)) task_invalid_input
    repo.create db (prepared f actor t)

  unfoldable pub get_by_id : Uuid → Uuid → Action W Task
  get_by_id actor id = do
    refuse_if (is_nil actor || is_nil id) task_invalid_input
    t ← ask_or task_not_found (repo.find_by_id db id)
    require_member t.workspace_id actor
    pure t

  unfoldable pub list_by_workspace : Uuid → Uuid → ℤ → ℤ → Action W (List Task × ℕ)
  list_by_workspace actor ws page size = do
    refuse_if (is_nil actor || is_nil ws) task_invalid_input
    require_member ws actor
    let page = clamp_page page
    let size = clamp_size size
    total ← ask (repo.count_by_workspace db ws)
    tasks ← ask (repo.find_by_workspace db ws (page_offset page size) size)
    pure (tasks, total)

  -- `if !changed { return t, nil }`, and the write
  unfoldable pub store_draft : Draft → Action W Task
  store_draft d = if d.changed then repo.update db d.task else pure d.task

  unfoldable pub update_task : Uuid → Uuid → TaskUpdateInput → Action W Task
  update_task actor id input = do
    refuse_if (is_nil actor || is_nil id) task_invalid_input
    t ← ask_or task_not_found (repo.find_by_id db id)
    require_member t.workspace_id actor
    d ← edit f input (record { task = t; changed = false })
    store_draft d

  unfoldable pub delete_task : Uuid → Uuid → Action W (Unit {0})
  delete_task actor id = do
    refuse_if (is_nil actor || is_nil id) task_invalid_input
    t ← ask_or task_not_found (repo.find_by_id db id)
    require_member t.workspace_id actor
    repo.delete db id
