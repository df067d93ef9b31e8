-- ===== src/Tests/Task.antt =====
-- The theorems on the task service at concrete calls.
use todo_chat_app.Prelude.{ℕ, ◌≡◌, refl, inl, inr, none, some, List, [], ◌∷◌, Has, ◌↔◌}
use todo_chat_app.Prelude.Int.{pos}
use todo_chat_app.Outcome.{ok, task_invalid_input}
use todo_chat_app.Model.{Task}
use todo_chat_app.Gorm.Laws.{ReadLaws, CascadeLaws}
use todo_chat_app.Gorm.Memory.{memory-ReadLaws}
use todo_chat_app.Gorm.Memory.Cascade.{cascading-ReadLaws, cascading-CascadeLaws}
use todo_chat_app.Repository.Member.Laws.{Belongs}
use todo_chat_app.Service.Task.{TaskUpdateInput, list_by_workspace, update_task, delete_task}
use todo_chat_app.Service.Task.Access.{
  Fixed, Under, Updated, update_task-Belongs, delete_task-Belongs,
}
use todo_chat_app.Service.Task.Edits.{IsValidTask}
use todo_chat_app.Service.Task.Validity.{
  StoresTask, Call, creates, updates, deletes, perform, perform_all, perform_err,
  perform_all-IsValidTask,
}
use todo_chat_app.Service.Task.Paging.{IsPage, list_by_workspace-IsPage}
use todo_chat_app.Tests.Run.{running}
use todo_chat_app.Tests.World.{World, db, formats, start, task}

abbrev pub tasks : World → List Task
tasks w = w.tasks

pub task_reads : ReadLaws db.tasks.reader tasks
task_reads = cascading-ReadLaws _ _ _ _ _

member_reads : ReadLaws db.members.reader (λ w. w.members)
member_reads = memory-ReadLaws _ _ _ _

pub task_writes : CascadeLaws db.tasks tasks (λ t. t.id) (λ t. t.parent_task_id) StoresTask
task_writes =
    cascading-CascadeLaws _ _ _ _ _ StoresTask (λ l w. refl) (λ r w. stored r _) (λ r. stored r _)
  where
    stored : (r : Task) (id : ℕ) → StoresTask r (record r { id = id })
    stored r id = record {
      workspace_id = refl;
      created_by = refl;
      channel_id = refl;
      parent_task_id = refl;
      position = refl;
      title = refl;
      description = refl;
      assignee_id = refl;
      due_date = refl;
      status = λ _. refl;
      priority = λ _. refl;
    }

abbrev finish : TaskUpdateInput
finish = record {
  title = none;
  description = none;
  status = some " DONE ";
  priority = none;
  due_date = some "";
  assignee_id = some "u7";
}

abbrev finished : Task
finished = record (task 40 20) { status = "DONE"; due_date = none; assignee_id = some 7 }

abbrev after_finish : World
after_finish = record start { tasks = finished ∷ [] }

update_runs : update_task db formats 7 40 finish start ≡ ok finished after_finish
unfolding running
update_runs = refl

update_task-Belongs_example :
    (t : Task) × Has t start.tasks
    × (t.id ≡ 40)
    × Belongs start.members t.workspace_id 7
    × Fixed t finished
    × Updated db formats tasks
        (λ w. w.members)
        task_reads
        member_reads
        task_writes
        t
        finished
        start
        after_finish
update_task-Belongs_example =
    update_task-Belongs db formats tasks (λ w. w.members) task_reads member_reads task_writes 7 40
      finish start after_finish finished update_runs

-- The task 40, a task below it, and one below that.
abbrev nested : World
nested = record start {
  tasks =
      record (task 42 20) { parent_task_id = some 41 }
      ∷ record (task 41 20) { parent_task_id = some 40 }
      ∷ task 40 20
      ∷ task 43 20
      ∷ [];
}

abbrev pruned : World
pruned = record start { tasks = task 43 20 ∷ [] }

delete_runs : delete_task db formats 7 40 nested ≡ ok tt pruned
unfolding running
delete_runs = refl

delete_task-Belongs_example :
    ((t : Task) × Has t nested.tasks × (t.id ≡ 40) × Belongs nested.members t.workspace_id 7)
    × ((x : Task) → Has x pruned.tasks ↔ (Has x nested.tasks × (¬ Under 40 nested.tasks x)))
delete_task-Belongs_example =
    delete_task-Belongs db formats tasks (λ w. w.members) task_reads member_reads task_writes 7 40
      nested pruned delete_runs

-- A call with a status that is none leaves the tasks alone.
perform_err_example : tasks start ≡ tasks start
unfolding running perform
perform_err_example =
    perform_err db formats tasks task_reads task_writes
      (updates 7 40 (record finish { status = some "LATE" })) start start task_invalid_input refl

abbrev history : List Call
history = creates 7 (some (task 0 20)) ∷ updates 7 40 finish ∷ deletes 8 40 ∷ []

start_valid : (x : Task) → Has x start.tasks → IsValidTask x
unfolding running
start_valid x (inl e) = rw e (record { status = refl; priority = refl })
start_valid x (inr none_left) = absurd none_left

perform_all-IsValidTask_example : IsValidTask finished
unfolding running perform perform_all
perform_all-IsValidTask_example =
    perform_all-IsValidTask db formats tasks task_reads task_writes history start start_valid
      finished (inl refl)

list_runs : list_by_workspace db formats 7 20 (pos 0) (pos 7) start ≡ ok (task 40 20 ∷ [], 1) start
unfolding running
list_runs = refl

list_by_workspace-IsPage_example :
    Belongs start.members 20 7
    × IsPage db formats tasks (λ w. w.members) task_reads member_reads start 20 (task 40 20 ∷ [])
list_by_workspace-IsPage_example =
    list_by_workspace-IsPage db formats tasks (λ w. w.members) task_reads member_reads 7 20 (pos 0)
      (pos 7) start start (task 40 20 ∷ []) 1 refl list_runs
