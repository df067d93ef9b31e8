-- ===== src/Route/Failures.antt =====
-- internal/handler/task_handler.go behind internal/route/route.go: what a request about tasks that is
-- answered with an error leaves behind.
use todo_chat_app.Prelude.{
  ◌≤◌, ◌≡◌, refl, ap, Option, none, some, String, List, arith, Bool-cases, inl, inr,
}
use todo_chat_app.Prelude.Text.{is_empty}
use todo_chat_app.Outcome.Rules.{Post-eq-err}
use todo_chat_app.Model.{Task, Time}
use todo_chat_app.Gorm.{Db}
use todo_chat_app.Gorm.Laws.{ReadLaws, CascadeLaws}
use todo_chat_app.Service.Libs.{Formats}
use todo_chat_app.Service.Task.Validity.{
  StoresTask, create-Good, update_task-Good, delete_task-Good,
}
use todo_chat_app.Service.Task.Reading.{get_by_id-same, list_by_workspace-same}
use todo_chat_app.Middleware.Token.Keys.{Process}
use todo_chat_app.Response.{Reply, ok_reply, created, no_content, list}
use todo_chat_app.Handler.{Request, Handling, going, replied, turned, ◌>>=◌, invalid_input}
use todo_chat_app.Handler.Rules.{
  Ends, wrote, stopped, Ends-finished, Ends-require, Ends-signed_in, Ends-call,
}
use todo_chat_app.Handler.Requests.{Binder}
use todo_chat_app.Handler.Task as handler
use todo_chat_app.Handler.Task.{due_of}
use todo_chat_app.Route as route
use todo_chat_app.Route.{
  Endpoint, create_task, list_tasks, get_task, update_task, delete_task, Server, handler_of,
}

module _ {W : Type 0} (f : Formats) {P : Reply → W → Type 0} where
  Ends-due_of :
      (text : String) (k : Option Time → Handling W Reply) {w : W}
      → ((r : Reply) → P r w)
      → ((due : Option Time) → Ends P (k due w))
      → Ends P ((due_of f text >>= k) w)
  unfolding due_of
  Ends-due_of text k {w} bad good = elim (Bool-cases (is_empty text)) [
    | inl none_given ↦ rw none_given (good none)
    | inr given ↦ rw given (parsed (f.parse_time text))
  ]
    where
      parsed :
          (o : Option Time)
          → Ends P (
              turned
                (elim o [
                  | none ↦ replied (invalid_input "due_date must be RFC3339 format") w
                  | some t ↦ going (some t) w
                ])
                k)
      parsed none = stopped (bad _)
      parsed (some t) = good (some t)

module _ {W : Type 0} (db : Db W) (f : Formats) (bind : Binder) (tasks : W → List Task)
    (reads : ReadLaws db.tasks.reader tasks)
    (writes : CascadeLaws db.tasks tasks (λ t. t.id) (λ t. t.parent_task_id) StoresTask)
    (w : W) where
  -- A reply with the status of an error comes with the table as it was.
  abbrev Unharmed : Reply → W → Type 0
  Unharmed r v = 400 ≤ r.status → tasks v ≡ tasks w

  create-Unharmed : (req : Request) → Ends Unharmed (handler.create db f bind req w)
  unfolding handler.create created
  create-Unharmed req =
      Ends-require _ _ _ (λ _. refl)
        λ body _.
          Ends-require _ _ _ (λ _. refl)
            λ ws _.
              Ends-signed_in _ _ _ _ (λ _ _ _. refl)
                λ creator _.
                  Ends-due_of f _ _ (λ _ _. refl)
                    λ due.
                      Ends-call _ _ _
                        (λ e v h _.
                          Post-eq-err _ (create-Good db f tasks reads writes creator _ w) h)
                        (λ t v h. wrote (λ late. ground arith))

  get_by_id-Unharmed : (req : Request) → Ends Unharmed (handler.get_by_id db f bind req w)
  unfolding handler.get_by_id ok_reply
  get_by_id-Unharmed req =
      Ends-signed_in _ _ _ _ (λ _ _ _. refl)
        λ requester _.
          Ends-require _ _ _ (λ _. refl)
            λ id _.
              Ends-call _ _ _
                (λ e v h _. ap tasks (Post-eq-err _ (get_by_id-same db f requester id w) h))
                (λ t v h. wrote (λ late. ground arith))

  list_tasks-Unharmed : (req : Request) → Ends Unharmed (handler.list_tasks db f bind req w)
  unfolding handler.list_tasks list
  list_tasks-Unharmed req =
      Ends-signed_in _ _ _ _ (λ _ _ _. refl)
        λ requester _.
          Ends-require _ _ _ (λ _. refl)
            λ ws _.
              Ends-call _ _ _
                (λ e v h _.
                  ap tasks (Post-eq-err _ (list_by_workspace-same db f requester ws _ _ w) h))
                (λ t v h. wrote (λ late. ground arith))

  update_task-Unharmed : (req : Request) → Ends Unharmed (handler.update_task db f bind req w)
  unfolding handler.update_task ok_reply
  update_task-Unharmed req =
      Ends-signed_in _ _ _ _ (λ _ _ _. refl)
        λ requester _.
          Ends-require _ _ _ (λ _. refl)
            λ id _.
              Ends-require _ _ _ (λ _. refl)
                λ input _.
                  Ends-call _ _ _
                    (λ e v h _.
                      Post-eq-err _ (update_task-Good db f tasks reads writes requester id input w)
                        h)
                    (λ t v h. wrote (λ late. ground arith))

  delete_task-Unharmed : (req : Request) → Ends Unharmed (handler.delete_task db f bind req w)
  unfolding handler.delete_task no_content
  delete_task-Unharmed req =
      Ends-signed_in _ _ _ _ (λ _ _ _. refl)
        λ requester _.
          Ends-require _ _ _ (λ _. refl)
            λ id _.
              Ends-call _ _ _
                (λ e v h _.
                  Post-eq-err _ (delete_task-Good db f tasks reads writes requester id w) h)
                (λ t v h. wrote (λ late. ground arith))

module _ {W : Type 0} (db : Db W) (srv : Server W) (tasks : W → List Task)
    (reads : ReadLaws db.tasks.reader tasks)
    (writes : CascadeLaws db.tasks tasks (λ t. t.id) (λ t. t.parent_task_id) StoresTask) where
  -- The endpoints of the group `/tasks`.
  abbrev IsTaskPoint : Endpoint → Type 0
  IsTaskPoint create_task = Unit
  IsTaskPoint list_tasks = Unit
  IsTaskPoint get_task = Unit
  IsTaskPoint update_task = Unit
  IsTaskPoint delete_task = Unit
  IsTaskPoint _ = ⊥

  task_point-Unharmed :
      (point : Endpoint) (req : Request) (w : W)
      → IsTaskPoint point
      → Ends (λ r v. 400 ≤ r.status → tasks v ≡ tasks w) (handler_of db srv point req w)
  task_point-Unharmed create_task req w task =
      create-Unharmed db srv.formats srv.bind tasks reads writes w req
  task_point-Unharmed list_tasks req w task =
      list_tasks-Unharmed db srv.formats srv.bind tasks reads writes w req
  task_point-Unharmed get_task req w task =
      get_by_id-Unharmed db srv.formats srv.bind tasks reads writes w req
  task_point-Unharmed update_task req w task =
      update_task-Unharmed db srv.formats srv.bind tasks reads writes w req
  task_point-Unharmed delete_task req w task =
      delete_task-Unharmed db srv.formats srv.bind tasks reads writes w req
  task_point-Unharmed _ req w task = absurd task

  -- A handler of the tasks that answers with a status from 400 on, whatever the request, leaves the
  -- table of tasks as it was.
  pub answer-tasks_err :
      (point : Endpoint) (req : Request) (s : Process W)
      → IsTaskPoint point
      → 400 ≤ ((route.answer db srv point req s).0).status
      → tasks ((route.answer db srv point req s).1).world ≡ tasks s.world
  unfolding route.answer
  answer-tasks_err point req s task =
      Ends-finished (handler_of db srv point req s.world)
        (task_point-Unharmed point req s.world task)
