-- ===== src/Route/Tasks.antt =====
-- internal/route/route.go: who gets an answer from the endpoints of a single task.
use todo_chat_app.Prelude.{◌≤◌, ◌≡◌, refl, ◌⊎◌, inl, inr, Bool, some, String, List, Has, arith}
use todo_chat_app.Outcome.{Error}
use todo_chat_app.Model.{Task, WorkspaceMember, Uuid}
use todo_chat_app.Gorm.{Db}
use todo_chat_app.Gorm.Laws.{ReadLaws, CascadeLaws}
use todo_chat_app.Repository.Member.Laws.{Belongs}
use todo_chat_app.Service.Libs.{Formats}
use todo_chat_app.Service.Task.Validity.{StoresTask}
use todo_chat_app.Service.Task.Access.{get_by_id-Belongs, update_task-Belongs, delete_task-Belongs}
use todo_chat_app.Middleware.Rbac.{user_id}
use todo_chat_app.Middleware.Token.Keys.{Process}
use todo_chat_app.Middleware.Token.{Key, Passed, handle, token_text}
use todo_chat_app.Middleware.Token.Sound.{ParseLaws, LetIn}
use todo_chat_app.Response.{Reply, bad_request, not_found, internal_error}
use todo_chat_app.Response as response
use todo_chat_app.Handler.{Request, Turn, going, replied, invalid_input, cause}
use todo_chat_app.Handler.Rules.{
  Ends, wrote, Ends-finished, Ends-require, Ends-signed_in, Ends-call,
}
use todo_chat_app.Handler.Requests.{Binder}
use todo_chat_app.Handler.Task as handler
use todo_chat_app.Handler.Task.{task_reply}
use todo_chat_app.Route as route
use todo_chat_app.Route.{
  Endpoint, authenticated, get_task, update_task, delete_task, guard_of, Server, serve, handler_of,
  admitted, guarded,
}
use todo_chat_app.Route.Admin.{Refuses, handle-Refuses, let_in}

task_reply_bound : (e : Error) → 400 ≤ (task_reply e).status
unfolding response.forbidden not_found bad_request internal_error
task_reply_bound e = ground arith

invalid_input_bound : (text : String) → 400 ≤ (invalid_input text).status
unfolding bad_request
invalid_input_bound text = omega arith

module _ {W : Type 0} (f : Formats) (tasks : W → List Task)
    (members : W → List WorkspaceMember) where
  -- The parameter of the path names a stored task, and the user is a member of its workspace.
  abbrev pub OnTask : Uuid → String → W → Type 0
  OnTask user param w =
      (id : Uuid) × (t : Task) × (f.parse_uuid param ≡ some id)
      × Has t (tasks w)
      × (t.id ≡ id)
      × Belongs (members w) t.workspace_id user

module _ {W : Type 0} (db : Db W) (f : Formats) (bind : Binder) (tasks : W → List Task)
    (members : W → List WorkspaceMember) (reads : ReadLaws db.tasks.reader tasks)
    (writes : CascadeLaws db.tasks tasks (λ t. t.id) (λ t. t.parent_task_id) StoresTask)
    (member_reads : ReadLaws db.members.reader members) where
  module _ (w : W) (req : Request) (user : Uuid) (signed : req.user ≡ user_id user) where
    abbrev Fair : Reply → W → Type 0
    Fair r v = OnTask f tasks members user req.param w ⊎ (400 ≤ r.status)

    get_by_id-Fair : Ends Fair (handler.get_by_id db f bind req w)
    unfolding handler.get_by_id
    get_by_id-Fair =
        Ends-signed_in _ _ _ _ (λ _ e. inr (omega arith))
          λ requester same. Ends-require _ _ _ (inr (invalid_input_bound _)) λ id parsed.
            Ends-call _ _ _ (λ e v h. inr (task_reply_bound (cause e)))
              λ t v h.
                let (has, hit, belongs, _) =
                  get_by_id-Belongs db f tasks members reads member_reads requester id w v t h in
                let one : requester ≡ user = cc in
                wrote (inl (id, t, parsed, has, hit, rw one at belongs))

    update_task-Fair : Ends Fair (handler.update_task db f bind req w)
    unfolding handler.update_task
    update_task-Fair =
        Ends-signed_in _ _ _ _ (λ _ e. inr (omega arith))
          λ requester same. Ends-require _ _ _ (inr (invalid_input_bound _)) λ id parsed.
            Ends-require _ _ _ (inr (invalid_input_bound _)) λ input _.
              Ends-call _ _ _ (λ e v h. inr (task_reply_bound (cause e)))
                λ t' v h.
                  let (t, has, hit, belongs, _, _) =
                    update_task-Belongs db f tasks members reads member_reads writes requester id
                      input w v t' h in
                  let one : requester ≡ user = cc in
                  wrote (inl (id, t, parsed, has, hit, rw one at belongs))

    delete_task-Fair : Ends Fair (handler.delete_task db f bind req w)
    unfolding handler.delete_task
    delete_task-Fair =
        Ends-signed_in _ _ _ _ (λ _ e. inr (omega arith))
          λ requester same. Ends-require _ _ _ (inr (invalid_input_bound _)) λ id parsed.
            Ends-call _ _ _ (λ e v h. inr (task_reply_bound (cause e)))
              λ _ v h.
                let ((t, has, hit, belongs), _) =
                  delete_task-Belongs db f tasks members reads member_reads writes requester id w v
                    h in
                let one : requester ≡ user = cc in
                wrote (inl (id, t, parsed, has, hit, rw one at belongs))

-- The endpoints of a single task.
abbrev pub IsOneTask : Endpoint → Type 0
IsOneTask get_task = Unit
IsOneTask update_task = Unit
IsOneTask delete_task = Unit
IsOneTask _ = ⊥

module _ {W : Type 0} (db : Db W) (srv : Server W) (tasks : W → List Task)
    (members : W → List WorkspaceMember) (reads : ReadLaws db.tasks.reader tasks)
    (writes : CascadeLaws db.tasks tasks (λ t. t.id) (λ t. t.parent_task_id) StoresTask)
    (member_reads : ReadLaws db.members.reader members) (verifies : Key → String → Bool)
    (laws : ParseLaws srv.libs verifies) where
  abbrev Touches : Uuid → String → W → Type 0
  Touches = OnTask srv.formats tasks members

  point-Fair :
      (point : Endpoint) (req : Request) (user : Uuid) (w : W)
      → IsOneTask point
      → req.user ≡ user_id user
      → Ends (λ r v. Touches user req.param w ⊎ (400 ≤ r.status)) (handler_of db srv point req w)
  point-Fair get_task req user w one signed =
      get_by_id-Fair db srv.formats srv.bind tasks members reads writes member_reads w req user
        signed
  point-Fair update_task req user w one signed =
      update_task-Fair db srv.formats srv.bind tasks members reads writes member_reads w req user
        signed
  point-Fair delete_task req user w one signed =
      delete_task-Fair db srv.formats srv.bind tasks members reads writes member_reads w req user
        signed
  point-Fair _ req user w one signed = absurd one

  answer-Fair :
      (point : Endpoint) (req : Request) (user : Uuid) (s : Process W)
      → IsOneTask point
      → req.user ≡ user_id user
      → Touches user req.param s.world ⊎ (400 ≤ ((route.answer db srv point req s).0).status)
  unfolding route.answer
  answer-Fair point req user s one signed =
      Ends-finished (handler_of db srv point req s.world)
        (point-Fair point req user s.world one signed)

  -- The token middleware passes the request on for a user, whom the token lets in, and in the state
  -- that it leaves the user is a member of the workspace of the task of the path.
  abbrev pub Entitled : Request → Process W → Type 0
  Entitled req s =
      (passed : Passed) × (v : Process W) × (handle srv.libs srv.auth db srv.host srv.formats req s
        ≡ going passed v)
      × LetIn srv.libs srv.auth db srv.host srv.formats verifies (token_text req) passed v
      × Touches (passed.0) req.param v.world

  admitted-Entitled :
      (point : Endpoint) (req : Request) (s : Process W) (t : Turn (Process W) Passed)
      → IsOneTask point
      → handle srv.libs srv.auth db srv.host srv.formats req s ≡ t
      → Refuses t
      → Entitled req s ⊎ (400 ≤ ((admitted db srv authenticated point req t).0).status)
  admitted-Entitled point req s (replied r v) one h refuses = inr refuses
  admitted-Entitled point req s (going passed v) one h refuses =
      let entered = let_in db srv members member_reads verifies laws req s passed v h in
      elim (answer-Fair point (record req { user = user_id (passed.0) }) (passed.0) v one refl) [
        | inl touches ↦ inl (passed, v, h, entered, touches)
        | inr late ↦ inr late
      ]

  guarded-Entitled :
      (point : Endpoint) (req : Request) (s : Process W)
      → IsOneTask point
      → Entitled req s ⊎ (400 ≤ ((guarded db srv (guard_of point) point req s).0).status)
  guarded-Entitled get_task req s one =
      admitted-Entitled get_task req s _ one refl
        (handle-Refuses srv.libs srv.auth db srv.host srv.formats req s)
  guarded-Entitled update_task req s one =
      admitted-Entitled update_task req s _ one refl
        (handle-Refuses srv.libs srv.auth db srv.host srv.formats req s)
  guarded-Entitled delete_task req s one =
      admitted-Entitled delete_task req s _ one refl
        (handle-Refuses srv.libs srv.auth db srv.host srv.formats req s)
  guarded-Entitled _ req s one = absurd one

  -- A request to read, change or delete one task is answered with a status from 400 on, unless the
  -- token middleware, run on it in the state served, passes it on for a user whom its token lets in,
  -- and who in the state that the middleware leaves is a member of the workspace of a stored task
  -- with the id in the path.
  pub serve-Entitled :
      (point : Endpoint) (req : Request) (s : Process W)
      → IsOneTask point
      → Entitled req s ⊎ (400 ≤ ((serve db srv point req s).0).status)
  unfolding serve
  serve-Entitled point req s one = guarded-Entitled point req s one
