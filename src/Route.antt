-- ===== src/Route.antt =====
-- internal/route/route.go: the endpoints that answer a request with one reply, and what stands before
-- each handler. The limit on the size of a body is part of what binding the body does; gin matches
-- the paths. The endpoint of the chat, `/api/v1/ws/channels/:channelID`, is `open_socket`: it does not
-- answer, but opens a session.
pub mod Admin
pub mod Failures
pub mod Tasks
use todo_chat_app.Prelude.{String, Bool, Option, List, [], ◌∷◌}
use todo_chat_app.Model.{Uuid, admin_role, member_role}
use todo_chat_app.Gorm.{Db}
use todo_chat_app.Service.Libs.{Formats, Host}
use todo_chat_app.Service.Auth.{Settings}
use todo_chat_app.Middleware.Rbac.{Verdict, next, abort, require_workspace_role, user_id}
use todo_chat_app.Middleware.Token.Keys.{Process}
use todo_chat_app.Middleware.Token.{Libraries, AuthMiddleware, Passed, handle}
use todo_chat_app.Response.{Reply, fault, plain_message}
use todo_chat_app.Handler.{Request, Handling, Turn, going, replied, run, write}
use todo_chat_app.Handler.Requests.{Binder}
use todo_chat_app.Handler.Task as tasks
use todo_chat_app.Handler.Workspace as workspaces
use todo_chat_app.Handler.Invitation as invitations
use todo_chat_app.Handler.User as users
use todo_chat_app.Handler.LocalAuth as accounts
use todo_chat_app.Handler.Health as health
use todo_chat_app.Handler.Chat as socket

pub data Endpoint : Type 0 where
  ping healthz readyz : Endpoint
  sync_auth0_user : Endpoint
  register verify_email resend_verification login refresh logout confirm_account_link : Endpoint
  get_me update_profile set_password : Endpoint
  create_task list_tasks get_task update_task delete_task : Endpoint
  list_workspaces create_workspace get_workspace update_workspace delete_workspace : Endpoint
  get_members invite resend_invitation get_list_invitations accept_invitation : Endpoint

-- The method and the path under which an endpoint is registered.
abbrev pub path_of : Endpoint → String × String
path_of ping = ("GET", "/ping")
path_of healthz = ("GET", "/healthz")
path_of readyz = ("GET", "/readyz")
path_of sync_auth0_user = ("POST", "/api/v1/webhooks/auth0/sync")
path_of register = ("POST", "/api/v1/auth/register")
path_of verify_email = ("POST", "/api/v1/auth/verify-email")
path_of resend_verification = ("POST", "/api/v1/auth/resend-verification")
path_of login = ("POST", "/api/v1/auth/login")
path_of refresh = ("POST", "/api/v1/auth/refresh")
path_of logout = ("POST", "/api/v1/auth/logout")
path_of confirm_account_link = ("POST", "/api/v1/auth/link/confirm")
path_of get_me = ("GET", "/api/v1/users/me")
path_of update_profile = ("PATCH", "/api/v1/users/me")
path_of set_password = ("POST", "/api/v1/users/me/password")
path_of create_task = ("POST", "/api/v1/tasks")
path_of list_tasks = ("GET", "/api/v1/tasks")
path_of get_task = ("GET", "/api/v1/tasks/:id")
path_of update_task = ("PATCH", "/api/v1/tasks/:id")
path_of delete_task = ("DELETE", "/api/v1/tasks/:id")
path_of list_workspaces = ("GET", "/api/v1/workspaces")
path_of create_workspace = ("POST", "/api/v1/workspaces")
path_of get_workspace = ("GET", "/api/v1/workspaces/:workspaceID")
path_of update_workspace = ("PATCH", "/api/v1/workspaces/:workspaceID")
path_of delete_workspace = ("DELETE", "/api/v1/workspaces/:workspaceID")
path_of get_members = ("GET", "/api/v1/workspaces/:workspaceID/members")
path_of invite = ("POST", "/api/v1/workspaces/:workspaceID/invitations")
path_of resend_invitation = ("POST", "/api/v1/workspaces/:workspaceID/invitations/resend")
path_of get_list_invitations = ("GET", "/api/v1/workspaces/:workspaceID/invitations")
path_of accept_invitation = ("POST", "/api/v1/invitations/accept")

-- The middleware before a handler: none, the token, or the token and the role in the workspace.
pub data Guard : Type 0 where
  public authenticated : Guard
  with_role : List String → Guard

abbrev pub allowed_roles : List String
allowed_roles = admin_role ∷ member_role ∷ []

abbrev pub admins : Guard
admins = with_role (admin_role ∷ [])

abbrev pub guard_of : Endpoint → Guard
guard_of ping = public
guard_of healthz = public
guard_of readyz = public
guard_of sync_auth0_user = public
guard_of register = public
guard_of verify_email = public
guard_of resend_verification = public
guard_of login = public
guard_of refresh = public
guard_of logout = public
guard_of confirm_account_link = public
guard_of get_me = authenticated
guard_of update_profile = authenticated
guard_of set_password = authenticated
guard_of create_task = authenticated
guard_of list_tasks = authenticated
guard_of get_task = authenticated
guard_of update_task = authenticated
guard_of delete_task = authenticated
guard_of list_workspaces = authenticated
guard_of create_workspace = authenticated
guard_of get_workspace = with_role allowed_roles
guard_of update_workspace = admins
guard_of delete_workspace = admins
guard_of get_members = with_role allowed_roles
guard_of invite = admins
guard_of resend_invitation = admins
guard_of get_list_invitations = admins
guard_of accept_invitation = authenticated

-- What the handlers hold besides the database: the libraries, and the settings of the configuration.
pub record Server (W : Type 0) : Type 0 where
  pub host : Host W
  pub formats : Formats
  pub bind : Binder
  pub libs : Libraries W
  pub settings : Settings
  pub auth : AuthMiddleware
  pub webhook_secret : String
  pub uri_scheme : String → Option String
  pub ping_db : W → Bool

module _ {W : Type 0} (db : Db W) (srv : Server W) where
  abbrev pub handler_of : Endpoint → Request → Handling W Reply
  handler_of ping req = write (record { status = 200; body = plain_message "pong" })
  handler_of healthz req = write health.healthz
  handler_of readyz req = λ w. going (health.readyz srv.ping_db w) w
  handler_of sync_auth0_user req =
      users.sync_auth0_user db srv.formats srv.bind srv.webhook_secret req
  handler_of register req = accounts.register db srv.host srv.formats srv.settings srv.bind req
  handler_of verify_email req =
      accounts.verify_email db srv.host srv.formats srv.settings srv.bind req
  handler_of resend_verification req =
      accounts.resend_verification db srv.host srv.formats srv.settings srv.bind req
  handler_of login req = accounts.login db srv.host srv.formats srv.settings srv.bind req
  handler_of refresh req = accounts.refresh db srv.host srv.formats srv.settings srv.bind req
  handler_of logout req = accounts.logout db srv.host srv.formats srv.settings srv.bind req
  handler_of confirm_account_link req =
      accounts.confirm_account_link db srv.host srv.formats srv.settings srv.bind req
  handler_of get_me req = users.get_me db srv.formats srv.bind req
  handler_of update_profile req = users.update_profile db srv.formats srv.bind srv.uri_scheme req
  handler_of set_password req =
      accounts.set_password db srv.host srv.formats srv.settings srv.bind req
  handler_of create_task req = tasks.create db srv.formats srv.bind req
  handler_of list_tasks req = tasks.list_tasks db srv.formats srv.bind req
  handler_of get_task req = tasks.get_by_id db srv.formats srv.bind req
  handler_of update_task req = tasks.update_task db srv.formats srv.bind req
  handler_of delete_task req = tasks.delete_task db srv.formats srv.bind req
  handler_of list_workspaces req = workspaces.list_by_user db srv.host srv.formats srv.bind req
  handler_of create_workspace req = workspaces.create db srv.host srv.formats srv.bind req
  handler_of get_workspace req = workspaces.get_by_id db srv.host srv.formats srv.bind req
  handler_of update_workspace req = workspaces.update db srv.host srv.formats srv.bind req
  handler_of delete_workspace req = workspaces.delete db srv.host srv.formats srv.bind req
  handler_of get_members req = workspaces.get_members db srv.host srv.formats srv.bind req
  handler_of invite req = invitations.invite db srv.host srv.formats srv.bind req
  handler_of resend_invitation req =
      invitations.resend_invitation db srv.host srv.formats srv.bind req
  handler_of get_list_invitations req =
      invitations.get_list_invitations db srv.host srv.formats srv.bind req
  handler_of accept_invitation req =
      invitations.accept_invitation db srv.host srv.formats srv.bind req

  abbrev pub replaced_world : Process W → Reply × W → Reply × Process W
  replaced_world s (r, w) = (r, record s { world = w })

  abbrev pub in_process : {A : Type 0} → Process W → Turn W A → Turn (Process W) A
  in_process s (going a w) = going a (record s { world = w })
  in_process s (replied r w) = replied r (record s { world = w })

  -- The handler of an endpoint, on the world of the process.
  unfoldable pub answer : Endpoint → Request → Process W → Reply × Process W
  answer point req s = replaced_world s (run (handler_of point req) s.world)

  abbrev pub judged : Endpoint → Request → Process W → Verdict → Reply × Process W
  judged point req s next = answer point req s
  judged point req s (abort status text) = (record { status = status; body = fault text }, s)

  -- The rest of the chain, once the middleware has put the user into the context.
  abbrev pub admitted : Guard → Endpoint → Request → Turn (Process W) Passed → Reply × Process W
  admitted (with_role roles) point req (going passed s) =
      judged point (record req { user = user_id (passed.0) }) s
        (require_workspace_role db srv.formats roles (user_id (passed.0)) req.param s.world)
  admitted _ point req (going passed s) = answer point (record req { user = user_id (passed.0) }) s
  admitted _ point req (replied r s) = (r, s)

  abbrev pub guarded : Guard → Endpoint → Request → Process W → Reply × Process W
  guarded public point req s = answer point req s
  guarded g point req s =
      admitted g point req (handle srv.libs srv.auth db srv.host srv.formats req s)

  unfoldable pub serve : Endpoint → Request → Process W → Reply × Process W
  serve point req s = guarded (guard_of point) point req s

  abbrev pub then_checked :
      List String → Request → Turn (Process W) Passed → Turn (Process W) (Uuid × Uuid)
  then_checked origins req (replied r s) = replied r s
  then_checked origins req (going passed s) =
      in_process s
        (socket.check_socket srv.formats origins (record req { user = user_id (passed.0) }) s.world)

  -- The token and the checks before a WebSocket is opened: the channel and the user of the session.
  unfoldable pub open_socket : List String → Request → Handling (Process W) (Uuid × Uuid)
  open_socket origins req s =
      then_checked origins req (handle srv.libs srv.auth db srv.host srv.formats req s)
