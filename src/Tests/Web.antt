-- ===== src/Tests/Web.antt =====
-- The theorems on tokens, routes and handlers at concrete requests: those of user 7, with `tok`.
use Prim.Native.String
use todo_chat_app.Prelude.{
  ◌≡◌, ◌≤◌, ◌<◌, ◌*◌, ◌+◌, refl, ◌⊎◌, inl, true, false, none, some, List, [], ◌∷◌, arith, str_eq,
  if◌then◌else◌, ℕ,
}
use todo_chat_app.Prelude.Int.{pos, add_int, mul_int}
use todo_chat_app.Outcome.{ok, record_not_found, fails}
use todo_chat_app.Model.{WorkspaceMember}
use todo_chat_app.Gorm.Laws.{ReadLaws}
use todo_chat_app.Gorm.Memory.{memory-ReadLaws}
use todo_chat_app.Service.Auth.{Settings, TokenPair, issue_token_pair, new_refresh_token}
use todo_chat_app.Middleware.Rbac.{absent, user_id}
use todo_chat_app.Middleware.Token.Keys.{Process, exponent_from}
use todo_chat_app.Middleware.Token.{AuthMiddleware, local_only, handle}
use todo_chat_app.Middleware.Token.RoundTrip.{issue_token_pair-handle}
use todo_chat_app.Handler.{Request, going, run}
use todo_chat_app.Handler.Task.{get_by_id, shown_size, total_pages}
use todo_chat_app.Handler.Task.Pages.{total_pages-ceiling}
use todo_chat_app.Handler.LocalAuth.{resent, resend_verification}
use todo_chat_app.Handler.LocalAuth.Silent.{resend_verification-silent}
use todo_chat_app.Repository.User.{find_by_email}
use todo_chat_app.Prelude.Text.{is_empty}
use todo_chat_app.Handler.Requests.{Binder}
use todo_chat_app.Route.{Server, get_task, delete_task, serve, answer}
use todo_chat_app.Route.Failures.{answer-tasks_err}
use todo_chat_app.Route.Tasks.{Entitled, serve-Entitled}
use todo_chat_app.Tests.Run.{running}
use todo_chat_app.Tests.World.{World, db, formats, start, task}
use todo_chat_app.Tests.Task.{tasks, task_reads, task_writes}
use todo_chat_app.Tests.Jwt.{
  token_host, token_libs, is_signed, token_libs-ParseLaws, token_libs-SignLaws, are_known,
}

abbrev settings : Settings
settings = record {
  jwt_secret = "k";
  access_expiry = pos (900 * 1000000000);
  refresh_expiry = pos 7000;
}

abbrev auth : AuthMiddleware
auth = local_only "k"

abbrev process : Process World
process = record { world = start; jwks_by_k = [] }

abbrev request : Request
request = record {
  body = "{}";
  param = "u7";
  user = absent;
  query = λ key. none;
  header = λ key. if str_eq key "Authorization" then "Bearer tok" else "";
}

abbrev pair : TokenPair
pair = record { access_token = "tok"; refresh_token = "t1" }

abbrev later : World
later = record start { serial = 2; refresh_tokens = new_refresh_token 7 "t1" 7400 ∷ [] }

issued : issue_token_pair db token_host formats settings 7 start ≡ ok pair later
unfolding running are_known
issued = refl

secret_there : is_empty "k" ≡ false
unfolding running
secret_there = refl

known_id : formats.parse_uuid (formats.show_uuid 7) ≡ some 7
unfolding running
known_id = refl

bearer : request.header "Authorization" ≡ String.◌++◌ "Bearer " "tok"
unfolding running
bearer = refl

issue_token_pair-handle_example :
    handle token_libs auth db token_host formats request process ≡ going (7, none) process
issue_token_pair-handle_example =
    issue_token_pair-handle token_libs auth db token_host formats settings token_libs-SignLaws 7
      start later pair request process issued refl secret_there (λ e. ground arith) known_id bearer
      (omega arith)

abbrev binder : Binder
binder = record {
  create_task = λ s. none;
  update_task = λ s. none;
  workspace_name = λ s. some "team";
  invitation_email = λ s. none;
  invitation_token = λ s. none;
  register = λ s. none;
  login = λ s. none;
  refresh_token = λ s. none;
  password = λ s. none;
  confirm_link = λ s. none;
  verify_token = λ s. none;
  resend_email = λ s. some "c";
  update_profile = λ s. none;
  sync_webhook = λ s. none;
}

abbrev server : Server World
server = record {
  host = token_host;
  formats = formats;
  bind = binder;
  libs = token_libs;
  settings = settings;
  auth = auth;
  webhook_secret = "";
  uri_scheme = λ s. none;
  ping_db = λ w. true;
}

abbrev members : World → List WorkspaceMember
members w = w.members

member_reads : ReadLaws db.members.reader members
member_reads = memory-ReadLaws _ _ _ _

-- A task of the workspace of user 7, with the id that the path of `request` names.
abbrev with_task : Process World
with_task = record { world = record start { tasks = task 7 20 ∷ [] }; jwks_by_k = [] }

fetched : ((serve db server get_task request with_task).0).status ≡ 200
unfolding running get_by_id
fetched = refl

serve-Entitled_example :
    Entitled db server tasks members task_reads task_writes member_reads is_signed
      token_libs-ParseLaws request with_task
    ⊎ (400 ≤ ((serve db server get_task request with_task).0).status)
serve-Entitled_example =
    serve-Entitled db server tasks members task_reads task_writes member_reads is_signed
      token_libs-ParseLaws get_task request with_task tt

-- User 7 asks for a task that is not there.
abbrev asks : Request
asks = record request { user = user_id 7 }

refused : 400 ≤ ((answer db server delete_task asks process).0).status
unfolding running
refused = omega arith

answer-tasks_err_example : tasks ((answer db server delete_task asks process).1).world ≡ tasks start
answer-tasks_err_example =
    answer-tasks_err db server tasks task_reads task_writes delete_task asks process tt refused

total_pages-ceiling_example :
    (p n : ℕ) × (shown_size (pos 0) ≡ pos n)
    × (1 ≤ n)
    × (n ≤ 100)
    × (total_pages 41 (shown_size (pos 0)) ≡ pos p)
    × (41 ≤ p * n)
    × (p * n < 41 + n)
total_pages-ceiling_example = total_pages-ceiling 41 (pos 0) (omega arith)

-- No account has the address `c`.
unknown : find_by_email db "c" start ≡ fails record_not_found
unfolding running
unknown = refl

resend_verification-silent_example :
    run (resend_verification db token_host formats settings binder request) start ≡ (resent, start)
unfolding running
resend_verification-silent_example =
    resend_verification-silent db token_host formats settings binder request "c" start refl refl
      (inl unknown)

-- An exponent of nine bytes loses the first of them.
wrapped : exponent_from (pos 0) (1 ∷ 0 ∷ 0 ∷ 0 ∷ 0 ∷ 0 ∷ 0 ∷ 0 ∷ 3 ∷ []) ≡ pos 3
unfolding exponent_from add_int mul_int
wrapped = refl
